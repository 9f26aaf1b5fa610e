-- ===== src/WorkerPool/Run/Flags.antt =====
-- What has been done with each node: how the steps of a worker change it.
use khaos.Prelude.{
  ℕ, ◌≡◌, refl, sym, ap, ◌∙◌, List, [], Bool, true, false, set_at, ◌==◌, if◌then◌else◌, arith,
}
use native.Mathlib.Decide.{ℕ_discrete}
use khaos.WorkerPool.Run.{Pc, waiting, executing, sending}
use khaos.WorkerPool.Run.Places.{
  Place, waits, ready, queued, held, finished, holds, in_place, is_held, is_queued, held_of,
  Holders,
}

module _ {ℓ} {A : Type ℓ} (f : Pc → A) (before after : A) (pcs : ℕ → Pc) (w : ℕ) (p p' : Pc)
    (at : pcs w ≡ p) where
  -- The flag does not depend on where the worker goes.
  pub stay_flag :
      f p' ≡ f p
      → (q : Place) → in_place f before after (set_at w p' pcs) q ≡ in_place f before after pcs q
  stay_flag e waits = refl
  stay_flag e (ready v) = refl
  stay_flag e queued = refl
  stay_flag e (held v) = elim (ℕ_discrete w v) [
    | yes same ↦
        let self : (w == v) ≡ true = ground arith in rw self (e ∙ ap f (sym at ∙ ap pcs same))
    | no other ↦ let diff : (w == v) ≡ false = ground arith in rw diff refl
  ]
  stay_flag e finished = refl

  -- The flag changes for the node in the worker's hands.
  moved_flag :
      (q : Place)
      → in_place f before after (set_at w p' pcs) q
        ≡ (if is_held w q then f p' else in_place f before after pcs q)
  moved_flag waits = refl
  moved_flag (ready v) = refl
  moved_flag queued = refl
  moved_flag (held v) = elim (ℕ_discrete v w) [
    | yes same ↦
        let self : (v == w) ≡ true = ground arith in
        let self' : (w == v) ≡ true = ground arith in rw (self, self') refl
    | no other ↦
        let diff : (v == w) ≡ false = ground arith in
        let diff' : (w == v) ≡ false = ground arith in rw (diff, diff') refl
  ]
  moved_flag finished = refl

-- A node that no worker holds, and that is not finished.
abbrev pub is_untouched : Place → Bool
is_untouched waits = true
is_untouched (ready v) = true
is_untouched queued = true
is_untouched (held v) = false
is_untouched finished = false

untouched_flag {ℓ} :
    {A : Type ℓ} (f : Pc → A) (before after : A) (pcs : ℕ → Pc) (q : Place)
    → is_untouched q ≡ true
    → in_place f before after pcs q ≡ before
untouched_flag f before after pcs waits e = refl
untouched_flag f before after pcs (ready v) e = refl
untouched_flag f before after pcs queued e = refl
untouched_flag f before after pcs (held v) e = cc
untouched_flag f before after pcs finished e = cc

-- The steps of worker w that change no flag.
module _ {workers size : ℕ} {place : ℕ → Place} {pcs : ℕ → Pc} {queue : List ℕ}
    (h : Holders workers size place pcs queue) (w : ℕ) where
  pub not_in_hand : (p : Pc) → pcs w ≡ p → (i : ℕ) → holds i p ≡ false → is_held w (place i) ≡ false
  not_in_hand p at i e = sym (h.hands w i) ∙ ap (holds i) at ∙ e

  module _ {ℓ} {A : Type ℓ} (f : Pc → A) (before after : A) where
    pub receive_flag :
        (n : ℕ)
        → pcs w ≡ waiting
        → is_queued (place n) ≡ true
        → f (executing n) ≡ before
        → (i : ℕ)
        → in_place f before after (set_at w (executing n) pcs) (set_at n (held w) place i)
          ≡ in_place f before after pcs (place i)
    receive_flag n at line e i = elim (ℕ_discrete n i) [
      | yes same ↦
          let self : (n == i) ≡ true = ground arith in
          let me : (w == w) ≡ true = ground arith in
          let free : is_untouched (place i) ≡ true = ground (arith, ap place same) in
          rw self (rw me (e ∙ sym (untouched_flag f before after pcs (place i) free)))
      | no other ↦
          let diff : (n == i) ≡ false = ground arith in
          rw diff (
            moved_flag f before after pcs w waiting (executing n) at (place i)
            ∙ rw (not_in_hand waiting at i refl) refl)
    ]

    pub finish_flag :
        (n : ℕ) (p' : Pc)
        → pcs w ≡ sending n []
        → f (sending n []) ≡ after
        → (i : ℕ)
        → in_place f before after (set_at w p' pcs) (set_at n finished place i)
          ≡ in_place f before after pcs (place i)
    finish_flag n p' at e i = elim (ℕ_discrete n i) [
      | yes same ↦
          let self : (n == i) ≡ true = ground arith in
          let mine : place i ≡ held w =
            held_of w (place i) (sym (h.hands w i) ∙ ap (holds i) at ∙ self) in
          rw (self, mine) (sym e ∙ ap f (sym at))
      | no other ↦
          let diff : (n == i) ≡ false = ground arith in
          rw diff (
            moved_flag f before after pcs w (sending n []) p' at (place i)
            ∙ rw (not_in_hand (sending n []) at i diff) refl)
    ]

    pub list_flag :
        (m : ℕ) (x : Place) (p p' : Pc)
        → pcs w ≡ p
        → f p' ≡ f p
        → is_untouched (place m) ≡ true
        → is_untouched x ≡ true
        → (i : ℕ)
        → in_place f before after (set_at w p' pcs) (set_at m x place i)
          ≡ in_place f before after pcs (place i)
    list_flag m x p p' at e was is i = elim (ℕ_discrete m i) [
      | yes same ↦
          let self : (m == i) ≡ true = ground arith in
          let free : is_untouched (place i) ≡ true = ground (arith, ap place same) in
          rw self (
            untouched_flag f before after (set_at w p' pcs) x is
            ∙ sym (untouched_flag f before after pcs (place i) free))
      | no other ↦
          let diff : (m == i) ≡ false = ground arith in
          rw diff (stay_flag f before after pcs w p p' at e (place i))
    ]

    -- The flag of the node in hand changes.
    pub step_flag :
        (p p' : Pc)
        → pcs w ≡ p
        → (i : ℕ)
        → in_place f before after (set_at w p' pcs) (place i)
          ≡ (if holds i p then f p' else in_place f before after pcs (place i))
    step_flag p p' at i =
        moved_flag f before after pcs w p p' at (place i)
        ∙ ap (λ b. if b then f p' else in_place f before after pcs (place i))
            (sym (h.hands w i) ∙ ap (holds i) at)
