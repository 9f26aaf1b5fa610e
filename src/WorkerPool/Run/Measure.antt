-- ===== src/WorkerPool/Run/Measure.antt =====
-- What is left to do falls with every step, and which nodes have been executed changes with
-- executeNode alone.
use khaos.Prelude.{
  ℕ, suc, ◌+◌, ◌≤◌, ◌<◌, ◌≡◌, ◌≢◌, ◌-◌, refl, sym, ap, ◌∙◌, List, [], ◌∷◌, ◌++◌, Bool, true, false,
  ◌||◌, length, count, set_at, sum_below, sum_below-drop, ◌==◌, if◌then◌else◌, arith,
}
use native.Mathlib.Decide.{dec_lt}
use khaos.WorkerPool.Run.{
  Pc, waiting, executing, releasing, committing, sending, closing_queue, exited,
}
use khaos.WorkerPool.Run.Places.{
  Place, waits, ready, queued, held, finished, holds, listed_at, has_run, ran, is_waits, waits_of,
  is_ready, is_queued, held_of, Holders,
}
use khaos.WorkerPool.Run.Flags.{
  stay_flag, receive_flag, finish_flag, list_flag, step_flag, is_untouched,
}

-- Steps still to come for a node with `edges` dependents before a worker has it.
abbrev pub place_weight : ℕ → Place → ℕ
place_weight edges waits = edges + 8
place_weight edges (ready w) = edges + 7
place_weight edges queued = edges + 6
place_weight edges (held w) = 0
place_weight edges finished = 0

-- Steps still to come for a worker with what it has.
abbrev pub pc_weight : (ℕ → List ℕ) → Pc → ℕ
pc_weight deps exited = 0
pc_weight deps waiting = 1
pc_weight deps closing_queue = 2
pc_weight deps (sending n next) = 3
pc_weight deps (committing n newly) = 4
pc_weight deps (releasing n rest newly) = length rest + 5
pc_weight deps (executing n) = length (deps n) + 6

abbrev pub measure : ℕ → ℕ → (ℕ → List ℕ) → (ℕ → Place) → (ℕ → Pc) → ℕ
measure workers size deps place pcs =
    sum_below size (λ j. place_weight (length (deps j)) (place j))
    + sum_below workers (λ w. pc_weight deps (pcs w))

-- The node that a step executes.
abbrev pub executes_at : Pc → ℕ → Bool
executes_at (executing n) i = n == i
executes_at _ i = false

pub record Moves (workers size : ℕ) (deps : ℕ → List ℕ) (place place' : ℕ → Place)
    (pcs pcs' : ℕ → Pc) (p : Pc) : Type 0 where
  pub less : measure workers size deps place' pcs' < measure workers size deps place pcs
  pub rans : (i : ℕ) → ran pcs' (place' i) ≡ (executes_at p i || ran pcs (place i))

module _ {workers size : ℕ} (deps : ℕ → List ℕ) {place : ℕ → Place} {pcs : ℕ → Pc} {queue : List ℕ}
    (h : Holders workers size place pcs queue) (w : ℕ) (lt : w < workers) where
  abbrev weights : (ℕ → Pc) → ℕ
  weights ps = sum_below workers (λ v. pc_weight deps (ps v))

  abbrev places : (ℕ → Place) → ℕ
  places pl = sum_below size (λ j. place_weight (length (deps j)) (pl j))

  pc_falls :
      (p p' : Pc) (b : ℕ)
      → pcs w ≡ p
      → pc_weight deps p ≡ pc_weight deps p' + b
      → weights pcs ≡ weights (set_at w p' pcs) + b
  pc_falls p p' b at e =
      let self : (w == w) ≡ true = ground arith in
      sum_below-drop workers w b _ _ lt (rw (self, at) e) (λ i other. rw other refl)

  pc_rises :
      (p p' : Pc) (b : ℕ)
      → pcs w ≡ p
      → pc_weight deps p' ≡ pc_weight deps p + b
      → weights (set_at w p' pcs) ≡ weights pcs + b
  pc_rises p p' b at e =
      let self : (w == w) ≡ true = ground arith in
      sum_below-drop workers w b _ _ lt (rw (self, at) e) (λ i other. rw other refl)

  place_falls :
      (n : ℕ) (q q' : Place) (b : ℕ)
      → n < size
      → place n ≡ q
      → place_weight (length (deps n)) q ≡ place_weight (length (deps n)) q' + b
      → places place ≡ places (set_at n q' place) + b
  place_falls n q q' b below was e =
      let self : (n == n) ≡ true = ground arith in
      sum_below-drop size n b _ _ below (rw (self, was) e) (λ i other. rw other refl)

  -- A worker goes on and no node changes its place.
  pub stay-Moves :
      (p p' : Pc) (b : ℕ)
      → pcs w ≡ p
      → pc_weight deps p ≡ pc_weight deps p' + suc b
      → ((i : ℕ) → executes_at p i ≡ false)
      → has_run p' ≡ has_run p
      → Moves workers size deps place place pcs (set_at w p' pcs) p
  stay-Moves p p' b at e none_run same = record {
    less = omega (arith, pc_falls p p' (suc b) at e);
    rans = λ i. stay_flag has_run false true pcs w p p' at same (place i) ∙ rw (none_run i) refl;
  }

  pub execute-Moves :
      (n : ℕ) (rest : List ℕ)
      → pcs w ≡ executing n
      → length rest ≡ length (deps n)
      → Moves workers size deps place place pcs (set_at w (releasing n rest []) pcs) (executing n)
  execute-Moves n rest at e = record {
    less = omega (arith, pc_falls (executing n) (releasing n rest []) 1 at (omega (arith, e)));
    rans = λ i.
        step_flag h w has_run false true (executing n) (releasing n rest []) at i
        ∙ either (n == i) (ran pcs (place i));
  }
    where
      either : (a b : Bool) → (if a then true else b) ≡ (a || b)
      either true b = refl
      either false b = refl

  inside : (n : ℕ) → place n ≢ finished → n < size
  inside n busy = elim (dec_lt n size) [
    | yes below ↦ below
    | no out ↦ absurd (busy (h.outside n (omega arith)))
  ]

  pub receive-Moves :
      (n : ℕ) (rest : List ℕ)
      → pcs w ≡ waiting
      → queue ≡ n ∷ rest
      → Moves workers size deps place
          (set_at n (held w) place)
          pcs
          (set_at w (executing n) pcs)
          waiting
  receive-Moves n rest at line =
      let in_line : is_queued (place n) ≡ true = ground (arith, h.line n, ap (count n) line) in
      let was = queued_of (place n) in_line in
      record {
        less = omega (
          arith,
          pc_rises waiting (executing n) (length (deps n) + 5) at (omega arith),
          place_falls n queued (held w) (length (deps n) + 6)
              (inside n (λ e. let clash = sym was ∙ e in cc)) was (omega arith),
        );
        rans = receive_flag h w has_run false true n at in_line refl;
      }
    where
      queued_of : (q : Place) → is_queued q ≡ true → q ≡ queued
      queued_of waits e = cc
      queued_of (ready v) e = cc
      queued_of queued e = refl
      queued_of (held v) e = cc
      queued_of finished e = cc

  pub ready-Moves :
      (n d : ℕ) (rest newly : List ℕ)
      → pcs w ≡ releasing n (d ∷ rest) newly
      → is_waits (place d) ≡ true
      → Moves workers size deps place
          (set_at d (ready w) place)
          pcs
          (set_at w (releasing n rest (newly ++ d ∷ [])) pcs)
          (releasing n (d ∷ rest) newly)
  ready-Moves n d rest newly at wait =
      let was = waits_of (place d) wait in
      record {
        less = omega (
          arith,
          pc_falls (releasing n (d ∷ rest) newly) (releasing n rest (newly ++ d ∷ [])) 1 at
              (omega arith),
          place_falls d waits (ready w) 1 (inside d (λ e. let clash = sym was ∙ e in cc)) was
              (omega arith),
        );
        rans =
            list_flag h w has_run false true d (ready w) (releasing n (d ∷ rest) newly)
              (releasing n rest (newly ++ d ∷ [])) at refl (ap is_untouched was) refl;
      }

  pub send-Moves :
      (n m : ℕ) (rest : List ℕ)
      → pcs w ≡ sending n (m ∷ rest)
      → Moves workers size deps place
          (set_at m queued place)
          pcs
          (set_at w (sending n rest) pcs)
          (sending n (m ∷ rest))
  send-Moves n m rest at =
      let listed : is_ready w (place m) ≡ true = ground (arith, h.lists w m, ap listed_at at) in
      let was = ready_of (place m) listed in
      record {
        less = omega (
          arith,
          pc_falls (sending n (m ∷ rest)) (sending n rest) 0 at (omega arith),
          place_falls m (ready w) queued 1 (inside m (λ e. let clash = sym was ∙ e in cc)) was
              (omega arith),
        );
        rans =
            list_flag h w has_run false true m queued (sending n (m ∷ rest)) (sending n rest) at
              refl (ap is_untouched was) refl;
      }
    where
      ready_of : (q : Place) → is_ready w q ≡ true → q ≡ ready w
      ready_of waits e = cc
      ready_of (ready v) e = let same : v ≡ w = ground arith in ap ready same
      ready_of queued e = cc
      ready_of (held v) e = cc
      ready_of finished e = cc

  pub finish-Moves :
      (n : ℕ) (p' : Pc)
      → pcs w ≡ sending n []
      → pc_weight deps p' ≤ 2
      → Moves workers size deps place (set_at n finished place) pcs (set_at w p' pcs) (sending n [])
  finish-Moves n p' at light =
      let was = held_of w (place n) (ground (arith, h.hands w n, ap (holds n) at)) in
      record {
        less = omega (
          arith,
          pc_falls (sending n []) p' (3 - pc_weight deps p') at (omega arith),
          place_falls n (held w) finished 0 (inside n (λ e. let clash = sym was ∙ e in cc)) was
              (omega arith),
        );
        rans = finish_flag h w has_run false true n p' at refl;
      }
