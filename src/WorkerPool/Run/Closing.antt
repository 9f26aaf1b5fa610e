-- ===== src/WorkerPool/Run/Closing.antt =====
-- The count of nodes that are not finished, and the close of the queue by the worker that takes it
-- to zero.
use khaos.Prelude.{
  ℕ, ◌+◌, ◌^◌, ◌<◌, ◌≡◌, refl, sym, ap, ◌∙◌, List, none, some, Bool, true, false, to_nat, set_at,
  sum_below, sum_below-congr, sum_below-drop, ◌==◌, if◌then◌else◌, arith, Bool-cases, inl, inr,
}
use native.Mathlib.Decide.{ℕ_discrete}
use khaos.Values.{Error}
use khaos.Storage.{Context}
use khaos.Types.{decrement}
use khaos.WorkerPool.Run.{Pc, waiting, sending, closing_queue, exited}
use khaos.WorkerPool.Run.Places.{Place, held, finished, unfinished}

abbrev pub is_closing : Pc → Bool
is_closing closing_queue = true
is_closing _ = false

abbrev pub is_exited : Pc → Bool
is_exited exited = true
is_exited _ = false

abbrev pub open_nodes : ℕ → (ℕ → Place) → ℕ
open_nodes size place = sum_below size (λ j. to_nat (unfinished (place j)))

pub record Closing (workers size : ℕ) (place : ℕ → Place) (pcs : ℕ → Pc) (remaining : ℕ)
    (closed : Bool) (ctx : Context) : Type 0 where
  pub counted : remaining ≡ open_nodes size place
  pub small : remaining < 2 ^ 64
  pub shut_empty : closed ≡ true → remaining ≡ 0
  pub closer : (w : ℕ) → is_closing (pcs w) ≡ true → (remaining ≡ 0) × (closed ≡ false)
  pub alone : (v w : ℕ) → is_closing (pcs v) ≡ true → is_closing (pcs w) ≡ true → v ≡ w
  pub pending :
      remaining ≡ 0 → closed ≡ false → (w : ℕ) × (w < workers) × (is_closing (pcs w) ≡ true)
  pub leavers : (w : ℕ) → is_exited (pcs w) ≡ true → ctx ≡ none → closed ≡ true

module _ {workers size : ℕ} {place : ℕ → Place} {pcs : ℕ → Pc} {remaining : ℕ} {closed : Bool}
    {ctx : Context} (c : Closing workers size place pcs remaining closed ctx) where
  -- The context ends.
  pub cancel-Closing : (e : Error) → Closing workers size place pcs remaining closed (some e)
  cancel-Closing e = record {
    counted = c.counted;
    small = c.small;
    shut_empty = c.shut_empty;
    closer = c.closer;
    alone = c.alone;
    pending = c.pending;
    leavers = λ w gone ended. cc;
  }

  module _ (w : ℕ) (lt : w < workers) where
    -- A worker goes on, and finishes no node.
    pub go-Closing :
        (p p' : Pc) (place' : ℕ → Place)
        → pcs w ≡ p
        → is_closing p ≡ false
        → is_closing p' ≡ false
        → (is_exited p' ≡ true → ctx ≡ none → closed ≡ true)
        → ((j : ℕ) → unfinished (place' j) ≡ unfinished (place j))
        → Closing workers size place' (set_at w p' pcs) remaining closed ctx
    go-Closing p p' place' at was is leaves same = record {
      counted = c.counted ∙ sum_below-congr size _ _ (λ j. ap to_nat (sym (same j)));
      small = c.small;
      shut_empty = c.shut_empty;
      closer = λ v e. ground (arith, c.closer v);
      alone = λ u v a b. ground (arith, c.alone u v);
      pending = λ e open_still.
          let (v, below, closing) = c.pending e open_still in
          let other : (w == v) ≡ false = elim (ℕ_discrete w v) [
            | yes same_worker ↦
                let e' : is_closing p ≡ true =
                  ap is_closing (sym at ∙ ap pcs same_worker) ∙ closing in
                absurd (ground arith)
            | no different ↦ ground arith
          ] in
          (v, below, rw other closing);
      leavers = λ v gone running. ground (arith, c.leavers v, leaves);
    }

    -- close(workCh)
    pub close-Closing :
        pcs w ≡ closing_queue → Closing workers size place (set_at w waiting pcs) remaining true ctx
    close-Closing at =
        let mine : is_closing (pcs w) ≡ true = ap is_closing at in
        record {
          counted = c.counted;
          small = c.small;
          shut_empty = λ e. (c.closer w mine).0;
          closer = λ v e. ground (arith, c.alone v w);
          alone = λ u v a b. ground (arith, c.alone u v);
          pending = λ e open_still. cc;
          leavers = λ v gone running. refl;
        }

    -- A node is finished.
    pub finish-Closing :
        (n : ℕ) (next : List ℕ) (p' : Pc)
        → n < size
        → pcs w ≡ sending n next
        → place n ≡ held w
        → p' ≡ (if decrement remaining == 0 then closing_queue else waiting)
        → Closing workers size
            (set_at n finished place)
            (set_at w p' pcs)
            (decrement remaining)
            closed
            ctx
    finish-Closing n next p' below at mine e =
        let was_open : unfinished (place n) ≡ true = ap unfinished mine in
        let fewer : open_nodes size place ≡ open_nodes size (set_at n finished place) + 1 =
          sum_below-drop size n 1 _ _ below (ground arith) (λ i other. rw other refl) in
        let some_left : 0 < remaining = omega (arith, c.counted, fewer) in
        let running : closed ≡ false = elim (Bool-cases closed) [
          | inl shut ↦ absurd (omega (arith, c.shut_empty shut))
          | inr still ↦ still
        ] in
        let no_closer : (v : ℕ) → is_closing (pcs v) ≡ false = λ v.
          elim (Bool-cases (is_closing (pcs v))) [
            | inl k ↦ absurd (omega (arith, (c.closer v k).0))
            | inr k ↦ k
          ] in
        let closes : is_closing p' ≡ (decrement remaining == 0) =
          rw e (last (decrement remaining == 0)) in
        let stays : is_exited p' ≡ false = rw e (never (decrement remaining == 0)) in
        record {
          counted = omega (arith, c.counted, fewer, c.small);
          small = omega (arith, c.counted, fewer, c.small);
          shut_empty = λ s. cc;
          closer = λ v k. (ground (arith, no_closer v), running);
          alone = λ u v a b. ground (arith, no_closer u, no_closer v);
          pending = λ z open_still. (w, lt, ground arith);
          leavers = λ v gone going. ground (arith, c.leavers v);
        }
      where
        last : (b : Bool) → is_closing (if b then closing_queue else waiting) ≡ b
        last true = refl
        last false = refl

        never : (b : Bool) → is_exited (if b then closing_queue else waiting) ≡ false
        never true = refl
        never false = refl
