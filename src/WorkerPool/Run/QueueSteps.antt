-- ===== src/WorkerPool/Run/QueueSteps.antt =====
-- The steps of a worker on the queue keep the invariant: a receive, an exit, a send, the decrement
-- of the count of remaining nodes, and the close.
use khaos.Prelude.{
  ℕ, ◌<◌, ◌≡◌, refl, sym, ap, ◌∙◌, List, [], ◌∷◌, ◌++◌, Bool, true, false, count, set_at, ◌==◌,
  if◌then◌else◌, arith,
}
use native.Mathlib.Decide.{dec_lt}
use khaos.Storage.{StorageEngine}
use khaos.Types.{Graph, dependents_of, decrement}
use khaos.WorkerPool.Run.{Pc, waiting, executing, sending, closing_queue, Shared}
use khaos.WorkerPool.Run.Places.{
  Place, queued, held, finished, holds, listed_at, edges_at, has_run, has_closed, has_committed,
  is_ready, is_queued, held_of,
}
use khaos.WorkerPool.Run.Holders.{stay-Holders, receive-Holders, send-Holders, finish-Holders}
use khaos.WorkerPool.Run.Flags.{stay_flag, receive_flag, finish_flag, list_flag, is_untouched}
use khaos.WorkerPool.Run.Closing.{Closing, go-Closing, finish-Closing}
use khaos.WorkerPool.Run.Invariant.{Rule, Inv, quiet-Inv}

module _ {engine : StorageEngine} {g0 : Graph} {size : ℕ} (rule : Rule engine g0 size) {workers : ℕ}
    {place : ℕ → Place} {sh : Shared engine} {pcs : ℕ → Pc} (inv : Inv rule workers place sh pcs)
    (w : ℕ) (lt : w < workers) where
  -- A worker with no node leaves the select, or closes the queue.
  module _ (p p' : Pc) (at : pcs w ≡ p) (no_node : (j : ℕ) → holds j p ≡ false)
      (no_node' : (j : ℕ) → holds j p' ≡ false) (no_list : listed_at p ≡ [])
      (no_list' : listed_at p' ≡ [])
      (flags : ((full : List ℕ) → edges_at full p' ≡ edges_at full p)
        × (has_run p' ≡ has_run p)
        × (has_closed p' ≡ has_closed p)
        × (has_committed p' ≡ has_committed p)) where
    pub leave-Inv :
        (closed' : Bool)
        → Closing workers size place (set_at w p' pcs) sh.remaining closed' sh.ctx
        → Inv rule workers place (record sh { closed = closed' }) (set_at w p' pcs)
    leave-Inv closed' closing =
        quiet-Inv rule inv place (set_at w p' pcs) sh.queue closed' sh.remaining
          (λ i.
            stay_flag (edges_at (dependents_of g0 i)) (dependents_of g0 i) [] pcs w p p' at
              (flags.0 (dependents_of g0 i)) (place i))
          (λ i. stay_flag has_run false true pcs w p p' at flags.1 (place i))
          (λ i. stay_flag has_closed false true pcs w p p' at flags.2 (place i))
          (λ i. stay_flag has_committed false true pcs w p p' at flags.3 (place i)) (λ i. refl)
          (stay-Holders inv.holders w lt p p' at (λ j. no_node' j ∙ sym (no_node j))
            (no_list' ∙ sym no_list))
          closing

  pub receive-Inv :
      (n : ℕ) (rest : List ℕ)
      → pcs w ≡ waiting
      → sh.queue ≡ n ∷ rest
      → Inv rule workers
          (set_at n (held w) place)
          (record sh { queue = rest })
          (set_at w (executing n) pcs)
  receive-Inv n rest at line =
      let in_line : is_queued (place n) ≡ true =
        ground (arith, inv.holders.line n, ap (count n) line) in
      quiet-Inv rule inv (set_at n (held w) place) (set_at w (executing n) pcs) rest sh.closed
        sh.remaining
        (λ i.
          receive_flag inv.holders w (edges_at (dependents_of g0 i)) (dependents_of g0 i) [] n at
            in_line refl i)
        (receive_flag inv.holders w has_run false true n at in_line refl)
        (receive_flag inv.holders w has_closed false true n at in_line refl)
        (receive_flag inv.holders w has_committed false true n at in_line refl)
        (λ i. ground (arith, in_line)) (receive-Holders inv.holders w lt n rest at line)
        (go-Closing inv.closing w lt waiting (executing n) (set_at n (held w) place) at refl refl
          (λ e r. cc) (λ j. ground (arith, in_line)))

  pub send-Inv :
      (n m : ℕ) (next : List ℕ)
      → pcs w ≡ sending n (m ∷ next)
      → Inv rule workers
          (set_at m queued place)
          (record sh { queue = sh.queue ++ m ∷ [] })
          (set_at w (sending n next) pcs)
  send-Inv n m next at =
      let listed : is_ready w (place m) ≡ true =
        ground (arith, inv.holders.lists w m, ap listed_at at) in
      let free : is_untouched (place m) ≡ true = ground (arith, listed) in
      quiet-Inv rule inv (set_at m queued place) (set_at w (sending n next) pcs)
        (sh.queue ++ m ∷ []) sh.closed sh.remaining
        (λ i.
          list_flag inv.holders w (edges_at (dependents_of g0 i)) (dependents_of g0 i) [] m queued
            (sending n (m ∷ next)) (sending n next) at refl free refl i)
        (list_flag inv.holders w has_run false true m queued (sending n (m ∷ next)) (sending n next)
          at refl free refl)
        (list_flag inv.holders w has_closed false true m queued (sending n (m ∷ next))
          (sending n next) at refl free refl)
        (list_flag inv.holders w has_committed false true m queued (sending n (m ∷ next))
          (sending n next) at refl free refl)
        (λ i. ground (arith, listed)) (send-Holders inv.holders w lt n m next at)
        (go-Closing inv.closing w lt (sending n (m ∷ next)) (sending n next) (set_at m queued place)
          at refl refl (λ e r. cc) (λ j. ground (arith, listed)))

  abbrev after_last : Pc
  after_last = if decrement sh.remaining == 0 then closing_queue else waiting

  pub finish-Inv :
      (n : ℕ)
      → pcs w ≡ sending n []
      → Inv rule workers
          (set_at n finished place)
          (record sh { remaining = decrement sh.remaining })
          (set_at w after_last pcs)
  finish-Inv n at =
      let mine : place n ≡ held w =
        held_of w (place n) (ground (arith, inv.holders.hands w n, ap (holds n) at)) in
      let below : n < size = elim (dec_lt n size) [
        | yes inside ↦ inside
        | no out ↦ let f = inv.holders.outside n (omega arith) in absurd (ground arith)
      ] in
      quiet-Inv rule inv (set_at n finished place) (set_at w after_last pcs) sh.queue sh.closed
        (decrement sh.remaining)
        (λ i.
          finish_flag inv.holders w (edges_at (dependents_of g0 i)) (dependents_of g0 i) [] n
            after_last at refl i)
        (finish_flag inv.holders w has_run false true n after_last at refl)
        (finish_flag inv.holders w has_closed false true n after_last at refl)
        (finish_flag inv.holders w has_committed false true n after_last at refl)
        (λ i. ground (arith, mine))
        (finish-Holders inv.holders w lt n after_last at (no_list (decrement sh.remaining == 0))
          (λ j. no_node j (decrement sh.remaining == 0)))
        (finish-Closing inv.closing w lt n [] after_last below at mine refl)
    where
      no_list : (b : Bool) → listed_at (if b then closing_queue else waiting) ≡ []
      no_list true = refl
      no_list false = refl

      no_node : (j : ℕ) (b : Bool) → holds j (if b then closing_queue else waiting) ≡ false
      no_node j true = refl
      no_node j false = refl
