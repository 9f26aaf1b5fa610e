-- ===== src/WorkerPool/Run/Progress.antt =====
-- Until every worker has left, some worker can take a step.
use khaos.Prelude.{
  ℕ, zero, suc, ◌<◌, ◌≡◌, ◌⊎◌, refl, ap, ◌∙◌, List, [], ◌∷◌, Bool, true, false, not, ◌&&◌, length,
  count, to_nat, sum_below-eq-zero, first_below, if◌then◌else◌, arith, Bool-cases, inl, inr,
}
use native.Mathlib.Decide.{dec_lt}
use khaos.Storage.{StorageEngine}
use khaos.Types.{Graph, dependents_of}
use khaos.WorkerPool.Run.{
  Pc, waiting, executing, releasing, committing, sending, closing_queue, exited, Shared, Choice,
  moved, blocked, advance, select, receive,
}
use khaos.WorkerPool.Run.Places.{
  Place, waits, ready, queued, held, finished, holds, listed_at, edges_left, is_waits, is_queued,
  unfinished,
}
use khaos.WorkerPool.Run.Closing.{is_closing, is_exited, open_nodes}
use khaos.WorkerPool.Run.Balance.{load}
use khaos.WorkerPool.Run.Invariant.{Rule, Inv}
use khaos.WorkerPool.Run.Mobile.{is_moved, is_waiting, mobile}

module _ {engine : StorageEngine} {g0 : Graph} {size : ℕ} (whole : length g0 ≡ size)
    (rule : Rule engine g0 size) {workers : ℕ} {place : ℕ → Place} {sh : Shared engine}
    {pcs : ℕ → Pc} (inv : Inv rule workers place sh pcs) where
  -- No worker has a node in its hands.
  abbrev pub AllIdle : Type 0
  AllIdle = (w : ℕ) → w < workers → (is_waiting (pcs w) ≡ true) ⊎ (is_exited (pcs w) ≡ true)

  module _ (idle : AllIdle) where
    empty_hands : (w j : ℕ) → holds j (pcs w) ≡ false
    empty_hands w j = elim (dec_lt w workers) [
      | no beyond ↦ ap (holds j) (inv.holders.idle w (omega arith))
      | yes lt ↦ elim (idle w lt) [
        | inl a ↦ waiting_holds (pcs w) a
        | inr b ↦ exited_holds (pcs w) b
      ]
    ]
      where
        waiting_holds : (p : Pc) → is_waiting p ≡ true → holds j p ≡ false
        waiting_holds p a = ground arith

        exited_holds : (p : Pc) → is_exited p ≡ true → holds j p ≡ false
        exited_holds p b = ground arith

    empty_lists : (w : ℕ) → listed_at (pcs w) ≡ []
    empty_lists w = elim (dec_lt w workers) [
      | no beyond ↦ ap listed_at (inv.holders.idle w (omega arith))
      | yes lt ↦ elim (idle w lt) [ inl a ↦ waiting_list (pcs w) a | inr b ↦ exited_list (pcs w) b ]
    ]
      where
        waiting_list : (p : Pc) → is_waiting p ≡ true → listed_at p ≡ []
        waiting_list p a = ground arith

        exited_list : (p : Pc) → is_exited p ≡ true → listed_at p ≡ []
        exited_list p b = ground arith

    no_closer : (w : ℕ) → w < workers → is_closing (pcs w) ≡ false
    no_closer w lt = elim (idle w lt) [ inl a ↦ ground arith | inr b ↦ ground arith ]

    module _ (empty : sh.queue ≡ [])
        (forward : (i j : ℕ) → 0 < count j (dependents_of g0 i) → i < j) where
      -- What is in no hands, no list and not in the queue waits or is finished.
      settled : (j : ℕ) → is_waits (place j) ≡ false → unfinished (place j) ≡ false
      settled j calm = elim (Bool-cases (is_queued (place j))) [
        | inl q ↦ absurd (ground (arith, inv.holders.line j, ap (count j) empty))
        | inr q ↦ at_place (place j) refl calm q
      ]
        where
          at_place :
              (p : Place)
              → place j ≡ p
              → is_waits p ≡ false
              → is_queued p ≡ false
              → unfinished p ≡ false
          at_place waits e a b = cc
          at_place (ready v) e a b =
              absurd (ground (arith, inv.holders.lists v j, ap (count j) (empty_lists v), e))
          at_place queued e a b = cc
          at_place (held v) e a b =
              absurd (ground (arith, inv.holders.hands v j, empty_hands v j, e))
          at_place finished e a b = refl

      no_edges_left :
          (p : Place) (full : List ℕ) → unfinished p ≡ false → edges_left full pcs p ≡ []
      no_edges_left waits full e = cc
      no_edges_left (ready v) full e = cc
      no_edges_left queued full e = cc
      no_edges_left (held v) full e = cc
      no_edges_left finished full e = refl

      untouched_full :
          (p : Place) (full : List ℕ) → is_waits p ≡ true → edges_left full pcs p ≡ full
      untouched_full waits full e = refl
      untouched_full (ready v) full e = cc
      untouched_full queued full e = cc
      untouched_full (held v) full e = cc
      untouched_full finished full e = cc

      no_edge :
          (j : ℕ)
          → ((i : ℕ) → i < j → unfinished (place i) ≡ false)
          → (i : ℕ) → count j (edges_left (dependents_of g0 i) pcs (place i)) ≡ 0
      no_edge j before i = elim (Bool-cases (is_waits (place i))) [
        | inr calm ↦ ap (count j) (no_edges_left (place i) (dependents_of g0 i) (settled i calm))
        | inl wait ↦
            ap (count j) (untouched_full (place i) (dependents_of g0 i) wait)
            ∙ elim (dec_lt 0 (count j (dependents_of g0 i))) [
              | no none_there ↦ omega arith
              | yes there ↦ let gone = before i (forward i j there) in absurd (ground arith)
            ]
      ]

      all_finished : (k j : ℕ) → j < k → unfinished (place j) ≡ false
      all_finished zero j lt = absurd (omega arith)
      all_finished (suc k) j lt = elim (Bool-cases (is_waits (place j))) [
        | inr calm ↦ settled j calm
        | inl wait ↦
            let no_load : load size (dependents_of g0) place pcs j ≡ 0 =
              sum_below-eq-zero size (λ i. count j (edges_left (dependents_of g0 i) pcs (place i)))
                (λ i below. no_edge j (λ a less. all_finished k a (omega arith)) i) in
            absurd (ground (arith, inv.balanced.blocked j, no_load))
      ]

      -- Then the queue is closed.
      closed_at_end : sh.closed ≡ true
      closed_at_end = elim (Bool-cases sh.closed) [
        | inl shut ↦ shut
        | inr open_still ↦
            let none_left : open_nodes size place ≡ 0 =
              sum_below-eq-zero size (λ j. to_nat (unfinished (place j)))
                (λ j below. ap to_nat (all_finished (suc j) j (omega arith))) in
            let (w, lt, closing) =
              inv.closing.pending (inv.closing.counted ∙ none_left) open_still in
            let other = no_closer w lt in absurd (ground arith)
      ]

  abbrev staying : Choice
  staying = record { leave = false; sends = λ n. true }

  -- A worker at the select can go on, if no worker has a node.
  module _ (idle : AllIdle) (forward : (i j : ℕ) → 0 < count j (dependents_of g0 i) → i < j) where
    receive_moves : (queue : List ℕ) → sh.queue ≡ queue → is_moved (receive engine queue sh) ≡ true
    unfolding receive
    receive_moves (n ∷ rest) at = refl
    receive_moves [] at = closes sh.closed (closed_at_end idle at forward)
      where
        closes : (c : Bool) → c ≡ true → is_moved (if c then moved sh exited else blocked) ≡ true
        closes true e = refl
        closes false e = cc

  -- All workers have left, or one of them can move.
  pub progress :
      ((i j : ℕ) → 0 < count j (dependents_of g0 i) → i < j)
      → ((w : ℕ) → w < workers → is_exited (pcs w) ≡ true)
        ⊎ ((w : ℕ) × (w < workers)
            × (choice : Choice) × (is_moved (advance engine size choice sh (pcs w)) ≡ true))
  unfolding advance select
  progress forward =
      elim (first_below (λ w. not (is_waiting (pcs w)) && not (is_exited (pcs w))) workers) [
        | inl (w, lt, busy) ↦ inr (
          w,
          lt,
          staying,
          mobile whole rule inv w lt staying (pcs w) refl (ground arith) (ground arith),
        )
        | inr none_busy ↦
            let idle : AllIdle = λ w lt. neither (pcs w) (none_busy w lt) in
            elim (first_below (λ w. is_waiting (pcs w)) workers) [
              | inr none_waits ↦ inl (λ w lt. gone (pcs w) (idle w lt) (none_waits w lt))
              | inl (w, lt, waits_w) ↦ inr (w, lt, staying, at_select idle (pcs w) waits_w)
            ]
      ]
    where
      neither :
          (p : Pc)
          → (not (is_waiting p) && not (is_exited p)) ≡ false
          → (is_waiting p ≡ true) ⊎ (is_exited p ≡ true)
      neither waiting e = inl refl
      neither (executing n) e = cc
      neither (releasing n deps newly) e = cc
      neither (committing n newly) e = cc
      neither (sending n rest) e = cc
      neither closing_queue e = cc
      neither exited e = inr refl

      gone :
          (p : Pc)
          → (is_waiting p ≡ true) ⊎ (is_exited p ≡ true)
          → is_waiting p ≡ false
          → is_exited p ≡ true
      gone p (inl a) b = cc
      gone p (inr a) b = a

      at_select :
          AllIdle
          → (p : Pc) → is_waiting p ≡ true
          → is_moved (advance engine size staying sh p) ≡ true
      at_select idle waiting e = receive_moves idle forward sh.queue refl
      at_select idle (executing n) e = cc
      at_select idle (releasing n deps newly) e = cc
      at_select idle (committing n newly) e = cc
      at_select idle (sending n rest) e = cc
      at_select idle closing_queue e = cc
      at_select idle exited e = cc
