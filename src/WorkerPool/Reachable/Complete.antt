-- ===== src/WorkerPool/Reachable/Complete.antt =====
-- reachableNodes finds every node of a graph that Build returns, once.
use khaos.Prelude.{
  first_below, sum_below-ltb, ℕ, zero, suc, ◌^◌, ◌<◌, ◌≡◌, ◌⊎◌, ◌∙◌, List, [], Bool, true, length,
  count, to_nat, ltb, All-of-count, sum_below-congr, length-eq-sum_below, arith, Bool-cases, inl,
  inr,
}
use native.Mathlib.Decide.{dec_lt}
use khaos.Result.{ok}
use khaos.Types.{Operation, Graph, dependents_of}
use khaos.Hazard.{build}
use khaos.Hazard.History.{edge, edge_bounds}
use khaos.Hazard.Invariant.{pass}
use khaos.Hazard.Spec.{edge_iff-Hazard}
use khaos.Hazard.Correct.{build-Built, Built-nodes}
use khaos.Hazard.Outcome.{build-runnable}
use khaos.WorkerPool.Reachable.{reachable_nodes}
use khaos.WorkerPool.Reachable.Rounds.{Found, start-Found, reach_loop-Found}

length-eq-size :
    (xs : List ℕ) (size : ℕ) → ((n : ℕ) → count n xs ≡ to_nat (ltb n size)) → length xs ≡ size
length-eq-size xs size each =
    length-eq-sum_below size xs (All-of-count (λ a. a < size) xs (λ a m. ground (arith, each a)))
    ∙ sum_below-congr size (λ a. count a xs) (λ a. to_nat (ltb a size)) each
    ∙ sum_below-ltb size size (omega arith)

module _ (batch : List Operation) (g : Graph) (runnable : List ℕ)
    (built : build batch ≡ ok (g, runnable)) (small : length batch < 2 ^ 63) where
  dependents_bounded : (a b : ℕ) → 0 < count b (dependents_of g a) → b < length batch
  dependents_bounded a b d =
      let built' = build-Built batch built in
      ground (
        arith,
        built'.graph.edges a b,
        edge_bounds (pass batch []) a b,
        built'.graph.size,
        (Built-nodes batch built').0,
      )

  runnable_bounded : (a : ℕ) → 0 < count a runnable → a < length batch
  runnable_bounded a h = elim (dec_lt a (length batch)) [
    | yes lt ↦ lt
    | no ge ↦
        let e = (build-runnable batch g runnable built small a).1 (λ r. ge r.0) in
        absurd (omega arith)
  ]

  -- A node is a root or the dependent of an earlier node.
  root_or_dependent :
      (n : ℕ)
      → n < length batch
      → (count n runnable ≡ 1) ⊎ ((i : ℕ) × (i < n) × (0 < count n (dependents_of g i)))
  root_or_dependent n lt =
      let built' = build-Built batch built in
      elim (first_below (λ i. edge (pass batch []) i n) n) [
        | inl (i, before, e) ↦ inr (i, before, ground (arith, built'.graph.edges i n))
        | inr none_before ↦ inl (
            (build-runnable batch g runnable built small n).0 (
              lt,
              λ a hz.
                  let e = (edge_iff-Hazard batch a n).1 hz in
                  let f = none_before a (edge_bounds (pass batch []) a n e).0 in cc,
            ))
      ]

  all_visited :
      (order : List ℕ) (last : ℕ → Bool)
      → Found g
          (length batch)
          dependents_bounded
          runnable
          order
          (record { visited = last; queue = [] })
      → (k n : ℕ) → n < k
      → n < length batch
      → last n ≡ true
  all_visited order last f zero n lt inside = absurd (omega arith)
  all_visited order last f (suc k) n lt inside = elim (root_or_dependent n inside) [
    | inl root ↦ f.started n (omega arith)
    | inr (i, before, d) ↦
        let v = all_visited order last f k i (omega arith) (omega arith) in
        f.followed i n (ground (arith, f.once i)) d
  ]

-- From the runnable nodes that Build returns for fewer than 2^63 operations, reachableNodes returns
-- each node of the graph once and nothing else, so that the count of nodes by which Run sizes its
-- queue and knows that it is done is the size of the batch.
pub reachable_nodes-all :
    (batch : List Operation) (g : Graph) (runnable : List ℕ)
    → build batch ≡ ok (g, runnable)
    → length batch < 2 ^ 63
    → ((n : ℕ) → count n (reachable_nodes g runnable) ≡ to_nat (ltb n (length batch)))
      × (length (reachable_nodes g runnable) ≡ length batch)
unfolding reachable_nodes
reachable_nodes-all batch g runnable built small =
    let bounded = dependents_bounded batch g runnable built small in
    let size = (Built-nodes batch (build-Built batch built)).0 in
    let (last, f) =
      reach_loop-Found g (length batch) bounded (length g) runnable [] _ _
        (start-Found g (length batch) bounded runnable
          (runnable_bounded batch g runnable built small))
        (omega arith) in
    let each : (n : ℕ) → count n (reachable_nodes g runnable) ≡ to_nat (ltb n (length batch)) = λ n.
      elim (dec_lt n (length batch)) [
        | yes lt ↦
            let v = all_visited batch g runnable built small _ last f (suc n) n (omega arith) lt in
            ground (arith, f.once n)
        | no ge ↦ elim (Bool-cases (last n)) [
          | inl v ↦ absurd (ge (f.inside n v))
          | inr v ↦ ground (arith, f.once n)
        ]
      ] in
    (each, length-eq-size _ (length batch) each)
