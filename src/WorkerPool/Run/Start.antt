-- ===== src/WorkerPool/Run/Start.antt =====
-- The invariant at the start of Run on a graph that Build returns.
use khaos.Prelude.{
  ℕ, ◌-◌, ◌^◌, ◌≤◌, ◌<◌, ◌≡◌, refl, sym, ap, subst, fun_ext, ◌∙◌, List, [], none, false, not,
  length, count, to_nat, get_elem?, get_elem?_bound, sum_below, sum_below-congr, sum_below-le_one,
  sum_below-ltb, sum_below-eq-zero, ltb, ◌==◌, if◌then◌else◌, arith, Option-cases, inl, inr,
}
use native.Mathlib.Decide.{dec_lt}
use khaos.Result.{ok}
use khaos.Storage.{Context, StorageEngine}
use khaos.Types.{Operation, Graph, dependents_of, in_degree_of}
use khaos.Hazard.{build}
use khaos.Hazard.History.{edge_bounds}
use khaos.Hazard.Invariant.{pass}
use khaos.Hazard.Correct.{build-Built, Built-nodes, Built-in_degree, count-collect_runnable}
use khaos.Hazard.Accept.{build_accepts}
use khaos.Reorder.{new_reorder_buffer, drain}
use khaos.Reorder.Correct.{start-IsOrdered, start_fields}
use khaos.WorkerPool.Schedule.{operation_of}
use khaos.WorkerPool.Delivered.{IsDense-seq_id}
use khaos.WorkerPool.Reachable.{reachable_nodes}
use khaos.WorkerPool.Reachable.Complete.{reachable_nodes-all}
use khaos.WorkerPool.Run.{Pc, waiting, run_start}
use khaos.WorkerPool.Run.Heap.{done_of, IsNumbered}
use khaos.WorkerPool.Run.Places.{Place, waits, queued, finished, unfinished, edges_left, Holders}
use khaos.WorkerPool.Run.Balance.{Balanced, load}
use khaos.WorkerPool.Run.Closing.{Closing, open_nodes}
use khaos.WorkerPool.Run.Invariant.{Rule, Inv, Buffered, committed_in}

module _ (batch : List Operation) (g : Graph) (runnable : List ℕ)
    (built : build batch ≡ ok (g, runnable)) (small : length batch < 2 ^ 63) where
  abbrev size : ℕ
  size = length batch

  pub built-size : length g ≡ size
  built-size = (Built-nodes batch (build-Built batch built)).0

  count-le_one : (i j : ℕ) → count j (dependents_of g i) ≤ 1
  count-le_one i j = let b = build-Built batch built in let e = b.graph.edges i j in ground arith

  pub forward : (i j : ℕ) → 0 < count j (dependents_of g i) → (i < j) × (j < size)
  forward i j there =
      let b = build-Built batch built in
      ground (arith, b.graph.edges i j, edge_bounds (pass batch []) i j, b.graph.size, built-size)

  pub count-runnable :
      (j : ℕ) → count j runnable ≡ (if ltb j size then to_nat (in_degree_of g j == 0) else 0)
  count-runnable j =
      let b = build-Built batch built in
      ap (count j) (sym b.collected)
      ∙ count-collect_runnable 0 g j
      ∙ (let e : j - 0 ≡ j = omega arith in rw (e, built-size) (ground arith))

  fresh_done : (j : ℕ) → done_of g j ≡ false
  fresh_done j =
      let l = (Built-nodes batch (build-Built batch built)).1 j in
      elim (Option-cases (get_elem? g j)) [
        | inl absent ↦ ground (arith, absent)
        | inr (node, e) ↦ ground (arith, e, l)
      ]

  operations : (j : ℕ) → operation_of g j ≡ get_elem? batch j
  operations j = let l = (Built-nodes batch (build-Built batch built)).1 j in ground (arith, l)

  numbered : IsNumbered g
  numbered i op e =
      let d = (build_accepts batch).0 ((g, runnable), built) in
      IsDense-seq_id 0 batch i op d (sym (operations i) ∙ e) ∙ omega arith

  -- The runnable nodes are in the queue, the others wait.
  abbrev pub start_place : ℕ → Place
  start_place j = if ltb j size then (if in_degree_of g j == 0 then queued else waits) else finished

  abbrev idle_pcs : ℕ → Pc
  idle_pcs w = waiting

  start-Holders : (workers : ℕ) → Holders workers size start_place idle_pcs runnable
  start-Holders workers = record {
    outside = λ j le. ground arith;
    idle = λ w le. refl;
    hands = λ w j. ground arith;
    lists = λ w j. ground arith;
    line = λ j. ground (arith, count-runnable j);
  }

  start-load :
      (j : ℕ)
      → load size (dependents_of g) start_place idle_pcs j
        ≡ sum_below size (λ i. count j (dependents_of g i))
  start-load j = sum_below-congr size _ _ (λ i. ap (count j) (all_left i))
    where
      all_left :
          (i : ℕ) → edges_left (dependents_of g i) idle_pcs (start_place i) ≡ dependents_of g i
      all_left i = elim (dec_lt i size) [
        | yes inside ↦ ground arith
        | no out ↦ elim (Option-cases (get_elem? g i)) [
          | inl absent ↦ ground (arith, absent)
          | inr (node, e) ↦ absurd (omega (arith, get_elem?_bound g i e, built-size))
        ]
      ]

  no_edges_out : (j : ℕ) → size ≤ j → sum_below size (λ i. count j (dependents_of g i)) ≡ 0
  no_edges_out j le =
      sum_below-eq-zero size (λ i. count j (dependents_of g i))
        (λ i lt. elim (dec_lt 0 (count j (dependents_of g i))) [
          | yes there ↦ let (a, b) = forward i j there in absurd (omega arith)
          | no gone ↦ omega arith
        ])

  start-Balanced : Balanced size (dependents_of g) g start_place idle_pcs
  start-Balanced =
      let degree = λ (j : ℕ). Built-in_degree batch (build-Built batch built) j small in
      record {
        degree = λ j lt. degree j ∙ sym (start-load j);
        small = λ j. omega (
          arith,
          start-load j,
          sum_below-le_one size (λ i. count j (dependents_of g i)) (λ i. count-le_one i j),
        );
        blocked = λ j. elim (dec_lt j size) [
          | yes inside ↦ ground (arith, degree j, start-load j)
          | no out ↦ ground (arith, start-load j, no_edges_out j)
        ];
      }

  start-Closing :
      (workers : ℕ) (ctx : Context)
      → 0 < size
      → Closing workers size start_place idle_pcs (length (reachable_nodes g runnable)) false ctx
  start-Closing workers ctx some_node =
      let all = (reachable_nodes-all batch g runnable built small).1 in
      let every : open_nodes size start_place ≡ size =
        sum_below-congr size (λ j. to_nat (unfinished (start_place j))) (λ j. to_nat (ltb j size))
          (λ j. ground arith)
        ∙ sum_below-ltb size size (omega arith) in
      record {
        counted = all ∙ sym every;
        small = omega arith;
        shut_empty = λ e. cc;
        closer = λ w e. cc;
        alone = λ u v a b. cc;
        pending = λ e open_still. absurd (omega arith);
        leavers = λ w e r. cc;
      }

  start_committed : (i : ℕ) → committed_in start_place idle_pcs g i ≡ none
  start_committed i = elim (dec_lt i size) [
    | yes inside ↦ ground arith
    | no out ↦ elim (Option-cases (get_elem? g i)) [
      | inl absent ↦ ground (arith, absent)
      | inr (node, e) ↦ absurd (omega (arith, get_elem?_bound g i e, built-size))
    ]
  ]

  start-Buffered :
      (ctx : Context)
      → Buffered size (committed_in start_place idle_pcs g) (drain ctx size new_reorder_buffer) ctx
  start-Buffered ctx =
      let (whole, complete) = start_fields ctx size in
      subst (λ c. Buffered size c (drain ctx size new_reorder_buffer) ctx)
        (sym (fun_ext start_committed))
        (record {
          ordered = start-IsOrdered ctx size small;
          total = whole;
          settled = λ running. (complete, refl);
        })

  pub start-Inv :
      {engine : StorageEngine} (rule : Rule engine g size) (workers : ℕ) (ctx : Context)
      (store : engine.State)
      → 0 < size
      → rule.Holds ctx (λ i. not (ltb i size)) g store
      → (let p = run_start engine ctx g runnable store (drain ctx size new_reorder_buffer) in
          Inv rule workers start_place p.shared p.pcs)
  unfolding run_start
  start-Inv rule workers ctx store some_node held = record {
    edges = record { size = refl; deps = λ a. refl };
    holders = start-Holders workers;
    balanced = start-Balanced;
    dones = λ j lt. fresh_done j ∙ ground arith;
    closing = start-Closing workers ctx some_node;
    numbered = numbered;
    buffered = start-Buffered ctx;
    rules = rule.same ctx _ _ g g store (λ i. ground arith) (λ i. refl) held;
  }
