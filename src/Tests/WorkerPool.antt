-- ===== src/Tests/WorkerPool.antt =====
-- A batch executed out of order, by the sharded map.
use khaos.Prelude.{
  some, get_elem?, to_nat, ltb, length, count, ℕ, ◌<◌, ◌≡◌, refl, GoString, List, [], ◌∷◌, none,
  zero, suc, arith, ◌-◌, ◌==◌, ◌&&◌, true, if◌then◌else◌,
}
use khaos.Hazard.Outcome.{HasEdge}
use khaos.Storage.ShardedMap.{sharded_map, new_sharded_map}
use khaos.Storage.ShardedMap.Refines.{sharded_map-IsKeyed, new-IsSharded}
use khaos.WorkerPool.{run_order}
use khaos.WorkerPool.Reachable.{reachable_nodes, reach_loop, enqueue_new}
use khaos.WorkerPool.Reachable.Complete.{reachable_nodes-all}
use khaos.Reorder.{ReorderBuffer, drain, new_reorder_buffer}
use khaos.Reorder.Correct.{commit_all}
use khaos.WorkerPool.Delivered.{executed_nodes, run_order-delivers}
use khaos.WorkerPool.Schedule.{operation_of}
use khaos.WorkerPool.Serial.{run_order-serial, range_from, IsScheduled, nothing}
use khaos.Types.{Graph, dependents_of, in_degree_of, release}
use khaos.WorkerPool.Run.Heap.{done_of}
use khaos.WorkerPool.Run.Released.{Covers, release_lem}
use khaos.Tests.Hazard.{balances, balances_graph, build-balances}

abbrev bob_first : List ℕ
bob_first = 2 ∷ 0 ∷ 1 ∷ 3 ∷ []

no_edge_to_0 : (i : ℕ) → HasEdge balances_graph i 0 → ⊥
no_edge_to_0 zero e = ground arith
no_edge_to_0 (suc zero) e = ground arith
no_edge_to_0 (suc (suc zero)) e = ground arith
no_edge_to_0 (suc (suc (suc zero))) e = ground arith
no_edge_to_0 (suc (suc (suc (suc i)))) e = ground arith

no_edge_to_2 : (i : ℕ) → HasEdge balances_graph i 2 → ⊥
no_edge_to_2 zero e = ground arith
no_edge_to_2 (suc zero) e = ground arith
no_edge_to_2 (suc (suc zero)) e = ground arith
no_edge_to_2 (suc (suc (suc zero))) e = ground arith
no_edge_to_2 (suc (suc (suc (suc i)))) e = ground arith

edge_to_1 : (i : ℕ) → HasEdge balances_graph i 1 → i ≡ 0
edge_to_1 zero e = refl
edge_to_1 (suc zero) e = absurd (ground arith)
edge_to_1 (suc (suc zero)) e = absurd (ground arith)
edge_to_1 (suc (suc (suc zero))) e = absurd (ground arith)
edge_to_1 (suc (suc (suc (suc i)))) e = absurd (ground arith)

edge_to_3 : (i : ℕ) → HasEdge balances_graph i 3 → i < 2
edge_to_3 zero e = omega arith
edge_to_3 (suc zero) e = omega arith
edge_to_3 (suc (suc zero)) e = absurd (ground arith)
edge_to_3 (suc (suc (suc zero))) e = absurd (ground arith)
edge_to_3 (suc (suc (suc (suc i)))) e = absurd (ground arith)

bob_first-IsScheduled : IsScheduled balances_graph 4 nothing bob_first
bob_first-IsScheduled = (
  omega arith,
  refl,
  λ i e. absurd (no_edge_to_2 i e),
  (
    omega arith,
    refl,
    λ i e. absurd (no_edge_to_0 i e),
    (
      omega arith,
      refl,
      λ i e. ground (arith, edge_to_1 i e),
      (omega arith, refl, λ i e. ground (arith, edge_to_3 i e), tt),
    ),
  ),
)

run_order-serial_example :
    ((k : GoString)
      → sharded_map-IsKeyed.cell
          (run_order sharded_map none bob_first (balances_graph, new_sharded_map)).1
          k
        ≡ sharded_map-IsKeyed.cell
            (run_order sharded_map none (range_from 0 4) (balances_graph, new_sharded_map)).1
            k)
    × ((n : ℕ)
        → operation_of (run_order sharded_map none bob_first (balances_graph, new_sharded_map)).0 n
          ≡ operation_of
              (run_order sharded_map none (range_from 0 4) (balances_graph, new_sharded_map)).0
              n)
run_order-serial_example =
    run_order-serial sharded_map-IsKeyed balances balances_graph (0 ∷ 2 ∷ []) new_sharded_map
      bob_first build-balances new-IsSharded bob_first-IsScheduled (λ n lt. ground arith)

run_order-delivers_example :
    (rb : ReorderBuffer) × (commit_all
        (λ n. true)
        (executed_nodes sharded_map none bob_first (balances_graph, new_sharded_map))
        (drain none 4 new_reorder_buffer)
      ≡ some rb)
    × (length rb.out ≡ 4)
    × ((i : ℕ)
        → i < 4
        → get_elem? rb.out i
          ≡ operation_of
              (run_order sharded_map none (range_from 0 4) (balances_graph, new_sharded_map)).0
              i)
    × (rb.closed ≡ true)
run_order-delivers_example =
    run_order-delivers sharded_map-IsKeyed balances balances_graph (0 ∷ 2 ∷ []) new_sharded_map
      bob_first (λ n. true) build-balances (omega arith) new-IsSharded bob_first-IsScheduled
      (λ n lt. ground arith) (λ n. refl)

-- The queue of the search, in its order.
reachable_nodes-balances : reachable_nodes balances_graph (0 ∷ 2 ∷ []) ≡ 0 ∷ 2 ∷ 1 ∷ 3 ∷ []
unfolding reachable_nodes reach_loop enqueue_new
reachable_nodes-balances = refl

reachable_nodes-all_example :
    ((n : ℕ) → count n (reachable_nodes balances_graph (0 ∷ 2 ∷ [])) ≡ to_nat (ltb n 4))
    × (length (reachable_nodes balances_graph (0 ∷ 2 ∷ [])) ≡ 4)
reachable_nodes-all_example =
    reachable_nodes-all balances balances_graph (0 ∷ 2 ∷ []) build-balances (omega arith)

covered : Covers (dependents_of balances_graph 0) balances_graph
covered zero = (omega arith, omega arith)
covered (suc zero) = (omega arith, omega arith)
covered (suc (suc zero)) = (omega arith, omega arith)
covered (suc (suc (suc zero))) = (omega arith, omega arith)
covered (suc (suc (suc (suc d)))) = (ground arith, ground arith)

release_lem_example :
    (g' : Graph) × (runnable' : List ℕ) × (release 0 balances_graph ≡ some (g', runnable'))
    × ((d : ℕ)
        → in_degree_of g' d
          ≡ in_degree_of balances_graph d - count d (dependents_of balances_graph 0))
    × ((d : ℕ)
        → count d runnable'
          ≡ to_nat (
              ltb 0 (count d (dependents_of balances_graph 0))
              && (in_degree_of balances_graph d == count d (dependents_of balances_graph 0))))
    × ((d : ℕ) → done_of g' d ≡ (if 0 == d then true else done_of balances_graph d))
    × ((d : ℕ) → dependents_of g' d ≡ dependents_of balances_graph d)
    × ((d : ℕ) → operation_of g' d ≡ operation_of balances_graph d)
    × (release 0 g' ≡ none)
release_lem_example = release_lem 0 balances_graph (omega arith) refl covered
