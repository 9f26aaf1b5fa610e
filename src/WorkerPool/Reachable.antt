-- ===== src/WorkerPool/Reachable.antt =====
-- workerpool.go: reachableNodes, the breadth-first search from the initial nodes.
pub mod Rounds
pub mod Complete
use khaos.Prelude.{
  ℕ, zero, suc, List, [], ◌∷◌, ◌++◌, Bool, true, false, length, ◌==◌, if◌then◌else◌,
}
use khaos.Types.{Graph, dependents_of}

-- The map `visited`, and `queue` from the index i on: before i it is `order`.
pub record Search : Type 0 where
  pub visited : ℕ → Bool
  pub queue : List ℕ

-- `visited[n] = true; queue = append(queue, n)`
abbrev pub enqueue : ℕ → Search → Search
enqueue n st = record {
  visited = λ m. if n == m then true else st.visited m;
  queue = st.queue ++ n ∷ [];
}

-- The loop over the roots, and the loop over the dependents of a node.
unfoldable pub enqueue_new : List ℕ → Search → Search
enqueue_new [] st = st
enqueue_new (n ∷ ns) st = enqueue_new ns (if st.visited n then st else enqueue n st)

-- The loop over the queue. Each round moves a node to `order`, which no node enters twice, so the
-- number of nodes is fuel enough (reach_loop-Found).
unfoldable pub reach_loop : Graph → ℕ → List ℕ → Search → List ℕ
reach_loop g zero order st = order
reach_loop g (suc fuel) order st = elim st.queue [
  | [] ↦ order
  | n ∷ rest ↦
      reach_loop g fuel (order ++ n ∷ [])
        (enqueue_new (dependents_of g n) (record { visited = st.visited; queue = rest }))
]

unfoldable pub reachable_nodes : Graph → List ℕ → List ℕ
unfolding reach_loop enqueue_new
reachable_nodes g roots =
    reach_loop g (length g) [] (enqueue_new roots (record { visited = λ n. false; queue = [] }))
