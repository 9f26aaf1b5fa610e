-- ===== src/Tests/Hazard.antt =====
-- The batch of EXPLAIN.md, and batches that Build refuses.
use khaos.Prelude.{
  ℕ, ◌<◌, ◌≡◌, ◌≢◌, refl, GoString, text, str_eq, ◌+◌, List, [], ◌∷◌, ◌++◌, none, false, length,
  count, sum_below, arith, ◌↔◌,
}
use khaos.Values.{nil, other, not_dense, unknown_operation_type}
use khaos.Result.{ok, err}
use khaos.Types.{
  OperationType, op_read, op_write, op_delete, undefined, Operation, DagNode, Graph, pending,
  dependents_of, in_degree_of, add_dependency, new_dag_node, operation_type_string,
  execution_state_string,
}
use khaos.Hazard.{
  build, build_loop, build_step, visit, visit_read, visit_write, wire_readers, wire_last_write,
  collect_runnable,
}
use khaos.Hazard.Spec.{Hazard}
use khaos.Hazard.Order.{Waits}
use khaos.Hazard.Accept.{IsDense, build_accepts, build_rejects}
use khaos.Hazard.Outcome.{
  HasEdge, build-edges, build-orders_conflicts, build-in_degree, build-runnable,
}

abbrev pub op : ℕ → OperationType → GoString → ℕ → Operation
op id type key value = record {
  seq_id = id;
  key = key;
  type = type;
  value = other (text "int") value;
  result = nil;
  err = none;
}

abbrev pub node : Operation → ℕ → List ℕ → DagNode
node o degree dependents = record {
  operation = o;
  in_degree = degree;
  dependents = dependents;
  done = false;
  state = pending;
}

abbrev pub balances : List Operation
balances =
    op 0 op_write (text "alice") 100
    ∷ op 1 op_read (text "alice") 0
    ∷ op 2 op_write (text "bob") 50
    ∷ op 3 op_delete (text "alice") 0
    ∷ []

abbrev pub balances_graph : Graph
balances_graph =
    node (op 0 op_write (text "alice") 100) 0 (1 ∷ 3 ∷ [])
    ∷ node (op 1 op_read (text "alice") 0) 1 (3 ∷ [])
    ∷ node (op 2 op_write (text "bob") 50) 0 []
    ∷ node (op 3 op_delete (text "alice") 0) 2 []
    ∷ []

unfoldable pub build_run : Unit {0}
unfolding build build_loop build_step visit visit_read visit_write wire_readers wire_last_write
    collect_runnable add_dependency new_dag_node str_eq
build_run = tt

pub build-balances : build balances ≡ ok (balances_graph, 0 ∷ 2 ∷ [])
unfolding build_run
build-balances = refl

build-edges_example :
    (Hazard balances 1 3 → HasEdge balances_graph 1 3)
    × (¬ Hazard balances 1 3 → count 3 (dependents_of balances_graph 1) ≡ 0)
build-edges_example = build-edges balances balances_graph (0 ∷ 2 ∷ []) build-balances 1 3

build-orders_conflicts_example : Waits (HasEdge balances_graph) 0 3
unfolding str_eq
build-orders_conflicts_example =
    build-orders_conflicts balances balances_graph (0 ∷ 2 ∷ []) build-balances 0 3 (record {
      earlier = op 0 op_write (text "alice") 100;
      later = op 3 op_delete (text "alice") 0;
      at_i = refl;
      at_j = refl;
      ordered = omega arith;
      conflict = refl;
    })

build-in_degree_example :
    in_degree_of balances_graph 3 ≡ sum_below 4 (λ i. count 3 (dependents_of balances_graph i))
build-in_degree_example =
    build-in_degree balances balances_graph (0 ∷ 2 ∷ []) build-balances (omega arith) 3

build-runnable_example :
    ((2 < length balances) × ((a : ℕ) → ¬ Hazard balances a 2) → count 2 (0 ∷ 2 ∷ []) ≡ 1)
    × (¬ ((2 < length balances) × ((a : ℕ) → ¬ Hazard balances a 2)) → count 2 (0 ∷ 2 ∷ []) ≡ 0)
build-runnable_example =
    build-runnable balances balances_graph (0 ∷ 2 ∷ []) build-balances (omega arith) 2

build_accepts_example : ((r : Graph × List ℕ) × (build balances ≡ ok r)) ↔ IsDense 0 balances
build_accepts_example = build_accepts balances

build_rejects_example :
    (◌≢◌ {A = ℕ} 9 4 → build (balances ++ op 9 op_read (text "bob") 0 ∷ []) ≡ err (not_dense 4 9))
    × ((n : ℕ)
        → ◌≡◌ {A = ℕ} 9 4
        → op_read ≡ undefined n
        → build (balances ++ op 9 op_read (text "bob") 0 ∷ [])
          ≡ err (unknown_operation_type (n + 3) 9))
build_rejects_example =
    build_rejects balances (op 9 op_read (text "bob") 0) []
      (refl, refl, (refl, refl, (refl, refl, (refl, refl, tt))))

operation_type_names :
    (operation_type_string op_delete ≡ text "DELETE")
    × (operation_type_string (undefined 4) ≡ text "UNKNOWN")
    × (execution_state_string pending ≡ text "PENDING")
unfolding operation_type_string execution_state_string
operation_type_names = (refl, refl, refl)
