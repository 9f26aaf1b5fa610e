-- ===== src/Types.antt =====
-- types.go: operations, the nodes of the dependency graph, and the graph as a heap of nodes. A
-- pointer to a node is the node's position in the heap; HazardResolver.Build allocates them in
-- order.
pub mod Dependency
use khaos.Prelude.{
  ℕ, ◌+◌, ◌-◌, ◌%◌, ◌^◌, GoString, text, List, [], ◌∷◌, ◌++◌, Option, none, some, Bool, true, false,
  get_elem?, modify, ◌==◌, if◌then◌else◌,
}
use khaos.Values.{Any, nil, Error}
use mathlib.Core.Option

-- A uint8: `undefined n` is the value n + 3, which no constant names.
pub data OperationType : Type 0 where
  op_read op_write op_delete : OperationType
  undefined : (n : ℕ) → OperationType

unfoldable pub operation_type_string : OperationType → GoString
operation_type_string op_read = text "READ"
operation_type_string op_write = text "WRITE"
operation_type_string op_delete = text "DELETE"
operation_type_string (undefined n) = text "UNKNOWN"

-- The number behind a type, which `%d` prints.
abbrev pub type_code : OperationType → ℕ
type_code op_read = 0
type_code op_write = 1
type_code op_delete = 2
type_code (undefined n) = n + 3

-- A uint32: `undefined n` is the value n + 6.
pub data ExecutionState : Type 0 where
  pending blocked runnable executing committed failed : ExecutionState
  undefined : (n : ℕ) → ExecutionState

unfoldable pub execution_state_string : ExecutionState → GoString
execution_state_string pending = text "PENDING"
execution_state_string blocked = text "BLOCKED"
execution_state_string runnable = text "RUNNABLE"
execution_state_string executing = text "EXECUTING"
execution_state_string committed = text "COMMITTED"
execution_state_string failed = text "FAILED"
execution_state_string (undefined n) = text "UNKNOWN"

pub record Operation : Type 0 where
  pub seq_id : ℕ  -- uint64
  pub key : GoString
  pub type : OperationType
  pub value : Any
  pub result : Any
  pub err : Option Error

pub record DagNode : Type 0 where
  pub operation : Operation
  pub open operation use *
  pub in_degree : ℕ  -- the 64 bits of an int64
  pub dependents : List ℕ
  pub done : Bool  -- the channel is closed
  pub state : ExecutionState

abbrev pub Graph : Type 0
Graph = List DagNode

unfoldable pub new_dag_node : Operation → DagNode
new_dag_node op = record {
  operation = op;
  in_degree = 0;
  dependents = [];
  done = false;
  state = pending;
}

-- `inDegree.Add(1)` and `inDegree.Add(-1)`, in two's complement.
abbrev pub increment : ℕ → ℕ
increment d = (d + 1) % 2 ^ 64

abbrev pub decrement : ℕ → ℕ
decrement d = (d + 2 ^ 64 - 1) % 2 ^ 64

abbrev pub append_dependent : ℕ → DagNode → DagNode
append_dependent d node = record node { dependents = node.dependents ++ d ∷ [] }

abbrev pub add_degree : DagNode → DagNode
add_degree node = record node { in_degree = increment node.in_degree }

-- `n.AddDependency(dependent)`
unfoldable pub add_dependency : (n dependent : ℕ) → Graph → Graph
add_dependency n dependent g = modify dependent add_degree (modify n (append_dependent dependent) g)

-- `n.Dependents()`
abbrev pub dependents_of : Graph → ℕ → List ℕ
dependents_of g n = elim (get_elem? g n) [ none ↦ [] | some node ↦ node.dependents ]

-- `n.InDegree()`
abbrev pub in_degree_of : Graph → ℕ → ℕ
in_degree_of g n = elim (get_elem? g n) [ none ↦ 0 | some node ↦ node.in_degree ]

-- `n.State()`
abbrev pub state_of : Graph → ℕ → ExecutionState
state_of g n = elim (get_elem? g n) [ none ↦ pending | some node ↦ node.state ]

-- What neither AddDependency nor an atomic decrement changes in a node.
abbrev pub label : DagNode → Operation × Bool × ExecutionState
label node = (node.operation, node.done, node.state)

abbrev pub label_of : Graph → ℕ → Option (Operation × Bool × ExecutionState)
label_of g n = Option.map label (get_elem? g n)

-- `n.SetState(s)`
unfoldable pub set_state : ℕ → ExecutionState → Graph → Graph
set_state n s g = modify n (λ node. record node { state = s }) g

-- `dep.inDegree.Add(-1)`: the new graph.
unfoldable pub drop_edge : ℕ → Graph → Graph
drop_edge dep g = modify dep (λ node. record node { in_degree = decrement node.in_degree }) g

-- The loop of Release: the graph, and what became runnable.
unfoldable pub release_loop : List ℕ → Graph → Graph × List ℕ
unfolding drop_edge
release_loop [] g = (g, [])
release_loop (dep ∷ deps) g =
    let g' = drop_edge dep g in
    let (g'', runnable') = release_loop deps g' in
    (g'', if in_degree_of g' dep == 0 then dep ∷ runnable' else runnable')

-- `close(n.done)`; `none` is the panic on a channel that is closed already.
unfoldable pub close_done : ℕ → Graph → Option Graph
close_done n g = elim (get_elem? g n) [
  | none ↦ none
  | some node ↦ if node.done then none else some (modify n (λ m. record m { done = true }) g)
]

-- `n.Release()`
unfoldable pub release : ℕ → Graph → Option (Graph × List ℕ)
unfolding release_loop close_done
release n g =
    let (g', runnable') = release_loop (dependents_of g n) g in
    Option.map (λ g''. (g'', runnable')) (close_done n g')
