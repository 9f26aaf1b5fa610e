-- ===== src/Hazard.antt =====
-- hazard.go: SequentialHazardResolver.Build, which wires the dependency graph of a batch.
pub mod History
pub mod Wiring
pub mod Outcome
pub mod Accept
pub mod Correct
pub mod Order
pub mod Spec
pub mod Invariant
pub mod Placed
use khaos.Prelude.{
  ℕ, suc, GoString, List, [], ◌∷◌, ◌++◌, Option, none, some, update, GoMap, empty, ◌==◌,
  if◌then◌else◌,
}
use khaos.Values.{not_dense, unknown_operation_type}
use khaos.Result.{Result, ok, err, ◌>>=◌}
use khaos.Types.{
  OperationType, op_read, op_write, op_delete, undefined, type_code, Operation, Graph, new_dag_node,
  add_dependency,
}

-- The locals of Build. A missing key of the map `lastReads` gives a nil slice.
pub record BuildState : Type 0 where
  pub all : Graph
  pub last_write : GoMap ℕ
  pub last_reads : GoString → List ℕ

-- `if w, ok := lastWrite[op.Key]; ok { w.AddDependency(node) }`
unfoldable pub wire_last_write : Option ℕ → ℕ → Graph → Graph
wire_last_write none node g = g
wire_last_write (some w) node g = add_dependency w node g

-- `for _, reader := range lastReads[op.Key] { reader.AddDependency(node) }`
unfoldable pub wire_readers : List ℕ → ℕ → Graph → Graph
wire_readers [] node g = g
wire_readers (reader ∷ readers) node g = wire_readers readers node (add_dependency reader node g)

unfoldable pub visit_read : ℕ → GoString → BuildState → BuildState
visit_read node key s = record {
  all = wire_last_write (s.last_write key) node s.all;
  last_write = s.last_write;
  last_reads = update key (s.last_reads key ++ node ∷ []) s.last_reads;
}

unfoldable pub visit_write : ℕ → GoString → BuildState → BuildState
visit_write node key s = record {
  all = wire_readers (s.last_reads key) node (wire_last_write (s.last_write key) node s.all);
  last_write = update key (some node) s.last_write;
  last_reads = update key [] s.last_reads;
}

-- The switch on op.Type.
unfoldable pub visit : ℕ → Operation → OperationType → BuildState → Result BuildState
visit i op op_read s = ok (visit_read i op.key s)
visit i op op_write s = ok (visit_write i op.key s)
visit i op op_delete s = ok (visit_write i op.key s)
visit i op (undefined n) s = err (unknown_operation_type (type_code (undefined n)) op.seq_id)

-- The body of the loop. `int(op.SeqID)` keeps the 64 bits, and i is an index, so the test compares
-- the two as numbers. `all[i] = node` is the allocation of node i.
unfoldable pub build_step : ℕ → Operation → BuildState → Result BuildState
build_step i op s =
    if op.seq_id == i
    then visit i op op.type (record s { all = s.all ++ new_dag_node op ∷ [] })
    else err (not_dense i op.seq_id)

unfoldable pub build_loop : ℕ → List Operation → BuildState → Result BuildState
build_loop i [] s = ok s
build_loop i (op ∷ batch) s = build_step i op s >>= build_loop (suc i) batch

abbrev pub build_start : BuildState
build_start = record { all = []; last_write = empty; last_reads = λ k. [] }

-- The second loop of Build: the nodes from i on whose in-degree is zero.
unfoldable pub collect_runnable : ℕ → Graph → List ℕ
collect_runnable i [] = []
collect_runnable i (n ∷ rest) =
    let tail = collect_runnable (suc i) rest in if n.in_degree == 0 then i ∷ tail else tail

-- Build: all nodes, and those that may run at once.
unfoldable pub build : List Operation → Result (Graph × List ℕ)
build batch = do s ← build_loop 0 batch build_start; ok (s.all, collect_runnable 0 s.all)
