-- ===== src/WorkerPool.antt =====
-- workerpool.go: executeNode, against any storage engine.
pub mod Cells
pub mod Schedule
pub mod Serial
pub mod Reachable
pub mod Delivered
pub mod Run
use khaos.Prelude.{ℕ, List, [], ◌∷◌, Option, none, some, get_elem?, modify, if◌then◌else◌}
use khaos.Values.{Error, unknown_operation_type_at_execution}
use khaos.Storage.{Context, StorageEngine}
use khaos.Types.{OperationType, op_read, op_write, op_delete, undefined, Operation, Graph}

-- `if err != nil { node.Err = err; return }`, else what follows.
abbrev pub fail_or : Option Error → Operation → Operation → Operation
fail_or none op op' = op'
fail_or (some e) op op' = record op { err = some e }

module _ (engine : StorageEngine) where
  -- The switch of executeNode, on node.Type: the store, and the operation with its Result and Err.
  unfoldable pub execute_op :
      Context → Operation → OperationType → engine.State → engine.State × Operation
  execute_op ctx op op_read s =
      let found = engine.get ctx op.key s in
      (s, fail_or found.err op (if found.found then record op { result = found.value } else op))
  execute_op ctx op op_write s =
      let (s', e) = engine.set ctx op.key op.value s in
      (s', fail_or e op (record op { result = op.value }))
  execute_op ctx op op_delete s = let (s', e) = engine.delete ctx op.key s in (s', fail_or e op op)
  execute_op ctx op (undefined n) s =
      (s, record op { err = some unknown_operation_type_at_execution })

  -- executeNode on a node of the graph.
  unfoldable pub execute_node : Context → ℕ → Graph × engine.State → Graph × engine.State
  execute_node ctx n (g, s) = elim (get_elem? g n) [
    | none ↦ (g, s)
    | some node ↦
        let (s', op') = execute_op ctx node.operation node.type s in
        (modify n (λ m. record m { operation = op' }) g, s')
  ]

  -- One node after another.
  unfoldable pub run_order : Context → List ℕ → Graph × engine.State → Graph × engine.State
  run_order ctx [] st = st
  run_order ctx (n ∷ order) st = run_order ctx order (execute_node ctx n st)
