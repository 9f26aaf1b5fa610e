-- ===== src/WorkerPool/Run/Heap.antt =====
-- What the steps of a worker do to each field of each node: executeNode, one decrement of Release,
-- and the close of a node's channel.
use khaos.Prelude.{
  ℕ, ◌<◌, ◌≡◌, refl, none, some, Bool, true, false, length, get_elem?, modify, ◌==◌, if◌then◌else◌,
  get_elem?-modify, length-modify, arith, get_elem?-some, Option-cases, inl, inr,
}
use khaos.Storage.{Context, StorageEngine}
use khaos.Types.{
  OperationType, op_read, op_write, op_delete, undefined, Operation, DagNode, Graph, decrement,
  drop_edge, close_done, dependents_of, in_degree_of,
}
use khaos.WorkerPool.{execute_op, execute_node}
use khaos.WorkerPool.Schedule.{operation_of}
use khaos.WorkerPool.Delivered.{fail_or-seq_id, found-seq_id}

abbrev pub done_of : Graph → ℕ → Bool
done_of g n = elim (get_elem? g n) [ none ↦ false | some node ↦ node.done ]

-- Two graphs that differ in no edge.
pub record SameEdges (g g' : Graph) : Type 0 where
  pub size : length g' ≡ length g
  pub deps : (a : ℕ) → dependents_of g' a ≡ dependents_of g a

module _ (d : ℕ) (g : Graph) where
  pub drop_edge-SameEdges : SameEdges g (drop_edge d g)
  unfolding drop_edge
  drop_edge-SameEdges = record {
    size = length-modify d (λ node. record node { in_degree = decrement node.in_degree }) g;
    deps = λ a. ground (
      arith,
      get_elem?-modify d (λ (node : DagNode). record node { in_degree = decrement node.in_degree })
          g a,
    );
  }

  pub in_degree_of-drop_edge :
      (a : ℕ)
      → d < length g
      → in_degree_of (drop_edge d g) a
        ≡ (if d == a then decrement (in_degree_of g a) else in_degree_of g a)
  unfolding drop_edge
  in_degree_of-drop_edge a h =
      let (x, e) = get_elem?-some g d h in
      ground (
        arith,
        e,
        get_elem?-modify d
            (λ (node : DagNode). record node { in_degree = decrement node.in_degree }) g a,
      )

  pub done_of-drop_edge : (a : ℕ) → done_of (drop_edge d g) a ≡ done_of g a
  unfolding drop_edge
  done_of-drop_edge a = ground (
    arith,
    get_elem?-modify d (λ (node : DagNode). record node { in_degree = decrement node.in_degree }) g
        a,
  )

  pub operation_of-drop_edge : (a : ℕ) → operation_of (drop_edge d g) a ≡ operation_of g a
  unfolding drop_edge
  operation_of-drop_edge a = ground (
    arith,
    get_elem?-modify d (λ (node : DagNode). record node { in_degree = decrement node.in_degree }) g
        a,
  )

-- A channel that is open is closed, and nothing else changes.
pub record Closed (n : ℕ) (g g' : Graph) : Type 0 where
  pub edges : SameEdges g g'
  pub degrees : (a : ℕ) → in_degree_of g' a ≡ in_degree_of g a
  pub dones : (a : ℕ) → done_of g' a ≡ (if n == a then true else done_of g a)
  pub operations : (a : ℕ) → operation_of g' a ≡ operation_of g a

pub close_done-Closed :
    (n : ℕ) (g : Graph)
    → n < length g
    → done_of g n ≡ false
    → (g' : Graph) × (close_done n g ≡ some g') × Closed n g g'
unfolding close_done
close_done-Closed n g lt open_n =
    let (node, e) = get_elem?-some g n lt in
    let shut : node.done ≡ false = ground (arith) in
    let at = λ (a : ℕ). get_elem?-modify n (λ (m : DagNode). record m { done = true }) g a in
    (
      modify n (λ m. record m { done = true }) g,
      rw (e, close_done) (rw shut),
      record {
        edges = record {
          size = length-modify n (λ (m : DagNode). record m { done = true }) g;
          deps = λ a. ground (arith, at a);
        };
        degrees = λ a. ground (arith, at a);
        dones = λ a. ground (arith, e, at a);
        operations = λ a. ground (arith, at a);
      },
    )

module _ (engine : StorageEngine) (ctx : Context) (n : ℕ) (g : Graph) (s : engine.State) where
  -- executeNode changes operations alone, and the operation of its node alone.
  pub record Ran (g' : Graph) : Type 0 where
    pub edges : SameEdges g g'
    pub degrees : (a : ℕ) → in_degree_of g' a ≡ in_degree_of g a
    pub dones : (a : ℕ) → done_of g' a ≡ done_of g a
    pub others : (a : ℕ) → (n == a) ≡ false → operation_of g' a ≡ operation_of g a

  modify-Ran : (op : Operation) → Ran (modify n (λ m. record m { operation = op }) g)
  modify-Ran op =
      let at = λ (a : ℕ). get_elem?-modify n (λ (m : DagNode). record m { operation = op }) g a in
      record {
        edges = record {
          size = length-modify n (λ (m : DagNode). record m { operation = op }) g;
          deps = λ a. ground (arith, at a);
        };
        degrees = λ a. ground (arith, at a);
        dones = λ a. ground (arith, at a);
        others = λ a other. ground (arith, at a);
      }

  pub execute_node-Ran : Ran (execute_node engine ctx n (g, s)).0
  unfolding execute_node
  execute_node-Ran = elim (Option-cases (get_elem? g n)) [
    | inl e ↦
        rw (e, execute_node)
          (record {
            edges = record { size = refl; deps = λ a. refl };
            degrees = λ a. refl;
            dones = λ a. refl;
            others = λ a other. refl;
          })
    | inr (node, e) ↦ rw (e, execute_node) (modify-Ran _)
  ]

-- Each node holds the operation with its position for SeqID.
abbrev pub IsNumbered : Graph → Type 0
IsNumbered g = (i : ℕ) (op : Operation) → operation_of g i ≡ some op → op.seq_id ≡ i

module _ (engine : StorageEngine) (ctx : Context) where
  execute_op-seq_id :
      (op : Operation) (t : OperationType) (s : engine.State)
      → (execute_op engine ctx op t s).1.seq_id ≡ op.seq_id
  unfolding execute_op
  execute_op-seq_id op op_read s = fail_or-seq_id _ op _ (found-seq_id _ op _ refl)
  execute_op-seq_id op op_write s = fail_or-seq_id _ op _ refl
  execute_op-seq_id op op_delete s = fail_or-seq_id _ op _ refl
  execute_op-seq_id op (undefined n) s = refl

  pub execute_node-IsNumbered :
      (n : ℕ) (g : Graph) (s : engine.State)
      → IsNumbered g
      → IsNumbered (execute_node engine ctx n (g, s)).0
  unfolding execute_node
  execute_node-IsNumbered n g s numbered = elim (Option-cases (get_elem? g n)) [
    | inl e ↦ rw (e, execute_node) numbered
    | inr (node, e) ↦ rw (e, execute_node) (λ i op at. named node e i op at)
  ]
    where
      named :
          (node : DagNode)
          → get_elem? g n ≡ some node
          → (i : ℕ) (op : Operation)
          → operation_of
              (modify n
                (λ m. record m { operation = (execute_op engine ctx node.operation node.type s).1 })
                g)
              i
            ≡ some op
          → op.seq_id ≡ i
      named node e i op at = ground (
        arith,
        e,
        numbered i node.operation,
        numbered i op,
        execute_op-seq_id node.operation node.type s,
        get_elem?-modify n
            (λ (m : DagNode). record m {
              operation = (execute_op engine ctx node.operation node.type s).1;
            })
            g i,
      )
