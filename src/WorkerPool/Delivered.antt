-- ===== src/WorkerPool/Delivered.antt =====
-- A batch from Build to the consumer: nodes executed, committed as they are done, and delivered.
use khaos.Prelude.{
  ℕ, zero, suc, ◌+◌, ◌^◌, ◌<◌, ◌≡◌, ◌≢◌, refl, sym, ap, subst, ◌∙◌, List, [], ◌∷◌, Option, none,
  some, Bool, true, false, length, get_elem?, get_elem?-some, ◌==◌, if◌then◌else◌, arith,
  Option-cases, inl, inr,
}
use mathlib.Core.Option
use native.Mathlib.Decide.{ℕ_discrete}
use khaos.Values.{Error}
use khaos.Result.{ok}
use khaos.Storage.{Context, StorageEngine, IsKeyed}
use khaos.Types.{OperationType, op_read, op_write, op_delete, undefined, Operation, DagNode, Graph}
use khaos.Hazard.{build}
use khaos.Hazard.Accept.{IsDense, build_accepts}
use khaos.Reorder.{ReorderBuffer, new_reorder_buffer, drain}
use khaos.Reorder.Flush.{Committed}
use khaos.Reorder.Correct.{
  add_commit, commits_from, commits_of, IsFreshFrom, commit_all, reorder_complete,
}
use khaos.WorkerPool.{fail_or, execute_node, run_order}
use khaos.WorkerPool.Cells.{op_after}
use khaos.WorkerPool.Schedule.{mark, operation_of, IsRun, outcome}
use khaos.WorkerPool.Serial.{
  marks, IsScheduled, nothing, range_from, IsClosed, mark-IsClosed, next-IsRun, start-IsRun,
  run_order-serial, run_order-IsRun, IsRun-finished,
}

-- The nodes of an order, each as it is when it has been executed.
unfoldable pub executed_nodes :
    (engine : StorageEngine) → Context → List ℕ → Graph × engine.State → List DagNode
executed_nodes engine ctx [] st = []
executed_nodes engine ctx (n ∷ order) st =
    let st' = execute_node engine ctx n st in
    let rest = executed_nodes engine ctx order st' in
    elim (get_elem? st'.0 n) [ none ↦ rest | some node ↦ node ∷ rest ]

executed_nodes-cons :
    (engine : StorageEngine) (ctx : Context) (n : ℕ) (order : List ℕ) (st : Graph × engine.State)
    (node : DagNode)
    → get_elem? (execute_node engine ctx n st).0 n ≡ some node
    → executed_nodes engine ctx (n ∷ order) st
      ≡ node ∷ executed_nodes engine ctx order (execute_node engine ctx n st)
unfolding executed_nodes
executed_nodes-cons engine ctx n order st node e = rw (e, executed_nodes) refl

pub fail_or-seq_id :
    (e : Option Error) (op op' : Operation)
    → op'.seq_id ≡ op.seq_id
    → (fail_or e op op').seq_id ≡ op.seq_id
fail_or-seq_id none op op' same = same
fail_or-seq_id (some e) op op' same = refl

pub found-seq_id :
    (b : Bool) (op op' : Operation)
    → op'.seq_id ≡ op.seq_id
    → (if b then op' else op).seq_id ≡ op.seq_id
found-seq_id true op op' same = same
found-seq_id false op op' same = refl

op_after-seq_id :
    {engine : StorageEngine} (keyed : IsKeyed engine) (op : Operation) (t : OperationType)
    (c : keyed.Cell)
    → (op_after keyed op t c).seq_id ≡ op.seq_id
op_after-seq_id keyed op op_read c = fail_or-seq_id _ op _ (found-seq_id _ op _ refl)
op_after-seq_id keyed op op_write c = fail_or-seq_id _ op _ refl
op_after-seq_id keyed op op_delete c = fail_or-seq_id _ op _ refl
op_after-seq_id keyed op (undefined n) c = refl

pub IsDense-seq_id :
    (i : ℕ) (batch : List Operation) (n : ℕ) (p : Operation)
    → IsDense i batch
    → get_elem? batch n ≡ some p
    → p.seq_id ≡ i + n
IsDense-seq_id i [] n p d e = cc
IsDense-seq_id i (op ∷ batch) zero p d e = ground (arith, d.0)
IsDense-seq_id i (op ∷ batch) (suc n) p d e = omega (arith, IsDense-seq_id (suc i) batch n p d.2 e)

module _ {engine : StorageEngine} (keyed : IsKeyed engine) (batch : List Operation) (g : Graph)
    (runnable : List ℕ) (built : build batch ≡ ok (g, runnable)) (s : engine.State)
    (valid : keyed.IsValid s) where
  abbrev op : ℕ → Option Operation
  op = get_elem? batch

  -- What has been committed is what has been executed.
  abbrev IsCommitted : (ℕ → Bool) → Committed → Type 0
  IsCommitted done committed =
      (i : ℕ)
      → committed i
        ≡ (if done i then Option.map (outcome keyed op (keyed.cell s) i) (op i) else none)

  seq_id_of : (n : ℕ) (p : Operation) → op n ≡ some p → p.seq_id ≡ n
  seq_id_of n p e =
      IsDense-seq_id 0 batch n p ((build_accepts batch).0 ((g, runnable), built)) e ∙ omega arith

  -- One node executed and committed.
  module _ (n : ℕ) (p : Operation) (at_n : op n ≡ some p) (done : ℕ → Bool) (node : DagNode)
      (committed : Committed) (c : IsCommitted done committed) (new : done n ≡ false)
      (made : node.operation ≡ outcome keyed op (keyed.cell s) n p) where
    own_seq_id : node.seq_id ≡ n
    own_seq_id = ap (λ o. o.seq_id) made ∙ op_after-seq_id keyed p p.type _ ∙ seq_id_of n p at_n

    not_committed : committed node.seq_id ≡ none
    not_committed = rw own_seq_id (c n ∙ rw new)

    add_commit-IsCommitted : IsCommitted (mark n done) (add_commit node committed)
    add_commit-IsCommitted i = rw (ap (λ k. k == i) own_seq_id) (elim (ℕ_discrete n i) [
      | yes same ↦
          let self : (n == i) ≡ true = ground arith in
          let at_i : op i ≡ some p = ap op (sym same) ∙ at_n in
          rw (self, at_i) (ap some (made ∙ ap (λ k. outcome keyed op (keyed.cell s) k p) same))
      | no other ↦ let diff : (n == i) ≡ false = ground arith in rw diff (c i)
    ])

  node_of :
      (done : ℕ → Bool) (g' : Graph) (s' : engine.State) (n : ℕ) (p : Operation)
      → op n ≡ some p
      → IsRun keyed op (keyed.cell s) (mark n done) g' s'
      → (node : DagNode) × (get_elem? g' n ≡ some node)
        × (node.operation ≡ outcome keyed op (keyed.cell s) n p)
  node_of done g' s' n p at_n run =
      let self : (n == n) ≡ true = ground arith in
      let there : operation_of g' n ≡ some (outcome keyed op (keyed.cell s) n p) =
        run.held n ∙ rw (self, at_n) refl in
      elim (Option-cases (get_elem? g' n)) [
        | inl absent ↦ absurd (ground (arith, there))
        | inr (node, e) ↦ (node, e, ground (arith, there))
      ]

  executed_nodes-IsCommitted :
      (order : List ℕ) (done : ℕ → Bool) (g' : Graph) (s' : engine.State) (committed : Committed)
      → IsRun keyed op (keyed.cell s) done g' s'
      → IsClosed g done
      → IsScheduled g (length batch) done order
      → IsCommitted done committed
      → IsFreshFrom (length batch) committed (executed_nodes engine none order (g', s'))
        × IsCommitted
            (marks order done)
            (commits_from committed (executed_nodes engine none order (g', s')))
  unfolding executed_nodes
  executed_nodes-IsCommitted [] done g' s' committed run closed sched c = (tt, c)
  executed_nodes-IsCommitted (n ∷ order) done g' s' committed run closed (lt, new, preds, rest) c =
      let (p, at_n) = get_elem?-some batch n lt in
      let run' =
        next-IsRun keyed batch g runnable built s valid n p done g' s' at_n run closed new preds in
      let (node, e, made) = node_of done _ _ n p at_n run' in
      let (fresh, all) =
        executed_nodes-IsCommitted order (mark n done) _ _ (add_commit node committed) run'
          (mark-IsClosed g done n closed preds) rest
          (add_commit-IsCommitted n p at_n done node committed c new made) in
      subst
        (λ ns.
          IsFreshFrom (length batch) committed ns
          × IsCommitted (marks (n ∷ order) done) (commits_from committed ns))
        (sym (executed_nodes-cons engine none n order (g', s') node e))
        (
          (
            not_committed n p at_n done node committed c new made,
            rw (own_seq_id n p at_n done node committed c new made) lt,
            fresh,
          ),
          all,
        )

-- Build succeeds on fewer than 2^63 operations; their nodes are executed under a context that has
-- not ended, by an engine that has a cell for each key, in any order in which each node comes once
-- and after every node with an edge to it; each is committed when it has been executed; and the
-- consumer receives every send. Then no Commit panics, the consumer has received one operation for
-- each of the batch, at each number i the operation i with the Result and Err that executing the
-- batch in SeqID order gives it, and the channel is closed.
pub run_order-delivers :
    {engine : StorageEngine} (keyed : IsKeyed engine) (batch : List Operation) (g : Graph)
    (runnable : List ℕ) (s : engine.State) (order : List ℕ) (sends : ℕ → Bool)
    → build batch ≡ ok (g, runnable)
    → length batch < 2 ^ 63
    → keyed.IsValid s
    → IsScheduled g (length batch) nothing order
    → ((n : ℕ) → n < length batch → marks order nothing n ≡ true)
    → ((n : ℕ) → sends n ≡ true)
    → (rb : ReorderBuffer) × (commit_all sends
          (executed_nodes engine none order (g, s))
          (drain none (length batch) new_reorder_buffer)
        ≡ some rb)
      × (length rb.out ≡ length batch)
      × ((i : ℕ)
          → i < length batch
          → get_elem? rb.out i
            ≡ operation_of (run_order engine none (range_from 0 (length batch)) (g, s)).0 i)
      × (rb.closed ≡ true)
run_order-delivers {engine} keyed batch g runnable s order sends built small valid sched all sent =
    let run = start-IsRun keyed batch g runnable built s valid in
    let closed : IsClosed g nothing = λ i j e d. cc in
    let (fresh, held) =
      executed_nodes-IsCommitted keyed batch g runnable built s valid order nothing g s (λ i. none)
        run closed sched (λ i. refl) in
    let final =
      (IsRun-finished keyed batch g runnable built s valid _ _ _
        (run_order-IsRun keyed batch g runnable built s valid order nothing g s run closed sched)
        all).1 in
    let given : (i : ℕ)
        → i < length batch
        → commits_of (executed_nodes engine none order (g, s)) i
          ≡ operation_of (run_order engine none order (g, s)).0 i =
      λ i lt. held i ∙ rw (all i lt) (sym (final i)) in
    let covered : (i : ℕ)
        → i < length batch
        → commits_of (executed_nodes engine none order (g, s)) i ≢ none =
      λ i lt missing.
        let (p, at_i) = get_elem?-some batch i lt in
        let e = final i in ground (arith, given i lt) in
    let (rb, e, whole, each, done) =
      reorder_complete sends none (length batch) (executed_nodes engine none order (g, s)) small
        fresh sent covered in
    (
      rb,
      e,
      whole,
      λ i lt.
          each i lt
          ∙ given i lt
          ∙ (run_order-serial keyed batch g runnable s order built valid sched all).1 i,
      done,
    )
