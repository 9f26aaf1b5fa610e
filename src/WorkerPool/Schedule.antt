-- ===== src/WorkerPool/Schedule.antt =====
-- Nodes executed one after another, in any order that has every conflicting predecessor first: the
-- cells and the results are those of the batch run in order.
use khaos.Prelude.{
  ℕ, suc, ◌≤◌, ◌<◌, ◌≡◌, ◌↔◌, sym, ap, subst, ◌∙◌, GoString, Option, none, some, Bool, true, false,
  str_eq, str_eq_iff, get_elem?, get_elem?-modify, modify, ◌==◌, if◌then◌else◌, arith, Option-cases,
  Bool-cases, inl, inr,
}
use mathlib.Core.Option
use native.Mathlib.Decide.{dec_lt, ℕ_discrete}
use khaos.Storage.{StorageEngine, IsKeyed}
use khaos.Types.{Operation, DagNode, Graph}
use khaos.Hazard.History.{writes_key, conflicts}
use khaos.Hazard.Order.{Conflict}
use khaos.WorkerPool.{execute_op, execute_node}
use khaos.WorkerPool.Cells.{
  cell_after, cell_after_read, cell_at-suc, op_after, Executed, execute_op-Executed, cell_at,
  cell_at_quiet,
}

abbrev pub mark : ℕ → (ℕ → Bool) → ℕ → Bool
mark n done i = if n == i then true else done i

abbrev pub operation_of : Graph → ℕ → Option Operation
operation_of g n = Option.map (λ node. node.operation) (get_elem? g n)

conflict_of_write :
    (p q : Operation) → writes_key q p.key ≡ true → (conflicts q p ≡ true) × (conflicts p q ≡ true)
conflict_of_write p q w = ground (arith, str_eq_iff q.key p.key, str_eq_iff p.key q.key)

module _ {engine : StorageEngine} (keyed : IsKeyed engine) (op : ℕ → Option Operation)
    (start : GoString → keyed.Cell) where
  abbrev pub outcome : ℕ → Operation → Operation
  outcome n p = op_after keyed p p.type (cell_at keyed op start n p.key)

  -- `done` are the nodes executed so far.
  pub record IsRun (done : ℕ → Bool) (g : Graph) (s : engine.State) : Type 0 where
    pub valid : keyed.IsValid s
    pub held : (n : ℕ) → operation_of g n ≡ (if done n then Option.map (outcome n) (op n) else op n)
    pub cut :
        (k : GoString) (c : ℕ)
        → ((m : ℕ) (p : Operation)
            → op m ≡ some p
            → writes_key p k ≡ true
            → (done m ≡ true) ↔ (m < c))
        → keyed.cell s k ≡ cell_at keyed op start c k
    pub closed : (i j : ℕ) → Conflict op i j → done j ≡ true → done i ≡ true

  module _ (done : ℕ → Bool) (g : Graph) (s : engine.State) (run : IsRun done g s) (n : ℕ)
      (p : Operation) (at_n : op n ≡ some p) (new : done n ≡ false)
      (ready : (i : ℕ) → Conflict op i n → done i ≡ true) where
    -- A write of the key of p has been executed exactly if it stands before p.
    earlier_writes :
        (m : ℕ) (q : Operation)
        → op m ≡ some q
        → writes_key q p.key ≡ true
        → (done m ≡ true) ↔ (m < n)
    earlier_writes m q at w = (
      λ d. elim (dec_lt m n) [ yes lt ↦ lt | no ge ↦ absurd (too_late d ge) ],
      λ lt. ready m (record {
        earlier = q;
        later = p;
        at_i = at;
        at_j = at_n;
        ordered = lt;
        conflict = (conflict_of_write p q w).0;
      }),
    )
      where
        too_late : done m ≡ true → ¬ (m < n) → ⊥
        too_late d ge = elim (ℕ_discrete m n) [
          | yes same ↦ let d' : done n ≡ true = rw (← same) d in cc
          | no other ↦
              let c : Conflict op n m = record {
                earlier = p;
                later = q;
                at_i = at_n;
                at_j = at;
                ordered = omega arith;
                conflict = (conflict_of_write p q w).1;
              } in
              let d' = run.closed n m c d in cc
        ]

    cell_before : keyed.cell s p.key ≡ cell_at keyed op start n p.key
    cell_before = run.cut p.key n earlier_writes

    module _ (s' : engine.State) (op' : Operation) (ex : Executed keyed p p.type s s' op') where
      ex_quiet : (k : GoString) → writes_key p k ≡ false → keyed.cell s' k ≡ keyed.cell s k
      ex_quiet k quiet = elim (Bool-cases (str_eq p.key k)) [
        | inr other ↦ ex.cells k ∙ rw other
        | inl same ↦
            ex.cells k
            ∙ rw same (
                cell_after_read keyed p p.type (keyed.cell s p.key) (ground arith)
                ∙ ap (keyed.cell s) ((str_eq_iff p.key k).0 same))
      ]

      -- No write of the key that has been executed stands after p.
      quiet_after :
          (k : GoString) (c : ℕ)
          → ((m : ℕ) (q : Operation)
              → op m ≡ some q
              → writes_key q k ≡ true
              → (mark n done m ≡ true) ↔ (m < c))
          → p.key ≡ k
          → (m : ℕ) (q : Operation) → suc n ≤ m
          → m < c
          → op m ≡ some q
          → writes_key q k ≡ false
      quiet_after k c h key m q lo hi at = elim (Bool-cases (writes_key q k)) [
        | inr quiet ↦ quiet
        | inl w ↦
            let d : done m ≡ true = ground (arith, (h m q at w).1 hi) in
            let c : Conflict op n m = record {
              earlier = p;
              later = q;
              at_i = at_n;
              at_j = at;
              ordered = lo;
              conflict = (conflict_of_write p q (rw key w)).1;
            } in
            let d' = run.closed n m c d in cc
      ]

      written_cut :
          (k : GoString) (c : ℕ)
          → ((m : ℕ) (q : Operation)
              → op m ≡ some q
              → writes_key q k ≡ true
              → (mark n done m ≡ true) ↔ (m < c))
          → writes_key p k ≡ true
          → keyed.cell s' k ≡ cell_at keyed op start c k
      written_cut k c h w =
          let same : str_eq p.key k ≡ true = ground arith in
          let key : p.key ≡ k = (str_eq_iff p.key k).0 same in
          let before : keyed.cell s p.key ≡ cell_at keyed op start n k =
            cell_before ∙ ap (cell_at keyed op start n) key in
          let lt : n < c = (h n p at_n w).0 (ground arith) in
          ex.cells k
          ∙ rw same (
              ap (cell_after keyed p p.type) before
              ∙ sym (cell_at-suc keyed op start n k p at_n same)
              ∙ sym (cell_at_quiet keyed op start k (suc n) c lt (quiet_after k c h key)))

      next_cut :
          (k : GoString) (c : ℕ)
          → ((m : ℕ) (q : Operation)
              → op m ≡ some q
              → writes_key q k ≡ true
              → (mark n done m ≡ true) ↔ (m < c))
          → keyed.cell s' k ≡ cell_at keyed op start c k
      next_cut k c h = elim (Bool-cases (writes_key p k)) [
        | inl w ↦ written_cut k c h w
        | inr quiet ↦
            let other : (m : ℕ) (q : Operation)
                → op m ≡ some q
                → writes_key q k ≡ true
                → mark n done m ≡ done m =
              λ m q at w. elim (ℕ_discrete n m) [
                | yes same ↦
                    let e : some q ≡ some p = sym at ∙ ap op (sym same) ∙ at_n in
                    absurd (ground arith)
                | no ne ↦ ground arith
              ] in
            ex_quiet k quiet
            ∙ run.cut k c λ m q at w.
              let (there, back) = h m q at w in
              let same = other m q at w in (λ d. there (same ∙ d), λ lt. sym same ∙ back lt)
      ]

      next_held :
          (g' : Graph)
          → ((m : ℕ) → operation_of g' m ≡ (if n == m then some op' else operation_of g m))
          → (m : ℕ)
          → operation_of g' m ≡ (if mark n done m then Option.map (outcome m) (op m) else op m)
      next_held g' e m = elim (ℕ_discrete n m) [
        | yes same ↦
            let made : op' ≡ outcome n p = ex.outcome ∙ ap (op_after keyed p p.type) cell_before in
            let self : (n == n) ≡ true = ground arith in
            subst
              (λ i.
                operation_of g' i ≡ (if mark n done i then Option.map (outcome i) (op i) else op i))
              same (e n ∙ rw (self, at_n) (ap some made))
        | no other ↦ ground (arith, e m, run.held m)
      ]

    next_closed : (i j : ℕ) → Conflict op i j → mark n done j ≡ true → mark n done i ≡ true
    next_closed i j c d = elim (ℕ_discrete n j) [
      | yes same ↦ ground (arith, ready i (rw same c))
      | no other ↦ ground (arith, run.closed i j c)
    ]

    held_here : (node : DagNode) × (get_elem? g n ≡ some node) × (node.operation ≡ p)
    held_here = elim (Option-cases (get_elem? g n)) [
      | inl absent ↦ absurd (ground (arith, run.held n))
      | inr (node, e) ↦ (node, e, ground (arith, run.held n))
    ]

    -- One more node executed.
    pub execute_node-IsRun :
        IsRun
          (mark n done)
          (execute_node engine none n (g, s)).0
          (execute_node engine none n (g, s)).1
    unfolding execute_node
    execute_node-IsRun =
        let (node, e, same) = held_here in rw (e, execute_node) (executed node e same)
      where
        executed :
            (node : DagNode)
            → get_elem? g n ≡ some node
            → node.operation ≡ p
            → IsRun
                (mark n done)
                (modify n
                  (λ m. record m {
                    operation = (execute_op engine none node.operation node.type s).1;
                  })
                  g)
                (execute_op engine none node.operation node.type s).0
        executed node e same =
            let ran : Executed keyed p p.type s
                (execute_op engine none node.operation node.type s).0
                (execute_op engine none node.operation node.type s).1 =
              rw same (execute_op-Executed keyed p p.type s run.valid) in
            record {
              valid = ran.valid;
              held = next_held _ _ ran _ λ m. ground (
                arith,
                e,
                get_elem?-modify n
                    (λ (m : DagNode). record m {
                      operation = (execute_op engine none node.operation node.type s).1;
                    })
                    g m,
              );
              cut = next_cut _ _ ran;
              closed = next_closed;
            }
