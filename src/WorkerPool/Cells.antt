-- ===== src/WorkerPool/Cells.antt =====
-- What executeNode does to the cell of its key, and the cells as the batch leaves them in order.
use khaos.Prelude.{
  ℕ, zero, suc, ◌≤◌, ◌<◌, ◌≡◌, refl, ◌∙◌, GoString, Option, none, some, true, false, str_eq,
  str_eq_iff, ap, sym, if◌then◌else◌, arith, Option-cases, Bool-cases, inl, inr,
}
use native.Mathlib.Decide.{dec_lt}
use khaos.Values.{unknown_operation_type_at_execution}
use khaos.Storage.{StorageEngine, IsKeyed}
use khaos.Types.{OperationType, op_read, op_write, op_delete, undefined, Operation}
use khaos.Hazard.History.{writes, writes_key}
use khaos.WorkerPool.{fail_or, execute_op}

module _ {engine : StorageEngine} (keyed : IsKeyed engine) where
  open keyed use {Cell, IsValid, cell, get_cell, set_cell, delete_cell}

  -- The cell after the operation, and the operation after it.
  abbrev pub cell_after : Operation → OperationType → Cell → Cell
  cell_after op op_read c = c
  cell_after op op_write c = (set_cell op.value c).0
  cell_after op op_delete c = (delete_cell c).0
  cell_after op (undefined n) c = c

  abbrev pub op_after : Operation → OperationType → Cell → Operation
  op_after op op_read c =
      let found = get_cell c in
      fail_or found.err op (if found.found then record op { result = found.value } else op)
  op_after op op_write c = fail_or (set_cell op.value c).1 op (record op { result = op.value })
  op_after op op_delete c = fail_or (delete_cell c).1 op op
  op_after op (undefined n) c = record op { err = some unknown_operation_type_at_execution }

  pub record Executed (op : Operation) (t : OperationType) (s s' : engine.State) (op' : Operation)
      : Type 0 where
    pub valid : IsValid s'
    pub outcome : op' ≡ op_after op t (cell s op.key)
    pub cells :
        (k : GoString)
        → cell s' k ≡ (if str_eq op.key k then cell_after op t (cell s op.key) else cell s k)

  same_cell :
      (key k : GoString) (s : engine.State)
      → cell s k ≡ (if str_eq key k then cell s key else cell s k)
  same_cell key k s = elim (Bool-cases (str_eq key k)) [
    | inl e ↦ rw e (ap (cell s) (sym ((str_eq_iff key k).0 e)))
    | inr e ↦ rw e
  ]

  pub execute_op-Executed :
      (op : Operation) (t : OperationType) (s : engine.State)
      → IsValid s
      → Executed op t s (execute_op engine none op t s).0 (execute_op engine none op t s).1
  unfolding execute_op
  execute_op-Executed op op_read s v = record {
    valid = v;
    outcome = rw (keyed.get_lem op.key s v);
    cells = λ k. same_cell op.key k s;
  }
  execute_op-Executed op op_write s v = record {
    valid = keyed.set-IsValid op.key op.value s v;
    outcome = rw (keyed.set_error op.key op.value s v);
    cells = λ k. keyed.set_cells op.key op.value s k v;
  }
  execute_op-Executed op op_delete s v = record {
    valid = keyed.delete-IsValid op.key s v;
    outcome = rw (keyed.delete_error op.key s v);
    cells = λ k. keyed.delete_cells op.key s k v;
  }
  execute_op-Executed op (undefined n) s v = record {
    valid = v;
    outcome = refl;
    cells = λ k. same_cell op.key k s;
  }

  pub cell_after_read :
      (op : Operation) (t : OperationType) (c : Cell) → writes t ≡ false → cell_after op t c ≡ c
  cell_after_read op op_read c e = refl
  cell_after_read op op_write c e = cc
  cell_after_read op op_delete c e = cc
  cell_after_read op (undefined n) c e = refl

  module _ (op : ℕ → Option Operation) (start : GoString → Cell) where
    -- The cell of a key after the operations before position n, one after another.
    pub cell_at : ℕ → GoString → Cell
    cell_at zero k = start k
    cell_at (suc n) k = elim (op n) [
      | none ↦ cell_at n k
      | some p ↦ if str_eq p.key k then cell_after p p.type (cell_at n k) else cell_at n k
    ]

    pub cell_at-zero : (k : GoString) → cell_at 0 k ≡ start k
    unfolding cell_at
    cell_at-zero k = refl

    pub cell_at-suc :
        (n : ℕ) (k : GoString) (p : Operation)
        → op n ≡ some p
        → str_eq p.key k ≡ true
        → cell_at (suc n) k ≡ cell_after p p.type (cell_at n k)
    unfolding cell_at
    cell_at-suc n k p e same = rw (e, cell_at) (rw same)

    cell_at_quiet_step :
        (n : ℕ) (k : GoString)
        → ((p : Operation) → op n ≡ some p → writes_key p k ≡ false)
        → cell_at (suc n) k ≡ cell_at n k
    unfolding cell_at
    cell_at_quiet_step n k quiet = elim (Option-cases (op n)) [
      | inl e ↦ rw (e, cell_at)
      | inr (p, e) ↦ rw (e, cell_at) (unchanged p (quiet p e))
    ]
      where
        unchanged :
            (p : Operation)
            → writes_key p k ≡ false
            → (if str_eq p.key k then cell_after p p.type (cell_at n k) else cell_at n k)
              ≡ cell_at n k
        unchanged p w = elim (Bool-cases (str_eq p.key k)) [
          | inr other ↦ rw other
          | inl same ↦ rw same (cell_after_read p p.type (cell_at n k) (ground arith))
        ]

    -- Where nothing writes a key, its cell stays.
    pub cell_at_quiet :
        (k : GoString) (from upto : ℕ)
        → from ≤ upto
        → ((m : ℕ) (p : Operation) → from ≤ m → m < upto → op m ≡ some p → writes_key p k ≡ false)
        → cell_at upto k ≡ cell_at from k
    cell_at_quiet k from zero le quiet = let e : from ≡ 0 = omega arith in rw e
    cell_at_quiet k from (suc upto) le quiet = elim (dec_lt upto from) [
      | yes reached ↦ let e : from ≡ suc upto = omega arith in rw e
      | no more ↦
          cell_at_quiet_step upto k (λ p at. quiet upto p (omega arith) (omega arith) at)
          ∙ cell_at_quiet k from upto (omega arith) (λ m p lo hi at. quiet m p lo (omega arith) at)
    ]
