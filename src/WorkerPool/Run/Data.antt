-- ===== src/WorkerPool/Run/Data.antt =====
-- Until the context ends, the operations and the store are those of the nodes executed so far, as
-- the batch in order has them.
use khaos.Prelude.{
  ℕ, ◌<◌, ◌≡◌, sym, subst, fun_ext, ◌∙◌, List, none, Bool, true, false, not, length, get_elem?,
  get_elem?-some, get_elem?_bound, ltb, if◌then◌else◌, arith, Option-cases, inl, inr,
}
use mathlib.Core.Option
use khaos.Result.{ok}
use khaos.Storage.{Context, StorageEngine, IsKeyed}
use khaos.Types.{Operation, Graph}
use khaos.Hazard.{build}
use khaos.Hazard.Outcome.{HasEdge}
use khaos.WorkerPool.{execute_node}
use khaos.WorkerPool.Schedule.{mark, operation_of, IsRun, outcome}
use khaos.WorkerPool.Serial.{next-IsRun, start-IsRun}
use khaos.WorkerPool.Run.Invariant.{Rule}

module _ {engine : StorageEngine} (keyed : IsKeyed engine) (batch : List Operation) (g : Graph)
    (runnable : List ℕ) (built : build batch ≡ ok (g, runnable)) (s0 : engine.State)
    (valid : keyed.IsValid s0) where
  abbrev pub SerialRun : (ℕ → Bool) → Graph → engine.State → Type 0
  SerialRun = IsRun keyed (get_elem? batch) (keyed.cell s0)

  pub same-SerialRun :
      (done done' : ℕ → Bool) (h h' : Graph) (s : engine.State)
      → ((i : ℕ) → done' i ≡ done i)
      → ((i : ℕ) → operation_of h' i ≡ operation_of h i)
      → SerialRun done h s
      → SerialRun done' h' s
  same-SerialRun done done' h h' s dones ops run =
      let moved : SerialRun done h' s = record {
        valid = run.valid;
        held = λ n. ops n ∙ run.held n;
        cut = run.cut;
        closed = run.closed;
      } in
      subst (λ d. SerialRun d h' s) (sym (fun_ext dones)) moved

  pub executes-SerialRun :
      (ctx : Context) (done : ℕ → Bool) (h : Graph) (s : engine.State) (n : ℕ)
      → ctx ≡ none
      → n < length batch
      → done n ≡ false
      → ((a : ℕ) → HasEdge g a n → done a ≡ true)
      → ((i j : ℕ) → HasEdge g i j → done j ≡ true → done i ≡ true)
      → SerialRun done h s
      → SerialRun
          (mark n done)
          (execute_node engine ctx n (h, s)).0
          (execute_node engine ctx n (h, s)).1
  executes-SerialRun ctx done h s n running lt new preds closed run =
      let (p, at) = get_elem?-some batch n lt in
      rw running
        (next-IsRun keyed batch g runnable built s0 valid n p done h s at run closed new preds)

  abbrev pub serial_rule : Rule engine g (length batch)
  serial_rule = record {
    Holds = λ ctx done h s. ctx ≡ none → SerialRun done h s;
    same = λ ctx done done' h h' s dones ops run running.
        same-SerialRun done done' h h' s dones ops (run running);
    executes = λ ctx done h s n lt new preds closed run running.
        executes-SerialRun ctx done h s n running lt new preds closed (run running);
    ends = λ e done h s run running. cc;
  }

  -- Before any node is executed; what lies beyond the batch counts as executed.
  pub start-SerialRun : SerialRun (λ i. not (ltb i (length batch))) g s0
  start-SerialRun =
      let run = start-IsRun keyed batch g runnable built s0 valid in
      record {
        valid = valid;
        held = λ n. beyond n (run.held n);
        cut = λ k c h. run.cut k c (λ m p at w.
            let (there, back) = h m p at w in
            let lt = get_elem?_bound batch m at in
            (λ d. cc, λ below. let f = back below in ground (arith, lt)));
        closed = λ i j c d. let lt = get_elem?_bound batch j c.at_j in ground (arith, lt);
      }
    where
      beyond :
          (n : ℕ)
          → operation_of g n ≡ get_elem? batch n
          → operation_of g n ≡ (
              if not (ltb n (length batch))
              then Option.map
                  (outcome keyed (get_elem? batch) (keyed.cell s0) n)
                  (get_elem? batch n)
              else get_elem? batch n)
      beyond n e = elim (Option-cases (get_elem? batch n)) [
        | inl absent ↦ ground (arith, e)
        | inr (p, at) ↦ ground (arith, e, get_elem?_bound batch n at)
      ]
