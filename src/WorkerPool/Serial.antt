-- ===== src/WorkerPool/Serial.antt =====
-- Any order of execution that follows the edges of Build's graph gives what the order of the batch
-- gives.
use khaos.Prelude.{
  some, ℕ, zero, suc, ◌+◌, ◌<◌, ◌≡◌, sym, ◌∙◌, GoString, List, [], ◌∷◌, Option, none, Bool, true,
  false, length, get_elem?, get_elem?_bound, ltb, if◌then◌else◌, arith, Option-cases, Bool-cases,
  inl, inr, get_elem?-some,
}
use mathlib.Core.Option
use native.Mathlib.Decide.{ℕ_discrete}
use khaos.Result.{ok}
use khaos.Storage.{StorageEngine, IsKeyed}
use khaos.Types.{Operation, Graph}
use khaos.Hazard.{build}
use khaos.Hazard.History.{writes_key, edge_bounds}
use khaos.Hazard.Invariant.{pass}
use khaos.Hazard.Order.{Waits}
use khaos.Hazard.Correct.{build-Built}
use khaos.Hazard.Outcome.{HasEdge, build-orders_conflicts, build-nodes}
use khaos.WorkerPool.{execute_node, run_order}
use khaos.WorkerPool.Cells.{cell_at, cell_at-zero, cell_at_quiet}
use khaos.WorkerPool.Schedule.{mark, operation_of, IsRun, execute_node-IsRun, outcome}

-- The nodes executed after an order.
abbrev pub marks : List ℕ → (ℕ → Bool) → ℕ → Bool
marks [] done = done
marks (n ∷ order) done = marks order (mark n done)

-- Each node of the order is one of the first `size`, has not been executed, and comes after every
-- node with an edge to it.
abbrev pub IsScheduled : Graph → ℕ → (ℕ → Bool) → List ℕ → Type 0
IsScheduled g size done [] = Unit
IsScheduled g size done (n ∷ order) =
    (n < size)
    × (done n ≡ false)
    × ((i : ℕ) → HasEdge g i n → done i ≡ true)
    × IsScheduled g size (mark n done) order

abbrev pub nothing : ℕ → Bool
nothing n = false

-- k, k + 1, …: n numbers.
abbrev pub range_from : ℕ → ℕ → List ℕ
range_from k zero = []
range_from k (suc n) = k ∷ range_from (suc k) n

abbrev pub IsClosed : Graph → (ℕ → Bool) → Type 0
IsClosed g done = (i j : ℕ) → HasEdge g i j → done j ≡ true → done i ≡ true

Waits-done :
    (g : Graph) (done : ℕ → Bool) {i j : ℕ}
    → IsClosed g done
    → Waits (HasEdge g) i j
    → done j ≡ true
    → done i ≡ true
Waits-done g done closed (Waits.direct r) d = closed _ _ r d
Waits-done g done closed (Waits.through w r) d = Waits-done g done closed w (closed _ _ r d)

-- All that a node waits for, if its direct predecessors are done.
pub Waits-ready :
    (g : Graph) (done : ℕ → Bool) {i n : ℕ}
    → IsClosed g done
    → ((a : ℕ) → HasEdge g a n → done a ≡ true)
    → Waits (HasEdge g) i n
    → done i ≡ true
Waits-ready g done closed preds (Waits.direct r) = preds _ r
Waits-ready g done closed preds (Waits.through w r) = Waits-done g done closed w (preds _ r)

pub mark-IsClosed :
    (g : Graph) (done : ℕ → Bool) (n : ℕ)
    → IsClosed g done
    → ((a : ℕ) → HasEdge g a n → done a ≡ true)
    → IsClosed g (mark n done)
mark-IsClosed g done n closed preds i j e d = elim (ℕ_discrete n j) [
  | yes same ↦ let r = preds i (rw same e) in ground arith
  | no other ↦ ground (arith, closed i j e)
]

module _ {engine : StorageEngine} (keyed : IsKeyed engine) (batch : List Operation) (g : Graph)
    (runnable : List ℕ) (built : build batch ≡ ok (g, runnable)) (s : engine.State)
    (valid : keyed.IsValid s) where
  abbrev op : ℕ → Option Operation
  op = get_elem? batch

  abbrev start : GoString → keyed.Cell
  start = keyed.cell s

  pub next-IsRun :
      (n : ℕ) (p : Operation) (done : ℕ → Bool) (g' : Graph) (s' : engine.State)
      → op n ≡ some p
      → IsRun keyed op start done g' s'
      → IsClosed g done
      → done n ≡ false
      → ((a : ℕ) → HasEdge g a n → done a ≡ true)
      → IsRun keyed op start
          (mark n done)
          (execute_node engine none n (g', s')).0
          (execute_node engine none n (g', s')).1
  next-IsRun n p done g' s' at_n run closed new preds =
      execute_node-IsRun keyed op start done g' s' run n p at_n new (λ i c.
        Waits-ready g done closed preds (build-orders_conflicts batch g runnable built i n c))

  pub run_order-IsRun :
      (order : List ℕ) (done : ℕ → Bool) (g' : Graph) (s' : engine.State)
      → IsRun keyed op start done g' s'
      → IsClosed g done
      → IsScheduled g (length batch) done order
      → IsRun keyed op start
          (marks order done)
          (run_order engine none order (g', s')).0
          (run_order engine none order (g', s')).1
  unfolding run_order
  run_order-IsRun [] done g' s' run closed sched = run
  run_order-IsRun (n ∷ order) done g' s' run closed (lt, new, preds, rest) =
      let (p, at_n) = get_elem?-some batch n lt in
      run_order-IsRun order (mark n done) _ _ (next-IsRun n p done g' s' at_n run closed new preds)
        (mark-IsClosed g done n closed preds) rest

  pub start-IsRun : IsRun keyed op start nothing g s
  start-IsRun = record {
    valid = valid;
    held = λ n. ground (arith, (build-nodes batch g runnable built).1 n);
    cut = λ k c h.
        sym (cell_at-zero keyed op start k)
        ∙ sym (
            cell_at_quiet keyed op start k 0 c (omega arith) (λ m p lo hi at.
              elim (Bool-cases (writes_key p k)) [
                | inr quiet ↦ quiet
                | inl w ↦ let d = (h m p at w).1 hi in cc
              ]));
    closed = λ i j c d. cc;
  }

  -- Once every node is executed, all is as the batch in order leaves it.
  pub IsRun-finished :
      (done : ℕ → Bool) (g' : Graph) (s' : engine.State)
      → IsRun keyed op start done g' s'
      → ((n : ℕ) → n < length batch → done n ≡ true)
      → ((k : GoString) → keyed.cell s' k ≡ cell_at keyed op start (length batch) k)
        × ((n : ℕ) → operation_of g' n ≡ Option.map (outcome keyed op start n) (op n))
  IsRun-finished done g' s' run all = (
    λ k. run.cut k (length batch) λ m p at w. (λ d. get_elem?_bound batch m at, λ lt. all m lt),
    λ n. run.held n ∙ finished n,
  )
    where
      finished :
          (n : ℕ)
          → (if done n then Option.map (outcome keyed op start n) (op n) else op n)
            ≡ Option.map (outcome keyed op start n) (op n)
      finished n = elim (Option-cases (get_elem? batch n)) [
        | inl absent ↦ ground arith
        | inr (p, e) ↦ ground (arith, all n (get_elem?_bound batch n e))
      ]

  HasEdge-lt : (i j : ℕ) → HasEdge g i j → i < j
  HasEdge-lt i j e =
      let b = build-Built batch built in
      ground (arith, b.graph.edges i j, edge_bounds (pass batch []) i j)

range_from-IsScheduled :
    (g : Graph) (size k n : ℕ) (done : ℕ → Bool)
    → ((i j : ℕ) → HasEdge g i j → i < j)
    → ((i : ℕ) → done i ≡ ltb i k)
    → k + n ≡ size
    → IsScheduled g size done (range_from k n)
range_from-IsScheduled g size k zero done forward so_far e = tt
range_from-IsScheduled g size k (suc n) done forward so_far e = (
  omega arith,
  ground (arith, so_far k),
  λ i edge. ground (arith, so_far i, forward i k edge),
  range_from-IsScheduled g size (suc k) n (mark k done) forward (λ i. ground (arith, so_far i))
      (omega arith),
)

marks-range_from :
    (k n : ℕ) (done : ℕ → Bool)
    → ((i : ℕ) → done i ≡ ltb i k)
    → (i : ℕ) → marks (range_from k n) done i ≡ ltb i (k + n)
marks-range_from k zero done so_far i = ground (arith, so_far i)
marks-range_from k (suc n) done so_far i =
    marks-range_from (suc k) n (mark k done) (λ j. ground (arith, so_far j)) i ∙ ground arith

-- What the batch in order leaves.
pub serial-finished :
    {engine : StorageEngine} (keyed : IsKeyed engine) (batch : List Operation) (g : Graph)
    (runnable : List ℕ) (s : engine.State) (built : build batch ≡ ok (g, runnable))
    (valid : keyed.IsValid s)
    → ((k : GoString)
        → keyed.cell (run_order engine none (range_from 0 (length batch)) (g, s)).1 k
          ≡ cell_at keyed (get_elem? batch) (keyed.cell s) (length batch) k)
      × ((n : ℕ)
          → operation_of (run_order engine none (range_from 0 (length batch)) (g, s)).0 n
            ≡ Option.map (outcome keyed (get_elem? batch) (keyed.cell s) n) (get_elem? batch n))
serial-finished {engine} keyed batch g runnable s built valid =
    let run =
      run_order-IsRun keyed batch g runnable built s valid (range_from 0 (length batch)) nothing g s
        (start-IsRun keyed batch g runnable built s valid) (λ i j e d. cc)
        (range_from-IsScheduled g (length batch) 0 (length batch) nothing
          (HasEdge-lt keyed batch g runnable built s valid) (λ i. ground arith) (omega arith)) in
    IsRun-finished keyed batch g runnable built s valid _ _ _ run
      (λ n lt. ground (arith, marks-range_from 0 (length batch) nothing (λ i. ground arith) n))

-- Build succeeds on a batch, and its nodes are executed one after another under a context that has
-- not ended, by an engine that has a cell for each key, in any order in which each node comes once
-- and after every node with an edge to it. Then every cell of the store, and the Key, Type, Value,
-- Result and Err of every operation, are those of the batch executed in SeqID order.
pub run_order-serial :
    {engine : StorageEngine} (keyed : IsKeyed engine) (batch : List Operation) (g : Graph)
    (runnable : List ℕ) (s : engine.State) (order : List ℕ)
    → build batch ≡ ok (g, runnable)
    → keyed.IsValid s
    → IsScheduled g (length batch) nothing order
    → ((n : ℕ) → n < length batch → marks order nothing n ≡ true)
    → ((k : GoString)
        → keyed.cell (run_order engine none order (g, s)).1 k
          ≡ keyed.cell (run_order engine none (range_from 0 (length batch)) (g, s)).1 k)
      × ((n : ℕ)
          → operation_of (run_order engine none order (g, s)).0 n
            ≡ operation_of (run_order engine none (range_from 0 (length batch)) (g, s)).0 n)
run_order-serial {engine} keyed batch g runnable s order built valid sched all =
    let closed : IsClosed g nothing = λ i j e d. cc in
    let run =
      run_order-IsRun keyed batch g runnable built s valid order nothing g s
        (start-IsRun keyed batch g runnable built s valid) closed sched in
    let (cells, ops) = IsRun-finished keyed batch g runnable built s valid _ _ _ run all in
    let (cells', ops') = serial-finished keyed batch g runnable s built valid in
    (λ k. cells k ∙ sym (cells' k), λ n. ops n ∙ sym (ops' n))
