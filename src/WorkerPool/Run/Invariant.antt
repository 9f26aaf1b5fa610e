-- ===== src/WorkerPool/Run/Invariant.antt =====
-- What holds between any two steps of Run.
use khaos.Prelude.{
  ℕ, ◌<◌, ◌≡◌, refl, sym, subst, fun_ext, ◌∙◌, List, none, some, Bool, true, false, if◌then◌else◌,
  Bool-cases, inl, inr,
}
use khaos.Values.{Error}
use khaos.Storage.{Context, StorageEngine}
use khaos.Types.{Graph, dependents_of}
use khaos.Hazard.Outcome.{HasEdge}
use khaos.Reorder.{ReorderBuffer}
use khaos.Reorder.Flush.{Committed, IsOrdered, IsComplete}
use khaos.WorkerPool.{execute_node}
use khaos.WorkerPool.Schedule.{mark, operation_of}
use khaos.WorkerPool.Run.{Pc, Shared}
use khaos.WorkerPool.Run.Heap.{done_of, SameEdges, IsNumbered}
use khaos.WorkerPool.Run.Places.{Place, edges_left, ran, shut, sent, is_waits, Holders}
use khaos.WorkerPool.Run.Balance.{Balanced, same-Balanced}
use khaos.WorkerPool.Run.Closing.{Closing}

-- The reorder buffer against what has been committed; until the context ends nothing is lost.
pub record Buffered (size : ℕ) (committed : Committed) (rob : ReorderBuffer) (ctx : Context)
    : Type 0 where
  pub ordered : IsOrdered committed rob
  pub total : rob.total ≡ size
  pub settled : ctx ≡ none → IsComplete committed rob × (committed rob.next_expected ≡ none)

-- A statement about the operations and the store that executing nodes keeps, if each is executed
-- once and after every node with an edge to it.
pub record Rule (engine : StorageEngine) (g0 : Graph) (size : ℕ) : Type 1 where
  pub Holds : Context → (ℕ → Bool) → Graph → engine.State → Type 0
  pub same :
      (ctx : Context) (done done' : ℕ → Bool) (g g' : Graph) (s : engine.State)
      → ((i : ℕ) → done' i ≡ done i)
      → ((i : ℕ) → operation_of g' i ≡ operation_of g i)
      → Holds ctx done g s
      → Holds ctx done' g' s
  pub executes :
      (ctx : Context) (done : ℕ → Bool) (g : Graph) (s : engine.State) (n : ℕ)
      → n < size
      → done n ≡ false
      → ((a : ℕ) → HasEdge g0 a n → done a ≡ true)
      → ((i j : ℕ) → HasEdge g0 i j → done j ≡ true → done i ≡ true)
      → Holds ctx done g s
      → Holds ctx
          (mark n done)
          (execute_node engine ctx n (g, s)).0
          (execute_node engine ctx n (g, s)).1
  pub ends :
      (e : Error) (done : ℕ → Bool) (g : Graph) (s : engine.State)
      → Holds none done g s
      → Holds (some e) done g s

abbrev pub committed_in : (ℕ → Place) → (ℕ → Pc) → Graph → Committed
committed_in place pcs g i = if sent pcs (place i) then operation_of g i else none

module _ {engine : StorageEngine} {g0 : Graph} {size : ℕ} (rule : Rule engine g0 size) where
  -- `place` says where each node is.
  pub record Inv (workers : ℕ) (place : ℕ → Place) (sh : Shared engine) (pcs : ℕ → Pc)
      : Type 0 where
    pub edges : SameEdges g0 sh.graph
    pub holders : Holders workers size place pcs sh.queue
    pub balanced : Balanced size (dependents_of g0) sh.graph place pcs
    pub dones : (j : ℕ) → j < size → done_of sh.graph j ≡ shut pcs (place j)
    pub closing : Closing workers size place pcs sh.remaining sh.closed sh.ctx
    pub numbered : IsNumbered sh.graph
    pub buffered : Buffered size (committed_in place pcs sh.graph) sh.rob sh.ctx
    pub rules : rule.Holds sh.ctx (λ i. ran pcs (place i)) sh.graph sh.store

  module _ {workers : ℕ} {place : ℕ → Place} {sh : Shared engine} {pcs : ℕ → Pc}
      (inv : Inv workers place sh pcs) where
    pub Buffered-same :
        (place' : ℕ → Place) (pcs' : ℕ → Pc) (g' : Graph)
        → ((i : ℕ) → sent pcs' (place' i) ≡ sent pcs (place i))
        → ((i : ℕ) → sent pcs (place i) ≡ true → operation_of g' i ≡ operation_of sh.graph i)
        → Buffered size (committed_in place' pcs' g') sh.rob sh.ctx
    Buffered-same place' pcs' g' sents ops =
        subst (λ c. Buffered size c sh.rob sh.ctx) (sym (fun_ext each)) inv.buffered
      where
        each : (i : ℕ) → committed_in place' pcs' g' i ≡ committed_in place pcs sh.graph i
        each i = elim (Bool-cases (sent pcs (place i))) [
          | inl yes_i ↦
              let now : sent pcs' (place' i) ≡ true = sents i ∙ yes_i in
              rw (yes_i, now) (ops i yes_i)
          | inr no_i ↦
              let now : sent pcs' (place' i) ≡ false = sents i ∙ no_i in rw (no_i, now) refl
        ]

    -- A step that changes neither the graph, the store, the buffer nor a flag.
    pub quiet-Inv :
        (place' : ℕ → Place) (pcs' : ℕ → Pc) (queue' : List ℕ) (closed' : Bool) (remaining' : ℕ)
        → ((i : ℕ)
            → edges_left (dependents_of g0 i) pcs' (place' i)
              ≡ edges_left (dependents_of g0 i) pcs (place i))
        → ((i : ℕ) → ran pcs' (place' i) ≡ ran pcs (place i))
        → ((i : ℕ) → shut pcs' (place' i) ≡ shut pcs (place i))
        → ((i : ℕ) → sent pcs' (place' i) ≡ sent pcs (place i))
        → ((i : ℕ) → is_waits (place' i) ≡ is_waits (place i))
        → Holders workers size place' pcs' queue'
        → Closing workers size place' pcs' remaining' closed' sh.ctx
        → Inv workers place'
            (record sh { queue = queue'; closed = closed'; remaining = remaining' })
            pcs'
    quiet-Inv place' pcs' queue' closed' remaining' lefts rans shuts sents kept holders closing =
        record {
          edges = inv.edges;
          holders = holders;
          balanced = same-Balanced inv.balanced sh.graph place' pcs' (λ j. refl) lefts kept;
          dones = λ j lt. inv.dones j lt ∙ sym (shuts j);
          closing = closing;
          numbered = inv.numbered;
          buffered = Buffered-same place' pcs' sh.graph sents (λ i e. refl);
          rules = rule.same sh.ctx _ _ sh.graph sh.graph sh.store rans (λ i. refl) inv.rules;
        }
