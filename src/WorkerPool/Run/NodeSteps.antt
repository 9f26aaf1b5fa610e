-- ===== src/WorkerPool/Run/NodeSteps.antt =====
-- The steps of a worker on the node in its hands keep the invariant: executeNode, a decrement of
-- Release, and the close of the node's channel.
use khaos.Prelude.{
  ℕ, ◌<◌, ◌≡◌, refl, sym, ap, ◌∙◌, List, [], true, false, length, count, set_at, zero-of-sum_below,
  get_elem?, get_elem?_bound, ◌==◌, arith, Option-cases, inl, inr,
}
use native.Mathlib.Decide.{ℕ_discrete, dec_lt}
use khaos.Storage.{StorageEngine}
use khaos.Types.{Graph, dependents_of}
use khaos.Hazard.Outcome.{HasEdge}
use khaos.WorkerPool.{execute_node}
use khaos.WorkerPool.Schedule.{mark}
use khaos.WorkerPool.Run.{
  Pc, waiting, executing, releasing, committing, sending, closing_queue, exited, Shared,
}
use khaos.WorkerPool.Run.Heap.{SameEdges, execute_node-Ran, Ran, execute_node-IsNumbered}
use khaos.WorkerPool.Run.Places.{
  Place, waits, ready, queued, held, finished, holds, edges_at, edges_left, ran, sent, has_run,
  has_closed, has_committed, is_waits, held_of,
}
use khaos.WorkerPool.Run.Holders.{stay-Holders}
use khaos.WorkerPool.Run.Flags.{stay_flag, step_flag}
use khaos.WorkerPool.Run.Balance.{load, same-Balanced}
use khaos.WorkerPool.Run.Closing.{go-Closing}
use khaos.WorkerPool.Run.Invariant.{Rule, Inv, Buffered-same}

pub SameEdges-trans : {g g' g'' : Graph} → SameEdges g g' → SameEdges g' g'' → SameEdges g g''
SameEdges-trans a b = record { size = b.size ∙ a.size; deps = λ i. b.deps i ∙ a.deps i }

pub HasEdge-bound : (g : Graph) (a j : ℕ) → HasEdge g a j → a < length g
HasEdge-bound g a j e = elim (Option-cases (get_elem? g a)) [
  | inl absent ↦ absurd (ground (arith, absent))
  | inr (node, at) ↦ get_elem?_bound g a at
]

edges_at-has_run :
    (j : ℕ) (full : List ℕ) (p : Pc)
    → count j (edges_at full p) ≡ 0
    → count j full ≡ 1
    → has_run p ≡ true
edges_at-has_run j full waiting gone there = refl
edges_at-has_run j full (executing n) gone there = absurd (omega arith)
edges_at-has_run j full (releasing n deps newly) gone there = refl
edges_at-has_run j full (committing n newly) gone there = refl
edges_at-has_run j full (sending n next) gone there = refl
edges_at-has_run j full closing_queue gone there = refl
edges_at-has_run j full exited gone there = refl

-- A released edge comes from a node that has been executed.
edges_left-ran :
    (j : ℕ) (full : List ℕ) (pcs : ℕ → Pc) (q : Place)
    → count j (edges_left full pcs q) ≡ 0
    → count j full ≡ 1
    → ran pcs q ≡ true
edges_left-ran j full pcs waits gone there = absurd (omega arith)
edges_left-ran j full pcs (ready v) gone there = absurd (omega arith)
edges_left-ran j full pcs queued gone there = absurd (omega arith)
edges_left-ran j full pcs (held v) gone there = edges_at-has_run j full (pcs v) gone there
edges_left-ran j full pcs finished gone there = refl

pub ran-is_waits : (pcs : ℕ → Pc) (q : Place) → ran pcs q ≡ true → is_waits q ≡ false
ran-is_waits pcs waits e = cc
ran-is_waits pcs (ready v) e = cc
ran-is_waits pcs queued e = cc
ran-is_waits pcs (held v) e = refl
ran-is_waits pcs finished e = refl

module _ {engine : StorageEngine} {g0 : Graph} {size : ℕ} (whole : length g0 ≡ size)
    (rule : Rule engine g0 size) {workers : ℕ} {place : ℕ → Place} {sh : Shared engine}
    {pcs : ℕ → Pc} (inv : Inv rule workers place sh pcs) where
  -- A node that does not wait has all its predecessors executed.
  pub before-ran :
      (a j : ℕ) → is_waits (place j) ≡ false → HasEdge g0 a j → ran pcs (place a) ≡ true
  before-ran a j free e =
      let bound : a < size = rw (← whole) (HasEdge-bound g0 a j e) in
      let no_load : load size (dependents_of g0) place pcs j ≡ 0 =
        ground (arith, inv.balanced.blocked j) in
      edges_left-ran j (dependents_of g0 a) pcs (place a)
        (zero-of-sum_below size (λ i. count j (edges_left (dependents_of g0 i) pcs (place i))) a
          no_load bound)
        e

  pub graph-size : length sh.graph ≡ size
  graph-size = inv.edges.size ∙ whole

  module _ (w : ℕ) (lt : w < workers) where
    pub in_hand : (n : ℕ) (p : Pc) → pcs w ≡ p → holds n p ≡ true → place n ≡ held w
    in_hand n p at mine = held_of w (place n) (sym (inv.holders.hands w n) ∙ ap (holds n) at ∙ mine)

    pub held-lt-size : (n : ℕ) (p : Pc) → pcs w ≡ p → holds n p ≡ true → n < size
    held-lt-size n p at mine = elim (dec_lt n size) [
      | yes inside ↦ inside
      | no out ↦
          let f = inv.holders.outside n (omega arith) in
          let m = in_hand n p at mine in absurd (ground arith)
    ]

    module _ (n : ℕ) (at : pcs w ≡ executing n) where
      abbrev run_graph : Graph
      run_graph = (execute_node engine sh.ctx n (sh.graph, sh.store)).0

      abbrev run_pc : Pc
      run_pc = releasing n (dependents_of run_graph n) []

      run-Ran : Ran engine sh.ctx n sh.graph sh.store run_graph
      run-Ran = execute_node-Ran engine sh.ctx n sh.graph sh.store

      run_edges :
          (i : ℕ)
          → edges_left (dependents_of g0 i) (set_at w run_pc pcs) (place i)
            ≡ edges_left (dependents_of g0 i) pcs (place i)
      run_edges i =
          step_flag inv.holders w (edges_at (dependents_of g0 i)) (dependents_of g0 i) []
            (executing n) run_pc at i
          ∙ elim (ℕ_discrete n i) [
            | yes same ↦
                let self : (n == i) ≡ true = ground arith in
                let mine : place i ≡ held w = in_hand i (executing n) at self in
                rw (self, mine)
                  (run-Ran.edges.deps n
                    ∙ inv.edges.deps n
                    ∙ ap (dependents_of g0) same
                    ∙ sym (ap (edges_at (dependents_of g0 i)) at))
            | no other ↦ let diff : (n == i) ≡ false = ground arith in rw diff refl
          ]

      not_yet : ran pcs (place n) ≡ false
      not_yet =
          let self : (n == n) ≡ true = ground arith in
          rw (in_hand n (executing n) at self) (ap has_run at)

      run_marks : (i : ℕ) → ran (set_at w run_pc pcs) (place i) ≡ mark n (λ j. ran pcs (place j)) i
      run_marks i = step_flag inv.holders w has_run false true (executing n) run_pc at i

      unsent : (i : ℕ) → sent pcs (place i) ≡ true → (n == i) ≡ false
      unsent i e = elim (ℕ_discrete n i) [
        | yes same ↦
            let self : (n == i) ≡ true = ground arith in
            let mine : place i ≡ held w = in_hand i (executing n) at self in
            let no_i : sent pcs (place i) ≡ false = rw mine (ap has_committed at) in
            absurd (ground arith)
        | no other ↦ ground arith
      ]

      pub execute-Inv :
          Inv rule workers place
            (record sh {
              graph = run_graph;
              store = (execute_node engine sh.ctx n (sh.graph, sh.store)).1;
            })
            (set_at w run_pc pcs)
      execute-Inv =
          let self : (n == n) ≡ true = ground arith in
          let mine : place n ≡ held w = in_hand n (executing n) at self in
          let free : is_waits (place n) ≡ false = rw mine refl in
          record {
            edges = SameEdges-trans inv.edges run-Ran.edges;
            holders = stay-Holders inv.holders w lt (executing n) run_pc at (λ j. refl) refl;
            balanced =
                same-Balanced inv.balanced run_graph place (set_at w run_pc pcs) run-Ran.degrees
                  run_edges (λ j. refl);
            dones = λ j below.
                run-Ran.dones j
                ∙ inv.dones j below
                ∙ sym
                    (stay_flag has_closed false true pcs w (executing n) run_pc at refl (place j));
            closing =
                go-Closing inv.closing w lt (executing n) run_pc place at refl refl (λ e r. cc)
                  (λ j. refl);
            numbered = execute_node-IsNumbered engine sh.ctx n sh.graph sh.store inv.numbered;
            buffered =
                Buffered-same rule inv place (set_at w run_pc pcs) run_graph
                  (λ i.
                    stay_flag has_committed false true pcs w (executing n) run_pc at refl (place i))
                  (λ i e. run-Ran.others i (unsent i e));
            rules =
                rule.same sh.ctx _ _ run_graph run_graph _ run_marks (λ i. refl)
                  (rule.executes sh.ctx _ sh.graph sh.store n (held-lt-size n (executing n) at self)
                    not_yet (λ a e. before-ran a n free e)
                    (λ i j e d. before-ran i j (ran-is_waits pcs (place j) d) e) inv.rules);
          }
