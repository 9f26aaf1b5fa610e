-- ===== src/WorkerPool/Run/Safe.antt =====
-- workerpool.go: Run: no step panics, no send blocks, and no two operations on one key are executed
-- at the same time or in the wrong order.
use khaos.Prelude.{
  ℕ, ◌^◌, ◌≤◌, ◌<◌, ◌≡◌, ◌≢◌, ◌⊎◌, refl, sym, ap, subst, ◌∙◌, List, [], ◌∷◌, Bool, true, false,
  length, get_elem?, get_elem?-some, get_elem?_bound, count, ◌==◌, arith, Bool-cases, inl, inr,
  All-of-count, length-eq-sum_below, sum_below-le_one,
}
use native.Mathlib.Decide.{ℕ_discrete}
use khaos.Result.{ok}
use khaos.Storage.{Context, StorageEngine}
use khaos.Types.{Operation, Graph}
use khaos.Hazard.{build}
use khaos.Hazard.Order.{Conflict}
use khaos.Hazard.Outcome.{build-orders_conflicts}
use khaos.WorkerPool.Schedule.{mark, operation_of}
use khaos.WorkerPool.Serial.{marks, IsScheduled, nothing, Waits-ready}
use khaos.WorkerPool.Run.{
  Pc, executing, sending, exited, Choice, Outcome, moved, blocked, panicked, advance, Shared, Pool,
  Reach,
}
use khaos.WorkerPool.Run.Places.{Place, ran, sent, has_run, held}
use khaos.WorkerPool.Run.Closing.{is_exited}
use khaos.WorkerPool.Run.Invariant.{committed_in}
use khaos.WorkerPool.Run.NodeSteps.{in_hand, before-ran, ran-is_waits}
use khaos.WorkerPool.Run.Keeps.{Keeps, advance-Keeps, open_while_held, room}
use khaos.WorkerPool.Run.Trace.{executed, steps, Traced}
use khaos.WorkerPool.Run.Mobile.{moved_of}
use khaos.WorkerPool.Run.Progress.{progress}
use khaos.WorkerPool.Run.Start.{built-size, count-runnable, forward}
use khaos.WorkerPool.Run.Reached.{
  run_batch, capacity, is_panicked, any_rule, most_steps, exact, traced,
}

pub marks-count :
    (i : ℕ) (order : List ℕ) (done : ℕ → Bool)
    → marks order done i ≡ true
    → done i ≡ false
    → 0 < count i order
marks-count i [] done e new = cc
marks-count i (n ∷ order) done e new = elim (ℕ_discrete n i) [
  | yes same ↦ ground arith
  | no other ↦ ground (arith, marks-count i order (mark n done) e)
]

pub sent-ran : (pcs : ℕ → Pc) (q : Place) → sent pcs q ≡ true → ran pcs q ≡ true
sent-ran pcs q e = ground arith

is_exited-eq : (p : Pc) → is_exited p ≡ true → p ≡ exited
is_exited-eq p e = ground arith

module _ {engine : StorageEngine} (batch : List Operation) (g : Graph) (runnable : List ℕ)
    (built : build batch ≡ ok (g, runnable)) (small : length batch < 2 ^ 63)
    (some_node : 0 < length batch) (workers : ℕ) (ctx : Context) (store : engine.State)
    {q : Pool engine}
    (r : Reach engine workers
      (capacity g runnable)
      (run_batch engine ctx batch g runnable store)
      q) where
  abbrev Trace : Type 0
  Trace =
      Traced (built-size batch g runnable built small) (any_rule engine g (length batch)) workers
        (most_steps workers batch g) (executed r) (steps r) q

  trace : Trace
  trace =
      traced batch g runnable built small some_node workers ctx store
        (any_rule engine g (length batch)) tt r

  -- A step of a worker in a state that has been reached.
  advance_safe :
      (w : ℕ)
      → w < workers
      → (choice : Choice)
      → is_panicked (advance engine (capacity g runnable) choice q.shared (q.pcs w)) ≡ false
  advance_safe w lt choice =
      subst (λ n. is_panicked (advance engine n choice q.shared (q.pcs w)) ≡ false)
        (sym (exact batch g runnable built small))
        (kept _ (
          advance-Keeps (built-size batch g runnable built small) (any_rule engine g (length batch))
            trace.inv w lt choice (q.pcs w) refl))
    where
      kept :
          (o : Outcome engine)
          → Keeps
              (built-size batch g runnable built small)
              (any_rule engine g (length batch))
              trace.inv
              w
              lt
              (q.pcs w)
              o
          → is_panicked o ≡ false
      kept (moved sh p) k = refl
      kept blocked k = refl
      kept panicked k = absurd k

  runnable_fits : length runnable ≤ capacity g runnable
  runnable_fits = omega (
    arith,
    exact batch g runnable built small,
    length-eq-sum_below (length batch) runnable (
        All-of-count (λ a. a < length batch) runnable
          (λ a there. ground (arith, count-runnable batch g runnable built small a))),
    sum_below-le_one (length batch) (λ a. count a runnable)
        (λ a. ground (arith, count-runnable batch g runnable built small a)),
  )

  was_executed :
      (i : ℕ) → i < length batch → ran q.pcs (trace.place i) ≡ true → 0 < count i (executed r)
  was_executed i lt e = marks-count i (executed r) nothing (trace.marked i lt ∙ e) refl

  -- Build gives a graph for at least one and fewer than 2^63 operations, and Run starts any number
  -- of workers on it. Then the initial nodes fit in the queue, and in every state that the workers
  -- reach, in whatever order they take their steps and whenever the context ends: no step of a
  -- worker panics (no send to the queue after its close and no second close of it, no second close of
  -- a node's done channel, no send of Commit after the consumer's channel is closed); and a worker
  -- about to send a node finds the queue open and with room.
  pub run_safe :
      (length runnable ≤ capacity g runnable)
      × ((w : ℕ) (choice : Choice)
          → w < workers
          → is_panicked (advance engine (capacity g runnable) choice q.shared (q.pcs w)) ≡ false)
      × ((w n m : ℕ) (next : List ℕ)
          → w < workers
          → q.pcs w ≡ sending n (m ∷ next)
          → (q.shared.closed ≡ false) × (length q.shared.queue < capacity g runnable))
  run_safe = (
    runnable_fits,
    λ w choice lt. advance_safe w lt choice,
    λ w n m next lt at.
        let inv = trace.inv in
        let whole = built-size batch g runnable built small in
        let any = any_rule engine g (length batch) in
        (
          open_while_held whole any inv w lt n (sending n (m ∷ next)) at (ground arith),
          omega (arith, room whole any inv w lt n m next at, exact batch g runnable built small),
        ),
  )

  -- Build gives a graph for at least one and fewer than 2^63 operations. In every state that the
  -- workers of Run reach, in whatever order they take their steps and whenever the context ends, no
  -- node has been executed twice, and each has been executed after every node with an edge to it.
  pub run-IsScheduled : IsScheduled g (length batch) nothing (executed r)
  run-IsScheduled = trace.scheduled

  -- Build gives a graph for at least one and fewer than 2^63 operations. When a worker of Run is
  -- about to execute an operation, every earlier operation of the batch on its key, one of the two
  -- writing or deleting, has been executed, and no worker is about to execute it.
  pub run-orders_conflicts :
      (w i j : ℕ)
      → w < workers
      → q.pcs w ≡ executing j
      → Conflict (get_elem? batch) i j
      → (0 < count i (executed r)) × ((v : ℕ) → v < workers → q.pcs v ≢ executing i)
  run-orders_conflicts w i j lt at c =
      let inv = trace.inv in
      let whole = built-size batch g runnable built small in
      let any = any_rule engine g (length batch) in
      let self : (j == j) ≡ true = ground arith in
      let mine : trace.place j ≡ held w = in_hand whole any inv w lt j (executing j) at self in
      let before : ran q.pcs (trace.place i) ≡ true =
        Waits-ready g (λ a. ran q.pcs (trace.place a))
          (λ a b e d. before-ran whole any inv a b (ran-is_waits q.pcs (trace.place b) d) e)
          (λ a e. before-ran whole any inv a j (rw mine refl) e)
          (build-orders_conflicts batch g runnable built i j c) in
      (
        was_executed i (omega (arith, c.ordered, get_elem?_bound batch j c.at_j)) before,
        λ v below e.
            let self_i : (i == i) ≡ true = ground arith in
            let hers : trace.place i ≡ held v =
              in_hand whole any inv v below i (executing i) e self_i in
            let not_yet : ran q.pcs (trace.place i) ≡ false = rw hers (ap has_run e) in cc,
      )

  -- Build gives a graph for at least one and fewer than 2^63 operations. In every state that the
  -- workers of Run reach, in whatever order they take their steps and whenever the context ends, the
  -- consumer has received the operations of the batch in SeqID order from 0 on, without a gap: the
  -- operation at each position is that of the node of this number, which has been executed.
  pub run_delivers_in_order :
      (i : ℕ)
      → i < length q.shared.rob.out
      → (get_elem? q.shared.rob.out i ≡ operation_of q.shared.graph i) × (0 < count i (executed r))
  run_delivers_in_order i lt =
      let inv = trace.inv in
      let o = inv.buffered.ordered in
      let (op, there) = get_elem?-some q.shared.rob.out i lt in
      let same : get_elem? q.shared.rob.out i ≡ committed_in trace.place q.pcs q.shared.graph i =
        o.in_order i (omega (arith, o.delivered)) in
      elim (Bool-cases (sent q.pcs (trace.place i))) [
        | inr unsent ↦ absurd (ground (arith, same, there))
        | inl yes_i ↦ (
          same ∙ rw yes_i refl,
          was_executed i (omega (arith, o.delivered, o.within, inv.buffered.total))
              (sent-ran q.pcs (trace.place i) yes_i),
        )
      ]

  -- When the consumer's channel is closed, all has been delivered.
  pub length-closed : q.shared.rob.closed ≡ true → length q.shared.rob.out ≡ length batch
  length-closed shut =
      let b = trace.inv.buffered in
      ground (arith, b.ordered.finishes, b.ordered.counted, b.ordered.delivered, b.total, shut)

  -- Build gives a graph for at least one and fewer than 2^63 operations. However the workers of Run
  -- are interleaved, and whenever the context ends, they take at most one step for each dependency
  -- edge, eight more for each operation, one for each worker and one for the end of the context.
  pub run_bounded : steps r ≤ most_steps workers batch g
  run_bounded = let s = trace.spent in omega arith

  -- Build gives a graph for at least one and fewer than 2^63 operations. In every state that the
  -- workers of Run reach, in whatever order they take their steps and whenever the context ends,
  -- either every worker has returned or one of them can take a step: no deadlock.
  pub run_progress :
      ((w : ℕ) → w < workers → q.pcs w ≡ exited)
      ⊎ ((w : ℕ) × (w < workers)
          × (choice : Choice) × (sh : Shared engine) × (pc : Pc) × (advance engine
                (capacity g runnable)
                choice
                q.shared
                (q.pcs w)
              ≡ moved sh pc))
  run_progress =
      elim (progress (built-size batch g runnable built small) (any_rule engine g (length batch))
        trace.inv (λ i j there. (forward batch g runnable built small i j there).0)) [
          | inl all ↦ inl (λ w lt. is_exited-eq (q.pcs w) (all w lt))
          | inr (w, lt, choice, moves) ↦
              let (sh, pc, e) = moved_of _ moves in
              inr (
                w,
                lt,
                choice,
                sh,
                pc,
                subst (λ n. advance engine n choice q.shared (q.pcs w) ≡ moved sh pc)
                    (sym (exact batch g runnable built small)) e,
              )
        ]
