-- ===== src/WorkerPool/Run/Reached.antt =====
-- workerpool.go: Run on a graph of Build: what holds in every state that its workers reach, however
-- they are interleaved and whenever the context ends.
use khaos.Prelude.{
  ℕ, zero, suc, ◌+◌, ◌^◌, ◌≤◌, ◌<◌, ◌≡◌, List, [], none, some, Bool, true, false, not, length,
  sum_below, ltb, ◌==◌, if◌then◌else◌, arith, sum_below-le_one,
}
use khaos.Result.{ok}
use khaos.Storage.{Context, StorageEngine}
use khaos.Types.{Operation, Graph, dependents_of, in_degree_of}
use khaos.Hazard.{build}
use khaos.Reorder.{new_reorder_buffer, drain}
use khaos.WorkerPool.Reachable.{reachable_nodes}
use khaos.WorkerPool.Reachable.Complete.{reachable_nodes-all}
use khaos.WorkerPool.Run.{waiting, Outcome, moved, blocked, panicked, Pool, Reach, run_start}
use khaos.WorkerPool.Run.Places.{queued, waits, finished}
use khaos.WorkerPool.Run.Measure.{measure, place_weight}
use khaos.WorkerPool.Run.Invariant.{Rule}
use khaos.WorkerPool.Run.Trace.{executed, steps, Traced, Reach-Traced, still_running}
use khaos.WorkerPool.Run.Start.{built-size, start_place, start-Inv}

-- Run as the batch handler calls it: on the graph of the batch, with a buffer that is drained.
abbrev pub run_batch :
    (engine : StorageEngine)
    → Context
    → List Operation
    → Graph
    → List ℕ
    → engine.State
    → Pool engine
run_batch engine ctx batch g runnable store =
    run_start engine ctx g runnable store (drain ctx (length batch) new_reorder_buffer)

-- The capacity of the queue.
abbrev pub capacity : Graph → List ℕ → ℕ
capacity g runnable = length (reachable_nodes g runnable)

abbrev pub is_panicked : {engine : StorageEngine} → Outcome engine → Bool
is_panicked (moved sh p) = false
is_panicked blocked = false
is_panicked panicked = true

abbrev pub any_rule : (engine : StorageEngine) (g : Graph) (size : ℕ) → Rule engine g size
any_rule engine g size = record {
  Holds = λ ctx done g s. Unit;
  same = λ ctx done done' g g' s dones ops h. tt;
  executes = λ ctx done g s n lt new preds closed h. tt;
  ends = λ e done g s h. tt;
}

-- Each node takes a step for each of its dependents and eight more.
abbrev pub most_steps : ℕ → List Operation → Graph → ℕ
most_steps workers batch g =
    sum_below (length batch) (λ i. length (dependents_of g i) + 8) + workers + 1

sum_below-le : (n : ℕ) (f f' : ℕ → ℕ) → ((a : ℕ) → f a ≤ f' a) → sum_below n f ≤ sum_below n f'
sum_below-le zero f f' h = omega arith
sum_below-le (suc n) f f' h = omega (arith, sum_below-le n f f' h, h n)

module _ (batch : List Operation) (g : Graph) (runnable : List ℕ)
    (built : build batch ≡ ok (g, runnable)) (small : length batch < 2 ^ 63) where
  pub exact : capacity g runnable ≡ length batch
  exact = (reachable_nodes-all batch g runnable built small).1

  start-light :
      (workers : ℕ) (ctx : Context)
      → measure workers
            (length batch)
            (dependents_of g)
            (start_place batch g runnable built small)
            (λ w. waiting)
          + still_running ctx
          + 0
        ≤ most_steps workers batch g
  start-light workers ctx =
      let nodes =
        sum_below-le (length batch)
          (λ j.
            place_weight (length (dependents_of g j)) (start_place batch g runnable built small j))
          (λ i. length (dependents_of g i) + 8)
          (λ j.
            light (ltb j (length batch)) (in_degree_of g j == 0) (length (dependents_of g j))) in
      omega (arith, nodes, sum_below-le_one workers (λ w. 1) (λ w. omega arith), one ctx)
    where
      light :
          (a b : Bool) (d : ℕ)
          → place_weight d (if a then (if b then queued else waits) else finished) ≤ d + 8
      light true true d = omega arith
      light true false d = omega arith
      light false b d = omega arith

      one : (c : Context) → still_running c ≤ 1
      one none = omega arith
      one (some e) = omega arith

  module _ {engine : StorageEngine} (some_node : 0 < length batch) (workers : ℕ) (ctx : Context)
      (store : engine.State) (rule : Rule engine g (length batch))
      (held : rule.Holds ctx (λ i. not (ltb i (length batch))) g store) where
    first-Traced :
        Traced
          (built-size batch g runnable built small)
          rule
          workers
          (most_steps workers batch g)
          []
          0
          (run_batch engine ctx batch g runnable store)
    unfolding run_start
    first-Traced = record {
      place = start_place batch g runnable built small;
      inv = start-Inv batch g runnable built small rule workers ctx store some_node held;
      scheduled = tt;
      marked = λ i lt. ground (arith, lt);
      spent = start-light workers ctx;
    }

    pub traced :
        {q : Pool engine}
        (r : Reach engine workers
          (capacity g runnable)
          (run_batch engine ctx batch g runnable store)
          q)
        → Traced
            (built-size batch g runnable built small)
            rule
            workers
            (most_steps workers batch g)
            (executed r)
            (steps r)
            q
    traced r =
        Reach-Traced (built-size batch g runnable built small) rule workers exact first-Traced r
