-- ===== src/WorkerPool/Run/Ends.antt =====
-- workerpool.go: Run when all its workers have returned and the context has not ended: the store and
-- what the consumer has received are those of the batch executed in SeqID order.
use khaos.Prelude.{
  ℕ, ◌^◌, ◌<◌, ◌≡◌, refl, sym, ap, ◌∙◌, GoString, List, none, true, false, length, get_elem?,
  get_elem?-some, count, arith, to_nat, zero-of-sum_below,
}
use native.Mathlib.Decide.{dec_lt}
use mathlib.Core.Option
use khaos.Result.{ok}
use khaos.Storage.{StorageEngine, IsKeyed}
use khaos.Types.{Operation, Graph}
use khaos.Hazard.{build}
use khaos.WorkerPool.{run_order}
use khaos.WorkerPool.Cells.{cell_at}
use khaos.WorkerPool.Schedule.{operation_of, outcome}
use khaos.WorkerPool.Serial.{nothing, range_from, IsRun-finished, serial-finished}
use khaos.Prelude.Int.{ℤ}
use khaos.WorkerPool.Run.{
  new_concurrent_worker_pool, new_concurrent_worker_pool-positive, Pc, exited, Pool, Reach,
}
use khaos.WorkerPool.Run.Places.{Place, sent, unfinished}
use khaos.WorkerPool.Run.Closing.{is_exited}
use khaos.WorkerPool.Run.Invariant.{committed_in}
use khaos.WorkerPool.Run.Trace.{executed, steps, Traced}
use khaos.WorkerPool.Run.Data.{serial_rule, start-SerialRun}
use khaos.WorkerPool.Run.Start.{built-size}
use khaos.WorkerPool.Run.Reached.{run_batch, capacity, most_steps, traced}
use khaos.WorkerPool.Run.Safe.{marks-count, sent-ran}

finished-sent : (pcs : ℕ → Pc) (p : Place) → unfinished p ≡ false → sent pcs p ≡ true
finished-sent pcs p e = ground arith

module _ {engine : StorageEngine} (keyed : IsKeyed engine) (batch : List Operation) (g : Graph)
    (runnable : List ℕ) (built : build batch ≡ ok (g, runnable)) (small : length batch < 2 ^ 63)
    (some_node : 0 < length batch) (cpus : ℕ) (some_cpu : 0 < cpus) (asked : ℤ)
    (store : engine.State) (valid : keyed.IsValid store) {q : Pool engine}
    (r : Reach engine
      (new_concurrent_worker_pool cpus asked)
      (capacity g runnable)
      (run_batch engine none batch g runnable store)
      q)
    (running : q.shared.ctx ≡ none)
    (gone : (w : ℕ) → w < new_concurrent_worker_pool cpus asked → q.pcs w ≡ exited) where
  trace :
      Traced
        (built-size batch g runnable built small)
        (serial_rule keyed batch g runnable built store valid)
        (new_concurrent_worker_pool cpus asked)
        (most_steps (new_concurrent_worker_pool cpus asked) batch g)
        (executed r)
        (steps r)
        q
  trace =
      traced batch g runnable built small some_node (new_concurrent_worker_pool cpus asked) none
        store (serial_rule keyed batch g runnable built store valid)
        (λ e. start-SerialRun keyed batch g runnable built store valid) r

  all_sent : (i : ℕ) → sent q.pcs (trace.place i) ≡ true
  all_sent i = finished-sent q.pcs (trace.place i) (elim (dec_lt i (length batch)) [
    | no out ↦ ap unfinished (trace.inv.holders.outside i (omega arith))
    | yes inside ↦
        let c = trace.inv.closing in
        let shut =
          c.leavers 0
            (ap is_exited (gone 0 (new_concurrent_worker_pool-positive cpus asked some_cpu)))
            running in
        let none_left =
          zero-of-sum_below (length batch) (λ j. to_nat (unfinished (trace.place j))) i
            (sym c.counted ∙ c.shut_empty shut) inside in
        ground arith
  ])

  all_committed :
      (i : ℕ) → committed_in trace.place q.pcs q.shared.graph i ≡ operation_of q.shared.graph i
  all_committed i = rw (all_sent i) refl

  at_end :
      ((k : GoString)
        → keyed.cell q.shared.store k
          ≡ cell_at keyed (get_elem? batch) (keyed.cell store) (length batch) k)
      × ((n : ℕ)
          → operation_of q.shared.graph n
            ≡ Option.map (outcome keyed (get_elem? batch) (keyed.cell store) n) (get_elem? batch n))
  at_end =
      IsRun-finished keyed batch g runnable built store valid _ q.shared.graph q.shared.store
        (trace.inv.rules running) (λ n lt. sent-ran q.pcs (trace.place n) (all_sent n))

  all_delivered : q.shared.rob.next_expected ≡ length batch
  all_delivered = elim (dec_lt q.shared.rob.next_expected (length batch)) [
    | no up ↦ let b = trace.inv.buffered in omega (arith, b.total, b.ordered.within)
    | yes less ↦
        let next = q.shared.rob.next_expected in
        let missing = (trace.inv.buffered.settled running).1 in
        let (p, there) = get_elem?-some batch next less in
        absurd (ground (arith, all_committed next, at_end.1 next, missing, there))
  ]

  -- Build gives a graph for at least one and fewer than 2^63 operations; a pool of
  -- NewConcurrentWorkerPool, of any number of workers that is asked for, runs it on an engine that
  -- has a cell for each key; there is a CPU; every worker has returned, and the context has not
  -- ended. Then, in whatever order the workers took their steps, each operation has been executed;
  -- every cell of the store, and the Key, Type, Value, Result and Err of every operation, are those
  -- of the batch executed in SeqID order by one worker; and the consumer has received exactly these
  -- operations, in SeqID order, on a channel that is closed.
  pub run_serial :
      ((i : ℕ) → i < length batch → 0 < count i (executed r))
      × ((k : GoString)
          → keyed.cell q.shared.store k
            ≡ keyed.cell (run_order engine none (range_from 0 (length batch)) (g, store)).1 k)
      × ((n : ℕ)
          → operation_of q.shared.graph n
            ≡ operation_of (run_order engine none (range_from 0 (length batch)) (g, store)).0 n)
      × (length q.shared.rob.out ≡ length batch)
      × ((i : ℕ)
          → i < length batch
          → get_elem? q.shared.rob.out i
            ≡ operation_of (run_order engine none (range_from 0 (length batch)) (g, store)).0 i)
      × (q.shared.rob.closed ≡ true)
  run_serial =
      let (cells, ops) = at_end in
      let (cells', ops') = serial-finished keyed batch g runnable store built valid in
      let o = trace.inv.buffered.ordered in
      (
        λ i lt.
            marks-count i (executed r) nothing
              (trace.marked i lt ∙ sent-ran q.pcs (trace.place i) (all_sent i)) refl,
        λ k. cells k ∙ sym (cells' k),
        λ n. ops n ∙ sym (ops' n),
        o.delivered ∙ all_delivered,
        λ i lt.
            o.in_order i (omega (arith, all_delivered)) ∙ all_committed i ∙ ops i ∙ sym (ops' i),
        ground (arith, o.finishes, o.counted, all_delivered, trace.inv.buffered.total),
      )
