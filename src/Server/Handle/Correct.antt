-- ===== src/Server/Handle/Correct.antt =====
-- server.go: handleBatch, together with Run and the reorder buffer.
use khaos.Prelude.{
  ℕ, ◌^◌, ◌<◌, ◌≡◌, ◌⊎◌, refl, sym, ap, ◌∙◌, List, [], ◌∷◌, ◌++◌, map, Option, none, some, length,
  get_elem?, count, All, ◌==◌, if◌then◌else◌, false, arith, inl, inr,
}
use khaos.Prelude.Int.{ℤ}
use khaos.Values.{Error}
use khaos.Result.{ok, err, Result-cases}
use khaos.Types.{Operation, Graph}
use khaos.Hazard.{build}
use khaos.Storage.{Context, StorageEngine, IsKeyed}
use khaos.WorkerPool.{run_order}
use khaos.WorkerPool.Schedule.{operation_of}
use khaos.WorkerPool.Serial.{range_from}
use khaos.WorkerPool.Run.{exited, Pool, Reach, new_concurrent_worker_pool}
use khaos.WorkerPool.Run.Trace.{executed}
use khaos.WorkerPool.Run.Reached.{run_batch, capacity}
use khaos.WorkerPool.Run.Safe.{length-closed, run_delivers_in_order}
use khaos.WorkerPool.Run.Ends.{run_serial}
use khaos.Server.Translate.{BatchRequestItem, translate_request}
use khaos.Server.Translate.Filled.{IsPlaced}
use khaos.Server.Translate.Correct.{translate_request-build}
use khaos.Server.Handle.{
  BatchResponseItem, responded, failed, status_ok, status_bad_request, answered, accepted, admit,
  admit_ops, Event, arrived, channel_closed, response_item, drain_loop, answer, IsObserved,
}
use mathlib.Core.Option
use khaos.Server.Handle.Drain.{
  drain_loop-IsObserved, drain_loop-arrived, all-IsObserved, answer-status_ok, get_elem?-map,
  size-map,
}

admit_ops-eq :
    (ops ops' : List Operation) (g : Graph) (runnable : List ℕ)
    → admit_ops ops ≡ accepted ops' g runnable
    → (ops ≡ ops') × (build ops ≡ ok (g, runnable))
unfolding admit_ops
admit_ops-eq ops ops' g runnable e = elim (Result-cases (build ops)) [
  | inl ((g', r'), built) ↦ ground (arith, e, built)
  | inr (x, bad) ↦ absurd (ground (arith, e, bad))
]

admit_ops-built :
    (ops : List Operation) (g : Graph) (runnable : List ℕ)
    → build ops ≡ ok (g, runnable)
    → admit_ops ops ≡ accepted ops g runnable
unfolding admit_ops
admit_ops-built ops g runnable e = rw (e, admit_ops) refl

admit-eq :
    (items : List BatchRequestItem) (ops : List Operation) (g : Graph) (runnable : List ℕ)
    → admit (ok items) ≡ accepted ops g runnable
    → (translate_request items ≡ ok ops) × (build ops ≡ ok (g, runnable)) × (0 < length items)
unfolding admit
admit-eq [] ops g runnable e = cc
admit-eq (item ∷ items) ops g runnable e = elim (Result-cases (translate_request (item ∷ items))) [
  | inr (x, bad) ↦ absurd (ground (arith, e, bad))
  | inl (ops', good) ↦
      let (same, built) = admit_ops-eq ops' ops g runnable (ground (arith, e, good)) in
      (good ∙ ap ok same, ap build (sym same) ∙ built, omega arith)
]

-- The admission of a request that translateRequest and Build accept.
pub admit-built :
    (items : List BatchRequestItem) (ops : List Operation) (g : Graph) (runnable : List ℕ)
    → translate_request items ≡ ok ops
    → build ops ≡ ok (g, runnable)
    → admit (ok items)
      ≡ (if length items == 0 then answered (responded status_ok []) else accepted ops g runnable)
unfolding admit
admit-built [] ops g runnable good built = refl
admit-built (item ∷ items) ops g runnable good built =
    let some_item : (length (item ∷ items) == 0) ≡ false = ground arith in
    rw (good, some_item, admit) (admit_ops-built ops g runnable built)

-- A request with at least one item goes to the workers exactly if translateRequest accepts it, with
-- the operations that it returns, and otherwise is answered with status 400 and its error: the
-- branch of handleBatch for an error of Build is never taken.
pub admit_decides :
    (items : List BatchRequestItem)
    → 0 < length items
    → ((ops : List Operation) × (g : Graph) × (runnable : List ℕ) × (translate_request items
          ≡ ok ops)
        × (admit (ok items) ≡ accepted ops g runnable))
      ⊎ ((cause : Error) × (translate_request items ≡ err cause)
          × (admit (ok items) ≡ answered (failed status_bad_request cause)))
unfolding admit
admit_decides [] some_item = absurd (omega arith)
admit_decides (item ∷ items) some_item = elim (Result-cases (translate_request (item ∷ items))) [
  | inr (cause, bad) ↦ inr (cause, bad, rw (bad, admit) refl)
  | inl (ops, good) ↦
      let ((g, runnable), built) = (translate_request-build (item ∷ items) ops good).2 in
      inl (ops, g, runnable, good, rw (good, admit) (admit_ops-built ops g runnable built))
]

module _ (items : List BatchRequestItem) (ops : List Operation) (g : Graph) (runnable : List ℕ)
    (admitted : admit (ok items) ≡ accepted ops g runnable) (small : length items < 2 ^ 63) where
  abbrev translated : translate_request items ≡ ok ops
  translated = (admit-eq items ops g runnable admitted).0

  built : build ops ≡ ok (g, runnable)
  built = (admit-eq items ops g runnable admitted).1

  ops-size : length ops ≡ length items
  ops-size = (translate_request-build items ops translated).0

  few : length ops < 2 ^ 63
  few = omega (arith, ops-size)

  some_op : 0 < length ops
  some_op = omega (arith, ops-size, (admit-eq items ops g runnable admitted).2)

  -- The handler accepts a request of fewer than 2^63 items. In every state that the workers of Run
  -- reach, whenever the context ends, and for all that the selects of the drain loop may yield: if
  -- the handler answers 200, then Run has returned no error, and there is one response for each
  -- item, in SeqID order: the response at each position is that of the operation of this number,
  -- which has been executed.
  pub handle_batch_complete :
      {engine : StorageEngine} (workers : ℕ) (ctx : Context) (store : engine.State)
      {q : Pool engine}
      (r : Reach engine workers (capacity g runnable) (run_batch engine ctx ops g runnable store) q)
      (events : List Event) (run_err : Option Error) (responses : List BatchResponseItem)
      → IsObserved q.shared.rob.closed q.shared.rob.out events
      → answer (drain_loop events []) run_err ≡ some (responded status_ok responses)
      → (run_err ≡ none)
        × (length responses ≡ length items)
        × ((i : ℕ)
            → i < length items
            → (get_elem? responses i ≡ Option.map response_item (operation_of q.shared.graph i))
              × (0 < count i (executed r)))
  handle_batch_complete {engine} workers ctx store {q} r events run_err responses seen e =
      let (clean, drained) = answer-status_ok (drain_loop events []) run_err responses e in
      let (shut, all) =
        drain_loop-IsObserved q.shared.rob.closed q.shared.rob.out events [] responses seen
          drained in
      let whole : length q.shared.rob.out ≡ length ops =
        length-closed ops g runnable built few some_op workers ctx store r shut in
      (
        clean,
        ap length all ∙ size-map response_item q.shared.rob.out ∙ whole ∙ ops-size,
        λ i lt.
            let (same, done) =
              run_delivers_in_order ops g runnable built few some_op workers ctx store r i
                (omega (arith, whole, ops-size)) in
            (
              ap (λ rs. get_elem? rs i) all
                  ∙ get_elem?-map response_item q.shared.rob.out i
                  ∙ ap (Option.map response_item) same,
              done,
            ),
      )

  -- The handler accepts a request of fewer than 2^63 items and runs it on an engine that has a cell
  -- for each key, with a pool of NewConcurrentWorkerPool; there is a CPU; every worker has returned
  -- and the context has not ended. Then, in whatever order the workers took their steps, once the
  -- drain loop has seen the close of its channel the answer is 200, with one response for each item,
  -- at each position i that of the operation with SeqID i, with the Result and Err that executing
  -- the operations in SeqID order gives it; and the operation of each item stands at its SeqID.
  pub handle_batch_serial :
      {engine : StorageEngine} (keyed : IsKeyed engine) (cpus : ℕ) (some_cpu : 0 < cpus) (asked : ℤ)
      (store : engine.State) (valid : keyed.IsValid store) {q : Pool engine}
      (r : Reach engine
        (new_concurrent_worker_pool cpus asked)
        (capacity g runnable)
        (run_batch engine none ops g runnable store)
        q)
      → q.shared.ctx ≡ none
      → ((w : ℕ) → w < new_concurrent_worker_pool cpus asked → q.pcs w ≡ exited)
      → (responses : List BatchResponseItem) × (answer
            (drain_loop (map arrived q.shared.rob.out ++ channel_closed ∷ []) [])
            q.shared.ctx
          ≡ some (responded status_ok responses))
        × IsObserved q.shared.rob.closed q.shared.rob.out
            (map arrived q.shared.rob.out ++ channel_closed ∷ [])
        × (length responses ≡ length items)
        × ((i : ℕ)
            → i < length items
            → get_elem? responses i
              ≡ Option.map response_item
                  (operation_of (run_order engine none (range_from 0 (length ops)) (g, store)).0 i))
        × All (IsPlaced ops) items
  unfolding answer
  handle_batch_serial {engine} keyed cpus some_cpu asked store valid {q} r running gone =
      let (ran, cells, graph, whole, each, shut) =
        run_serial keyed ops g runnable built few some_op cpus some_cpu asked store valid r running
          gone in
      (
        map response_item q.shared.rob.out,
        rw (drain_loop-arrived q.shared.rob.out [], running) refl,
        all-IsObserved q.shared.rob.out shut,
        size-map response_item q.shared.rob.out ∙ whole ∙ ops-size,
        λ i lt.
            get_elem?-map response_item q.shared.rob.out i
            ∙ ap (Option.map response_item) (each i (omega (arith, ops-size))),
        (translate_request-build items ops translated).1,
      )
