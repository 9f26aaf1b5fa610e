-- ===== src/Tests/Handle.antt =====
-- A request of two items, from its admission to the answer, with one worker.
use khaos.Prelude.{
  ℕ, zero, suc, ◌<◌, ◌≡◌, ◌⊎◌, refl, List, [], ◌∷◌, ◌++◌, map, Option, none, some, length,
  get_elem?, count, All, arith,
}
use mathlib.Core.Option
use khaos.Prelude.Int.{pos}
use khaos.Values.{Error}
use khaos.Result.{ok, err}
use khaos.Types.{Operation, Graph}
use khaos.Storage.ShardedMap.{sharded_map, new_sharded_map}
use khaos.Storage.ShardedMap.Refines.{sharded_map-IsKeyed, new-IsSharded}
use khaos.WorkerPool.{run_order}
use khaos.WorkerPool.Schedule.{operation_of}
use khaos.WorkerPool.Serial.{range_from}
use khaos.WorkerPool.Run.{exited, Pool, Reach, new_concurrent_worker_pool}
use khaos.WorkerPool.Run.Trace.{executed}
use khaos.WorkerPool.Run.Reached.{run_batch, capacity}
use khaos.Server.Translate.{translate_request}
use khaos.Server.Translate.Filled.{IsPlaced}
use khaos.Server.Handle.{
  BatchResponseItem, responded, failed, status_ok, status_bad_request, answered, accepted, admit,
  admit_ops, Event, arrived, channel_closed, response_item, drain_loop, answer, IsObserved,
}
use khaos.Server.Handle.Correct.{admit_decides, handle_batch_complete, handle_batch_serial}
use khaos.Tests.Hazard.{node, build_run}
use khaos.Tests.Server.{items, ops, write_op, read_op, translate_run}
use khaos.Tests.Run.{play, play-Reach, computed}

-- The read waits for the write.
abbrev graph : Graph
graph = node write_op 0 (1 ∷ []) ∷ node read_op 1 [] ∷ []

handle_run : Unit {0}
unfolding build_run computed translate_run admit admit_ops drain_loop answer
handle_run = tt

admitted : admit (ok items) ≡ accepted ops graph (0 ∷ [])
unfolding handle_run
admitted = refl

abbrev started : Pool sharded_map
started = run_batch sharded_map none ops graph (0 ∷ []) new_sharded_map

-- One worker executes both and closes the queue.
abbrev schedule : List ℕ
schedule = 0 ∷ 0 ∷ 0 ∷ 0 ∷ 0 ∷ 0 ∷ 0 ∷ 0 ∷ 0 ∷ 0 ∷ 0 ∷ 0 ∷ 0 ∷ 0 ∷ []

abbrev last : Pool sharded_map
last = Option.get_or (play sharded_map 1 (capacity graph (0 ∷ [])) schedule started) started

played : play sharded_map 1 (capacity graph (0 ∷ [])) schedule started ≡ some last
unfolding handle_run
played = refl

run_to_end : Reach sharded_map 1 (capacity graph (0 ∷ [])) started last
run_to_end = play-Reach sharded_map 1 (capacity graph (0 ∷ [])) schedule started last played

running : last.shared.ctx ≡ none
unfolding handle_run
running = refl

gone : (w : ℕ) → w < 1 → last.pcs w ≡ exited
unfolding handle_run
gone zero lt = refl
gone (suc w) lt = absurd (omega arith)

abbrev events : List Event
events = map arrived last.shared.rob.out ++ channel_closed ∷ []

observed : IsObserved last.shared.rob.closed last.shared.rob.out events
unfolding handle_run
observed = (refl, (refl, refl))

answers :
    answer (drain_loop events []) none
    ≡ some (responded status_ok (map response_item last.shared.rob.out))
unfolding handle_run
answers = refl

admit_decides_example :
    ((ops' : List Operation) × (g : Graph) × (runnable : List ℕ) × (translate_request items
        ≡ ok ops')
      × (admit (ok items) ≡ accepted ops' g runnable))
    ⊎ ((cause : Error) × (translate_request items ≡ err cause)
        × (admit (ok items) ≡ answered (failed status_bad_request cause)))
admit_decides_example = admit_decides items (omega arith)

handle_batch_complete_example :
    (◌≡◌ {A = Option Error} none none)
    × (length (map response_item last.shared.rob.out) ≡ 2)
    × ((i : ℕ)
        → i < 2
        → (get_elem? (map response_item last.shared.rob.out) i
            ≡ Option.map response_item (operation_of last.shared.graph i))
          × (0 < count i (executed run_to_end)))
handle_batch_complete_example =
    handle_batch_complete items ops graph (0 ∷ []) admitted (omega arith) 1 none new_sharded_map
      run_to_end events none (map response_item last.shared.rob.out) observed answers

handle_batch_serial_example :
    (responses : List BatchResponseItem) × (answer (drain_loop events []) last.shared.ctx
      ≡ some (responded status_ok responses))
    × IsObserved last.shared.rob.closed last.shared.rob.out events
    × (length responses ≡ 2)
    × ((i : ℕ)
        → i < 2
        → get_elem? responses i
          ≡ Option.map response_item (
              operation_of
                (run_order sharded_map none (range_from 0 2) (graph, new_sharded_map)).0
                i))
    × All (IsPlaced ops) items
unfolding new_concurrent_worker_pool
handle_batch_serial_example =
    handle_batch_serial items ops graph (0 ∷ []) admitted (omega arith) sharded_map-IsKeyed 4
      (omega arith) (pos 1) new_sharded_map new-IsSharded run_to_end running gone
