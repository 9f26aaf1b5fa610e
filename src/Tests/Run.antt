-- ===== src/Tests/Run.antt =====
-- Two workers run a batch of four operations on the sharded map.
use khaos.Prelude.{
  ℕ, zero, suc, ◌<◌, ◌≤◌, ◌≡◌, ◌≢◌, ◌⊎◌, refl, GoString, List, [], ◌∷◌, ◌++◌, Option, none, some,
  true, false, subst, set_at, Option-cases, inl, inr, length, get_elem?, count, str_eq, text, arith,
}
use native.Mathlib.Decide.{dec_lt}
use khaos.Prelude.Int.{pos}
use mathlib.Core.Option.{some-injective}
use mathlib.Core.Option
use khaos.Types.{op_read, op_write, drop_edge, close_done}
use khaos.Reorder.{drain, new_reorder_buffer, commit, flush, deliver}
use khaos.Storage.Fnv.{fnv1a, fnv1a_loop}
use khaos.WorkerPool.Reachable.{reachable_nodes, reach_loop, enqueue_new}
use khaos.Storage.{StorageEngine}
use khaos.Storage.ShardedMap.{
  sharded_map, new_sharded_map, empty_shards, shard_index, shard_for, found_or_nil, get, set,
  delete_key,
}
use khaos.Storage.ShardedMap.Refines.{sharded_map-IsKeyed, new-IsSharded}
use khaos.WorkerPool.{run_order, execute_node, execute_op}
use khaos.WorkerPool.Schedule.{operation_of}
use khaos.WorkerPool.Serial.{range_from, IsScheduled, nothing}
use khaos.WorkerPool.Run.{
  Pc, executing, sending, exited, Choice, Outcome, moved, blocked, panicked, advance, receive,
  select, commit_node, Shared, Pool, Step, work, Reach, here, next, new_concurrent_worker_pool,
  run_start,
}
use khaos.WorkerPool.Run.Trace.{executed, steps}
use khaos.WorkerPool.Run.Reached.{run_batch, capacity, is_panicked, most_steps}
use khaos.WorkerPool.Run.Safe.{
  run_safe, run-IsScheduled, run-orders_conflicts, run_delivers_in_order, run_bounded, run_progress,
}
use khaos.WorkerPool.Run.Ends.{run_serial}
use khaos.Tests.Hazard.{op, balances, balances_graph, build-balances}

abbrev pub go_on : Choice
go_on = record { leave = false; sends = λ n. true }

module _ (engine : StorageEngine) (workers total : ℕ) where
  unfoldable pub after_outcome : ℕ → Pool engine → Outcome engine → Option (Pool engine)
  after_outcome w p (moved sh pc) = some (record { shared = sh; pcs = set_at w pc p.pcs })
  after_outcome w p blocked = none
  after_outcome w p panicked = none

  -- The workers of the list take a step each, one after another.
  unfoldable pub play : List ℕ → Pool engine → Option (Pool engine)
  play [] p = some p
  play (w ∷ ws) p = elim (dec_lt w workers) [
    | no beyond ↦ none
    | yes lt ↦ elim (after_outcome w p (advance engine total go_on p.shared (p.pcs w))) [
      | none ↦ none
      | some q ↦ play ws q
    ]
  ]

  Reach-step :
      {p q r : Pool engine}
      → Step engine workers total p q
      → Reach engine workers total q r
      → Reach engine workers total p r
  Reach-step s here = next here s
  Reach-step s (next r t) = next (Reach-step s r) t

  Step-of_outcome :
      (w : ℕ) (p q : Pool engine) (o : Outcome engine)
      → w < workers
      → advance engine total go_on p.shared (p.pcs w) ≡ o
      → after_outcome w p o ≡ some q
      → Step engine workers total p q
  unfolding after_outcome
  Step-of_outcome w p q (moved sh pc) lt e f =
      subst (Step engine workers total p) (some-injective _ _ f) (work w go_on lt e)
  Step-of_outcome w p q blocked lt e f = cc
  Step-of_outcome w p q panicked lt e f = cc

  pub play-Reach :
      (ws : List ℕ) (p q : Pool engine) → play ws p ≡ some q → Reach engine workers total p q
  unfolding play
  play-Reach [] p q e = subst (Reach engine workers total p) (some-injective _ _ e) here
  play-Reach (w ∷ ws) p q e = elim (dec_lt w workers) [
    | no beyond ↦ absurd (ground (arith, e))
    | yes lt ↦
        elim (Option-cases (after_outcome w p (advance engine total go_on p.shared (p.pcs w)))) [
          | inl stuck ↦ absurd (ground (arith, e, stuck))
          | inr (p', f) ↦
              Reach-step (Step-of_outcome w p p' _ lt refl f)
                (play-Reach ws p' q (ground (arith, e, f, lt)))
        ]
  ]

abbrev room : ℕ
room = capacity balances_graph (0 ∷ 2 ∷ [])

abbrev started : Pool sharded_map
started = run_batch sharded_map none balances balances_graph (0 ∷ 2 ∷ []) new_sharded_map

-- Worker 0 executes operation 0, worker 1 at the same time operation 2 and then 1; then worker 0
-- executes operation 3 and closes the queue.
abbrev opening : List ℕ
opening = 0 ∷ 1 ∷ 0 ∷ 1 ∷ 1 ∷ 1 ∷ 1 ∷ 0 ∷ 0 ∷ 0 ∷ 0 ∷ []

abbrev schedule : List ℕ
schedule = opening ++ 0 ∷ 1 ∷ 1 ∷ 1 ∷ 0 ∷ 1 ∷ 1 ∷ 1 ∷ 1 ∷ 0 ∷ 0 ∷ 0 ∷ 0 ∷ 0 ∷ 0 ∷ 0 ∷ 1 ∷ []

abbrev after : List ℕ → Pool sharded_map
after ws = Option.get_or (play sharded_map 2 room ws started) started

unfoldable pub computed : Unit {0}
unfolding play after_outcome run_start drain new_reorder_buffer advance receive select commit_node
    execute_node execute_op dec_lt str_eq new_concurrent_worker_pool new_sharded_map empty_shards
    shard_index fnv1a fnv1a_loop shard_for found_or_nil get set delete_key drop_edge close_done
    commit flush deliver reachable_nodes reach_loop enqueue_new
computed = tt

played-opening : play sharded_map 2 room opening started ≡ some (after opening)
unfolding computed
played-opening = refl

played-schedule : play sharded_map 2 room schedule started ≡ some (after schedule)
unfolding computed
played-schedule = refl

opened : Reach sharded_map 2 room started (after opening)
opened = play-Reach sharded_map 2 room opening started (after opening) played-opening

-- Worker 1 is about to execute operation 1.
abbrev reading : List ℕ
reading = opening ++ 0 ∷ 1 ∷ []

played-reading : play sharded_map 2 room reading started ≡ some (after reading)
unfolding computed
played-reading = refl

at_reading : Reach sharded_map 2 room started (after reading)
at_reading = play-Reach sharded_map 2 room reading started (after reading) played-reading

is_reading : (after reading).pcs 1 ≡ executing 1
unfolding computed
is_reading = refl

ended : Reach sharded_map 2 room started (after schedule)
ended = play-Reach sharded_map 2 room schedule started (after schedule) played-schedule

all_exited : (w : ℕ) → w < 2 → (after schedule).pcs w ≡ exited
unfolding computed
all_exited zero lt = refl
all_exited (suc zero) lt = refl
all_exited (suc (suc w)) lt = absurd (omega arith)

not_ended : (after schedule).shared.ctx ≡ none
unfolding computed
not_ended = refl

four_out : 3 < length (after schedule).shared.rob.out
unfolding computed
four_out = omega arith

run_safe_example :
    (2 ≤ room)
    × ((w : ℕ) (choice : Choice)
        → w < 2
        → is_panicked
            (advance sharded_map room choice (after opening).shared ((after opening).pcs w))
          ≡ false)
    × ((w n m : ℕ) (next : List ℕ)
        → w < 2
        → (after opening).pcs w ≡ sending n (m ∷ next)
        → ((after opening).shared.closed ≡ false) × (length (after opening).shared.queue < room))
run_safe_example =
    run_safe balances balances_graph (0 ∷ 2 ∷ []) build-balances (omega arith) (omega arith) 2 none
      new_sharded_map opened

run-IsScheduled_example : IsScheduled balances_graph 4 nothing (executed ended)
run-IsScheduled_example =
    run-IsScheduled balances balances_graph (0 ∷ 2 ∷ []) build-balances (omega arith) (omega arith)
      2 none new_sharded_map ended

run-orders_conflicts_example :
    (0 < count 0 (executed at_reading)) × ((v : ℕ) → v < 2 → (after reading).pcs v ≢ executing 0)
unfolding str_eq
run-orders_conflicts_example =
    run-orders_conflicts balances balances_graph (0 ∷ 2 ∷ []) build-balances (omega arith)
      (omega arith) 2 none new_sharded_map at_reading 1 0 1 (omega arith) is_reading
      (record {
        earlier = op 0 op_write (text "alice") 100;
        later = op 1 op_read (text "alice") 0;
        at_i = refl;
        at_j = refl;
        ordered = omega arith;
        conflict = refl;
      })

run_delivers_in_order_example :
    (get_elem? (after schedule).shared.rob.out 3 ≡ operation_of (after schedule).shared.graph 3)
    × (0 < count 3 (executed ended))
run_delivers_in_order_example =
    run_delivers_in_order balances balances_graph (0 ∷ 2 ∷ []) build-balances (omega arith)
      (omega arith) 2 none new_sharded_map ended 3 four_out

run_bounded_example : steps ended ≤ most_steps 2 balances balances_graph
run_bounded_example =
    run_bounded balances balances_graph (0 ∷ 2 ∷ []) build-balances (omega arith) (omega arith) 2
      none new_sharded_map ended

run_progress_example :
    ((w : ℕ) → w < 2 → (after opening).pcs w ≡ exited)
    ⊎ ((w : ℕ) × (w < 2)
        × (choice : Choice) × (sh : Shared sharded_map) × (pc : Pc) × (advance sharded_map room
              choice
              (after opening).shared
              ((after opening).pcs w)
            ≡ moved sh pc))
run_progress_example =
    run_progress balances balances_graph (0 ∷ 2 ∷ []) build-balances (omega arith) (omega arith) 2
      none new_sharded_map opened

run_serial_example :
    ((i : ℕ) → i < 4 → 0 < count i (executed ended))
    × ((k : GoString)
        → sharded_map-IsKeyed.cell (after schedule).shared.store k
          ≡ sharded_map-IsKeyed.cell
              (run_order sharded_map none (range_from 0 4) (balances_graph, new_sharded_map)).1
              k)
    × ((n : ℕ)
        → operation_of (after schedule).shared.graph n
          ≡ operation_of
              (run_order sharded_map none (range_from 0 4) (balances_graph, new_sharded_map)).0
              n)
    × (length (after schedule).shared.rob.out ≡ 4)
    × ((i : ℕ)
        → i < 4
        → get_elem? (after schedule).shared.rob.out i
          ≡ operation_of
              (run_order sharded_map none (range_from 0 4) (balances_graph, new_sharded_map)).0
              i)
    × ((after schedule).shared.rob.closed ≡ true)
unfolding new_concurrent_worker_pool
run_serial_example =
    run_serial sharded_map-IsKeyed balances balances_graph (0 ∷ 2 ∷ []) build-balances (omega arith)
      (omega arith) 4 (omega arith) (pos 2) new_sharded_map new-IsSharded ended not_ended all_exited
