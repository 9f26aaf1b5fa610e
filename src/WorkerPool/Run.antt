-- ===== src/WorkerPool/Run.antt =====
-- workerpool.go: Run. The workers are interleaved in any order, a shared access at a time: a worker
-- takes one step from where it stands, over what all of them share.
pub mod Heap
pub mod Released
pub mod Places
pub mod Holders
pub mod Flags
pub mod Balance
pub mod Closing
pub mod Measure
pub mod Invariant
pub mod QueueSteps
pub mod NodeSteps
pub mod ReleaseSteps
pub mod CommitStep
pub mod Keeps
pub mod ContextKept
pub mod Trace
pub mod Mobile
pub mod Progress
pub mod Data
pub mod Start
pub mod Reached
pub mod Safe
pub mod Ends
use khaos.Prelude.{
  ℕ, zero, suc, ◌+◌, ◌<◌, ◌≡◌, List, [], ◌∷◌, ◌++◌, Option, none, some, Bool, true, false, length,
  get_elem?, ltb, ◌==◌, if◌then◌else◌, set_at, arith,
}
use khaos.Prelude.Int.{ℤ, pos, negsuc}
use khaos.Values.{Error}
use khaos.Storage.{Context, StorageEngine}
use khaos.Types.{Graph, dependents_of, in_degree_of, decrement, drop_edge, close_done}
use khaos.Reorder.{ReorderBuffer, commit}
use khaos.WorkerPool.{execute_node}
use khaos.WorkerPool.Reachable.{reachable_nodes}

-- NewConcurrentWorkerPool: the number of workers, where runtime.NumCPU() is `cpus`.
unfoldable pub new_concurrent_worker_pool : ℕ → ℤ → ℕ
new_concurrent_worker_pool cpus (pos zero) = cpus
new_concurrent_worker_pool cpus (pos (suc n)) = suc n
new_concurrent_worker_pool cpus (negsuc n) = cpus

pub new_concurrent_worker_pool-positive :
    (cpus : ℕ) (asked : ℤ) → 0 < cpus → 0 < new_concurrent_worker_pool cpus asked
unfolding new_concurrent_worker_pool
new_concurrent_worker_pool-positive cpus (pos zero) some_cpu = some_cpu
new_concurrent_worker_pool-positive cpus (pos (suc n)) some_cpu = omega arith
new_concurrent_worker_pool-positive cpus (negsuc n) some_cpu = some_cpu

-- Where a worker stands, with the locals that are live there.
pub data Pc : Type 0 where
  waiting : Pc  -- the select
  executing : (node : ℕ) → Pc  -- before executeNode
  releasing : (node : ℕ) (deps newly_runnable : List ℕ) → Pc  -- the loop of Release
  committing : (node : ℕ) (newly_runnable : List ℕ) → Pc  -- before Commit
  sending : (node : ℕ) (next : List ℕ) → Pc  -- the loop of sends
  closing_queue : Pc  -- before close(workCh)
  exited : Pc

-- What a select decides, where it has a choice: to leave when the context has ended, and, in Commit,
-- which sends to the consumer are done when the context has ended.
pub record Choice : Type 0 where
  pub leave : Bool
  pub sends : ℕ → Bool

-- Until the context has ended, every send to the consumer is done.
abbrev pub sends_under : Context → Choice → ℕ → Bool
sends_under none choice n = true
sends_under (some e) choice n = choice.sends n

module _ (engine : StorageEngine) where
  pub record Shared : Type 0 where
    pub graph : Graph
    pub store : engine.State
    pub rob : ReorderBuffer
    pub queue : List ℕ  -- the buffer of workCh
    pub closed : Bool  -- workCh is closed
    pub remaining : ℕ  -- the 64 bits of an int64
    pub ctx : Context

  -- A worker has moved, has to wait, or panics.
  pub data Outcome : Type 0 where
    moved : Shared → Pc → Outcome
    blocked panicked : Outcome

  -- `case node, ok := <-workCh`
  unfoldable pub receive : List ℕ → Shared → Outcome
  receive (n ∷ rest) sh = moved (record sh { queue = rest }) (executing n)
  receive [] sh = if sh.closed then moved sh exited else blocked

  unfoldable pub select : Choice → Shared → Outcome
  unfolding receive
  select choice sh =
      if choice.leave
      then (elim sh.ctx [ none ↦ blocked | some e ↦ moved sh exited ])
      else receive sh.queue sh

  unfoldable pub commit_node : Choice → ℕ → List ℕ → Shared → Outcome
  commit_node choice n newly sh = elim (get_elem? sh.graph n) [
    | none ↦ panicked
    | some node ↦ elim (commit (sends_under sh.ctx choice) node sh.rob) [
      | none ↦ panicked
      | some rob' ↦ moved (record sh { rob = rob' }) (sending n newly)
    ]
  ]

  -- The next step of a worker; `total` is the capacity of workCh.
  unfoldable pub advance : ℕ → Choice → Shared → Pc → Outcome
  unfolding select commit_node
  advance total choice sh waiting = select choice sh
  advance total choice sh (executing n) =
      let (graph', store') = execute_node engine sh.ctx n (sh.graph, sh.store) in
      moved (record sh { graph = graph'; store = store' }) (releasing n (dependents_of graph' n) [])
  advance total choice sh (releasing n (d ∷ deps) newly) =
      let graph' = drop_edge d sh.graph in
      moved (record sh { graph = graph' })
        (releasing n deps (if in_degree_of graph' d == 0 then newly ++ d ∷ [] else newly))
  advance total choice sh (releasing n [] newly) = elim (close_done n sh.graph) [
    | none ↦ panicked
    | some graph' ↦ moved (record sh { graph = graph' }) (committing n newly)
  ]
  advance total choice sh (committing n newly) = commit_node choice n newly sh
  advance total choice sh (sending n (m ∷ next)) =
      if sh.closed
      then panicked
      else if ltb (length sh.queue) total
      then moved (record sh { queue = sh.queue ++ m ∷ [] }) (sending n next)
      else blocked
  advance total choice sh (sending n []) =
      let left = decrement sh.remaining in
      moved (record sh { remaining = left }) (if left == 0 then closing_queue else waiting)
  advance total choice sh closing_queue =
      if sh.closed then panicked else moved (record sh { closed = true }) waiting
  advance total choice sh exited = blocked

  pub record Pool : Type 0 where
    pub shared : Shared
    pub pcs : ℕ → Pc  -- by worker; from the number of workers on nothing ever moves

  -- A step of one worker, or the end of the context.
  pub data Step (workers total : ℕ) (p : Pool) : Pool → Type 0 where
    work :
        (w : ℕ) (choice : Choice) {sh : Shared} {pc : Pc}
        → w < workers
        → advance total choice p.shared (p.pcs w) ≡ moved sh pc
        → Step workers total p (record { shared = sh; pcs = set_at w pc p.pcs })
    cancel :
        (e : Error)
        → p.shared.ctx ≡ none
        → Step workers total p (record { shared = record p.shared { ctx = some e }; pcs = p.pcs })

  pub data Reach (workers total : ℕ) (p : Pool) : Pool → Type 0 where
    here : Reach workers total p p
    next : {q r : Pool} → Reach workers total p q → Step workers total q r → Reach workers total p r

  -- The state in which Run starts its workers, with the initial nodes in the queue.
  unfoldable pub run_start : Context → Graph → List ℕ → engine.State → ReorderBuffer → Pool
  run_start ctx g initial store rob = record {
    shared = record {
      graph = g;
      store = store;
      rob = rob;
      queue = initial;
      closed = false;
      remaining = length (reachable_nodes g initial);
      ctx = ctx;
    };
    pcs = λ w. waiting;
  }
