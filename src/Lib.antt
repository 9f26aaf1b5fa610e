-- ===== src/Lib.antt =====
-- Khaos: an engine that takes a batch of key-value operations, runs what is independent at the same
-- time, orders what touches the same key, and returns the results in the order of the batch; with
-- its HTTP gateway and a simulator that puts load on it.
--
-- How a batch goes: server.go translates request items to operations (translateRequest); hazard.go
-- builds a dependency graph of them (Build); workerpool.go executes the nodes of the graph on workers,
-- against a StorageEngine (storage.go or postgres_storage.go); reorder.go puts the finished
-- operations back in order (Commit, Drain); the handler of server.go sends them to the client.
--
-- Which file models which part:
--   Values      the values (any) that the engine moves, and every error, by where it is made
--   Result      a value or an error
--   Types       types.go: Operation, DAGNode, AddDependency, Release. Nodes are shared by pointer, so
--               a graph is a heap: a pointer is the node's position, which is the order in which Build
--               allocates. The in-degree keeps the 64 bits of its atomic.Int64.
--   Hazard      hazard.go: Build, as a loop over its maps lastWrite and lastReads and the heap. Below
--               it: History (what the maps and the graph mean for the operations passed so far),
--               Wiring, Placed and Invariant (the loop keeps that), Spec (hazards, stated without the
--               loop), Order (chains of hazards), Correct, Accept and Outcome.
--   Storage     interfaces.go (StorageEngine) with the laws of an engine that has a cell for each key;
--               Storage/Fnv and Storage/ShardedMap for storage.go. A method makes one map access under
--               one lock, so it is one step.
--               Storage/Postgres for postgres_storage.go: its three statements are data (Sql), and the
--               database, which runs any statement of their forms, is a parameter. What is relied on of
--               PostgreSQL and of Scan is IsPostgres (Rows): UUIDs come back in canonical form. Below it
--               Schema is what schema.sql asks of a row, Valid the checks of Set, Stored what a Set has
--               done, and Statements the preparation and the closing of the statements.
--   Reorder     reorder.go: NewInOrderReorderBuffer, Drain and Commit. Commit runs under the mutex, so
--               it is one step; which branch each select takes is an argument. Its loop has the number
--               of pending entries for fuel: each round removes one.
--   WorkerPool  workerpool.go: executeNode, against any StorageEngine. Below it: Cells (what it does to
--               the cell of its key), Schedule (what holds after the nodes executed so far) and Serial
--               (orders of execution). Delivered commits each node when it has been executed.
--               Reachable is reachableNodes, whose loop has the number of nodes for fuel: each round
--               moves a node that never comes again.
--               Run is ConcurrentWorkerPool.Run: any number of workers, interleaved in any order. One step
--               of a worker is one access to what they share: the select, executeNode (one call of the
--               engine), an atomic decrement of Release, the close of done, Commit (under its mutex), a
--               send to workCh, the decrement of remaining, the close of workCh. The context ends
--               between any two steps. Below it: Places (a node waits, is in a worker's list of newly
--               runnable nodes, in the queue, in the hands of a worker, or finished; each in one place),
--               Balance (in-degrees), Closing (remaining and the close), Measure (what is left to do),
--               Invariant (all of it, with a Rule on the store as a parameter), Keeps (each step keeps it;
--               by way of Holders, Flags, Heap, QueueSteps, NodeSteps, ReleaseSteps and CommitStep), Start,
--               Trace (the nodes executed on the way), ContextKept, Mobile, Progress, Data (the Rule
--               that compares with the batch in order), Reached, Safe and Ends. The number of steps is
--               bounded by Reached.most_steps. Released is Release without another worker in
--               between.
--   Server      server.go: translateRequest and parseOperationType (Server/Translate; Permuted below it is
--               about items in another order), NewServer (Server/Config), Run and Shutdown of the server
--               (Server/Lifecycle, with what the HTTP server and the closing of a statement return as
--               arguments), and handleBatch (Server/Handle): up to the start of the workers, and from
--               what its drain loop receives to the response. The decoder's result, the events of the
--               select and the error of Run are arguments; Handle/Correct puts the states of Run for
--               them. Server/Body is withMaxBody and the decoding before it, over a JSON codec and a
--               MaxBytesReader that are parameters.
--   Gateway     api/main.go: loadConfig and dsn; the environment, strconv.Atoi and time.ParseDuration
--               are parameters. Gateway/Settings reads connection strings as PostgreSQL documents their
--               format. Gateway/Process is run and waitForDB: what each call outside returns is a field
--               of World, a round of the loop of waitForDB is one element of its list, and what the
--               process holds when run returns is the record Process.
--   Simulator   cmd/simulator/main.go: runClient as the list of atomic updates that a client makes, and
--               any interleaving of the clients' updates (Step, Reach); recordStatus, isTimeout, the
--               exit status and the last lines of printReport. Totals and Verdict are what holds when
--               wg.Wait returns. Percentiles is percentiles, where a latency is a count of nanoseconds
--               and a float64 product is rounded to 53 bits, half to even: fuel 64 is enough for a
--               product of at most 106 bits; Rounding shows that the index is the whole part of the
--               exact product. Workload is buildBatch, over what its generator draws.
--   Tests       runs on small inputs.
--
-- A Go string is the list of its bytes, a Go map with string keys is what it holds at each key, and
-- uint64 and int counters wrap where the source lets them. The decimal digits of a number
-- (Prelude/Decimal) take more fuel than the number. Coordinates and times are bit patterns and
-- counts: apart from the percentiles of the simulator, the modelled code does not compute with
-- them. The text of an error message is not modelled, its constructor and arguments are.
--
-- Not modelled: a pool whose ReorderBuffer is nil (the handler always gives one), the return of Run
-- on an empty graph (the handler answers an empty batch itself), HTTP, JSON, logging, printing, flags
-- and timers, how PostgreSQL runs a statement, main of api/main.go (it prints the error of run and
-- exits), the rates that the simulator's report prints, and the PHP client.
pub mod Prelude
pub mod Values
pub mod Result
pub mod Types
pub mod Storage
pub mod Hazard
pub mod Reorder
pub mod WorkerPool
pub mod Server
pub mod Gateway
pub mod Simulator
pub mod Tests
