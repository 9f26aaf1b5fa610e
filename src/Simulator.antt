-- ===== src/Simulator.antt =====
-- cmd/simulator/main.go: the clients of the load simulator, their shared counters and the verdict.
-- Each addition to a counter is atomic, and the map and the slice stand under a mutex each, so a
-- client is a list of updates that the others' come between.
pub mod Totals
pub mod Verdict
pub mod Percentiles
pub mod Workload
use khaos.Prelude.{
  ℕ, ◌+◌, ◌%◌, ◌^◌, ◌≡◌, List, [], ◌∷◌, ◌++◌, map, Option, none, some, Bool, true, false, ◌||◌,
  length, ltb, leb, ◌==◌, if◌then◌else◌, All,
}

-- One atomic step of a client on the metrics.
pub data Update : Type 0 where
  request_sent success server_error client_error timed_out network_error : Update
  status : (code : ℕ) → Update
  latency : (duration : ℕ) → Update

-- A counter is the 64 bits of its atomic.Int64; a missing key of the map has 0.
pub record Metrics : Type 0 where
  pub requests_sent : ℕ
  pub success_count : ℕ
  pub server_error_count : ℕ
  pub client_error_count : ℕ
  pub timeout_count : ℕ
  pub network_err_count : ℕ
  pub status_codes : ℕ → ℕ
  pub latencies : List ℕ

abbrev pub new_metrics : Metrics
new_metrics = record {
  requests_sent = 0;
  success_count = 0;
  server_error_count = 0;
  client_error_count = 0;
  timeout_count = 0;
  network_err_count = 0;
  status_codes = λ code. 0;
  latencies = [];
}

-- `Add(1)`
abbrev pub add_one : ℕ → ℕ
add_one n = (n + 1) % 2 ^ 64

unfoldable pub apply : Update → Metrics → Metrics
apply request_sent m = record m { requests_sent = add_one m.requests_sent }
apply success m = record m { success_count = add_one m.success_count }
apply server_error m = record m { server_error_count = add_one m.server_error_count }
apply client_error m = record m { client_error_count = add_one m.client_error_count }
apply timed_out m = record m { timeout_count = add_one m.timeout_count }
apply network_error m = record m { network_err_count = add_one m.network_err_count }
apply (status code) m = record m {
  status_codes = λ c. if code == c then add_one (m.status_codes c) else m.status_codes c;
}
apply (latency duration) m = record m { latencies = m.latencies ++ duration ∷ [] }

-- The switch of recordStatus.
abbrev pub class_of : ℕ → List Update
class_of code =
    if code == 200
    then success ∷ []
    else if leb 500 code
    then server_error ∷ []
    else if leb 400 code
    then client_error ∷ []
    else []

unfoldable pub record_status : (code duration : ℕ) → List Update
record_status code duration = status code ∷ latency duration ∷ class_of code

-- What errors.Is and errors.As find in an error of httpClient.Do: the second is Timeout of a
-- net.Error, if it is one.
pub record HttpError : Type 0 where
  pub deadline_exceeded : Bool
  pub net_timeout : Option Bool

abbrev pub is_timeout : HttpError → Bool
is_timeout e =
    if e.deadline_exceeded then true else elim e.net_timeout [ none ↦ false | some t ↦ t ]

-- How the request of one client goes.
pub data Reply : Type 0 where
  not_marshalled not_constructed : Reply
  no_response : (cause : HttpError) → Reply
  answered : (code duration : ℕ) → Reply

-- runClient
unfoldable pub run_client : Reply → List Update
unfolding record_status
run_client not_marshalled = network_error ∷ []
run_client not_constructed = network_error ∷ []
run_client (no_response cause) =
    request_sent ∷ (if is_timeout cause then timed_out else network_error) ∷ []
run_client (answered code duration) = request_sent ∷ record_status code duration

-- The metrics, and the updates that each client has still to make.
pub record Clients : Type 0 where
  pub metrics : Metrics
  pub pending : List (List Update)

-- Some client makes its next update.
pub data Step (c : Clients) : Clients → Type 0 where
  act :
      (before after : List (List Update)) (u : Update) (us : List Update)
      → c.pending ≡ before ++ (u ∷ us) ∷ after
      → Step c (record { metrics = apply u c.metrics; pending = before ++ us ∷ after })

pub data Reach (c : Clients) : Clients → Type 0 where
  here : Reach c c
  next : {d e : Clients} → Reach c d → Step d e → Reach c e

-- A client for each reply.
abbrev pub start_clients : List Reply → Clients
start_clients replies = record { metrics = new_metrics; pending = map run_client replies }

-- wg.Wait returns
abbrev pub AllDone : Clients → Type 0
AllDone c = All (λ us. us ≡ []) c.pending

-- The status with which the process exits.
unfoldable pub exit_status : Metrics → (concurrency : ℕ) → ℕ
exit_status m concurrency = if m.success_count == concurrency then 0 else 1

-- The last lines of printReport.
pub data Remark : Type 0 where
  non_success clean_sweep no_remark : Remark

unfoldable pub remark_of : Metrics → (concurrency : ℕ) → Remark
remark_of m concurrency =
    if ltb 0 m.server_error_count || ltb 0 m.timeout_count || ltb 0 m.network_err_count
    then non_success
    else if m.success_count == concurrency
    then clean_sweep
    else no_remark
