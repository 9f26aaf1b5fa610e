-- ===== src/Tests/Simulator.antt =====
-- Two clients of the simulator, three latencies, and a batch of three updates.
use khaos.Prelude.{
  if◌then◌else◌, ℕ, ◌≤◌, ◌≡◌, ◌↔◌, refl, text, List, [], ◌∷◌, Option, none, some, true, take,
  length, leb, ltb, ◌==◌, ◌&&◌, count, All, arith,
}
use khaos.Prelude.Int.{ℤ, pos, negsuc}
use khaos.Prelude.Decimal.{digits}
use khaos.Result.{Result, ok, err}
use khaos.Server.Handle.{answered}
use khaos.Server.Config.{ServerConfig}
use khaos.Server.Body.{Body, Codec}
use khaos.Storage.Postgres.Schema.{ninety}
use khaos.Values.{Error, foreign}
use khaos.Server.Translate.{BatchRequestItem}
use khaos.Simulator.{
  request_sent, success, network_error, status, latency, new_metrics, apply, record_status, Reply,
  not_marshalled, answered, run_client, Clients, act, Reach, here, next, start_clients, exit_status,
  remark_of, clean_sweep,
}
use khaos.Simulator.Totals.{
  number_of, was_sent, has_code, has_timed_out, has_failed, took, simulation_totals,
}
use khaos.Simulator.Verdict.{got_200, simulation_verdict}
use khaos.Simulator.Percentiles.{percentiles, nearest, round_from, scale, half, ninety_five}
use khaos.Simulator.Percentiles.Correct.{IsPercentile, percentiles_lem}
use khaos.Simulator.Workload.{Draw, padded, rider_id_of, build_batch}

abbrev replies : List Reply
replies = answered 200 30 ∷ not_marshalled ∷ []

abbrev ended : Clients
ended = record {
  metrics = apply success (
      apply (latency 30)
        (apply network_error (apply (status 200) (apply request_sent new_metrics))));
  pending = [] ∷ [] ∷ [];
}

-- The second client comes between two updates of the first.
to_end : Reach (start_clients replies) ended
unfolding run_client record_status
to_end =
    next
      (next
        (next
          (next
            (next here (
              act [] ((network_error ∷ []) ∷ []) request_sent
                (status 200 ∷ latency 30 ∷ success ∷ []) refl))
            (act [] ((network_error ∷ []) ∷ []) (status 200) (latency 30 ∷ success ∷ []) refl))
          (act ((latency 30 ∷ success ∷ []) ∷ []) [] network_error [] refl))
        (act [] ([] ∷ []) (latency 30) (success ∷ []) refl))
      (act [] ([] ∷ []) success [] refl)

simulation_totals_example :
    (ended.metrics.requests_sent ≡ number_of was_sent replies)
    × (ended.metrics.success_count ≡ number_of (has_code (λ c. c == 200)) replies)
    × (ended.metrics.server_error_count ≡ number_of (has_code (λ c. leb 500 c)) replies)
    × (ended.metrics.client_error_count
        ≡ number_of (has_code (λ c. leb 400 c && ltb c 500)) replies)
    × (ended.metrics.timeout_count ≡ number_of has_timed_out replies)
    × (ended.metrics.network_err_count ≡ number_of has_failed replies)
    × ((code : ℕ) → ended.metrics.status_codes code ≡ number_of (has_code (λ c. c == code)) replies)
    × ((d : ℕ) → count d ended.metrics.latencies ≡ number_of (took d) replies)
simulation_totals_example = simulation_totals replies (omega arith) to_end (refl, (refl, tt))

simulation_verdict_example :
    (exit_status ended.metrics 2 ≡ 0 ↔ All (λ r. got_200 r ≡ true) replies)
    × (remark_of ended.metrics 2 ≡ clean_sweep ↔ All (λ r. got_200 r ≡ true) replies)
simulation_verdict_example = simulation_verdict replies (omega arith) to_end (refl, (refl, tt))

-- 0.95 * 20 rounds up to 19.
whole_index : (scale ninety_five 20 ≡ 19) × (scale half 7 ≡ 3)
unfolding scale round_from nearest
whole_index = (refl, refl)

percentiles_lem_example :
    (p50 : ℕ) × (p95 : ℕ) × (p99 : ℕ) × (percentiles (30 ∷ 10 ∷ 20 ∷ []) ≡ some (p50, p95, p99))
    × (p50 ≤ p95)
    × (p95 ≤ p99)
    × IsPercentile 50 p50 (30 ∷ 10 ∷ 20 ∷ [])
    × IsPercentile 95 p95 (30 ∷ 10 ∷ 20 ∷ [])
    × IsPercentile 99 p99 (30 ∷ 10 ∷ 20 ∷ [])
percentiles_lem_example = percentiles_lem 30 (10 ∷ 20 ∷ []) (omega arith)

abbrev draws : ℕ → Draw
draws i = record { latitude = ninety; longitude = ninety; status = 2; eta = 17 }

third_rider : rider_id_of 7 2 ≡ text "00000000-0000-0000-0000-000000007002"
unfolding rider_id_of padded digits
third_rider = refl

abbrev items_of : Option (List BatchRequestItem) → List BatchRequestItem
items_of (some items) = items
items_of none = []

abbrev three_items : List BatchRequestItem
three_items = items_of (build_batch draws (pos 3) 7)

-- One byte over the limit is enough for an error.
abbrev read_limited : ℤ → Body → Body
read_limited (pos limit) body =
    if leb (length body.bytes) limit
    then body
    else record { bytes = take limit body.bytes; ending = some (foreign 3) }
read_limited (negsuc n) body = body

abbrev decode_whole : Option Error → Result (List BatchRequestItem)
decode_whole none = ok three_items
decode_whole (some e) = err e

-- A codec for one batch.
abbrev one_batch : Codec
one_batch = record {
  marshal = λ items. text "[{},{},{}]";
  max_bytes_reader = read_limited;
  decode = λ body. decode_whole body.ending;
}

abbrev defaults : ServerConfig
defaults = record {
  addr = text ":8080";
  worker_count = pos 0;
  batch_timeout = pos 0;
  read_timeout = pos 0;
  write_timeout = pos 0;
  idle_timeout = pos 0;
  max_body_bytes = pos 0;
}
