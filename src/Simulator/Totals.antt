-- ===== src/Simulator/Totals.antt =====
-- cmd/simulator/main.go: what the counters hold when all clients are done.
use khaos.Prelude.{
  ℕ, ◌+◌, ◌^◌, ◌≤◌, ◌<◌, ◌≡◌, refl, ap, ◌∙◌, List, [], ◌∷◌, Option, none, some, ◌++◌, map, Bool,
  true, false, not, ◌&&◌, length, leb, ltb, ◌==◌, to_nat, count, count-append, All, arith,
}
use khaos.Simulator.{
  Update, request_sent, success, server_error, client_error, timed_out, network_error, status,
  latency, Metrics, new_metrics, apply, record_status, Reply, not_marshalled, not_constructed,
  no_response, answered, run_client, Clients, act, Reach, here, next, start_clients, AllDone,
}

abbrev same : Update → Update → Bool
same request_sent request_sent = true
same success success = true
same server_error server_error = true
same client_error client_error = true
same timed_out timed_out = true
same network_error network_error = true
same (status c) (status d) = d == c
same (latency c) (latency d) = c == d
same u v = false

-- What the metrics have of an update.
abbrev pub value : Update → Metrics → ℕ
value request_sent m = m.requests_sent
value success m = m.success_count
value server_error m = m.server_error_count
value client_error m = m.client_error_count
value timed_out m = m.timeout_count
value network_error m = m.network_err_count
value (status code) m = m.status_codes code
value (latency duration) m = count duration m.latencies

value-apply :
    (c u : Update) (m : Metrics)
    → value c m + 1 < 2 ^ 64
    → value c (apply u m) ≡ value c m + to_nat (same c u)
unfolding apply
value-apply c request_sent m small = ground arith
value-apply c success m small = ground arith
value-apply c server_error m small = ground arith
value-apply c client_error m small = ground arith
value-apply c timed_out m small = ground arith
value-apply c network_error m small = ground arith
value-apply c (status code) m small = ground arith
value-apply (latency d) (latency duration) m small =
    omega (arith, count-append d m.latencies (duration ∷ []))
value-apply c (latency duration) m small = ground arith

abbrev pub number_of {ℓ} : {A : Type ℓ} → (A → Bool) → List A → ℕ
number_of p [] = 0
number_of p (x ∷ xs) = to_nat (p x) + number_of p xs

pub number_of-le {ℓ} : {A : Type ℓ} (p : A → Bool) (xs : List A) → number_of p xs ≤ length xs
number_of-le p [] = omega arith
number_of-le p (x ∷ xs) = ground (arith, number_of-le p xs)

abbrev occurs : Update → List Update → ℕ
occurs c = number_of (same c)

abbrev total : Update → List (List Update) → ℕ
total c [] = 0
total c (us ∷ pending) = occurs c us + total c pending

total-append :
    (c : Update) (front back : List (List Update))
    → total c (front ++ back) ≡ total c front + total c back
total-append c [] back = omega arith
total-append c (us ∷ front) back = omega (arith, total-append c front back)

-- What has been counted and what is still to come stay the same together.
Reach-kept :
    {p q : Clients} (c : Update)
    → value c p.metrics + total c p.pending + 1 < 2 ^ 64
    → Reach p q
    → value c q.metrics + total c q.pending ≡ value c p.metrics + total c p.pending
Reach-kept c small here = refl
Reach-kept c small (next {d} r (act before after u us e)) =
    let kept = Reach-kept c small r in
    let split = ap (total c) e ∙ total-append c before ((u ∷ us) ∷ after) in
    omega (
      arith,
      kept,
      split,
      value-apply c u d.metrics (omega (arith, kept)),
      total-append c before (us ∷ after),
    )

total-done :
    (c : Update) (pending : List (List Update)) → All (λ us. us ≡ []) pending → total c pending ≡ 0
total-done c [] done = refl
total-done c (us ∷ pending) (empty, done) =
    omega (arith, ap (occurs c) empty, total-done c pending done)

total-replies :
    (c : Update) (p : Reply → Bool) (replies : List Reply)
    → ((r : Reply) → occurs c (run_client r) ≡ to_nat (p r))
    → total c (map run_client replies) ≡ number_of p replies
total-replies c p [] each = refl
total-replies c p (r ∷ replies) each = omega (arith, each r, total-replies c p replies each)

-- Replies by what they are, independently of how they are counted.
abbrev pub was_sent : Reply → Bool
was_sent (no_response cause) = true
was_sent (answered code duration) = true
was_sent _ = false

abbrev pub has_code : (ℕ → Bool) → Reply → Bool
has_code p (answered code duration) = p code
has_code p _ = false

abbrev pub took : ℕ → Reply → Bool
took d (answered code duration) = d == duration
took d _ = false

-- The error has context.DeadlineExceeded in it, or a net.Error that calls itself a timeout.
abbrev pub says_timeout : (deadline_exceeded : Bool) (net_timeout : Option Bool) → Bool
says_timeout true net_timeout = true
says_timeout false none = false
says_timeout false (some false) = false
says_timeout false (some true) = true

abbrev pub has_timed_out : Reply → Bool
has_timed_out (no_response cause) = says_timeout cause.deadline_exceeded cause.net_timeout
has_timed_out _ = false

-- The request could not be made, or no response came for another reason than a timeout.
abbrev pub has_failed : Reply → Bool
has_failed not_marshalled = true
has_failed not_constructed = true
has_failed (no_response cause) = not (says_timeout cause.deadline_exceeded cause.net_timeout)
has_failed (answered code duration) = false

module _ (replies : List Reply) (few : length replies < 2 ^ 63) {q : Clients}
    (r : Reach (start_clients replies) q) (done : AllDone q) where
  counted :
      (c : Update) (p : Reply → Bool)
      → value c new_metrics ≡ 0
      → ((r : Reply) → occurs c (run_client r) ≡ to_nat (p r))
      → value c q.metrics ≡ number_of p replies
  counted c p fresh each =
      let all = total-replies c p replies each in
      let kept = Reach-kept c (omega (arith, all, number_of-le p replies, fresh)) r in
      omega (arith, kept, all, total-done c q.pending done, fresh)

  -- Fewer than 2^63 clients run, and all are done. In whatever order their updates came, each counter
  -- holds the number of clients that it is meant to count: requests sent, responses with status 200,
  -- of 500 and above, and from 400 to 499, timeouts, and failures that are no timeouts; the map holds
  -- the number of responses with each status, and the slice each latency as often as it was measured.
  pub simulation_totals :
      (q.metrics.requests_sent ≡ number_of was_sent replies)
      × (q.metrics.success_count ≡ number_of (has_code (λ c. c == 200)) replies)
      × (q.metrics.server_error_count ≡ number_of (has_code (λ c. leb 500 c)) replies)
      × (q.metrics.client_error_count ≡ number_of (has_code (λ c. leb 400 c && ltb c 500)) replies)
      × (q.metrics.timeout_count ≡ number_of has_timed_out replies)
      × (q.metrics.network_err_count ≡ number_of has_failed replies)
      × ((code : ℕ) → q.metrics.status_codes code ≡ number_of (has_code (λ c. c == code)) replies)
      × ((d : ℕ) → count d q.metrics.latencies ≡ number_of (took d) replies)
  unfolding run_client record_status
  simulation_totals = (
    counted request_sent was_sent refl (λ r. ground arith),
    counted success _ refl (λ r. ground arith),
    counted server_error _ refl (λ r. ground arith),
    counted client_error _ refl (λ r. ground arith),
    counted timed_out _ refl (λ r. ground arith),
    counted network_error _ refl (λ r. ground arith),
    λ code. counted (status code) _ refl (λ r. ground arith),
    λ d. counted (latency d) _ refl (λ r. ground arith),
  )
