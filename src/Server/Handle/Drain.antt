-- ===== src/Server/Handle/Drain.antt =====
-- server.go: handleBatch. What its drain loop has when the results have all been received.
use khaos.Prelude.{
  ℕ, zero, suc, ◌≡◌, ◌≢◌, refl, sym, ap, ◌∙◌, List, [], ◌∷◌, ◌++◌, map, Option, none, some, Bool,
  true, false, length, get_elem?, if◌then◌else◌, arith,
}
use khaos.Values.{Error, batch_timeout_exceeded}
use khaos.Types.{Operation}
use khaos.Server.Handle.{
  BatchResponseItem, responded, failed, unanswered, status_gateway_timeout, is_deadline_exceeded,
  status_ok, Event, arrived, channel_closed, context_ended, response_item, Drained, draining, ended,
  drain_loop, complete, answer, answer_ended, IsObserved,
}
use mathlib.Core.Option
use mathlib.Core.List.{append-nil, append_assoc}

-- What has been observed when the drain loop is complete.
pub drain_loop-IsObserved :
    (closed : Bool) (sent : List Operation) (events : List Event)
    (before responses : List BatchResponseItem)
    → IsObserved closed sent events
    → drain_loop events before ≡ complete responses
    → (closed ≡ true) × (responses ≡ before ++ map response_item sent)
unfolding drain_loop
drain_loop-IsObserved closed sent [] before responses seen e = cc
drain_loop-IsObserved closed sent (context_ended c ∷ events) before responses seen e = cc
drain_loop-IsObserved closed [] (channel_closed ∷ events) before responses seen e =
    (seen, complete_of e ∙ sym (append-nil before))
  where
    given : Drained → List BatchResponseItem
    given (complete rs) = rs
    given (draining rs) = []
    given (ended c) = []

    complete_of : complete before ≡ complete responses → responses ≡ before
    complete_of same = sym (ap given same)
drain_loop-IsObserved closed (op ∷ sent) (channel_closed ∷ events) before responses seen e =
    absurd seen
drain_loop-IsObserved closed [] (arrived op ∷ events) before responses seen e = absurd seen
drain_loop-IsObserved closed (op ∷ sent) (arrived op' ∷ events) before responses (same, seen) e =
    let (shut, all) =
      drain_loop-IsObserved closed sent events (before ++ response_item op' ∷ []) responses seen
        e in
    (
      shut,
      all
          ∙ append_assoc before (response_item op' ∷ []) (map response_item sent)
          ∙ ap (λ o. before ++ response_item o ∷ map response_item sent) same,
    )

-- All of it, and then the close.
pub drain_loop-arrived :
    (sent : List Operation) (before : List BatchResponseItem)
    → drain_loop (map arrived sent ++ channel_closed ∷ []) before
      ≡ complete (before ++ map response_item sent)
unfolding drain_loop
drain_loop-arrived [] before = ap complete (sym (append-nil before))
drain_loop-arrived (op ∷ sent) before =
    drain_loop-arrived sent (before ++ response_item op ∷ [])
    ∙ ap complete (append_assoc before (response_item op ∷ []) (map response_item sent))

pub all-IsObserved :
    {closed : Bool} (sent : List Operation)
    → closed ≡ true
    → IsObserved closed sent (map arrived sent ++ channel_closed ∷ [])
all-IsObserved [] shut = shut
all-IsObserved (op ∷ sent) shut = (refl, all-IsObserved sent shut)

-- A 200 answer after the drain loop.
pub answer-status_ok :
    (d : Drained) (run_err : Option Error) (responses : List BatchResponseItem)
    → answer d run_err ≡ some (responded status_ok responses)
    → (run_err ≡ none) × (d ≡ complete responses)
unfolding answer answer_ended
answer-status_ok (draining rs) run_err responses e = cc
answer-status_ok (complete rs) none responses e = (refl, ground (arith, e))
answer-status_ok (complete rs) (some cause) responses e = cc
answer-status_ok (ended cause) run_err responses e =
    absurd (ended_fails (is_deadline_exceeded cause) e)
  where
    ended_fails :
        (late : Bool)
        → some (if late then failed status_gateway_timeout batch_timeout_exceeded else unanswered)
          ≢ some (responded status_ok responses)
    ended_fails true same = cc
    ended_fails false same = cc

pub get_elem?-map :
    (f : Operation → BatchResponseItem) (xs : List Operation) (i : ℕ)
    → get_elem? (map f xs) i ≡ Option.map f (get_elem? xs i)
get_elem?-map f [] i = refl
get_elem?-map f (x ∷ xs) zero = refl
get_elem?-map f (x ∷ xs) (suc i) = get_elem?-map f xs i

pub size-map :
    (f : Operation → BatchResponseItem) (xs : List Operation) → length (map f xs) ≡ length xs
size-map f [] = refl
size-map f (x ∷ xs) = ap suc (size-map f xs)
