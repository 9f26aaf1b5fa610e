-- ===== src/Server/Handle.antt =====
-- server.go: handleBatch, from the decoded body to the response. What the select of its drain loop
-- yields, one after another, is a list of events; what Run sends on runErrCh is an argument.
pub mod Drain
pub mod Correct
use khaos.Prelude.{
  ℕ, ◌≡◌, refl, List, [], ◌∷◌, ◌++◌, map, Option, none, some, Bool, true, false, if◌then◌else◌,
}
use khaos.Values.{
  Any, Error, canceled, deadline_exceeded, invalid_json_body, failed_to_build_graph,
  worker_pool_error, batch_timeout_exceeded,
}
use khaos.Result.{Result, ok, err}
use khaos.Types.{Operation, Graph}
use khaos.Hazard.{build}
use khaos.Reorder.{ReorderBuffer}
use khaos.Server.Translate.{BatchRequestItem, translate_request}

-- The text of an error is not modelled, so the item holds the error.
pub record BatchResponseItem : Type 0 where
  pub seq_id : ℕ
  pub result : Any
  pub error : Option Error

-- What the handler writes: an array, an error object, or nothing when the request has ended early.
pub data Response : Type 0 where
  responded : (status : ℕ) (items : List BatchResponseItem) → Response
  failed : (status : ℕ) (error : Error) → Response
  unanswered : Response

abbrev pub status_ok : ℕ
status_ok = 200

abbrev pub status_bad_request : ℕ
status_bad_request = 400

abbrev pub status_internal_server_error : ℕ
status_internal_server_error = 500

abbrev pub status_gateway_timeout : ℕ
status_gateway_timeout = 504

-- A request is answered at once, or its graph goes to the workers.
pub data Admission : Type 0 where
  answered : Response → Admission
  accepted : (ops : List Operation) (all : Graph) (runnable : List ℕ) → Admission

unfoldable pub admit_ops : List Operation → Admission
admit_ops ops = elim (build ops) [
  | ok (all, runnable) ↦ accepted ops all runnable
  | err cause ↦ answered (failed status_bad_request (failed_to_build_graph cause))
]

-- From the decoded body, or the error of the decoder, to the start of the workers.
unfoldable pub admit : Result (List BatchRequestItem) → Admission
unfolding admit_ops
admit (err cause) = answered (failed status_bad_request (invalid_json_body cause))
admit (ok []) = answered (responded status_ok [])
admit (ok (item ∷ items)) = elim (translate_request (item ∷ items)) [
  | ok ops ↦ admit_ops ops
  | err cause ↦ answered (failed status_bad_request cause)
]

-- What a select of the drain loop yields.
pub data Event : Type 0 where
  arrived : (op : Operation) → Event
  channel_closed : Event
  context_ended : Error → Event

abbrev pub response_item : Operation → BatchResponseItem
response_item op = record { seq_id = op.seq_id; result = op.result; error = op.err }

-- How the drain loop ends, if it has.
pub data Drained : Type 0 where
  draining : (responses : List BatchResponseItem) → Drained
  complete : (responses : List BatchResponseItem) → Drained
  ended : (cause : Error) → Drained

unfoldable pub drain_loop : List Event → List BatchResponseItem → Drained
drain_loop [] responses = draining responses
drain_loop (arrived op ∷ events) responses = drain_loop events (responses ++ response_item op ∷ [])
drain_loop (channel_closed ∷ events) responses = complete responses
drain_loop (context_ended cause ∷ events) responses = ended cause

-- `errors.Is(cause, context.DeadlineExceeded)`, for the error of a context.
abbrev pub is_deadline_exceeded : Error → Bool
is_deadline_exceeded deadline_exceeded = true
is_deadline_exceeded _ = false

unfoldable pub answer_ended : Error → Response
answer_ended cause =
    if is_deadline_exceeded cause
    then failed status_gateway_timeout batch_timeout_exceeded
    else unanswered

-- The rest of the handler: none while it still waits.
unfoldable pub answer : Drained → Option Error → Option Response
unfolding answer_ended
answer (draining responses) run_err = none
answer (ended cause) run_err = some (answer_ended cause)
answer (complete responses) none = some (responded status_ok responses)
answer (complete responses) (some cause) =
    some (failed status_internal_server_error (worker_pool_error cause))

-- The events are what selects may yield, when the buffer has sent `sent` and `closed` says whether
-- its channel is closed: what was sent comes first, in order, and the end of the context at any point.
abbrev pub IsObserved : (closed : Bool) (sent : List Operation) → List Event → Type 0
IsObserved closed sent [] = Unit
IsObserved closed sent (context_ended cause ∷ events) = Unit
IsObserved closed [] (channel_closed ∷ events) = closed ≡ true
IsObserved closed (op ∷ sent) (channel_closed ∷ events) = ⊥
IsObserved closed [] (arrived op ∷ events) = ⊥
IsObserved closed (op ∷ sent) (arrived op' ∷ events) = (op' ≡ op) × IsObserved closed sent events
