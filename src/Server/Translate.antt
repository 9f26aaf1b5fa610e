-- ===== src/Server/Translate.antt =====
-- server.go: translateRequest and parseOperationType, from request items to operations.
pub mod Filled
pub mod Passed
pub mod Correct
pub mod InOrder
pub mod Permuted
use khaos.Prelude.{
  ℕ, zero, suc, GoString, text, str_eq, List, [], ◌∷◌, Option, none, some, Bool, true, false,
  length, get_elem?, modify, ltb, leb, replicate, if◌then◌else◌,
}
use khaos.Prelude.Strings.{trim_space, to_upper}
use khaos.Values.{
  RiderUpdate, Any, nil, rider_update, Error, seq_id_out_of_range, duplicate_seq_id,
  unknown_operation_type_name, at_seq_id, rider_id_required, payload_required, missing_seq_id,
}
use khaos.Result.{Result, ok, err, ◌>>=◌, ◌>>◌}
use khaos.Types.{OperationType, op_read, op_write, op_delete, undefined, Operation}

pub record BatchRequestItem : Type 0 where
  pub seq_id : ℕ  -- uint64
  pub operation_type : GoString
  pub rider_id : GoString
  pub payload : Option RiderUpdate

unfoldable pub parse_operation_type : GoString → Result OperationType
parse_operation_type raw =
    let word = to_upper (trim_space raw) in
    if str_eq word (text "READ")
    then ok op_read
    else if str_eq word (text "WRITE")
    then ok op_write
    else if str_eq word (text "DELETE")
    then ok op_delete
    else err (unknown_operation_type_name raw)

-- The zero value of an Operation, which `make` fills the slice with.
abbrev pub zero_operation : Operation
zero_operation = record {
  seq_id = 0;
  key = [];
  type = op_read;
  value = nil;
  result = nil;
  err = none;
}

-- The two slices of translateRequest.
pub record Slots : Type 0 where
  pub ops : List Operation
  pub seen : List Bool

abbrev pub is_seen : List Bool → ℕ → Bool
is_seen seen i = elim (get_elem? seen i) [ none ↦ false | some b ↦ b ]

abbrev pub guard : Bool → Error → Result (Unit {0})
guard true e = err e
guard false e = ok tt

-- `fmt.Errorf("seq_id %d: %w", …)`
abbrev pub with_seq_id {ℓ} : {A : Type ℓ} → ℕ → Result A → Result A
with_seq_id i (ok a) = ok a
with_seq_id i (err e) = err (at_seq_id i e)

-- `op.Value`, for a write and for the other types.
unfoldable pub payload_value : OperationType → BatchRequestItem → Result Any
payload_value op_write item = elim item.payload [
  | none ↦ err (payload_required item.seq_id)
  | some update ↦ ok (rider_update update)
]
payload_value op_read item = ok nil
payload_value op_delete item = ok nil
payload_value (undefined n) item = ok nil

abbrev pub is_empty : GoString → Bool
is_empty [] = true
is_empty (c ∷ s) = false

-- The operation of one item, and its checks.
unfoldable pub translate_item : BatchRequestItem → Result Operation
unfolding payload_value
translate_item item = do
  op_type ← with_seq_id item.seq_id (parse_operation_type item.operation_type)
  guard (is_empty item.rider_id) (rider_id_required item.seq_id)
  value ← payload_value op_type item
  ok (record {
    seq_id = item.seq_id;
    key = item.rider_id;
    type = op_type;
    value = value;
    result = nil;
    err = none;
  })

-- The body of the loop over the items, for a batch of n.
unfoldable pub translate_step : ℕ → BatchRequestItem → Slots → Result Slots
translate_step n item s = do
  guard (leb n item.seq_id) (seq_id_out_of_range item.seq_id n)
  guard (is_seen s.seen item.seq_id) (duplicate_seq_id item.seq_id)
  op ← translate_item item
  ok (record {
    ops = modify item.seq_id (λ _. op) s.ops;
    seen = modify item.seq_id (λ _. true) s.seen;
  })

unfoldable pub translate_loop : ℕ → List BatchRequestItem → Slots → Result Slots
translate_loop n [] s = ok s
translate_loop n (item ∷ items) s = translate_step n item s >>= translate_loop n items

-- The loop over `seen`, from position i on.
unfoldable pub check_missing : ℕ → List Bool → Result (Unit {0})
check_missing i [] = ok tt
check_missing i (true ∷ seen) = check_missing (suc i) seen
check_missing i (false ∷ seen) = err (missing_seq_id i)

abbrev pub empty_slots : ℕ → Slots
empty_slots n = record { ops = replicate n zero_operation; seen = replicate n false }

unfoldable pub translate_request : List BatchRequestItem → Result (List Operation)
translate_request items = do
  let n = length items
  s ← translate_loop n items (empty_slots n)
  check_missing 0 s.seen
  ok s.ops
