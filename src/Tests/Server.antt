-- ===== src/Tests/Server.antt =====
-- Request items in any order.
use mathlib.Core.List.Perm
use khaos.Server.Translate.Permuted.{translate_request-perm}
use khaos.Prelude.{ℕ, ◌≡◌, ◌≢◌, ◌↔◌, refl, text, str_eq, List, [], ◌∷◌, none, some, length, All}
use khaos.Prelude.Int.{pos}
use khaos.Prelude.Strings.{trim_space, to_upper}
use khaos.Values.{RiderUpdate, nil, rider_update, missing_seq_id, unknown_operation_type_name}
use khaos.Result.{ok, err}
use khaos.Types.{op_read, op_write, Operation, Graph}
use khaos.Hazard.{build}
use khaos.Server.Translate.{
  BatchRequestItem, parse_operation_type, translate_item, translate_step, translate_loop,
  check_missing, translate_request,
}
use khaos.Server.Translate.Filled.{IsPlaced}
use khaos.Server.Translate.Correct.{translate_request-build, translate_request-ne-missing}

abbrev pub ping : RiderUpdate
ping = record {
  order_id = text "o1";
  latitude = 0;
  longitude = 0;
  current_status = text "EN_ROUTE";
  eta_minutes = pos 12;
}

abbrev read_item : BatchRequestItem
read_item = record {
  seq_id = 1;
  operation_type = text " read ";
  rider_id = text "r1";
  payload = none;
}

abbrev write_item : BatchRequestItem
write_item = record {
  seq_id = 0;
  operation_type = text "Write";
  rider_id = text "r1";
  payload = some ping;
}

abbrev pub items : List BatchRequestItem
items = read_item ∷ write_item ∷ []

abbrev pub write_op : Operation
write_op = record {
  seq_id = 0;
  key = text "r1";
  type = op_write;
  value = rider_update ping;
  result = nil;
  err = none;
}

abbrev pub read_op : Operation
read_op = record {
  seq_id = 1;
  key = text "r1";
  type = op_read;
  value = nil;
  result = nil;
  err = none;
}

abbrev pub ops : List Operation
ops = write_op ∷ read_op ∷ []

unfoldable pub translate_run : Unit {0}
unfolding translate_request translate_loop translate_step translate_item parse_operation_type
    check_missing trim_space to_upper str_eq
translate_run = tt

pub translated : translate_request items ≡ ok ops
unfolding translate_request translate_loop translate_step translate_item parse_operation_type
    check_missing trim_space to_upper str_eq
translated = refl

parse_rejects :
    parse_operation_type (text "PATCH") ≡ err (unknown_operation_type_name (text "PATCH"))
unfolding parse_operation_type trim_space to_upper str_eq
parse_rejects = refl

translate_request-build_example :
    (length ops ≡ length items)
    × All (IsPlaced ops) items
    × ((r : Graph × List ℕ) × (build ops ≡ ok r))
translate_request-build_example = translate_request-build items ops translated

translate_request-ne-missing_example : translate_request items ≢ err (missing_seq_id 1)
translate_request-ne-missing_example = translate_request-ne-missing items 1

translate_request-perm_example :
    translate_request items ≡ ok ops ↔ translate_request (write_item ∷ read_item ∷ []) ≡ ok ops
translate_request-perm_example =
    translate_request-perm items (write_item ∷ read_item ∷ []) ops
      (Perm.swap write_item read_item [])
