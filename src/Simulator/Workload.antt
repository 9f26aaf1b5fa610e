-- ===== src/Simulator/Workload.antt =====
-- cmd/simulator/main.go: buildBatch. The item types of the simulator and of the server have the same
-- fields under the same JSON names, so the model has one.
pub mod Uuid
pub mod Items
pub mod Accepted
use khaos.Prelude.{
  ℕ, zero, suc, ◌+◌, ◌-◌, ◌*◌, ◌%◌, ◌^◌, GoString, text, List, [], ◌∷◌, ◌++◌, Option, none, some,
  length, get_elem?, replicate, ltb, if◌then◌else◌,
}
use khaos.Prelude.Decimal.{digits}
use khaos.Prelude.Int.{ℤ, pos, negsuc}
use khaos.Values.{RiderUpdate}
use khaos.Server.Translate.{BatchRequestItem}

abbrev pub rider_statuses : List GoString
rider_statuses = text "AT_VENDOR" ∷ text "EN_ROUTE" ∷ text "ARRIVED" ∷ text "DELIVERED" ∷ []

-- What one round of the loop draws: the two coordinates that it makes of rng.Float64, as bits, and
-- the two results of rng.Intn.
pub record Draw : Type 0 where
  pub latitude : ℕ
  pub longitude : ℕ
  pub status : ℕ
  pub eta : ℕ

-- The int that the low 64 bits of n stand for.
abbrev pub to_int : ℕ → ℤ
to_int n = if ltb (n % 2 ^ 64) (2 ^ 63) then pos (n % 2 ^ 64) else negsuc (2 ^ 64 - 1 - n % 2 ^ 64)

-- `%012d`, for any width: zeros after the sign.
abbrev pub pad_zeros : (width : ℕ) → GoString → GoString
pad_zeros width s = replicate (width - length s) 48 ++ s

unfoldable pub padded : (width : ℕ) → ℤ → GoString
padded width (pos n) = pad_zeros width (digits (suc n) n)
padded width (negsuc n) = 45 ∷ pad_zeros (width - 1) (digits (suc (suc n)) (suc n))

unfoldable pub rider_id_of : (client i : ℕ) → GoString
rider_id_of client i = text "00000000-0000-0000-0000-" ++ padded 12 (to_int (client * 1000 + i))

unfoldable pub order_id_of : (client i : ℕ) → GoString
order_id_of client i = text "11111111-1111-1111-1111-" ++ padded 12 (to_int (client * 1000 + i))

-- The item of round i: none is the panic of an index out of range.
unfoldable pub build_item : (draw : Draw) (client i : ℕ) → Option BatchRequestItem
build_item draw client i = elim (get_elem? rider_statuses draw.status) [
  | none ↦ none
  | some current_status ↦ some (record {
    seq_id = i;
    operation_type = text "WRITE";
    rider_id = rider_id_of client i;
    payload = some (record {
      order_id = order_id_of client i;
      latitude = draw.latitude;
      longitude = draw.longitude;
      current_status = current_status;
      eta_minutes = pos draw.eta;
    });
  })
]

abbrev pub cons_some {ℓ} : {A : Type ℓ} → Option A → Option (List A) → Option (List A)
cons_some (some x) (some xs) = some (x ∷ xs)
cons_some x xs = none

-- The rounds from i on, n of them.
unfoldable pub build_rounds : (draws : ℕ → Draw) (client i n : ℕ) → Option (List BatchRequestItem)
build_rounds draws client i zero = some []
build_rounds draws client i (suc n) =
    cons_some (build_item (draws i) client i) (build_rounds draws client (suc i) n)

-- A negative size panics in make.
unfoldable pub build_batch :
    (draws : ℕ → Draw) (size : ℤ) (client : ℕ) → Option (List BatchRequestItem)
build_batch draws (pos size) client = build_rounds draws client 0 size
build_batch draws (negsuc size) client = none
