-- ===== src/Simulator/Workload/Items.antt =====
-- cmd/simulator/main.go: the items that buildBatch makes.
use khaos.Prelude.{
  ℕ, zero, suc, ◌+◌, ◌-◌, ◌*◌, ◌^◌, ◌≤◌, ◌<◌, ltb, ◌≡◌, refl, ap, ◌∙◌, GoString, text, str_eq, List,
  [], ◌∷◌, ◌++◌, none, some, true, length, get_elem?, replicate, arith,
}
use khaos.Prelude.Decimal.{digits, number, number-digits}
use khaos.Prelude.Int.{pos}
use khaos.Prelude.Strings.{trim_space, to_upper}
use khaos.Values.{RiderUpdate}
use khaos.Result.{ok}
use khaos.Types.{Operation}
use khaos.Storage.Postgres.{valid_rider_statuses, check_update}
use khaos.Storage.Postgres.Schema.{
  is_uuid, is_between, ninety, hundred_eighty, status_allowed, eta_allowed, row_allowed,
}
use khaos.Server.Translate.{BatchRequestItem, parse_operation_type, translate_item, payload_value}
use khaos.Server.Translate.InOrder.{IsInOrder}
use khaos.Simulator.Workload.Uuid.{is_uuid-rider_id_of, is_uuid-order_id_of}
use khaos.Simulator.Workload.{
  rider_statuses, Draw, to_int, padded, rider_id_of, order_id_of, build_item, build_rounds,
}

number-zeros : (n : ℕ) (s : GoString) → number (replicate n 48 ++ s) 0 ≡ number s 0
number-zeros zero s = refl
number-zeros (suc n) s = number-zeros n s

number-padded : (n : ℕ) → number (padded 12 (pos n)) 0 ≡ n
unfolding padded
number-padded n =
    number-zeros (12 - length (digits (suc n) n)) (digits (suc n) n)
    ∙ number-digits (suc n) n (omega arith)

-- The number that the identifier holds.
pub number-rider_id_of :
    (client i : ℕ)
    → client * 1000 + i < 2 ^ 63
    → number (rider_id_of client i) 0 ≡ client * 1000 + i
unfolding rider_id_of
number-rider_id_of client i small =
    let plain : to_int (client * 1000 + i) ≡ pos (client * 1000 + i) = ground arith in
    ap (λ n. number (padded 12 n) 0) plain ∙ number-padded (client * 1000 + i)

-- What rng.Intn(4), rng.Intn(60) and the two coordinates are in the range of.
pub record IsDrawn (draw : Draw) : Type 0 where
  pub status : draw.status < 4
  pub eta : draw.eta < 60
  pub latitude : is_between ninety draw.latitude ≡ true
  pub longitude : is_between hundred_eighty draw.longitude ≡ true

-- PostgresStorageEngine.Set does not refuse the payload, and the row keeps the column types and CHECK
-- constraints of schema.sql.
pub record IsStorable (item : BatchRequestItem) : Type 0 where
  pub update : RiderUpdate
  pub given : item.payload ≡ some update
  pub checked : (key : GoString) → check_update key update ≡ none
  pub rider : is_uuid item.rider_id ≡ true
  pub row : row_allowed update ≡ true

pub record IsSimulated (client i : ℕ) (item : BatchRequestItem) : Type 0 where
  pub id : item.seq_id ≡ i
  pub rider : item.rider_id ≡ rider_id_of client i
  pub valid : (op : Operation) × (translate_item item ≡ ok op)
  pub storable : IsStorable item

status_of :
    (n : ℕ)
    → n < 4
    → (status : GoString) × (get_elem? rider_statuses n ≡ some status)
      × (valid_rider_statuses status ≡ true)
      × (status_allowed status ≡ true)
unfolding valid_rider_statuses status_allowed str_eq
status_of zero lt = (_, refl, refl, refl)
status_of (suc zero) lt = (_, refl, refl, refl)
status_of (suc (suc zero)) lt = (_, refl, refl, refl)
status_of (suc (suc (suc zero))) lt = (_, refl, refl, refl)
status_of (suc (suc (suc (suc n)))) lt = absurd (omega arith)

module _ (draw : Draw) (client i : ℕ) (status : GoString) where
  abbrev update_of : RiderUpdate
  update_of = record {
    order_id = order_id_of client i;
    latitude = draw.latitude;
    longitude = draw.longitude;
    current_status = status;
    eta_minutes = pos draw.eta;
  }

  abbrev item_of : BatchRequestItem
  item_of = record {
    seq_id = i;
    operation_type = text "WRITE";
    rider_id = rider_id_of client i;
    payload = some update_of;
  }

  item_of-ok : (op : Operation) × (translate_item item_of ≡ ok op)
  unfolding translate_item payload_value parse_operation_type trim_space to_upper str_eq rider_id_of
  item_of-ok = (_, refl)

  update_of-valid :
      (key : GoString) → valid_rider_statuses status ≡ true → check_update key update_of ≡ none
  unfolding check_update
  update_of-valid key fine = rw fine refl

  update_of-row_allowed :
      IsDrawn draw
      → client * 1000 + i < 10 ^ 12
      → status_allowed status ≡ true
      → row_allowed update_of ≡ true
  unfolding row_allowed eta_allowed
  update_of-row_allowed drawn small fine =
      let soon : ltb draw.eta (2 ^ 31) ≡ true = ground (arith, drawn.eta) in
      rw (is_uuid-order_id_of client i small, drawn.latitude, drawn.longitude, fine, soon) refl

build_item-IsSimulated :
    (draw : Draw) (client i : ℕ)
    → IsDrawn draw
    → client * 1000 + i < 10 ^ 12
    → (item : BatchRequestItem) × (build_item draw client i ≡ some item) × IsSimulated client i item
unfolding build_item
build_item-IsSimulated draw client i drawn small =
    let (status, there, fine, allowed) = status_of draw.status drawn.status in
    (
      item_of draw client i status,
      rw (there, build_item) refl,
      record {
        id = refl;
        rider = refl;
        valid = item_of-ok draw client i status;
        storable = record {
          update = update_of draw client i status;
          given = refl;
          checked = λ key. update_of-valid draw client i status key fine;
          rider = is_uuid-rider_id_of client i small;
          row = update_of-row_allowed draw client i status drawn small allowed;
        };
      },
    )

abbrev pub AreSimulated : (client i : ℕ) → List BatchRequestItem → Type 0
AreSimulated client i [] = Unit
AreSimulated client i (item ∷ items) = IsSimulated client i item × AreSimulated client (suc i) items

pub build_rounds-AreSimulated :
    (draws : ℕ → Draw) (client i n : ℕ)
    → ((j : ℕ) → IsDrawn (draws j))
    → client * 1000 + (i + n) ≤ 10 ^ 12
    → (items : List BatchRequestItem) × (build_rounds draws client i n ≡ some items)
      × (length items ≡ n)
      × AreSimulated client i items
unfolding build_rounds
build_rounds-AreSimulated draws client i zero drawn small = ([], refl, refl, tt)
build_rounds-AreSimulated draws client i (suc n) drawn small =
    let (item, made, sim) = build_item-IsSimulated (draws i) client i (drawn i) (omega arith) in
    let (items, rest, size, sims) =
      build_rounds-AreSimulated draws client (suc i) n drawn (omega arith) in
    (item ∷ items, rw (made, rest, build_rounds) refl, ap suc size, (sim, sims))

pub AreSimulated-IsInOrder :
    (client i : ℕ) (items : List BatchRequestItem) → AreSimulated client i items → IsInOrder i items
AreSimulated-IsInOrder client i [] sims = tt
AreSimulated-IsInOrder client i (item ∷ items) (sim, sims) =
    (sim.id, sim.valid, AreSimulated-IsInOrder client (suc i) items sims)
