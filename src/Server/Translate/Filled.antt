-- ===== src/Server/Translate/Filled.antt =====
-- The invariant of the two slices of translateRequest.
use khaos.Prelude.{
  ℕ, zero, suc, ◌+◌, ◌<◌, ◌≡◌, ◌∙◌, List, [], ◌∷◌, none, some, Bool, true, false, length, get_elem?,
  get_elem?-some, modify, get_elem?-modify, length-modify, to_nat, All, arith, inl, inr,
}
use native.Mathlib.Decide.{ℕ_discrete}
use khaos.Values.{Any}
use khaos.Result.{ok, Result-cases}
use khaos.Types.{OperationType, Operation}
use khaos.Hazard.Placed.{is_known}
use khaos.Server.Translate.{
  BatchRequestItem, parse_operation_type, Slots, is_seen, translate_item, translate_step,
}

parse-is_known :
    (word : List ℕ) (t : OperationType) → parse_operation_type word ≡ ok t → is_known t ≡ true
unfolding parse_operation_type
parse-is_known word t e = ground arith

pub translate_item_fields :
    (item : BatchRequestItem) (op : Operation)
    → translate_item item ≡ ok op
    → (op.seq_id ≡ item.seq_id)
      × (op.key ≡ item.rider_id)
      × (parse_operation_type item.operation_type ≡ ok op.type)
      × (op.result ≡ Any.nil)
      × (op.err ≡ none)
unfolding translate_item
translate_item_fields item op e = ground arith

unfoldable pub trues : List Bool → ℕ
trues [] = 0
trues (b ∷ bs) = to_nat b + trues bs

-- The item's operation stands at its SeqID.
abbrev pub IsPlaced : List Operation → BatchRequestItem → Type 0
IsPlaced ops item =
    (op : Operation) × (translate_item item ≡ ok op) × (get_elem? ops item.seq_id ≡ some op)

pub record IsFilled (n : ℕ) (passed : List BatchRequestItem) (s : Slots) : Type 0 where
  pub ops_size : length s.ops ≡ n
  pub seen_size : length s.seen ≡ n
  pub counted : trues s.seen ≡ length passed
  pub filled :
      (i : ℕ)
      → is_seen s.seen i ≡ true
      → (op : Operation) × (get_elem? s.ops i ≡ some op)
        × (op.seq_id ≡ i)
        × (is_known op.type ≡ true)
  pub placed : All (λ item. IsPlaced s.ops item × (is_seen s.seen item.seq_id ≡ true)) passed

trues-modify :
    (i : ℕ) (seen : List Bool)
    → i < length seen
    → is_seen seen i ≡ false
    → trues (modify i (λ _. true) seen) ≡ suc (trues seen)
unfolding trues
trues-modify i [] h e = absurd (omega arith)
trues-modify zero (b ∷ seen) h e = ground arith
trues-modify (suc i) (b ∷ seen) h e = omega (arith, trues-modify i seen (omega arith) e)

module _ (n : ℕ) (item : BatchRequestItem) (passed : List BatchRequestItem) (s : Slots)
    (inv : IsFilled n passed s) (op : Operation) (lt : item.seq_id < n)
    (new : is_seen s.seen item.seq_id ≡ false) (e : translate_item item ≡ ok op) where
  abbrev next_slots : Slots
  next_slots = record {
    ops = modify item.seq_id (λ _. op) s.ops;
    seen = modify item.seq_id (λ _. true) s.seen;
  }

  kept_places :
      (items : List BatchRequestItem)
      → All (λ other. IsPlaced s.ops other × (is_seen s.seen other.seq_id ≡ true)) items
      → All
          (λ other. IsPlaced next_slots.ops other × (is_seen next_slots.seen other.seq_id ≡ true))
          items
  kept_places [] h = tt
  kept_places (other ∷ items) (((o, made, at), old), rest) = (
    (
      (o, made, ground (arith, get_elem?-modify item.seq_id (λ _. op) s.ops other.seq_id)),
      ground (arith, get_elem?-modify item.seq_id (λ _. true) s.seen other.seq_id),
    ),
    kept_places items rest,
  )

  pub next-IsFilled : IsFilled n (item ∷ passed) next_slots
  next-IsFilled =
      let (x, at_op) = get_elem?-some s.ops item.seq_id (omega (arith, inv.ops_size)) in
      let (b, at_seen) = get_elem?-some s.seen item.seq_id (omega (arith, inv.seen_size)) in
      let fields = translate_item_fields item op e in
      record {
        ops_size = length-modify item.seq_id (λ _. op) s.ops ∙ inv.ops_size;
        seen_size = length-modify item.seq_id (λ _. true) s.seen ∙ inv.seen_size;
        counted = omega (
          arith,
          trues-modify item.seq_id s.seen (omega (arith, inv.seen_size)) new,
          inv.counted,
        );
        filled = λ i seen. elim (ℕ_discrete item.seq_id i) [
          | yes same ↦ (
            op,
            ground (arith, at_op, get_elem?-modify item.seq_id (λ _. op) s.ops i),
            ground (arith, fields),
            parse-is_known item.operation_type op.type fields.2,
          )
          | no other ↦
              let old =
                inv.filled i (ground (arith, get_elem?-modify item.seq_id (λ _. true) s.seen i)) in
              (
                old.0,
                ground (arith, old.1, get_elem?-modify item.seq_id (λ _. op) s.ops i),
                old.2,
                old.3,
              )
        ];
        placed = (
          (
            (
              op,
              e,
              ground (arith, at_op, get_elem?-modify item.seq_id (λ _. op) s.ops item.seq_id),
            ),
            ground (arith, at_seen, get_elem?-modify item.seq_id (λ _. true) s.seen item.seq_id),
          ),
          kept_places passed inv.placed,
        );
      }

pub translate_step_ok :
    (n : ℕ) (item : BatchRequestItem) (s s' : Slots)
    → translate_step n item s ≡ ok s'
    → (item.seq_id < n)
      × (is_seen s.seen item.seq_id ≡ false)
      × ((op : Operation) × (translate_item item ≡ ok op)
          × (s' ≡ record {
            ops = modify item.seq_id (λ _. op) s.ops;
            seen = modify item.seq_id (λ _. true) s.seen;
          }))
unfolding translate_step
translate_step_ok n item s s' e = elim (Result-cases (translate_item item)) [
  | inl (op, made) ↦ (ground arith, ground arith, (op, made, ground arith))
  | inr (x, failed) ↦ absurd (ground arith)
]
