-- ===== src/Server/Translate/Correct.antt =====
-- What translateRequest returns: a batch that Build accepts, with every item at its place.
use khaos.Prelude.{
  ℕ, ◌≡◌, ◌≢◌, ap, sym, ◌∙◌, List, [], ◌∷◌, length, All, arith, subst, true, inl, inr, ◌<◌,
}
use khaos.Values.{missing_seq_id}
use khaos.Result.{ok, err, ◌>>◌, >>=-eq-ok, ok_injective, Result-cases}
use khaos.Types.{Operation, Graph}
use khaos.Hazard.{build}
use khaos.Hazard.Accept.{IsDense, build_accepts}
use khaos.Server.Translate.{
  BatchRequestItem, Slots, is_seen, parse_operation_type, translate_item, translate_step,
  translate_loop, check_missing, empty_slots, translate_request,
}
use khaos.Server.Translate.Filled.{IsPlaced, IsFilled}
use khaos.Server.Translate.Passed.{
  pass_items, translate_loop-IsFilled, length-pass_items, All-pass_items, all_seen, empty-IsFilled,
  IsDense-of-pointwise,
}

module _ (items : List BatchRequestItem) (s : Slots)
    (looped : translate_loop (length items) items (empty_slots (length items)) ≡ ok s) where
  loop-IsFilled : IsFilled (length items) (pass_items items []) s
  loop-IsFilled =
      translate_loop-IsFilled (length items) items [] (empty_slots (length items)) s
        (empty-IsFilled (length items)) looped

  pub all_marked :
      (check_missing 0 s.seen ≡ ok tt) × ((i : ℕ) → i < length items → is_seen s.seen i ≡ true)
  all_marked =
      let inv = loop-IsFilled in
      let (fine, marked) =
        all_seen s.seen 0 (omega (arith, inv.counted, inv.seen_size, length-pass_items items [])) in
      (fine, λ i lt. marked i (omega (arith, inv.seen_size)))

  ops-IsDense : IsDense 0 s.ops
  ops-IsDense =
      let inv = loop-IsFilled in
      IsDense-of-pointwise 0 s.ops λ i lt.
        let (op, at, id, known) = inv.filled i (all_marked.1 i (omega (arith, inv.ops_size))) in
        (op, at, omega (arith, id), known)

  ops-IsPlaced : All (IsPlaced s.ops) items
  ops-IsPlaced = strip items (All-pass_items _ items [] loop-IsFilled.placed).0
    where
      strip :
          (l : List BatchRequestItem)
          → All (λ item. IsPlaced s.ops item × (is_seen s.seen item.seq_id ≡ true)) l
          → All (IsPlaced s.ops) l
      strip [] h = tt
      strip (item ∷ l) ((p, _), rest) = (p, strip l rest)

-- The slots that a successful call returns.
pub translate_request_ok :
    (items : List BatchRequestItem) (ops : List Operation)
    → translate_request items ≡ ok ops
    → (s : Slots) × (translate_loop (length items) items (empty_slots (length items)) ≡ ok s)
      × (s.ops ≡ ops)
unfolding translate_request
translate_request_ok items ops e =
    let (s, looped, rest) =
      >>=-eq-ok (translate_loop (length items) items (empty_slots (length items)))
        (λ s. check_missing 0 s.seen >> ok s.ops) e in
    let (u, checked, returned) = >>=-eq-ok (check_missing 0 s.seen) (λ _. ok s.ops) rest in
    (s, looped, ok_injective returned)

-- When translateRequest returns operations, there are as many as items, the operation of each
-- item stands at the item's SeqID, and Build accepts the operations.
pub translate_request-build :
    (items : List BatchRequestItem) (ops : List Operation)
    → translate_request items ≡ ok ops
    → (length ops ≡ length items)
      × All (IsPlaced ops) items
      × ((r : Graph × List ℕ) × (build ops ≡ ok r))
translate_request-build items ops e =
    let (s, looped, same) = translate_request_ok items ops e in
    (
      ap length (sym same) ∙ (loop-IsFilled items s looped).ops_size,
      subst (λ l. All (IsPlaced l) items) same (ops-IsPlaced items s looped),
      (build_accepts ops).1 (subst (IsDense 0) same (ops-IsDense items s looped)),
    )

translate_item-ne-missing :
    (item : BatchRequestItem) (i : ℕ) → translate_item item ≢ err (missing_seq_id i)
unfolding translate_item
translate_item-ne-missing item i e =
    elim (Result-cases (parse_operation_type item.operation_type)) [
      | inl (t, parsed) ↦ ground arith
      | inr (x, failed) ↦ ground arith
    ]

translate_step-ne-missing :
    (n : ℕ) (item : BatchRequestItem) (s : Slots) (i : ℕ)
    → translate_step n item s ≢ err (missing_seq_id i)
unfolding translate_step
translate_step-ne-missing n item s i e = elim (Result-cases (translate_item item)) [
  | inl (op, made) ↦ ground (arith, made)
  | inr (x, failed) ↦ ground (arith, failed, translate_item-ne-missing item i)
]

translate_loop-ne-missing :
    (n : ℕ) (items : List BatchRequestItem) (s : Slots) (i : ℕ)
    → translate_loop n items s ≢ err (missing_seq_id i)
unfolding translate_loop
translate_loop-ne-missing n [] s i e = cc
translate_loop-ne-missing n (item ∷ items) s i e = elim (Result-cases (translate_step n item s)) [
  | inl (t, stepped) ↦ translate_loop-ne-missing n items t i (ground (arith, stepped))
  | inr (x, failed) ↦ translate_step-ne-missing n item s i (ground (arith, failed))
]

-- translateRequest never reports a missing seq_id: its range check and its duplicate check leave
-- no position empty.
pub translate_request-ne-missing :
    (items : List BatchRequestItem) (i : ℕ) → translate_request items ≢ err (missing_seq_id i)
unfolding translate_request
translate_request-ne-missing items i e =
    elim (Result-cases (translate_loop (length items) items (empty_slots (length items)))) [
      | inl (s, looped) ↦ ground (arith, looped, (all_marked items s looped).0)
      | inr (x, failed) ↦
          translate_loop-ne-missing (length items) items (empty_slots (length items)) i
            (ground (arith, failed))
    ]
