-- ===== src/Server/Translate/InOrder.antt =====
-- translateRequest on items that come in the order of their SeqIDs.
use khaos.Prelude.{
  ℕ, suc, ◌+◌, ◌≤◌, ◌<◌, ◌≡◌, refl, List, [], ◌∷◌, true, false, length, leb, get_elem?-modify,
  modify, arith,
}
use khaos.Result.{ok}
use khaos.Types.{Operation}
use khaos.Server.Translate.{
  BatchRequestItem, Slots, is_seen, translate_item, translate_step, translate_loop, empty_slots,
  translate_request,
}
use khaos.Server.Translate.Passed.{none_seen}
use khaos.Server.Translate.Correct.{all_marked}

-- Each item is valid, and the first has the SeqID k, the next k + 1, …
abbrev pub IsInOrder : ℕ → List BatchRequestItem → Type 0
IsInOrder k [] = Unit
IsInOrder k (item ∷ items) =
    (item.seq_id ≡ k) × ((op : Operation) × (translate_item item ≡ ok op)) × IsInOrder (suc k) items

abbrev pub slots_with : BatchRequestItem → Operation → Slots → Slots
slots_with item op s = record {
  ops = modify item.seq_id (λ _. op) s.ops;
  seen = modify item.seq_id (λ _. true) s.seen;
}

pub translate_step-ok :
    (n : ℕ) (item : BatchRequestItem) (op : Operation) (s : Slots)
    → item.seq_id < n
    → is_seen s.seen item.seq_id ≡ false
    → translate_item item ≡ ok op
    → translate_step n item s ≡ ok (slots_with item op s)
unfolding translate_step
translate_step-ok n item op s lt new e =
    let inside : leb n item.seq_id ≡ false = ground arith in
    rw (inside, new, e, translate_step) refl

translate_loop-in_order :
    (n k : ℕ) (items : List BatchRequestItem) (s : Slots)
    → IsInOrder k items
    → k + length items ≤ n
    → ((j : ℕ) → k ≤ j → is_seen s.seen j ≡ false)
    → (s' : Slots) × (translate_loop n items s ≡ ok s')
unfolding translate_loop
translate_loop-in_order n k [] s valid le new = (s, refl)
translate_loop-in_order n k (item ∷ items) s (here, (op, e), rest) le new =
    let (s', looped) =
      translate_loop-in_order n (suc k) items (slots_with item op s) rest (omega arith)
        (λ j above. ground (arith, get_elem?-modify item.seq_id (λ _. true) s.seen j, new j)) in
    (
      s',
      rw
          (
            translate_step-ok n item op s (omega arith) (rw here (new k (omega arith))) e,
            translate_loop,
          )
          looped,
    )

-- Such items are accepted.
pub translate_request-in_order :
    (items : List BatchRequestItem)
    → IsInOrder 0 items
    → (ops : List Operation) × (translate_request items ≡ ok ops)
unfolding translate_request
translate_request-in_order items valid =
    let (s, looped) =
      translate_loop-in_order (length items) 0 items (empty_slots (length items)) valid
        (omega arith) (λ j le. (none_seen (length items) j).0) in
    (s.ops, rw (looped, (all_marked items s looped).0, translate_request) refl)
