-- ===== src/Server/Translate/Permuted.antt =====
-- translateRequest on the items of a batch in another order.
use khaos.Prelude.{
  ℕ, zero, suc, ◌<◌, ◌≡◌, ◌≢◌, ◌↔◌, refl, sym, ap, subst, ◌∙◌, List, [], ◌∷◌, Bool, true, false,
  length, inl, inr, length-modify, modify, arith,
}
use mathlib.Core.List.{Permᴰ, Perm}
use mathlib.Core.List.Perm
use mathlib.Core.Logic.{∥∥₁_elim}
use khaos.Result.{Result, ok, ◌>>=◌, >>=-eq-ok, Result-cases}
use khaos.Types.{Operation}
use khaos.Server.Translate.{
  BatchRequestItem, Slots, is_seen, translate_item, translate_step, translate_loop, empty_slots,
  translate_request,
}
use khaos.Server.Translate.Correct.{all_marked, translate_request_ok}
use khaos.Server.Translate.Passed.{empty-IsFilled}
use khaos.Server.Translate.InOrder.{slots_with, translate_step-ok}

modify_comm :
    {A : Type 0} (i j : ℕ) (f g : A → A) (xs : List A)
    → i ≢ j
    → modify i f (modify j g xs) ≡ modify j g (modify i f xs)
modify_comm i j f g [] apart = refl
modify_comm zero zero f g (x ∷ xs) apart = absurd (apart refl)
modify_comm zero (suc j) f g (x ∷ xs) apart = refl
modify_comm (suc i) zero f g (x ∷ xs) apart = refl
modify_comm (suc i) (suc j) f g (x ∷ xs) apart =
    ap (λ l. x ∷ l) (modify_comm i j f g xs (λ e. apart (ap suc e)))

-- What a step that succeeds has found and done.
abbrev HasTaken : (n : ℕ) (item : BatchRequestItem) (s s' : Slots) → Type 0
HasTaken n item s s' =
    (item.seq_id < n)
    × (is_seen s.seen item.seq_id ≡ false)
    × ((op : Operation) × (translate_item item ≡ ok op) × (s' ≡ slots_with item op s))

translate_step-HasTaken :
    (n : ℕ) (item : BatchRequestItem) (s s' : Slots)
    → translate_step n item s ≡ ok s'
    → HasTaken n item s s'
unfolding translate_step
translate_step-HasTaken n item s s' e = elim (Result-cases (translate_item item)) [
  | inl (op, made) ↦
      (ground (arith, e, made), ground (arith, e, made), (op, made, ground (arith, e, made)))
  | inr (x, bad) ↦ absurd (ground (arith, e, bad))
]

-- Whether j is marked, when i is.
is_seen-modify :
    (seen : List Bool) (i j : ℕ)
    → i < length seen
    → is_seen (modify i (λ _. true) seen) j ≡ false ↔ ((i ≢ j) × (is_seen seen j ≡ false))
is_seen-modify [] i j inside = absurd (omega arith)
is_seen-modify (b ∷ seen) zero zero inside = (λ h. cc, λ (apart, _). absurd (apart refl))
is_seen-modify (b ∷ seen) zero (suc j) inside = (λ h. (λ e. cc, h), λ (_, h). h)
is_seen-modify (b ∷ seen) (suc i) zero inside = (λ h. (λ e. cc, h), λ (_, h). h)
is_seen-modify (b ∷ seen) (suc i) (suc j) inside =
    let (there, back) = is_seen-modify seen i j (omega arith) in
    (
      λ h. let (apart, new) = there h in (λ e. apart (omega arith), new),
      λ (apart, new). back (λ e. apart (ap suc e), new),
    )

slots_comm :
    (a b : BatchRequestItem) (op_a op_b : Operation) (s : Slots)
    → a.seq_id ≢ b.seq_id
    → slots_with a op_a (slots_with b op_b s) ≡ slots_with b op_b (slots_with a op_a s)
slots_comm a b op_a op_b s apart =
    rw
      (
        modify_comm a.seq_id b.seq_id (λ _. op_a) (λ _. op_b) s.ops apart,
        modify_comm a.seq_id b.seq_id (λ _. true) (λ _. true) s.seen apart,
      )
      refl

module _ (n : ℕ) where
  step_comm :
      (a b : BatchRequestItem) (s s1 s2 : Slots)
      → length s.seen ≡ n
      → translate_step n a s ≡ ok s1
      → translate_step n b s1 ≡ ok s2
      → (translate_step n b s >>= translate_step n a) ≡ ok s2
  step_comm a b s s1 s2 size first second =
      let (a_in, a_new, (op_a, made_a, same_a)) = translate_step-HasTaken n a s s1 first in
      let (b_in, b_new, (op_b, made_b, same_b)) = translate_step-HasTaken n b s1 s2 second in
      let unmarked = subst (λ t. is_seen t.seen b.seq_id ≡ false) same_a b_new in
      let (apart, b_new') = (is_seen-modify s.seen a.seq_id b.seq_id (omega arith)).0 unmarked in
      let a_new' : is_seen (slots_with b op_b s).seen a.seq_id ≡ false =
        (is_seen-modify s.seen b.seq_id a.seq_id (omega arith)).1 ((λ e. apart (sym e)), a_new) in
      rw (translate_step-ok n b op_b s b_in b_new' made_b) (
        translate_step-ok n a op_a (slots_with b op_b s) a_in a_new' made_a
        ∙ ap ok
            (slots_comm a b op_a op_b s apart ∙ ap (slots_with b op_b) (sym same_a) ∙ sym same_b))

  loop_permuted :
      {items items' : List BatchRequestItem}
      → Permᴰ items items'
      → (s s' : Slots) → length s.seen ≡ n
      → translate_loop n items s ≡ ok s'
      → translate_loop n items' s ≡ ok s'
  unfolding translate_loop
  loop_permuted Permᴰ.nil s s' size e = e
  loop_permuted (Permᴰ.cons {a = a} {b = b} {l₁ = l} {l₂ = l'} eq p) s s' size e =
      let (t, stepped, rest) = >>=-eq-ok (translate_step n a s) (translate_loop n l) e in
      let (_, _, (op, _, same)) = translate_step-HasTaken n a s t stepped in
      let size' : length t.seen ≡ n =
        ap (λ t. length t.seen) same ∙ length-modify a.seq_id (λ _. true) s.seen ∙ size in
      subst (λ c. translate_loop n (c ∷ l') s ≡ ok s') eq
        (rw (stepped, translate_loop) (loop_permuted p t s' size' rest))
  loop_permuted (Permᴰ.swap {a = a} {b = b} {a' = a'} {b' = b'} {l = l} e1 e2) s s' size e =
      let (s1, first, rest) = >>=-eq-ok (translate_step n a s) (translate_loop n (b ∷ l)) e in
      let (s2, second, last) = >>=-eq-ok (translate_step n b s1) (translate_loop n l) rest in
      let (t, first', second') =
        >>=-eq-ok (translate_step n b s) (translate_step n a)
          (step_comm a b s s1 s2 size first second) in
      subst (λ c. translate_loop n (c ∷ b' ∷ l) s ≡ ok s') e2
        (subst (λ c. translate_loop n (b ∷ c ∷ l) s ≡ ok s') e1
          (rw (first', second', translate_loop) last))
  loop_permuted (Permᴰ.trans p q) s s' size e =
      loop_permuted q s s' size (loop_permuted p s s' size e)

length-permuted :
    {items items' : List BatchRequestItem} → Permᴰ items items' → length items ≡ length items'
length-permuted Permᴰ.nil = refl
length-permuted (Permᴰ.cons eq p) = ap suc (length-permuted p)
length-permuted (Permᴰ.swap e1 e2) = refl
length-permuted (Permᴰ.trans p q) = length-permuted p ∙ length-permuted q

request_permuted :
    (items items' : List BatchRequestItem) (ops : List Operation)
    → Permᴰ items items'
    → translate_request items ≡ ok ops
    → translate_request items' ≡ ok ops
unfolding translate_request
request_permuted items items' ops p e =
    let (s, looped, same) = translate_request_ok items ops e in
    let n = length items in
    let looped' : translate_loop (length items') items' (empty_slots (length items')) ≡ ok s =
      subst (λ m. translate_loop m items' (empty_slots m) ≡ ok s) (length-permuted p)
        (loop_permuted n p (empty_slots n) s (empty-IsFilled n).seen_size looped) in
    rw (looped', (all_marked items' s looped').0, translate_request) (ap ok same)

Result-set : IsSet (Result (List Operation))
Result-set = hlevel

-- The order of the items in a request does not matter where translateRequest succeeds: of two
-- requests that are permutations of each other, one gives a batch exactly if the other does, and
-- then the same one.
pub translate_request-perm :
    (items items' : List BatchRequestItem) (ops : List Operation)
    → Perm items items'
    → translate_request items ≡ ok ops ↔ translate_request items' ≡ ok ops
translate_request-perm items items' ops p = (
  λ e. ∥∥₁_elim p (Result-set _ _) (λ d. request_permuted items items' ops d e),
  λ e. ∥∥₁_elim (Perm.symm p) (Result-set _ _) (λ d. request_permuted items' items ops d e),
)
