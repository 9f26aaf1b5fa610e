-- ===== src/Server/Translate/Passed.antt =====
-- The loop over the items, and the loop over `seen` after it.
use khaos.Prelude.{
  ℕ, zero, suc, ◌+◌, ◌≤◌, ◌<◌, ◌≡◌, refl, ap, sym, subst, List, [], ◌∷◌, some, Bool, true, false,
  length, get_elem?, replicate, All, arith,
}
use khaos.Result.{ok, >>=-eq-ok, ok_injective}
use khaos.Types.{Operation}
use khaos.Hazard.Placed.{is_known}
use khaos.Hazard.Accept.{IsDense}
use khaos.Server.Translate.{
  BatchRequestItem, Slots, is_seen, zero_operation, translate_step, translate_loop, check_missing,
  empty_slots,
}
use khaos.Server.Translate.Filled.{trues, IsFilled, next-IsFilled, translate_step_ok}

pub pass_items : List BatchRequestItem → List BatchRequestItem → List BatchRequestItem
pass_items [] passed = passed
pass_items (item ∷ items) passed = pass_items items (item ∷ passed)

pub translate_loop-IsFilled :
    (n : ℕ) (items passed : List BatchRequestItem) (s s' : Slots)
    → IsFilled n passed s
    → translate_loop n items s ≡ ok s'
    → IsFilled n (pass_items items passed) s'
unfolding translate_loop pass_items
translate_loop-IsFilled n [] passed s s' inv e = subst (IsFilled n passed) (ok_injective e) inv
translate_loop-IsFilled n (item ∷ items) passed s s' inv e =
    let (t, stepped, looped) = >>=-eq-ok (translate_step n item s) (translate_loop n items) e in
    let (lt, new, (op, made, t_eq)) = translate_step_ok n item s t stepped in
    translate_loop-IsFilled n items (item ∷ passed) t s'
      (subst (IsFilled n (item ∷ passed)) (sym t_eq)
        (next-IsFilled n item passed s inv op lt new made))
      looped

pub length-pass_items :
    (items passed : List BatchRequestItem)
    → length (pass_items items passed) ≡ length items + length passed
unfolding pass_items
length-pass_items [] passed = omega arith
length-pass_items (item ∷ items) passed = omega (arith, length-pass_items items (item ∷ passed))

pub All-pass_items {ℓ} :
    (P : BatchRequestItem → Type ℓ) (items passed : List BatchRequestItem)
    → All P (pass_items items passed)
    → All P items × All P passed
unfolding pass_items
All-pass_items P [] passed h = (tt, h)
All-pass_items P (item ∷ items) passed h =
    let (a, (b, c)) = All-pass_items P items (item ∷ passed) h in ((b, a), c)

trues-le : (seen : List Bool) → trues seen ≤ length seen
unfolding trues
trues-le [] = omega arith
trues-le (b ∷ seen) = ground (arith, trues-le seen)

-- As many marks as places: every place is marked.
pub all_seen :
    (seen : List Bool) (i : ℕ)
    → trues seen ≡ length seen
    → (check_missing i seen ≡ ok tt) × ((j : ℕ) → j < length seen → is_seen seen j ≡ true)
unfolding trues check_missing
all_seen [] i e = (refl, λ j lt. absurd (omega arith))
all_seen (false ∷ seen) i e = absurd (omega (arith, trues-le seen))
all_seen (true ∷ seen) i e =
    let (fine, marked) = all_seen seen (suc i) (omega arith) in
    (fine, elim [ zero ↦ λ lt. refl | suc j ↦ λ lt. marked j (omega arith) ])

size-replicate {ℓ} : {A : Type ℓ} (n : ℕ) (x : A) → length (replicate n x) ≡ n
size-replicate zero x = refl
size-replicate (suc n) x = ap suc (size-replicate n x)

pub none_seen :
    (n i : ℕ) → (is_seen (replicate n false) i ≡ false) × (trues (replicate n false) ≡ 0)
unfolding trues
none_seen zero i = (refl, refl)
none_seen (suc n) zero = (refl, omega (arith, (none_seen n zero).1))
none_seen (suc n) (suc i) = let (a, b) = none_seen n i in (a, omega (arith, b))

pub empty-IsFilled : (n : ℕ) → IsFilled n [] (empty_slots n)
empty-IsFilled n = record {
  ops_size = size-replicate n zero_operation;
  seen_size = size-replicate n false;
  counted = (none_seen n 0).1;
  filled = λ i seen. absurd (ground (arith, none_seen n i));
  placed = tt;
}

pub IsDense-of-pointwise :
    (k : ℕ) (ops : List Operation)
    → ((i : ℕ)
        → i < length ops
        → (op : Operation) × (get_elem? ops i ≡ some op)
          × (op.seq_id ≡ i + k)
          × (is_known op.type ≡ true))
    → IsDense k ops
IsDense-of-pointwise k [] h = tt
IsDense-of-pointwise k (op ∷ ops) h =
    let (o, at, id, known) = h 0 (omega arith) in
    (
      ground arith,
      ground arith,
      IsDense-of-pointwise (suc k) ops λ i lt.
          let (o', at', id', known') = h (suc i) (omega arith) in (o', at', omega arith, known'),
    )
