-- ===== src/Simulator/Percentiles/Sorted.antt =====
-- cmd/simulator/main.go: the sorted copy of the latencies.
use khaos.Prelude.{
  ℕ, zero, suc, ◌+◌, ◌≤◌, ◌<◌, ◌≡◌, refl, subst, List, [], ◌∷◌, some, Bool, true, length, get_elem?,
  leb, ltb, to_nat, All, arith, Bool-cases, inl, inr,
}
use khaos.Simulator.Percentiles.{insert_sorted, sort_slice}
use khaos.Simulator.Totals.{number_of}

abbrev pub IsSorted : List ℕ → Type 0
IsSorted [] = Unit
IsSorted (x ∷ xs) = All (λ y. x ≤ y) xs × IsSorted xs

All-le : (x y : ℕ) (xs : List ℕ) → x ≤ y → All (λ z. y ≤ z) xs → All (λ z. x ≤ z) xs
All-le x y [] le all = tt
All-le x y (z ∷ xs) le (here, rest) = (omega arith, All-le x y xs le rest)

All-insert_sorted :
    (P : ℕ → Type 0) (x : ℕ) (xs : List ℕ) → P x → All P xs → All P (insert_sorted x xs)
unfolding insert_sorted
All-insert_sorted P x [] p all = (p, tt)
All-insert_sorted P x (y ∷ ys) p (here, rest) = elim (Bool-cases (leb x y)) [
  | inl yes_le ↦ rw (yes_le, insert_sorted) (p, (here, rest))
  | inr no_le ↦ rw (no_le, insert_sorted) (here, All-insert_sorted P x ys p rest)
]

insert_sorted-IsSorted : (x : ℕ) (xs : List ℕ) → IsSorted xs → IsSorted (insert_sorted x xs)
unfolding insert_sorted
insert_sorted-IsSorted x [] sorted = (tt, tt)
insert_sorted-IsSorted x (y ∷ ys) (least, sorted) = elim (Bool-cases (leb x y)) [
  | inl yes_le ↦
      let le : x ≤ y = ground arith in
      rw (yes_le, insert_sorted) ((le, All-le x y ys le least), (least, sorted))
  | inr no_le ↦
      let le : y ≤ x = ground arith in
      rw (no_le, insert_sorted)
        (All-insert_sorted (λ z. y ≤ z) x ys le least, insert_sorted-IsSorted x ys sorted)
]

number_of-insert_sorted :
    (p : ℕ → Bool) (x : ℕ) (xs : List ℕ)
    → number_of p (insert_sorted x xs) ≡ to_nat (p x) + number_of p xs
unfolding insert_sorted
number_of-insert_sorted p x [] = refl
number_of-insert_sorted p x (y ∷ ys) = ground (arith, number_of-insert_sorted p x ys)

pub sort_slice-IsSorted : (xs : List ℕ) → IsSorted (sort_slice xs)
unfolding sort_slice
sort_slice-IsSorted [] = tt
sort_slice-IsSorted (x ∷ xs) = insert_sorted-IsSorted x (sort_slice xs) (sort_slice-IsSorted xs)

-- Sorting changes no number of elements, whatever they are counted by.
pub number_of-sort_slice :
    (p : ℕ → Bool) (xs : List ℕ) → number_of p (sort_slice xs) ≡ number_of p xs
unfolding sort_slice
number_of-sort_slice p [] = refl
number_of-sort_slice p (x ∷ xs) =
    omega (arith, number_of-insert_sorted p x (sort_slice xs), number_of-sort_slice p xs)

length-number_of : (xs : List ℕ) → length xs ≡ number_of (λ x. true) xs
length-number_of [] = refl
length-number_of (x ∷ xs) = omega (arith, length-number_of xs)

pub length-sort_slice : (xs : List ℕ) → length (sort_slice xs) ≡ length xs
length-sort_slice xs = omega (
  arith,
  length-number_of (sort_slice xs),
  number_of-sort_slice (λ x. true) xs,
  length-number_of xs,
)

All-get_elem? :
    (x : ℕ) (xs : List ℕ) (i y : ℕ) → All (λ z. x ≤ z) xs → get_elem? xs i ≡ some y → x ≤ y
All-get_elem? x [] i y all e = cc
All-get_elem? x (z ∷ xs) zero y (here, rest) e = ground arith
All-get_elem? x (z ∷ xs) (suc i) y (here, rest) e = All-get_elem? x xs i y rest e

none_below : (x : ℕ) (xs : List ℕ) → All (λ z. x ≤ z) xs → number_of (λ z. ltb z x) xs ≡ 0
none_below x [] all = refl
none_below x (z ∷ xs) (here, rest) = ground (arith, none_below x xs rest)

-- At most i elements are below the one at position i, and more than i are not above it.
pub sorted_ranks :
    (xs : List ℕ) (i y : ℕ)
    → IsSorted xs
    → get_elem? xs i ≡ some y
    → (number_of (λ z. ltb z y) xs ≤ i) × (i < number_of (λ z. leb z y) xs)
sorted_ranks [] i y sorted e = cc
sorted_ranks (x ∷ xs) zero y (least, sorted) e =
    let same : x ≡ y = ground arith in
    let fewer = none_below y xs (subst (λ v. All (λ z. v ≤ z) xs) same least) in ground arith
sorted_ranks (x ∷ xs) (suc i) y (least, sorted) e =
    ground (arith, All-get_elem? x xs i y least e, sorted_ranks xs i y sorted e)

pub sorted_ordered :
    (xs : List ℕ) (i j x y : ℕ)
    → IsSorted xs
    → i ≤ j
    → get_elem? xs i ≡ some x
    → get_elem? xs j ≡ some y
    → x ≤ y
sorted_ordered [] i j x y sorted le ei ej = cc
sorted_ordered (z ∷ xs) zero zero x y sorted le ei ej = ground arith
sorted_ordered (z ∷ xs) zero (suc j) x y (least, sorted) le ei ej =
    let same : z ≡ x = ground arith in omega (arith, All-get_elem? z xs j y least ej)
sorted_ordered (z ∷ xs) (suc i) zero x y sorted le ei ej = absurd (omega arith)
sorted_ordered (z ∷ xs) (suc i) (suc j) x y (least, sorted) le ei ej =
    sorted_ordered xs i j x y sorted (omega arith) ei ej
