-- ===== src/Prelude/Lists.antt =====
-- Lists measured, indexed and updated by native numbers, under the library's names.
use Prim.Native.Nat.{ℕ, zero, suc, ◌+◌, ◌-◌, ◌<◌, ◌≤◌}
use mathlib.Core.Path.{◌≡◌, refl, sym, ap, ◌∙◌}
use mathlib.Core.Bool.{Bool, true, false}
use mathlib.Core.Logic.{◌⊎◌, inl, inr}
use mathlib.Core.List.{List, [], ◌∷◌, ◌++◌}
use mathlib.Core.Option.{Option, none, some}
use mathlib.Core.Option
use native.Mathlib.Decide.{ℕ_discrete}
use native.Mathlib.Omega.{arith}
use khaos.Prelude.Tests.{◌==◌, ltb, if◌then◌else◌, to_nat, Bool-cases}

module _ {ℓ} {A : Type ℓ} where
  abbrev pub length : List A → ℕ
  length [] = 0
  length (x ∷ xs) = suc (length xs)

  abbrev pub get_elem? : List A → ℕ → Option A
  get_elem? [] i = none
  get_elem? (x ∷ xs) zero = some x
  get_elem? (x ∷ xs) (suc i) = get_elem? xs i

  -- Change the element at an index; out of bounds, nothing changes.
  abbrev pub modify : ℕ → (A → A) → List A → List A
  modify i f [] = []
  modify zero f (x ∷ xs) = f x ∷ xs
  modify (suc i) f (x ∷ xs) = x ∷ modify i f xs

  abbrev pub take : ℕ → List A → List A
  take zero xs = []
  take (suc n) [] = []
  take (suc n) (x ∷ xs) = x ∷ take n xs

  abbrev pub replicate : ℕ → A → List A
  replicate zero a = []
  replicate (suc n) a = a ∷ replicate n a

  pub length-append : (xs ys : List A) → length (xs ++ ys) ≡ length xs + length ys
  length-append [] ys = omega arith
  length-append (x ∷ xs) ys = omega (arith, length-append xs ys)

  pub length-modify : (i : ℕ) (f : A → A) (xs : List A) → length (modify i f xs) ≡ length xs
  length-modify i f [] = refl
  length-modify zero f (x ∷ xs) = refl
  length-modify (suc i) f (x ∷ xs) = ap suc (length-modify i f xs)

  pub get_elem?-modify :
      (i : ℕ) (f : A → A) (xs : List A) (j : ℕ)
      → get_elem? (modify i f xs) j
        ≡ (if i == j then Option.map f (get_elem? xs j) else get_elem? xs j)
  get_elem?-modify i f [] j = ground arith
  get_elem?-modify zero f (x ∷ xs) zero = refl
  get_elem?-modify zero f (x ∷ xs) (suc j) = ground arith
  get_elem?-modify (suc i) f (x ∷ xs) zero = ground arith
  get_elem?-modify (suc i) f (x ∷ xs) (suc j) = ground (arith, get_elem?-modify i f xs j)

  pub get_elem?-snoc :
      (xs : List A) (x : A) (j : ℕ)
      → get_elem? (xs ++ x ∷ []) j ≡ (if length xs == j then some x else get_elem? xs j)
  get_elem?-snoc [] x zero = refl
  get_elem?-snoc [] x (suc j) = ground arith
  get_elem?-snoc (y ∷ xs) x zero = ground arith
  get_elem?-snoc (y ∷ xs) x (suc j) = ground (arith, get_elem?-snoc xs x j)

  pub get_elem?-cons :
      (x : A) (xs : List A) (j : ℕ)
      → get_elem? (x ∷ xs) j ≡ (if j == 0 then some x else get_elem? xs (j - 1))
  get_elem?-cons x xs zero = refl
  get_elem?-cons x xs (suc j) = let e : suc j - 1 ≡ j = omega arith in rw e (ground arith)

  pub get_elem?_bound : (xs : List A) (j : ℕ) {x : A} → get_elem? xs j ≡ some x → j < length xs
  get_elem?_bound [] j e = cc
  get_elem?_bound (y ∷ xs) zero e = omega arith
  get_elem?_bound (y ∷ xs) (suc j) e = omega (arith, get_elem?_bound xs j e)

  pub get_elem?-some : (xs : List A) (j : ℕ) → j < length xs → (x : A) × (get_elem? xs j ≡ some x)
  get_elem?-some [] j h = absurd (omega arith)
  get_elem?-some (y ∷ xs) zero h = (y, refl)
  get_elem?-some (y ∷ xs) (suc j) h = get_elem?-some xs j (omega arith)

-- How often a number occurs.
abbrev pub count : ℕ → List ℕ → ℕ
count a [] = 0
count a (x ∷ xs) = to_nat (a == x) + count a xs

pub count-append :
    (n : ℕ) (front back : List ℕ) → count n (front ++ back) ≡ count n front + count n back
count-append n (x ∷ front) back = omega (arith, count-append n front back)
count-append n [] back = omega arith

-- f 0 + … + f (n - 1)
abbrev pub sum_below : ℕ → (ℕ → ℕ) → ℕ
sum_below zero f = 0
sum_below (suc n) f = sum_below n f + f n

abbrev pub All {ℓ κ} : {A : Type ℓ} → (A → Type κ) → List A → Type κ
All P [] = Unit
All P (x ∷ xs) = P x × All P xs

pub All-of-count : (P : ℕ → Type 0) (xs : List ℕ) → ((a : ℕ) → 0 < count a xs → P a) → All P xs
All-of-count P [] h = tt
All-of-count P (x ∷ xs) h = (h x (ground arith), All-of-count P xs (λ a m. h a (ground arith)))

pub sum_below-congr : (n : ℕ) (f g : ℕ → ℕ) → ((a : ℕ) → f a ≡ g a) → sum_below n f ≡ sum_below n g
sum_below-congr zero f g h = refl
sum_below-congr (suc n) f g h = omega (arith, sum_below-congr n f g h, h n)

pub sum_below-add :
    (n : ℕ) (f g : ℕ → ℕ) → sum_below n (λ a. f a + g a) ≡ sum_below n f + sum_below n g
sum_below-add zero f g = omega arith
sum_below-add (suc n) f g = omega (arith, sum_below-add n f g)

pub sum_below-le_one : (n : ℕ) (f : ℕ → ℕ) → ((a : ℕ) → f a ≤ 1) → sum_below n f ≤ n
sum_below-le_one zero f h = omega arith
sum_below-le_one (suc n) f h = omega (arith, sum_below-le_one n f h, h n)

pub sum_below-eq-zero : (n : ℕ) (f : ℕ → ℕ) → ((a : ℕ) → a < n → f a ≡ 0) → sum_below n f ≡ 0
sum_below-eq-zero zero f h = refl
sum_below-eq-zero (suc n) f h =
    omega (arith, h n, sum_below-eq-zero n f (λ a lt. h a (omega arith)))

pub zero-of-sum_below : (n : ℕ) (f : ℕ → ℕ) (a : ℕ) → sum_below n f ≡ 0 → a < n → f a ≡ 0
zero-of-sum_below zero f a e h = absurd (omega arith)
zero-of-sum_below (suc n) f a e h = elim (ℕ_discrete a n) [
  | yes same ↦ rw same (omega arith)
  | no below ↦ zero-of-sum_below n f a (omega arith) (omega arith)
]

pub sum_below-single : (n x : ℕ) → x < n → sum_below n (λ a. to_nat (a == x)) ≡ 1
sum_below-single zero x h = absurd (omega arith)
sum_below-single (suc n) x h = elim (ℕ_discrete n x) [
  | yes same ↦
      let rest = sum_below-eq-zero n (λ a. to_nat (a == x)) (λ a lt. ground arith) in
      ground (arith, rest)
  | no below ↦ let rest = sum_below-single n x (omega arith) in ground (arith, rest)
]

pub length-eq-sum_below :
    (n : ℕ) (xs : List ℕ) → All (λ x. x < n) xs → length xs ≡ sum_below n (λ a. count a xs)
length-eq-sum_below n [] h = sym (sum_below-eq-zero n (λ a. 0) (λ a lt. refl))
length-eq-sum_below n (x ∷ xs) h = omega (
  arith,
  length-eq-sum_below n xs h.1,
  sum_below-add n (λ a. to_nat (a == x)) (λ a. count a xs),
  sum_below-single n x h.0,
)

-- One summand is larger by b.
pub sum_below-drop :
    (size n b : ℕ) (f f' : ℕ → ℕ)
    → n < size
    → f n ≡ f' n + b
    → ((i : ℕ) → (n == i) ≡ false → f' i ≡ f i)
    → sum_below size f ≡ sum_below size f' + b
sum_below-drop zero n b f f' lt e same = absurd (omega arith)
sum_below-drop (suc size) n b f f' lt e same = elim (ℕ_discrete n size) [
  | yes last ↦
      let below : sum_below size f ≡ sum_below size f' =
        sum_below-same size (λ i le. sym (same i (ground arith))) in
      let e' : f size ≡ f' size + b = rw (← last) e in omega arith
  | no other ↦
      omega (arith, sum_below-drop size n b f f' (omega arith) e same, same size (ground arith))
]
  where
    sum_below-same : (k : ℕ) → ((i : ℕ) → i < k → f i ≡ f' i) → sum_below k f ≡ sum_below k f'
    sum_below-same zero h = refl
    sum_below-same (suc k) h =
        omega (arith, sum_below-same k (λ i lt. h i (omega arith)), h k (omega arith))

-- The first argument at which a test holds, if there is one.
pub first_below :
    (f : ℕ → Bool) (k : ℕ) → ((i : ℕ) × (i < k) × (f i ≡ true)) ⊎ ((i : ℕ) → i < k → f i ≡ false)
first_below f zero = inr (λ i lt. absurd (omega arith))
first_below f (suc k) = elim (Bool-cases (f k)) [
  | inl yes_k ↦ inl (k, omega arith, yes_k)
  | inr no_k ↦ elim (first_below f k) [
    | inl (i, lt, e) ↦ inl (i, omega arith, e)
    | inr none_below ↦ inr (λ i lt. elim (ℕ_discrete i k) [
      | yes same ↦ ap f same ∙ no_k
      | no other ↦ none_below i (omega arith)
    ])
  ]
]

pub sum_below-ltb : (k n : ℕ) → k ≤ n → sum_below k (λ a. to_nat (ltb a n)) ≡ k
sum_below-ltb zero n le = refl
sum_below-ltb (suc k) n le = ground (arith, sum_below-ltb k n)
