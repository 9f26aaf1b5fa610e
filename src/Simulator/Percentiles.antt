-- ===== src/Simulator/Percentiles.antt =====
-- cmd/simulator/main.go: percentiles, with the float64 product that its indices come from.
pub mod Rounding
pub mod Sorted
pub mod Correct
use khaos.Prelude.{
  ℕ, zero, suc, ◌+◌, ◌-◌, ◌*◌, ◌/◌, ◌%◌, ◌^◌, List, [], ◌∷◌, Option, none, some, length, get_elem?,
  ltb, leb, ◌==◌, if◌then◌else◌,
}

-- The multiple of u nearest to n, of two equally near the even one.
unfoldable pub nearest : (u n : ℕ) → ℕ
nearest u n =
    let low = u * (n / u) in
    let twice = 2 * (n % u) in
    if ltb twice u
    then low
    else if ltb u twice
    then low + u
    else if n / u % 2 == 0
    then low
    else low + u

-- n with the 53 significant bits of a float64: u doubles until n has at most 53 bits above it.
unfoldable pub round_from : (fuel u n : ℕ) → ℕ
round_from zero u n = nearest u n
round_from (suc fuel) u n =
    let more = round_from fuel (2 * u) n in if ltb n (2 ^ 53 * u) then nearest u n else more

-- The constants 0.50, 0.95 and 0.99: the 53 bits of the float64 nearest to each, over 2^53.
abbrev pub half : ℕ
half = 4503599627370496

abbrev pub ninety_five : ℕ
ninety_five = 8556839292003942

abbrev pub ninety_nine : ℕ
ninety_nine = 8917127262193582

-- `int(p * float64(k))`, where k has at most 53 bits. The product has at most 106 bits, 64 too many
-- at most to be left after the first 53.
unfoldable pub scale : (p k : ℕ) → ℕ
scale p k = round_from 64 1 (p * k) / 2 ^ 53

-- The closure idx, for `size` latencies. The product is not negative.
unfoldable pub index_of : (p size : ℕ) → ℕ
index_of p size = let i = scale p (size - 1) in if leb size i then size - 1 else i

-- sort.Slice by `<`: numbers in ascending order.
unfoldable pub insert_sorted : ℕ → List ℕ → List ℕ
insert_sorted x [] = x ∷ []
insert_sorted x (y ∷ ys) = let rest = insert_sorted x ys in if leb x y then x ∷ y ∷ ys else y ∷ rest

unfoldable pub sort_slice : List ℕ → List ℕ
sort_slice [] = []
sort_slice (x ∷ xs) = insert_sorted x (sort_slice xs)

abbrev pub all_three : Option ℕ → Option ℕ → Option ℕ → Option (ℕ × ℕ × ℕ)
all_three (some a) (some b) (some c) = some (a, b, c)
all_three a b c = none

-- The latencies are measured by time.Since, and not negative. None is an index out of range.
unfoldable pub percentiles : List ℕ → Option (ℕ × ℕ × ℕ)
percentiles [] = some (0, 0, 0)
percentiles (x ∷ xs) =
    let sorted = sort_slice (x ∷ xs) in
    let size = length sorted in
    all_three (get_elem? sorted (index_of half size)) (get_elem? sorted (index_of ninety_five size))
      (get_elem? sorted (index_of ninety_nine size))
