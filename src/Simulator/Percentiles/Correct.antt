-- ===== src/Simulator/Percentiles/Correct.antt =====
-- cmd/simulator/main.go: percentiles, and the ranks of its results.
use khaos.Prelude.{
  ℕ, ◌-◌, ◌+◌, ◌*◌, ◌/◌, ◌^◌, ◌≤◌, ◌<◌, ◌≡◌, refl, ap, ◌∙◌, List, ◌∷◌, some, [], length, get_elem?,
  count, get_elem?-some, leb, ltb, arith,
}
use khaos.Simulator.Percentiles.{
  half, ninety_five, ninety_nine, scale, index_of, sort_slice, percentiles,
}
use khaos.Simulator.Percentiles.Rounding.{half-floor, ninety_five-floor, ninety_nine-floor}
use khaos.Simulator.Percentiles.Sorted.{
  sort_slice-IsSorted, number_of-sort_slice, length-sort_slice, sorted_ranks, sorted_ordered,
}
use khaos.Simulator.Totals.{number_of}

-- v is the latency at position i in ascending order: it occurs, at most i latencies are below it,
-- and more than i are not above it.
pub record IsAtRank (i v : ℕ) (latencies : List ℕ) : Type 0 where
  pub occurs : 0 < count v latencies
  pub below : number_of (λ x. ltb x v) latencies ≤ i
  pub not_above : i < number_of (λ x. leb x v) latencies

-- The position is the whole part of `percent` of the gaps between the latencies.
abbrev pub IsPercentile : (percent v : ℕ) → List ℕ → Type 0
IsPercentile percent v latencies = IsAtRank (percent * (length latencies - 1) / 100) v latencies

-- Those not above v are those below v and those that are v.
number_of-leb :
    (v : ℕ) (xs : List ℕ) → number_of (λ x. leb x v) xs ≡ number_of (λ x. ltb x v) xs + count v xs
number_of-leb v [] = refl
number_of-leb v (x ∷ xs) = ground (arith, number_of-leb v xs)

index_of-floor :
    (p percent size : ℕ)
    → 0 < size
    → percent ≤ 100
    → scale p (size - 1) ≡ percent * (size - 1) / 100
    → (percent * (size - 1) / 100 < size) × (index_of p size ≡ percent * (size - 1) / 100)
unfolding index_of
index_of-floor p percent size some_size whole floor =
    let scaled : percent * (size - 1) ≤ 100 * (size - 1) = grind arith in
    let lt : percent * (size - 1) / 100 < size = omega arith in (lt, ground arith)

module _ (latencies : List ℕ) (some_latency : 0 < length latencies) where
  abbrev sorted : List ℕ
  sorted = sort_slice latencies

  abbrev last : ℕ
  last = length latencies - 1

  at_index :
      (p percent : ℕ)
      → percent ≤ 100
      → scale p last ≡ percent * last / 100
      → (v : ℕ) × (get_elem? sorted (index_of p (length sorted)) ≡ some v)
        × (index_of p (length sorted) ≡ percent * last / 100)
        × IsPercentile percent v latencies
  at_index p percent whole floor =
      let size = length-sort_slice latencies in
      let (inside, e) = index_of-floor p percent (length latencies) some_latency whole floor in
      let i : index_of p (length sorted) ≡ percent * last / 100 = ap (index_of p) size ∙ e in
      let (v, there) =
        get_elem?-some sorted (index_of p (length sorted)) (omega (arith, i, size)) in
      let (below, above) = sorted_ranks sorted _ v (sort_slice-IsSorted latencies) there in
      let fewer = number_of-sort_slice (λ x. ltb x v) latencies in
      let more = number_of-sort_slice (λ x. leb x v) latencies in
      (
        v,
        there,
        i,
        record {
          occurs = omega (arith, i, fewer, more, number_of-leb v latencies);
          below = omega (arith, i, fewer);
          not_above = omega (arith, i, more);
        },
      )

-- For at least one and at most 2^40 latencies, none negative, in any order: percentiles indexes
-- inside the slice, and its results p50, p95 and p99 ascend; and of n latencies, each result is the
-- one at the position, counted from 0 in ascending order, that is the whole part of 50, 95 and 99
-- percent of n - 1: it is one of the latencies, at most that many are below it, and more than that
-- many are not above it.
pub percentiles_lem :
    (latency : ℕ) (rest : List ℕ)
    → length (latency ∷ rest) ≤ 2 ^ 40
    → (p50 : ℕ) × (p95 : ℕ) × (p99 : ℕ) × (percentiles (latency ∷ rest) ≡ some (p50, p95, p99))
      × (p50 ≤ p95)
      × (p95 ≤ p99)
      × IsPercentile 50 p50 (latency ∷ rest)
      × IsPercentile 95 p95 (latency ∷ rest)
      × IsPercentile 99 p99 (latency ∷ rest)
unfolding percentiles
percentiles_lem latency rest few =
    let all : List ℕ = latency ∷ rest in
    let last = length all - 1 in
    let last_few : last ≤ 2 ^ 40 = omega arith in
    let (p50, at50, i50, r50) =
      at_index all (omega arith) half 50 (omega arith) (half-floor last last_few) in
    let (p95, at95, i95, r95) =
      at_index all (omega arith) ninety_five 95 (omega arith) (ninety_five-floor last last_few) in
    let (p99, at99, i99, r99) =
      at_index all (omega arith) ninety_nine 99 (omega arith) (ninety_nine-floor last last_few) in
    let sorted = sort_slice-IsSorted all in
    (
      p50,
      p95,
      p99,
      rw (at50, at95, at99, percentiles) refl,
      sorted_ordered (sort_slice all) _ _ p50 p95 sorted (omega (arith, i50, i95)) at50 at95,
      sorted_ordered (sort_slice all) _ _ p95 p99 sorted (omega (arith, i95, i99)) at95 at99,
      r50,
      r95,
      r99,
    )
