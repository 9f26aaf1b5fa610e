-- ===== src/Simulator/Percentiles/Rounding.antt =====
-- cmd/simulator/main.go: how far the float64 product of percentiles is from the exact one.
use khaos.Prelude.{
  ℕ, zero, suc, ◌+◌, ◌*◌, ◌/◌, ◌%◌, ◌^◌, ◌≤◌, ◌<◌, ◌≡◌, ◌⊎◌, inl, inr, refl, sym, ap, ◌∙◌, true,
  ltb, ◌==◌, arith, Bool-cases,
}
use native.Mathlib.Decide.{dec_lt}
use native.Mathlib.Nat.{div-add-mod, mod-lt}
use khaos.Simulator.Percentiles.{nearest, round_from, scale, half, ninety_five, ninety_nine}

nearest-close : (u n : ℕ) → 0 < u → (2 * nearest u n ≤ 2 * n + u) × (2 * n ≤ 2 * nearest u n + u)
unfolding nearest
nearest-close u n some_u =
    let low = u * (n / u) in
    let exact = div-add-mod n u in let less = mod-lt n some_u in ground arith

-- A number below it has at most 53 bits above 2^fuel * u.
abbrev top : ℕ → ℕ → ℕ
top zero u = 2 ^ 53 * u
top (suc fuel) u = top fuel (2 * u)

abbrev IsRound : ℕ → ℕ → Type 0
IsRound n r = (2 ^ 53 * r ≤ 2 ^ 53 * n + n) × (2 ^ 53 * n ≤ 2 ^ 53 * r + n)

nearest-IsRound : (u n : ℕ) → 0 < u → (u ≡ 1) ⊎ (2 ^ 52 * u ≤ n) → IsRound n (nearest u n)
nearest-IsRound u n some_u (inr large) = let c = nearest-close u n some_u in omega arith
nearest-IsRound u n some_u (inl one) = let c = nearest-close u n some_u in omega arith

round_from-IsRound :
    (fuel u n : ℕ)
    → 0 < u
    → (u ≡ 1) ⊎ (2 ^ 52 * u ≤ n)
    → n < top fuel u
    → IsRound n (round_from fuel u n)
unfolding round_from
round_from-IsRound zero u n some_u large lt = nearest-IsRound u n some_u large
round_from-IsRound (suc fuel) u n some_u large lt = elim (Bool-cases (ltb n (2 ^ 53 * u))) [
  | inl short ↦ rw (short, round_from) (nearest-IsRound u n some_u large)
  | inr long ↦
      rw (long, round_from)
        (round_from-IsRound fuel (2 * u) n (omega arith) (inr (ground arith)) lt)
]

-- u doubled s times.
abbrev unit_after : (s u : ℕ) → ℕ
unit_after zero u = u
unit_after (suc s) u = unit_after s (2 * u)

unit_after-multiple : (s u : ℕ) → (w : ℕ) × (unit_after s u ≡ u * w)
unit_after-multiple zero u = (1, omega arith)
unit_after-multiple (suc s) u =
    let (w, e) = unit_after-multiple s (2 * u) in (2 * w, e ∙ grind arith)

nearest-multiple : (u n : ℕ) → (q : ℕ) × (nearest u n ≡ u * q)
unfolding nearest
nearest-multiple u n = elim (Bool-cases (ltb (2 * (n % u)) u)) [
  | inl below ↦ (n / u, rw (below, nearest) refl)
  | inr not_below ↦ elim (Bool-cases (ltb u (2 * (n % u)))) [
    | inl above ↦ (n / u + 1, rw (not_below, above, nearest) (grind arith))
    | inr half_way ↦ elim (Bool-cases (n / u % 2 == 0)) [
      | inl even ↦ (n / u, rw (not_below, half_way, even, nearest) refl)
      | inr odd ↦ (n / u + 1, rw (not_below, half_way, odd, nearest) (grind arith))
    ]
  ]
]

multiple-le : (u a b : ℕ) → u * a < u * b + u → u * a ≤ u * b
multiple-le u a b lt = elim (dec_lt b a) [
  | yes more ↦ absurd (grind arith)
  | no fewer ↦ grind arith
]

-- A multiple of 2^53 that is less than half a unit above n is not above what n rounds to.
nearest-reaches :
    (s u n whole gap : ℕ)
    → 0 < u
    → unit_after s u ≡ 2 ^ 53
    → n < 2 ^ 53 * u
    → whole * 2 ^ 53 ≤ n + gap
    → 2 ^ 54 * gap ≤ n
    → whole * 2 ^ 53 ≤ nearest u n
nearest-reaches s u n whole gap some_u units short near narrow =
    let (w, e) = unit_after-multiple s u in
    let (q, r) = nearest-multiple u n in
    let (low, high) = nearest-close u n some_u in
    let whole_units : whole * 2 ^ 53 ≡ u * (w * whole) =
      ap (λ (t : ℕ). whole * t) (sym units ∙ e) ∙ grind arith in
    let less : u * (w * whole) < u * q + u = omega (arith, whole_units, r) in
    let le = multiple-le u (w * whole) q less in omega (arith, whole_units, r)

round_from-reaches :
    (fuel s u n whole gap : ℕ)
    → s ≤ fuel
    → 0 < u
    → unit_after s u ≡ 2 ^ 53
    → n < 2 ^ 106
    → whole * 2 ^ 53 ≤ n + gap
    → 2 ^ 54 * gap ≤ n
    → whole * 2 ^ 53 ≤ round_from fuel u n
unfolding round_from
round_from-reaches zero zero u n whole gap enough some_u units small near narrow =
    nearest-reaches zero u n whole gap some_u units (omega arith) near narrow
round_from-reaches zero (suc s) u n whole gap enough some_u units small near narrow =
    absurd (omega arith)
round_from-reaches (suc fuel) zero u n whole gap enough some_u units small near narrow =
    let short : ltb n (2 ^ 53 * u) ≡ true = ground arith in
    rw (short, round_from)
      (nearest-reaches zero u n whole gap some_u units (omega arith) near narrow)
round_from-reaches (suc fuel) (suc s) u n whole gap enough some_u units small near narrow =
    elim (Bool-cases (ltb n (2 ^ 53 * u))) [
      | inl short ↦
          rw (short, round_from)
            (nearest-reaches (suc s) u n whole gap some_u units (ground arith) near narrow)
      | inr long ↦
          rw (long, round_from)
            (round_from-reaches fuel s (2 * u) n whole gap (omega arith) (omega arith) units small
              near narrow)
    ]

-- The index is the whole part of the exact one.
module _ (k : ℕ) (few : k ≤ 2 ^ 40) where
  product-IsRound : (p : ℕ) → p * k < 2 ^ 100 → IsRound (p * k) (round_from 64 1 (p * k))
  product-IsRound p small = round_from-IsRound 64 1 (p * k) (omega arith) (inl refl) (omega arith)

  product-reaches :
      (p whole gap : ℕ)
      → p * k < 2 ^ 100
      → whole * 2 ^ 53 ≤ p * k + gap
      → 2 ^ 54 * gap ≤ p * k
      → whole * 2 ^ 53 ≤ round_from 64 1 (p * k)
  product-reaches p whole gap small near narrow =
      round_from-reaches 64 53 1 (p * k) whole gap (omega arith) (omega arith) refl (omega arith)
        near narrow

  pub half-floor : scale half k ≡ 50 * k / 100
  unfolding scale
  half-floor =
      let r = product-IsRound half (omega arith) in
      let l = product-reaches half (50 * k / 100) 0 (omega arith) (omega arith) (omega arith) in
      omega arith

  -- The float64 is less than 2/5 of its last bit below 0.95.
  pub ninety_five-floor : scale ninety_five k ≡ 95 * k / 100
  unfolding scale
  ninety_five-floor =
      let r = product-IsRound ninety_five (omega arith) in
      let l =
        product-reaches ninety_five (95 * k / 100) (2 * k / 5) (omega arith) (omega arith)
          (omega arith) in
      omega arith

  pub ninety_nine-floor : scale ninety_nine k ≡ 99 * k / 100
  unfolding scale
  ninety_nine-floor =
      let r = product-IsRound ninety_nine (omega arith) in
      let l =
        product-reaches ninety_nine (99 * k / 100) (2 * k / 5) (omega arith) (omega arith)
          (omega arith) in
      omega arith
