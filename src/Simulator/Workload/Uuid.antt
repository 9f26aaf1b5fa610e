-- ===== src/Simulator/Workload/Uuid.antt =====
-- cmd/simulator/main.go: the identifiers of buildBatch are UUIDs while they have at most 12 digits.
use khaos.Prelude.{
  ℕ, zero, suc, ◌+◌, ◌-◌, ◌*◌, ◌/◌, ◌%◌, ◌^◌, ◌≤◌, ◌<◌, ◌≡◌, refl, GoString, [], ◌∷◌, ◌++◌, true,
  length, length-append, replicate, ◌==◌, All, Bool-cases, inl, inr, arith,
}
use khaos.Prelude.Decimal.{digits}
use khaos.Prelude.Int.{pos}
use khaos.Storage.Postgres.Schema.{is_hex, hex_run, at_end, is_uuid}
use khaos.Simulator.Workload.{to_int, padded, rider_id_of, order_id_of}

abbrev IsHex : ℕ → Type 0
IsHex c = is_hex c ≡ true

All-append : (s t : GoString) → All IsHex s → All IsHex t → All IsHex (s ++ t)
All-append [] t left right = right
All-append (c ∷ s) t (here, left) right = (here, All-append s t left right)

digits-IsHex : (fuel n : ℕ) → All IsHex (digits fuel n)
unfolding digits is_hex
digits-IsHex zero n = tt
digits-IsHex (suc fuel) n =
    let last : IsHex (n % 10 + 48) = ground arith in
    elim (Bool-cases (n / 10 == 0)) [
      | inl small ↦ rw (small, digits) (last, tt)
      | inr large ↦
          rw (large, digits)
            (All-append (digits fuel (n / 10)) ((n % 10 + 48) ∷ []) (digits-IsHex fuel (n / 10))
              (last, tt))
    ]

abbrev ten_to : ℕ → ℕ
ten_to zero = 1
ten_to (suc k) = 10 * ten_to k

length-digits : (k fuel n : ℕ) → n < ten_to (suc k) → length (digits fuel n) ≤ suc k
unfolding digits
length-digits k zero n lt = omega arith
length-digits zero (suc fuel) n lt =
    let small : (n / 10 == 0) ≡ true = ground arith in rw (small, digits) (omega arith)
length-digits (suc k) (suc fuel) n lt = elim (Bool-cases (n / 10 == 0)) [
  | inl small ↦ rw (small, digits) (omega arith)
  | inr large ↦
      rw (large, digits)
        (omega (
          arith,
          length-append {0} (digits fuel (n / 10)) ((n % 10 + 48) ∷ []),
          length-digits k fuel (n / 10) (omega arith),
        ))
]

zeros-IsHex : (n : ℕ) → All IsHex (replicate n 48)
unfolding is_hex
zeros-IsHex zero = tt
zeros-IsHex (suc n) = (refl, zeros-IsHex n)

length-zeros : (n : ℕ) → length {A = ℕ} (replicate n 48) ≡ n
length-zeros zero = refl
length-zeros (suc n) = omega (arith, length-zeros n)

hex_run-All : (n : ℕ) (s : GoString) → All IsHex s → length s ≡ n → hex_run n at_end s ≡ true
unfolding hex_run
hex_run-All zero [] all e = refl
hex_run-All zero (c ∷ s) all e = absurd (omega arith)
hex_run-All (suc n) [] all e = absurd (omega arith)
hex_run-All (suc n) (c ∷ s) (here, all) e = rw (here, hex_run-All n s all (omega arith)) refl

-- `%012d` of a number of at most 12 digits.
padded-hex_run : (n : ℕ) → n < 10 ^ 12 → hex_run 12 at_end (padded 12 (to_int n)) ≡ true
unfolding padded
padded-hex_run n small =
    let s = digits (suc n) n in
    let short = length-digits 11 (suc n) n (omega arith) in
    let plain : to_int n ≡ pos n = ground arith in
    let all =
      All-append (replicate (12 - length s) 48) s (zeros-IsHex _) (digits-IsHex (suc n) n) in
    rw plain (
      hex_run-All 12 (replicate (12 - length s) 48 ++ s) all (
        omega (
          arith,
          length-append {0} (replicate (12 - length s) 48) s,
          length-zeros (12 - length s),
        )))

module _ (client i : ℕ) (small : client * 1000 + i < 10 ^ 12) where
  pub is_uuid-rider_id_of : is_uuid (rider_id_of client i) ≡ true
  unfolding rider_id_of is_uuid hex_run is_hex
  is_uuid-rider_id_of = padded-hex_run (client * 1000 + i) small

  pub is_uuid-order_id_of : is_uuid (order_id_of client i) ≡ true
  unfolding order_id_of is_uuid hex_run is_hex
  is_uuid-order_id_of = padded-hex_run (client * 1000 + i) small
