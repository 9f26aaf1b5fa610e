-- ===== src/Prelude/Decimal.antt =====
-- `%d` of package fmt: numbers in decimal, and back.
use Prim.Native.Nat.{ℕ, zero, suc, ◌+◌, ◌-◌, ◌*◌, ◌/◌, ◌%◌, ◌<◌}
use mathlib.Core.Path.{◌≡◌, refl, ◌∙◌}
use mathlib.Core.Logic.{◌≢◌, inl, inr}
use mathlib.Core.List.{[], ◌∷◌, ◌++◌}
use native.Mathlib.Omega.{arith}
use khaos.Prelude.Tests.{◌==◌, if◌then◌else◌, Bool-cases}
use khaos.Prelude.Text.{GoString}
use khaos.Prelude.Int.{ℤ, pos, negsuc}

-- `%d`: the digits of n, by fuel; each round has a tenth of the last.
unfoldable pub digits : ℕ → ℕ → GoString
digits zero n = []
digits (suc fuel) n =
    let rest = digits fuel (n / 10) in (if n / 10 == 0 then [] else rest) ++ (n % 10 + 48) ∷ []

unfoldable pub decimal : ℤ → GoString
decimal (pos n) = digits (suc n) n
decimal (negsuc n) = 45 ∷ digits (suc (suc n)) (suc n)

-- The number that digits stand for.
abbrev pub number : GoString → ℕ → ℕ
number [] so_far = so_far
number (c ∷ s) so_far = number s (so_far * 10 + (c - 48))

pub number-snoc :
    (s : GoString) (c so_far : ℕ) → number (s ++ c ∷ []) so_far ≡ number s so_far * 10 + (c - 48)
number-snoc [] c so_far = refl
number-snoc (d ∷ s) c so_far = number-snoc s c (so_far * 10 + (d - 48))

-- The fuel is enough.
pub number-digits : (fuel n : ℕ) → n < fuel → number (digits fuel n) 0 ≡ n
unfolding digits
number-digits zero n lt = absurd (omega arith)
number-digits (suc fuel) n lt =
    number-snoc (if n / 10 == 0 then [] else digits fuel (n / 10)) (n % 10 + 48) 0
    ∙ elim (Bool-cases (n / 10 == 0)) [
      | inl small ↦ let z : n / 10 ≡ 0 = ground arith in rw small (omega arith)
      | inr large ↦
          let z : n / 10 ≢ 0 = ground arith in
          rw (large, number-digits fuel (n / 10) (omega arith)) (omega arith)
    ]
