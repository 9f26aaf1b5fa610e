-- ===== src/Result.antt =====
-- The pair (value, error) that a Go function returns, where exactly one of the two is meant.
use khaos.Prelude.{◌≡◌, refl, ap, ◌⊎◌, inl, inr}
use khaos.Values.{Error}

pub data Result {ℓ} (Value : Type ℓ) : Type ℓ where
  ok : Value → Result Value
  err : Error → Result Value

module _ {ℓ κ} {Value : Type ℓ} {Next : Type κ} where
  -- `if err != nil { return …, err }`
  infixl 5 ◌>>=◌
  abbrev pub ◌>>=◌ : Result Value → (Value → Result Next) → Result Next
  err cause >>= next = err cause
  ok value >>= next = next value

  -- A call that succeeds past the check has passed it.
  pub >>=-eq-ok :
      (call : Result Value) (next : Value → Result Next) {last : Next}
      → (call >>= next) ≡ ok last
      → (value : Value) × (call ≡ ok value) × (next value ≡ ok last)
  >>=-eq-ok (err cause) next e = cc
  >>=-eq-ok (ok value) next e = (value, refl, e)

infixl 5 ◌>>◌
abbrev pub ◌>>◌ {ℓ} : {Next : Type ℓ} → Result (Unit {0}) → Result Next → Result Next
check >> rest = check >>= λ _. rest

module _ {ℓ} {Value : Type ℓ} where
  pub Result-cases :
      (r : Result Value) → ((value : Value) × (r ≡ ok value)) ⊎ ((cause : Error) × (r ≡ err cause))
  Result-cases (err cause) = inr (cause, refl)
  Result-cases (ok value) = inl (value, refl)

  pub ok_injective : {a b : Value} → ok a ≡ ok b → a ≡ b
  ok_injective {a} e = ap (λ r. elim r [ ok value ↦ value | err _ ↦ a ]) e
