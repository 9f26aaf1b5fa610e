-- ===== src/Prelude/Maps.antt =====
-- A Go map with string keys: what it holds at each key.
use mathlib.Core.Option.{Option, none}
use Prim.Native.Nat.{ℕ}
use khaos.Prelude.Tests.{◌==◌, if◌then◌else◌}
use khaos.Prelude.Text.{GoString, str_eq}

-- `m[k] = v`, for maps read with a value for every key.
abbrev pub update {ℓ} : {V : Type ℓ} → GoString → V → (GoString → V) → GoString → V
update k v m j = if str_eq k j then v else m j

abbrev pub GoMap {ℓ} : Type ℓ → Type ℓ
GoMap V = GoString → Option V

-- `delete(m, k)`
abbrev pub delete {ℓ} : {V : Type ℓ} → GoString → GoMap V → GoMap V
delete k m = update k none m

-- `make(map[string]V)`
abbrev pub empty {ℓ} : {V : Type ℓ} → GoMap V
empty k = none

-- A function with one value replaced.
abbrev pub set_at {ℓ} : {V : Type ℓ} → ℕ → V → (ℕ → V) → ℕ → V
set_at i v f j = if i == j then v else f j
