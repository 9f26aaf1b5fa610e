-- ===== src/Reorder/Pending.antt =====
-- The map of pending operations.
use khaos.Prelude.{ℕ, ◌+◌, ◌≤◌, ◌≡◌, [], ◌∷◌, none, some, length, ◌==◌, if◌then◌else◌, arith}
use khaos.Types.{Operation}
use khaos.Reorder.{Pending, lookup, remove, insert}

pub lookup-remove :
    (k : ℕ) (m : Pending) (j : ℕ) → lookup j (remove k m) ≡ (if k == j then none else lookup j m)
lookup-remove k [] j = ground arith
lookup-remove k ((i, op) ∷ m) j = ground (arith, lookup-remove k m j)

pub lookup-insert :
    (k : ℕ) (op : Operation) (m : Pending) (j : ℕ)
    → lookup j (insert k op m) ≡ (if k == j then some op else lookup j m)
lookup-insert k op m j = ground (arith, lookup-remove k m j)

pub length-remove-le : (k : ℕ) (m : Pending) → length (remove k m) ≤ length m
length-remove-le k [] = omega arith
length-remove-le k ((i, op) ∷ m) = ground (arith, length-remove-le k m)

-- Removing a key that is there leaves fewer entries.
pub length-remove-lt :
    (k : ℕ) (m : Pending) (op : Operation)
    → lookup k m ≡ some op
    → length (remove k m) + 1 ≤ length m
length-remove-lt k [] op e = cc
length-remove-lt k ((i, o) ∷ m) op e = ground (arith, length-remove-le k m, length-remove-lt k m op)
