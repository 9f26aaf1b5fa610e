-- ===== src/Storage/Fnv.antt =====
-- fnv1a of storage.go, on the bytes of the key.
use Prim.Native.Nat.{bit_xor}
use khaos.Prelude.{ℕ, ◌*◌, ◌%◌, ◌^◌, GoString, [], ◌∷◌}

abbrev pub fnv1a_offset32 : ℕ
fnv1a_offset32 = 2166136261

abbrev pub fnv1a_prime32 : ℕ
fnv1a_prime32 = 16777619

-- The loop from the hash h on: `h ^= uint32(key[i]); h *= fnv1aPrime32`, in 32 bits.
unfoldable pub fnv1a_loop : ℕ → GoString → ℕ
fnv1a_loop h [] = h
fnv1a_loop h (byte ∷ key) = fnv1a_loop (bit_xor h byte * fnv1a_prime32 % 2 ^ 32) key

unfoldable pub fnv1a : GoString → ℕ
unfolding fnv1a_loop
fnv1a key = fnv1a_loop fnv1a_offset32 key
