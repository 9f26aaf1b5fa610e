-- ===== src/Prelude/Strings.antt =====
-- strings.TrimSpace and strings.ToUpper, as far as a comparison with an ASCII word can tell.
use Prim.Native.Nat.{ℕ, zero, suc, ◌-◌}
use mathlib.Core.Bool.{Bool, ◌&&◌, ◌||◌}
use mathlib.Core.List.{[], ◌∷◌, reverse}
use khaos.Prelude.Tests.{leb, ◌==◌, if◌then◌else◌}
use khaos.Prelude.Text.{GoString}

abbrev is_ascii_space : ℕ → Bool
is_ascii_space c = (leb 9 c && leb c 13) || c == 32

-- The last bytes of U+2000 to U+200A, U+2028, U+2029 and U+202F, after 0xE2 0x80.
abbrev is_general_space : ℕ → Bool
is_general_space c = (leb 0x80 c && leb c 0x8A) || c == 0xA8 || c == 0xA9 || c == 0xAF

-- The two-byte and three-byte white space of Unicode, in UTF-8.
abbrev is_space2 : ℕ → ℕ → Bool
is_space2 b c = b == 0xC2 && (c == 0x85 || c == 0xA0)

abbrev is_space3 : ℕ → ℕ → ℕ → Bool
is_space3 a b c =
    (a == 0xE1 && b == 0x9A && c == 0x80)
    || (a == 0xE2 && b == 0x80 && is_general_space c)
    || (a == 0xE2 && b == 0x81 && c == 0x9F)
    || (a == 0xE3 && b == 0x80 && c == 0x80)

-- How many bytes the white space at the front takes, for a text and for a reversed text.
unfoldable pub space_at_front : GoString → ℕ
space_at_front (a ∷ b ∷ c ∷ s) =
    if is_ascii_space a then 1 else if is_space2 a b then 2 else if is_space3 a b c then 3 else 0
space_at_front (a ∷ b ∷ []) = if is_ascii_space a then 1 else if is_space2 a b then 2 else 0
space_at_front (a ∷ []) = if is_ascii_space a then 1 else 0
space_at_front [] = 0

unfoldable pub space_at_back : GoString → ℕ
space_at_back (c ∷ b ∷ a ∷ s) =
    if is_ascii_space c then 1 else if is_space2 b c then 2 else if is_space3 a b c then 3 else 0
space_at_back (c ∷ b ∷ []) = if is_ascii_space c then 1 else if is_space2 b c then 2 else 0
space_at_back (c ∷ []) = if is_ascii_space c then 1 else 0
space_at_back [] = 0

-- Drop white space from the front: `skip` bytes of a character already measured, then more.
unfoldable pub trim_front : (GoString → ℕ) → ℕ → GoString → GoString
trim_front space skip [] = []
trim_front space (suc skip) (c ∷ s) = trim_front space skip s
trim_front space zero (c ∷ s) = elim (space (c ∷ s)) [
  | zero ↦ c ∷ s
  | suc skip ↦ trim_front space skip s
]

unfoldable pub trim_space : GoString → GoString
unfolding space_at_front space_at_back trim_front
trim_space s = reverse (trim_front space_at_back 0 (reverse (trim_front space_at_front 0 s)))

-- One byte in upper case, if it is an ASCII letter.
abbrev upper_byte : ℕ → ℕ
upper_byte c = if leb b'a' c && leb c b'z' then c - 32 else c

-- Letters outside ASCII stay outside it (they are left as they are), except U+0131 and U+017F, whose
-- upper case is I and S.
unfoldable pub to_upper : GoString → GoString
to_upper [] = []
to_upper (b ∷ []) = upper_byte b ∷ []
to_upper (b ∷ c ∷ s) =
    let rest = to_upper s in
    let rest' = to_upper (c ∷ s) in
    if b == 0xC4 && c == 0xB1
    then b'I' ∷ rest
    else if b == 0xC5 && c == 0xBF
    then b'S' ∷ rest
    else upper_byte b ∷ rest'
