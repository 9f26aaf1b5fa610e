-- ===== src/Storage/Postgres/Schema.antt =====
-- schema.sql: what the column types and CHECK constraints of active_rider_tracking ask of a row.
use khaos.Prelude.{
  ℕ, zero, suc, ◌%◌, ◌^◌, GoString, text, str_eq, Bool, true, false, ◌&&◌, ◌||◌, [], ◌∷◌, leb, ltb,
  ◌==◌,
}
use khaos.Prelude.Int.{ℤ, pos, negsuc}
use khaos.Values.{RiderUpdate}

unfoldable pub is_hex : ℕ → Bool
is_hex c = leb 48 c && leb c 57 || leb 65 c && leb c 70 || leb 97 c && leb c 102

-- n hexadecimal digits, and then what `next` asks.
unfoldable pub hex_run : ℕ → (next : GoString → Bool) → GoString → Bool
hex_run zero next s = next s
hex_run (suc n) next [] = false
hex_run (suc n) next (c ∷ s) = is_hex c && hex_run n next s

abbrev pub hyphen : (next : GoString → Bool) → GoString → Bool
hyphen next [] = false
hyphen next (c ∷ s) = c == 45 && next s

abbrev pub at_end : GoString → Bool
at_end [] = true
at_end (c ∷ s) = false

-- The standard form of a UUID: 8, 4, 4, 4 and 12 hexadecimal digits with hyphens between.
unfoldable pub is_uuid : GoString → Bool
is_uuid =
    hex_run 8
      (hyphen (hex_run 4 (hyphen (hex_run 4 (hyphen (hex_run 4 (hyphen (hex_run 12 at_end))))))))

-- A float64 by its bits, against a positive bound by its bits: the order of magnitudes is that of the
-- bits below the sign.
unfoldable pub is_between : (bound bits : ℕ) → Bool
is_between bound bits = leb (bits % 2 ^ 63) bound

-- 90 and 180
abbrev pub ninety : ℕ
ninety = 0x4056800000000000

abbrev pub hundred_eighty : ℕ
hundred_eighty = 0x4066800000000000

unfoldable pub status_allowed : GoString → Bool
status_allowed s =
    str_eq s (text "AT_VENDOR")
    || str_eq s (text "EN_ROUTE")
    || str_eq s (text "ARRIVED")
    || str_eq s (text "DELIVERED")

-- A 32-bit INTEGER that is not negative.
unfoldable pub eta_allowed : ℤ → Bool
eta_allowed (pos n) = ltb n (2 ^ 31)
eta_allowed (negsuc n) = false

-- The columns that Set binds, but for the rider_id.
unfoldable pub row_allowed : RiderUpdate → Bool
row_allowed u =
    is_uuid u.order_id
    && is_between ninety u.latitude
    && is_between hundred_eighty u.longitude
    && status_allowed u.current_status
    && eta_allowed u.eta_minutes
