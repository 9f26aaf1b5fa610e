-- ===== src/Gateway/RoundTrip.antt =====
-- api/main.go: dsn. The connection string, read in the format of PostgreSQL, gives the fields back.
use khaos.Prelude.{
  ℕ, zero, suc, ◌+◌, ◌/◌, ◌%◌, ◌≡◌, refl, sym, ap, subst, ◌∙◌, GoString, text, List, [], ◌∷◌, ◌++◌,
  some, All, ◌==◌, if◌then◌else◌, Bool, true, false, arith,
}
use khaos.Prelude.Decimal.{digits, decimal, number, number-digits}
use khaos.Prelude.Int.{ℤ, pos, negsuc}
use mathlib.Core.List.{append_assoc, append-nil}
use native.Mathlib.Decide.{ℕ_discrete}
use khaos.Gateway.{GatewayConfig, backslash, quote, replace_all, escape, concat, dsn}
use khaos.Gateway.Settings.{
  Setting, starting, bare, quoted, Reader, between, read_from, read_settings,
}

abbrev escaped_text : GoString → GoString
escaped_text s =
    replace_all quote (backslash ∷ quote ∷ [])
      (replace_all backslash (backslash ∷ backslash ∷ []) s)

-- A byte of a bare value.
abbrev IsPlain : ℕ → Type 0
IsPlain c = ((c == 32) ≡ false) × ((c == quote) ≡ false)

module _ (name : GoString) (settings : List Setting) where
  abbrev in_quotes : GoString → Reader
  in_quotes value = record { reading = quoted name value; settings = settings }

  -- The reader undoes the escapes.
  read_from-escaped_text :
      (s value rest : GoString)
      → read_from (in_quotes value) (escaped_text s ++ rest)
        ≡ read_from (in_quotes (value ++ s)) rest
  unfolding read_from replace_all
  read_from-escaped_text [] value rest =
      ap (λ v. read_from (in_quotes v) rest) (sym (append-nil value))
  read_from-escaped_text (c ∷ s) value rest =
      byte_read
      ∙ read_from-escaped_text s (value ++ c ∷ []) rest
      ∙ ap (λ v. read_from (in_quotes v) rest) (append_assoc value (c ∷ []) s)
    where
      byte_read :
          read_from (in_quotes value) (escaped_text (c ∷ s) ++ rest)
          ≡ read_from (in_quotes (value ++ c ∷ [])) (escaped_text s ++ rest)
      byte_read = elim (ℕ_discrete c backslash) [
        | yes same ↦
            subst
              (λ b.
                read_from (in_quotes value) (escaped_text (b ∷ s) ++ rest)
                ≡ read_from (in_quotes (value ++ b ∷ [])) (escaped_text s ++ rest))
              (sym same) refl
        | no other ↦ elim (ℕ_discrete c quote) [
          | yes same ↦
              subst
                (λ b.
                  read_from (in_quotes value) (escaped_text (b ∷ s) ++ rest)
                  ≡ read_from (in_quotes (value ++ b ∷ [])) (escaped_text s ++ rest))
                (sym same) refl
          | no plain ↦
              let a : (c == backslash) ≡ false = ground arith in
              let b : (c == quote) ≡ false = ground arith in
              let kept : escaped_text (c ∷ s) ≡ c ∷ escaped_text s = rw (a, b, replace_all) refl in
              ap (λ t. read_from (in_quotes value) (t ++ rest)) kept ∙ rw (a, b, read_from) refl
        ]
      ]

  read_from-escape :
      (s rest : GoString)
      → read_from (record { reading = starting name; settings = settings }) (escape s ++ rest)
        ≡ read_from (between (settings ++ (name, s) ∷ [])) rest
  unfolding escape read_from
  read_from-escape s rest =
      ap (read_from (in_quotes [])) (append_assoc (escaped_text s) (quote ∷ []) rest)
      ∙ read_from-escaped_text s [] (quote ∷ rest)

  read_from-bare :
      (s value rest : GoString)
      → All IsPlain s
      → read_from (record { reading = bare name value; settings = settings }) (s ++ 32 ∷ rest)
        ≡ read_from (between (settings ++ (name, value ++ s) ∷ [])) rest
  unfolding read_from
  read_from-bare [] value rest plain =
      ap (λ v. read_from (between (settings ++ (name, v) ∷ [])) rest) (sym (append-nil value))
  read_from-bare (c ∷ s) value rest (here, later) =
      rw (here.0, read_from) (read_from-bare s (value ++ c ∷ []) rest later)
      ∙ ap (λ v. read_from (between (settings ++ (name, v) ∷ [])) rest)
          (append_assoc value (c ∷ []) s)

  read_from-plain :
      (s rest : GoString)
      → All IsPlain s
      → read_from (record { reading = starting name; settings = settings }) (s ++ 32 ∷ rest)
        ≡ read_from (between (settings ++ (name, s) ∷ [])) rest
  unfolding read_from
  read_from-plain [] rest plain = refl
  read_from-plain (c ∷ s) rest (here, later) =
      rw (here.0, here.1, read_from) (read_from-bare s (c ∷ []) rest later)

All-snoc : (P : ℕ → Type 0) (xs : List ℕ) (x : ℕ) → All P xs → P x → All P (xs ++ x ∷ [])
All-snoc P [] x all last = (last, tt)
All-snoc P (y ∷ xs) x (here, later) last = (here, All-snoc P xs x later last)

-- Neither a byte with a meaning nor a minus sign.
abbrev IsDigit : ℕ → Type 0
IsDigit c = IsPlain c × ((c == 45) ≡ false)

if_All : (b : Bool) (s : GoString) → All IsDigit s → All IsDigit (if b then [] else s)
if_All true s all = tt
if_All false s all = all

digits-IsDigit : (fuel n : ℕ) → All IsDigit (digits fuel n)
unfolding digits
digits-IsDigit zero n = tt
digits-IsDigit (suc fuel) n =
    All-snoc IsDigit _ (n % 10 + 48)
      (if_All (n / 10 == 0) (digits fuel (n / 10)) (digits-IsDigit fuel (n / 10)))
      ((ground arith, ground arith), ground arith)

All-IsPlain : (s : GoString) → All IsDigit s → All IsPlain s
All-IsPlain [] all = tt
All-IsPlain (c ∷ s) (here, later) = (here.0, All-IsPlain s later)

decimal-IsPlain : (n : ℤ) → All IsPlain (decimal n)
unfolding decimal
decimal-IsPlain (pos n) = All-IsPlain _ (digits-IsDigit (suc n) n)
decimal-IsPlain (negsuc n) = ((refl, refl), All-IsPlain _ (digits-IsDigit (suc (suc n)) (suc n)))

abbrev pub negative : ℕ → ℤ
negative zero = pos 0
negative (suc n) = negsuc n

-- The number that an optional minus sign and digits stand for.
abbrev pub read_int : GoString → ℤ
read_int [] = pos 0
read_int (c ∷ s) = if c == 45 then negative (number s 0) else pos (number (c ∷ s) 0)

read_int-digits : (s : GoString) → All IsDigit s → read_int s ≡ pos (number s 0)
read_int-digits [] all = refl
read_int-digits (c ∷ s) (here, later) = rw (here.1) refl

read_int-decimal : (n : ℤ) → read_int (decimal n) ≡ n
unfolding decimal
read_int-decimal (pos n) =
    read_int-digits (digits (suc n) n) (digits-IsDigit (suc n) n)
    ∙ ap pos (number-digits (suc n) n (omega arith))
read_int-decimal (negsuc n) = ap negative (number-digits (suc (suc n)) (suc n) (omega arith))

-- For every configuration, whatever bytes its fields hold (spaces, quotes and backslashes too), the
-- connection string of dsn, read in the format of PostgreSQL, is exactly the six settings host, port,
-- user, password, dbname and sslmode with the fields as they are, and the port reads as the number
-- it is.
pub dsn-read_settings :
    (c : GatewayConfig)
    → (read_settings (dsn c)
        ≡ some (
            (text "host", c.db_host)
            ∷ (text "port", decimal c.db_port)
            ∷ (text "user", c.db_user)
            ∷ (text "password", c.db_password)
            ∷ (text "dbname", c.db_name)
            ∷ (text "sslmode", c.db_ssl_mode)
            ∷ []))
      × (read_int (decimal c.db_port) ≡ c.db_port)
unfolding dsn read_settings read_from
dsn-read_settings c =
    let ssl_mode = concat (text " sslmode=" ∷ escape c.db_ssl_mode ∷ []) in
    let name = text " dbname=" ++ (escape c.db_name ++ ssl_mode) in
    let password = text " password=" ++ (escape c.db_password ++ name) in
    let user = text "user=" ++ (escape c.db_user ++ password) in
    let port = text " port=" ++ (decimal c.db_port ++ (text " " ++ user)) in
    let host_read : List Setting = (text "host", c.db_host) ∷ [] in
    let port_read : List Setting = host_read ++ (text "port", decimal c.db_port) ∷ [] in
    let user_read : List Setting = port_read ++ (text "user", c.db_user) ∷ [] in
    let password_read : List Setting = user_read ++ (text "password", c.db_password) ∷ [] in
    let name_read : List Setting = password_read ++ (text "dbname", c.db_name) ∷ [] in
    (
      read_from-escape (text "host") [] c.db_host port
          ∙ read_from-plain (text "port") host_read (decimal c.db_port) user
              (decimal-IsPlain c.db_port)
          ∙ read_from-escape (text "user") port_read c.db_user password
          ∙ read_from-escape (text "password") user_read c.db_password name
          ∙ read_from-escape (text "dbname") password_read c.db_name ssl_mode
          ∙ read_from-escape (text "sslmode") name_read c.db_ssl_mode [],
      read_int-decimal c.db_port,
    )
