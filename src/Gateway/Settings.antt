-- ===== src/Gateway/Settings.antt =====
-- The format of a PostgreSQL connection string, as its documentation has it: settings `name=value`
-- with spaces between them, where a value may stand in single quotes, in which a backslash stands
-- before each quote and each backslash of the value.
use khaos.Prelude.{ℕ, GoString, List, [], ◌∷◌, ◌++◌, Option, none, some, ◌==◌, if◌then◌else◌}
use khaos.Gateway.{backslash, quote}

abbrev pub Setting : Type 0
Setting = GoString × GoString

pub data Reading : Type 0 where
  naming : (name : GoString) → Reading
  starting : (name : GoString) → Reading
  bare quoted escaped : (name value : GoString) → Reading

pub record Reader : Type 0 where
  pub reading : Reading
  pub settings : List Setting

abbrev pub between : List Setting → Reader
between settings = record { reading = naming []; settings = settings }

abbrev pub read_byte : List Setting → Reading → ℕ → Reader
read_byte settings (naming []) c =
    if c == 32 then between settings else record { reading = naming (c ∷ []); settings = settings }
read_byte settings (naming (b ∷ name)) c = record {
  reading = if c == 61 then starting (b ∷ name) else naming (b ∷ name ++ c ∷ []);
  settings = settings;
}
read_byte settings (starting name) c =
    if c == 32 then between (settings ++ (name, []) ∷ []) else record {
      reading = if c == quote then quoted name [] else bare name (c ∷ []);
      settings = settings;
    }
read_byte settings (bare name value) c =
    if c == 32
    then between (settings ++ (name, value) ∷ [])
    else record { reading = bare name (value ++ c ∷ []); settings = settings }
read_byte settings (quoted name value) c =
    if c == quote then between (settings ++ (name, value) ∷ []) else record {
      reading = if c == backslash then escaped name value else quoted name (value ++ c ∷ []);
      settings = settings;
    }
read_byte settings (escaped name value) c = record {
  reading = quoted name (value ++ c ∷ []);
  settings = settings;
}

-- The settings at the end of the string: none in the middle of a name or of a quoted value.
abbrev pub finish_reading : List Setting → Reading → Option (List Setting)
finish_reading settings (naming []) = some settings
finish_reading settings (naming (b ∷ name)) = none
finish_reading settings (starting name) = some (settings ++ (name, []) ∷ [])
finish_reading settings (bare name value) = some (settings ++ (name, value) ∷ [])
finish_reading settings (quoted name value) = none
finish_reading settings (escaped name value) = none

unfoldable pub read_from : Reader → GoString → Option (List Setting)
read_from r [] = finish_reading r.settings r.reading
read_from r (c ∷ s) = read_from (read_byte r.settings r.reading c) s

unfoldable pub read_settings : GoString → Option (List Setting)
read_settings s = read_from (between []) s
