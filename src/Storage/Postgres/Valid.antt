-- ===== src/Storage/Postgres/Valid.antt =====
-- postgres_storage.go: the checks of Set, and what it does on each outcome of them.
use khaos.Prelude.{
  ℕ, ◌≡◌, refl, GoString, text, str_eq, str_eq_iff, Option, none, some, Bool, true, false, ◌||◌,
  arith, Bool-cases, inl, inr, ◌⊎◌,
}
use mathlib.Core.Option
use khaos.Prelude.Int.{ℤ, pos, negsuc, is_negative}
use khaos.Values.{RiderUpdate, Any, Error, setting_rider}
use khaos.Result.{ok, err}
use khaos.Storage.{Context}
use khaos.Storage.Postgres.Sql.{set_statement}
use khaos.Storage.Postgres.{
  Database, valid_rider_statuses, as_rider_update, check_update, set_arguments, set_update,
  set_rider,
}

-- The fields that Set lets pass: one of the four states, and a time of arrival that is not negative.
pub record IsValidUpdate (u : RiderUpdate) : Type 0 where
  pub status :
      (u.current_status ≡ text "AT_VENDOR")
      ⊎ (u.current_status ≡ text "EN_ROUTE")
      ⊎ (u.current_status ≡ text "ARRIVED")
      ⊎ (u.current_status ≡ text "DELIVERED")
  pub minutes : (n : ℕ) × (u.eta_minutes ≡ pos n)

minutes_of : (z : ℤ) → is_negative z ≡ false → (n : ℕ) × (z ≡ pos n)
minutes_of (pos n) e = (n, refl)
minutes_of (negsuc n) e = cc

last_of :
    (a b c d : Bool) → a ≡ false → b ≡ false → c ≡ false → (a || b || c || d) ≡ true → d ≡ true
last_of a b c d na nb nc e = ground arith

status_of :
    (s : GoString)
    → valid_rider_statuses s ≡ true
    → (s ≡ text "AT_VENDOR") ⊎ (s ≡ text "EN_ROUTE") ⊎ (s ≡ text "ARRIVED") ⊎ (s ≡ text "DELIVERED")
unfolding valid_rider_statuses
status_of s e = elim (Bool-cases (str_eq s (text "AT_VENDOR"))) [
  | inl a ↦ inl ((str_eq_iff s (text "AT_VENDOR")).0 a)
  | inr a ↦ elim (Bool-cases (str_eq s (text "EN_ROUTE"))) [
    | inl b ↦ inr (inl ((str_eq_iff s (text "EN_ROUTE")).0 b))
    | inr b ↦ elim (Bool-cases (str_eq s (text "ARRIVED"))) [
      | inl c ↦ inr (inr (inl ((str_eq_iff s (text "ARRIVED")).0 c)))
      | inr c ↦ inr (inr (inr ((str_eq_iff s (text "DELIVERED")).0 (last_of _ _ _ _ a b c e))))
    ]
  ]
]

pub check_update-IsValidUpdate :
    (k : GoString) (u : RiderUpdate) → check_update k u ≡ none → IsValidUpdate u
unfolding check_update
check_update-IsValidUpdate k u e = elim (Bool-cases (valid_rider_statuses u.current_status)) [
  | inr bad ↦ absurd (ground arith)
  | inl good ↦ elim (Bool-cases (is_negative u.eta_minutes)) [
    | inl late ↦ absurd (ground arith)
    | inr fine ↦ record {
      status = status_of u.current_status good;
      minutes = minutes_of u.eta_minutes fine;
    }
  ]
]

pub eq_none_of_map : (f : Error → Error) (e : Option Error) → Option.map f e ≡ none → e ≡ none
eq_none_of_map f none h = refl
eq_none_of_map f (some e) h = cc

module _ (database : Database) (ctx : Context) (k : GoString) (db : database.Db) where
  pub set_rider-err :
      (value : Any) (c : Error)
      → as_rider_update value ≡ err c
      → set_rider database ctx k value db ≡ (db, some (setting_rider k c))
  unfolding set_rider
  set_rider-err value c e = rw (e, set_rider) refl

  pub set_rider-ok :
      (value : Any) (u : RiderUpdate)
      → as_rider_update value ≡ ok u
      → set_rider database ctx k value db ≡ set_update database ctx k u db
  unfolding set_rider
  set_rider-ok value u e = rw (e, set_rider) refl

  pub set_update-some :
      (u : RiderUpdate) (c : Error)
      → check_update k u ≡ some c
      → set_update database ctx k u db ≡ (db, some c)
  unfolding set_update
  set_update-some u c e = rw (e, set_update) refl

  pub set_update-none :
      (u : RiderUpdate)
      → check_update k u ≡ none
      → set_update database ctx k u db ≡ (
        (database.exec_upsert ctx set_statement (set_arguments k u) db).0,
        Option.map
            (setting_rider k)
            (database.exec_upsert ctx set_statement (set_arguments k u) db).1,
      )
  unfolding set_update
  set_update-none u e = rw (e, set_update) refl
