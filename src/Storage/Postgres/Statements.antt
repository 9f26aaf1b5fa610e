-- ===== src/Storage/Postgres/Statements.antt =====
-- NewPostgresStorageEngine and Close of postgres_storage.go: the prepared statements and their release.
use khaos.Prelude.{
  ◌≡◌, refl, List, [], ◌∷◌, ◌++◌, ◌↔◌, Option-cases, inl, inr, Option, none, some, Bool, true,
  false,
}
use khaos.Values.{Error, preparing_get, preparing_set, preparing_delete}

-- The three queries.
pub data Query : Type 0 where
  get_query set_query delete_query : Query

-- The statements that are open, by their query.
pub record Statements : Type 0 where
  pub get_stmt : Bool
  pub set_stmt : Bool
  pub delete_stmt : Bool

abbrev pub set_open : Bool → Query → Statements → Statements
set_open b get_query st = record st { get_stmt = b }
set_open b set_query st = record st { set_stmt = b }
set_open b delete_query st = record st { delete_stmt = b }

abbrev pub none_open : Statements
none_open = record { get_stmt = false; set_stmt = false; delete_stmt = false }

abbrev pub all_open : Statements
all_open = record { get_stmt = true; set_stmt = true; delete_stmt = true }

-- `db.PrepareContext` opens a statement unless it fails, and its error is an argument; `Close` of a
-- statement ends it.
module _ (prepare : Query → Option Error) where
  unfoldable pub prepare_delete : Statements → Statements × Option Error
  prepare_delete st = elim (prepare delete_query) [
    | some e ↦ (set_open false set_query (set_open false get_query st), some (preparing_delete e))
    | none ↦ (set_open true delete_query st, none)
  ]

  unfoldable pub prepare_set : Statements → Statements × Option Error
  unfolding prepare_delete
  prepare_set st = elim (prepare set_query) [
    | some e ↦ (set_open false get_query st, some (preparing_set e))
    | none ↦ prepare_delete (set_open true set_query st)
  ]

  -- NewPostgresStorageEngine.
  unfoldable pub new_postgres_storage_engine : Statements → Statements × Option Error
  unfolding prepare_set
  new_postgres_storage_engine st = elim (prepare get_query) [
    | some e ↦ (st, some (preparing_get e))
    | none ↦ prepare_set (set_open true get_query st)
  ]

abbrev pub append_error : Option Error → List Error → List Error
append_error none errs = errs
append_error (some e) errs = errs ++ e ∷ []

-- Close, with the errors that closing each statement gives; the list is what errors.Join joins.
unfoldable pub close_engine : (Query → Option Error) → Statements → Statements × List Error
close_engine closing st = (
  set_open false delete_query (set_open false set_query (set_open false get_query st)),
  append_error (closing delete_query)
      (append_error (closing set_query) (append_error (closing get_query) [])),
)

append_error-empty :
    (e : Option Error) (errs : List Error) → (append_error e errs ≡ []) ↔ ((e ≡ none) × (errs ≡ []))
append_error-empty none errs = (λ h. (refl, h), λ h. h.1)
append_error-empty (some e) [] = (λ h. cc, λ h. cc)
append_error-empty (some e) (e' ∷ errs) = (λ h. cc, λ h. cc)

pub close_engine-no_errors :
    (closing : Query → Option Error) (st : Statements)
    → ((close_engine closing st).1 ≡ []) ↔ ((q : Query) → closing q ≡ none)
unfolding close_engine
close_engine-no_errors closing st =
    let last =
      append_error-empty (closing delete_query)
        (append_error (closing set_query) (append_error (closing get_query) [])) in
    let middle = append_error-empty (closing set_query) (append_error (closing get_query) []) in
    let first = append_error-empty (closing get_query) [] in
    (
      λ h q. elim q as (λ x. closing x ≡ none) [
        | get_query ↦ (first.0 (middle.0 (last.0 h).1).1).0
        | set_query ↦ (middle.0 (last.0 h).1).0
        | delete_query ↦ (last.0 h).0
      ],
      λ h. last.1 (h delete_query, middle.1 (h set_query, first.1 (h get_query, refl))),
    )

-- What a preparation may end with.
abbrev pub IsTidy : Statements × Option Error → Type 0
IsTidy r = ((e : Error) → r.1 ≡ some e → r.0 ≡ none_open) × (r.1 ≡ none → r.0 ≡ all_open)

prepare_delete-IsTidy :
    (prepare : Query → Option Error)
    → IsTidy (prepare_delete prepare (set_open true set_query (set_open true get_query none_open)))
unfolding prepare_delete
prepare_delete-IsTidy prepare = elim (Option-cases (prepare delete_query)) [
  | inl c ↦ rw (c, prepare_delete) (λ e h. cc, λ h. refl)
  | inr (e, c) ↦ rw (c, prepare_delete) (λ e h. refl, λ h. cc)
]

prepare_set-IsTidy :
    (prepare : Query → Option Error)
    → IsTidy (prepare_set prepare (set_open true get_query none_open))
unfolding prepare_set
prepare_set-IsTidy prepare = elim (Option-cases (prepare set_query)) [
  | inl c ↦ rw (c, prepare_set) (prepare_delete-IsTidy prepare)
  | inr (e, c) ↦ rw (c, prepare_set) (λ e h. refl, λ h. cc)
]

pub new_postgres_storage_engine-IsTidy :
    (prepare : Query → Option Error) → IsTidy (new_postgres_storage_engine prepare none_open)
unfolding new_postgres_storage_engine
new_postgres_storage_engine-IsTidy prepare = elim (Option-cases (prepare get_query)) [
  | inl c ↦ rw (c, new_postgres_storage_engine) (prepare_set-IsTidy prepare)
  | inr (e, c) ↦ rw (c, new_postgres_storage_engine) (λ e h. refl, λ h. cc)
]

-- NewPostgresStorageEngine, with no statement open before and whichever of its three preparations
-- fails, leaves none open when it returns an error and all three when it returns an engine; Close
-- of that engine leaves none open, and it returns no error exactly if closing gave none.
pub new_postgres_storage_engine-open :
    (prepare closing : Query → Option Error)
    → ((e : Error)
        → (new_postgres_storage_engine prepare none_open).1 ≡ some e
        → (new_postgres_storage_engine prepare none_open).0 ≡ none_open)
      × ((new_postgres_storage_engine prepare none_open).1 ≡ none
          → ((new_postgres_storage_engine prepare none_open).0 ≡ all_open)
            × ((close_engine closing all_open).0 ≡ none_open))
      × (((close_engine closing all_open).1 ≡ []) ↔ ((q : Query) → closing q ≡ none))
unfolding close_engine
new_postgres_storage_engine-open prepare closing =
    let (failed, opened) = new_postgres_storage_engine-IsTidy prepare in
    (failed, λ e. (opened e, refl), close_engine-no_errors closing all_open)
