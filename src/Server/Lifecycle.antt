-- ===== src/Server/Lifecycle.antt =====
-- server.go: Run and Shutdown of the server.
use khaos.Prelude.{
  ◌≡◌, ◌↔◌, refl, List, [], ◌∷◌, Option, none, some, Bool, true, false, if◌then◌else◌,
}
use khaos.Values.{
  Error, server_closed, closing_storage_engine, http_server_error, http_server_shutdown,
  graceful_shutdown_failed, http_server_error_during_shutdown,
}
use khaos.Storage.Postgres.Statements.{
  Query, Statements, none_open, close_engine, close_engine-no_errors,
}

-- `s.storage.(*PostgresStorageEngine)`: an engine with its prepared statements, or one of another type.
pub data Engine : Type 0 where
  postgres : (open_statements : Statements) → Engine
  another : Engine

-- `errors.Is(err, http.ErrServerClosed)`, for an error of ListenAndServe.
abbrev pub is_server_closed : Error → Bool
is_server_closed server_closed = true
is_server_closed _ = false

abbrev pub closed_or_failed : Engine → List Error → Engine × Option Error
closed_or_failed engine [] = (engine, none)
closed_or_failed engine (e ∷ errs) = (engine, some closing_storage_engine)

-- What the select of Run meets: the end of ListenAndServe, or of the context, and then what
-- Shutdown of the HTTP server and ListenAndServe return.
pub data Ending : Type 0 where
  serve_ended : Error → Ending
  context_done : (http_shutdown serve_err : Option Error) → Ending

-- What Shutdown of the HTTP server returns, and then Close of each statement, are arguments.
module _ (closing : Query → Option Error) where
  unfoldable pub shutdown : (http_shutdown : Option Error) → Engine → Engine × Option Error
  shutdown (some e) engine = (engine, some (http_server_shutdown e))
  shutdown none another = (another, none)
  shutdown none (postgres st) =
      let (st', errs) = close_engine closing st in closed_or_failed (postgres st') errs

  abbrev pub after_shutdown :
      (serve_err : Option Error) → Engine × Option Error → Engine × Option Error
  after_shutdown serve_err (engine, some e) = (engine, some (graceful_shutdown_failed e))
  after_shutdown none (engine, none) = (engine, none)
  after_shutdown (some e) (engine, none) =
      (engine, if is_server_closed e then none else some (http_server_error_during_shutdown e))

  -- Server.Run: the engine that it leaves, and its error.
  unfoldable pub run_server : Ending → Engine → Engine × Option Error
  unfolding shutdown
  run_server (serve_ended e) engine =
      (engine, if is_server_closed e then none else some (http_server_error e))
  run_server (context_done http_shutdown serve_err) engine =
      after_shutdown serve_err (shutdown http_shutdown engine)

-- ListenAndServe has ended as it does after a Shutdown.
abbrev pub has_served : Option Error → Bool
has_served none = true
has_served (some e) = is_server_closed e

abbrev pub has_shut_down : Ending → Bool
has_shut_down (serve_ended e) = false
has_shut_down (context_done none serve_err) = true
has_shut_down (context_done (some e) serve_err) = false

-- Nothing has failed on the way out.
abbrev pub IsClean : (closing : Query → Option Error) → Ending → Type 0
IsClean closing (serve_ended e) = is_server_closed e ≡ true
IsClean closing (context_done http_shutdown serve_err) =
    (http_shutdown ≡ none) × ((q : Query) → closing q ≡ none) × (has_served serve_err ≡ true)

none_iff : (b : Bool) (e : Error) → (if b then none else some e) ≡ none ↔ b ≡ true
none_iff true e = (λ h. refl, λ h. refl)
none_iff false e = (λ h. cc, λ h. cc)

served_iff :
    (serve_err : Option Error) (engine : Engine)
    → (after_shutdown (λ q. none) serve_err (engine, none)).1 ≡ none ↔ has_served serve_err ≡ true
served_iff none engine = (λ h. refl, λ h. refl)
served_iff (some e) engine = none_iff (is_server_closed e) (http_server_error_during_shutdown e)

closed_iff :
    (serve_err : Option Error) (engine : Engine) (errs : List Error)
    → let left = after_shutdown (λ q. none) serve_err (closed_or_failed engine errs) in
      (left.0 ≡ engine) × (left.1 ≡ none ↔ ((errs ≡ []) × (has_served serve_err ≡ true)))
closed_iff none engine [] = (refl, (λ h. (refl, refl), λ h. refl))
closed_iff (some e) engine [] =
    let (there, back) = none_iff (is_server_closed e) (http_server_error_during_shutdown e) in
    (refl, (λ h. (refl, there h), λ h. back h.1))
closed_iff none engine (e ∷ errs) = (refl, (λ h. cc, λ h. cc))
closed_iff (some e') engine (e ∷ errs) = (refl, (λ h. cc, λ h. cc))

-- A server on PostgreSQL has run. Its statements have all been closed exactly if the context ended
-- and the HTTP server shut down without an error, also where closing some of them gave an error;
-- otherwise they are as they were. Run returns no error exactly if ListenAndServe ended by a
-- Shutdown and, where the context ended, the HTTP server shut down and every statement closed
-- without an error.
pub run_server_closes :
    (closing : Query → Option Error) (ending : Ending) (st : Statements)
    → let (engine, err) = run_server closing ending (postgres st) in
      (engine ≡ (if has_shut_down ending then postgres none_open else postgres st))
      × (err ≡ none ↔ IsClean closing ending)
unfolding run_server shutdown close_engine
run_server_closes closing (serve_ended e) st =
    (refl, none_iff (is_server_closed e) (http_server_error e))
run_server_closes closing (context_done (some e) serve_err) st = (refl, (λ h. cc, λ h. cc))
run_server_closes closing (context_done none serve_err) st =
    let (same, (there, back)) =
      closed_iff serve_err (postgres none_open) (close_engine closing st).1 in
    let (empty, quiet) = close_engine-no_errors closing st in
    (same, (λ h. let (a, b) = there h in (refl, empty a, b), λ h. back (quiet h.1, h.2)))
