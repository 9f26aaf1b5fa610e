-- ===== src/Gateway/Process/Correct.antt =====
-- api/main.go: run and waitForDB, however the outside behaves.
use khaos.Prelude.{
  ◌≡◌, ◌≢◌, ◌↔◌, ◌⊎◌, refl, sym, ap, subst, ◌∙◌, GoString, text, [], ◌∷◌, Option, none, some, Bool,
  true, false, if◌then◌else◌, inl, inr,
}
use mathlib.Core.Option
use mathlib.Core.Option.{some-injective}
use khaos.Values.{Error, server_exited, database_not_reachable}
use khaos.Result.{Result, ok, err, ok_injective}
use khaos.Storage.Postgres.Statements.{
  Statements, none_open, all_open, new_postgres_storage_engine, IsTidy,
  new_postgres_storage_engine-IsTidy,
}
use khaos.Server.Config.{Server, new_server, HasLimits, new_server-HasLimits}
use khaos.Server.Lifecycle.{postgres, run_server, has_shut_down, IsClean, run_server_closes}
use khaos.Gateway.{GatewayConfig, load_config}
use khaos.Gateway.Load.{load_config_decides}
use khaos.Gateway.Process.{
  wait_for_db, World, Process, Database, opened, idle, server_config, wrap, statements_of,
  disconnected, close_database, serve, prepared_or_failed, connect, open_database, configured,
  run_gateway,
}

-- run has ended without a server: no statement is open, and there is an error.
abbrev pub HasNotServed : Process × Option Error → Type 0
HasNotServed (p, e) = (p.served ≡ none) × (p.statements ≡ none_open) × (e ≢ none)

-- A server has run, with what holds of it then.
abbrev pub HasServed : World → Process × Option Error → Type 0
HasServed w (p, e) =
    (server : Server) × (p.served ≡ some server)
    × (wait_for_db w.rounds ≡ some none)
    × (server.http_server.addr ≢ [])
    × HasLimits server
    × (p.statements ≡ (if has_shut_down w.ending then none_open else all_open))
    × (e ≡ none ↔ IsClean w.closing w.ending)

wrap-none : (around : Error → Error) (e : Option Error) → wrap around e ≡ none ↔ e ≡ none
wrap-none around none = (λ h. refl, λ h. refl)
wrap-none around (some e) = (λ h. cc, λ h. cc)

left_open :
    (b : Bool)
    → statements_of (if b then postgres none_open else postgres all_open)
      ≡ (if b then none_open else all_open)
left_open true = refl
left_open false = refl

unset_or_given : (s : GoString) → (s ≡ []) ⊎ (s ≢ [])
unset_or_given [] = inl refl
unset_or_given (c ∷ s) = inr (λ h. cc)

disconnected_lem :
    (db : Option Database) → Option.map (λ d. d.is_open) (Option.map disconnected db) ≢ some true
disconnected_lem none h = cc
disconnected_lem (some db) h = cc

module _ (w : World) where
  serve-HasServed :
      (c : GatewayConfig)
      → c.listen_addr ≢ []
      → wait_for_db w.rounds ≡ some none
      → HasServed w (serve w c all_open)
  unfolding serve server_config new_server
  serve-HasServed c addr reached =
      let (left, (there, back)) = run_server_closes w.closing w.ending all_open in
      let (inner, outer) =
        wrap-none server_exited (run_server w.closing w.ending (postgres all_open)).1 in
      (
        new_server (server_config c),
        refl,
        reached,
        addr,
        new_server-HasLimits (server_config c),
        ap statements_of left ∙ left_open (has_shut_down w.ending),
        (λ h. there (inner h), λ h. outer (back h)),
      )

  prepared-HasServed :
      (c : GatewayConfig)
      → c.listen_addr ≢ []
      → wait_for_db w.rounds ≡ some none
      → (r : Statements × Option Error) → IsTidy r
      → HasNotServed (prepared_or_failed w c r) ⊎ HasServed w (prepared_or_failed w c r)
  prepared-HasServed c addr reached (st, none) (failed, opened) =
      inr (
        subst (λ s. HasServed w (serve w c s)) (sym (opened refl)) (serve-HasServed c addr reached))
  prepared-HasServed c addr reached (st, some e) (failed, opened) =
      inl (refl, failed e refl, λ h. cc)

  abbrev IsOrderly : Process × Option Error → Type 0
  IsOrderly (p, e) =
      (Option.map (λ db. db.is_open) p.database ≢ some true)
      × (HasNotServed (p, e) ⊎ HasServed w (p, e))

  abbrev Ends : Option (Process × Option Error) → Type 0
  Ends r = (q : Process × Option Error) → r ≡ some q → IsOrderly q

  some-Ends : (q : Process × Option Error) → IsOrderly q → Ends (some q)
  some-Ends q orderly q' h = subst IsOrderly (some-injective q q' h) orderly

  close_database-IsOrderly :
      (q : Process × Option Error) → HasNotServed q ⊎ HasServed w q → IsOrderly (close_database q)
  close_database-IsOrderly (p, e) ran = (disconnected_lem p.database, ran)

  connect-Ends :
      (c : GatewayConfig)
      → c.listen_addr ≢ []
      → (reached : Option (Option Error)) → wait_for_db w.rounds ≡ reached
      → Ends (Option.map close_database (connect w c reached))
  connect-Ends c addr none here = λ q h. cc
  connect-Ends c addr (some none) here =
      let prepared = new_postgres_storage_engine w.preparing none_open in
      let ran =
        prepared-HasServed c addr here prepared (new_postgres_storage_engine-IsTidy w.preparing) in
      some-Ends _ (close_database-IsOrderly (prepared_or_failed w c prepared) ran)
  connect-Ends c addr (some (some e)) here = some-Ends _ (
      close_database-IsOrderly (idle (some (opened c)), some (database_not_reachable e))
        (inl (refl, refl, λ h. cc)))

  open_database-Ends :
      (c : GatewayConfig)
      → c.listen_addr ≢ []
      → (failure : Option Error) → Ends (open_database w c failure)
  open_database-Ends c addr none = connect-Ends c addr _ refl
  open_database-Ends c addr (some e) = some-Ends _ (λ h. cc, inl (refl, refl, λ h. cc))

  configured-Ends :
      (r : Result GatewayConfig)
      → ((c : GatewayConfig) → r ≡ ok c → c.listen_addr ≢ [])
      → Ends (configured w r)
  configured-Ends (err e) addr = some-Ends _ (λ h. cc, inl (refl, refl, λ h. cc))
  configured-Ends (ok c) addr = open_database-Ends c (addr c refl) _

  listens :
      (c : GatewayConfig)
      → load_config w.environment w.atoi w.parse_duration ≡ ok c
      → c.listen_addr ≢ []
  listens c loaded =
      let (unset, given) = load_config_decides w.environment w.atoi w.parse_duration in
      elim (unset_or_given (w.environment (text "KHAOS_DB_PASSWORD"))) [
        | inl e ↦ cc (sym (unset e) ∙ loaded)
        | inr ne ↦
            let (c', loaded', _, _, _, _, _, addr) = given ne in
            subst (λ s. s.listen_addr ≢ []) (ok_injective (sym loaded' ∙ loaded)) addr
      ]

  -- Whatever run meets outside, where it returns it leaves no open database handle. Either no
  -- server has run, no statement is open and run returns an error, or a server has run on a
  -- database that waitForDB had reached, on an address that is not empty and with positive limits;
  -- then its statements have all been closed exactly if the context ended and the HTTP server shut
  -- down without an error, and run returns no error exactly if ListenAndServe ended by a Shutdown
  -- and, where the context ended, the HTTP server shut down and every statement closed without one.
  pub run_gateway_lem :
      (p : Process) (e : Option Error)
      → run_gateway w ≡ some (p, e)
      → (Option.map (λ db. db.is_open) p.database ≢ some true)
        × (HasNotServed (p, e) ⊎ HasServed w (p, e))
  unfolding run_gateway
  run_gateway_lem p e h = configured-Ends _ listens (p, e) h
