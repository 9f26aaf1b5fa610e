-- ===== src/Gateway/Load.antt =====
-- api/main.go: loadConfig.
use khaos.Prelude.{◌≡◌, ◌≢◌, refl, GoString, text, [], ◌∷◌, Option}
use khaos.Prelude.Int.{ℤ}
use khaos.Values.{db_password_required}
use khaos.Result.{ok, err}
use khaos.Gateway.{GatewayConfig, get_env, env_or, with_password, load_config}

module _ (environment : GoString → GoString) (atoi parse_duration : GoString → Option ℤ) where
  env_or-ne :
      (fallback v : GoString)
      → fallback ≢ []
      → env_or environment atoi parse_duration fallback v ≢ []
  env_or-ne fallback [] given e = given e
  env_or-ne fallback (c ∷ v) given e = cc

  get_env-ne :
      (key fallback : GoString)
      → fallback ≢ []
      → get_env environment atoi parse_duration key fallback ≢ []
  unfolding get_env
  get_env-ne key fallback given = env_or-ne fallback (environment key) given

  -- Whatever the environment holds and the parsers of integers and durations accept: loadConfig
  -- fails exactly if KHAOS_DB_PASSWORD is not set or empty; otherwise the password of the
  -- configuration is the one that is set, and its host, user, database name, SSL mode and listen
  -- address are not empty.
  pub load_config_decides :
      (environment (text "KHAOS_DB_PASSWORD") ≡ []
        → load_config environment atoi parse_duration ≡ err db_password_required)
      × (environment (text "KHAOS_DB_PASSWORD") ≢ []
          → (c : GatewayConfig) × (load_config environment atoi parse_duration ≡ ok c)
            × (c.db_password ≡ environment (text "KHAOS_DB_PASSWORD"))
            × (c.db_host ≢ [])
            × (c.db_user ≢ [])
            × (c.db_name ≢ [])
            × (c.db_ssl_mode ≢ [])
            × (c.listen_addr ≢ []))
  unfolding load_config
  load_config_decides = (
    λ unset. rw (unset, load_config) refl,
    λ given. (
      _,
      has_password _ (environment (text "KHAOS_DB_PASSWORD")) given,
      refl,
      get_env-ne _ _ (λ e. cc),
      get_env-ne _ _ (λ e. cc),
      get_env-ne _ _ (λ e. cc),
      get_env-ne _ _ (λ e. cc),
      get_env-ne _ _ (λ e. cc),
    ),
  )
    where
      has_password :
          (c : GatewayConfig) (password : GoString)
          → password ≢ []
          → with_password environment atoi parse_duration c password ≡ ok c
      has_password c [] given = absurd (given refl)
      has_password c (b ∷ password) given = refl
