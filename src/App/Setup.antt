-- ===== src/App/Setup.antt =====
-- The setup of the server from the configuration (the setup functions of app/server.go and the
-- settings in `New` of app/app.go). `R` is the state of all but the database server. `Fatal` of the
-- logger ends the process.
use zerohttp_example.Base.{
  ℕ, ◌*◌, String, Bool, true, false, ◌==◌, ◌&&◌, if◌then◌else◌, Option, none, some, List, [], ◌∷◌,
  ◌++◌, map, Result, ok, err,
}
use zerohttp_example.Base.Int.{ℤ, pos}
use zerohttp_example.Config.{Config, RedisConfig, ServerConfig, AppConfig, minute}
use zerohttp_example.App.Limits.{LimitConfig, Logged, setup_tiered_rate_limit}
use zerohttp_example.App.Version.{default_media_type, api_version_func}

-- A step gives a value, or an error to its caller, or ends the process.
pub data Launch (A : Type 0) : Type 0 where
  launched : A → Launch A
  refused : String → Launch A
  fatal : String → Launch A

abbrev pub launch_then : {A B W : Type 0} → Launch A × W → (A → W → Launch B × W) → Launch B × W
launch_then (launched a, w) k = k a w
launch_then (refused e, w) k = (refused e, w)
launch_then (fatal e, w) k = (fatal e, w)

-- An error that is fatal, with the log line.
abbrev pub or_fatal : {A W : Type 0} → String → Result A × W → Launch A × W
or_fatal what (ok a, w) = (launched a, w)
or_fatal what (err e, w) = (fatal what, w)

-- The calls of the tracer's exporter, of Redis, and of zerohttp's idempotency.
pub record Outside (R : Type 0) : Type 0 where
  pub new_tracer : String → String → Bool → R → Result (Unit {0}) × R
  pub redis_ping : String → R → Result (Unit {0}) × R
  pub new_storage_adapter : RedisConfig → R → Result (Unit {0}) × R
  pub shutdown_tracer : R → R

pub record IdempotencyConfig : Type 0 where
  pub storage : RedisConfig
  pub required : Bool
  pub ttl : ℤ

pub record JwtSetup (KeySet : Type 0) : Type 0 where
  pub key_set : KeySet
  pub algorithm : String
  pub storage : RedisConfig
  pub required_claims : List String
  pub access_token_ttl : ℤ
  pub refresh_token_ttl : ℤ

pub record TlsSetup : Type 0 where
  pub addr : String
  pub read_timeout : ℤ
  pub cert_file : String
  pub key_file : String
  pub hsts_max_age : Option ℕ

-- `metrics.Config`.
pub record Metrics : Type 0 where
  pub enabled : Bool
  pub endpoint : String
  pub excluded_paths : List String

-- The middleware for every route, in its order.
pub data Middleware : Type 0 where
  compress : Middleware
  tracer : Bool → Middleware
  media_type : List String → String → String → (String → String) → Middleware
  rate_limit : LimitConfig × Logged → Middleware

-- The hooks of the server's life cycle.
pub data Hook : Type 0 where
  server_ready tracer_shutdown mongo_close : Hook

-- The reply of a health check, by what the pings of Redis and of MongoDB have answered; MongoDB is
-- asked only if Redis has answered.
abbrev pub check_dependencies : Result (Unit {0}) → Result (Unit {0}) → ℕ × String
check_dependencies (err _) mongo = (503, "Redis not available")
check_dependencies (ok _) (err _) = (503, "MongoDB not available")
check_dependencies (ok _) (ok _) = (200, "ok")

-- `healthcheck.Config`.
pub record Healthcheck : Type 0 where
  pub liveness_handler : ℕ × String
  pub readiness_handler : Result (Unit {0}) → Result (Unit {0}) → ℕ × String
  pub startup_handler : Result (Unit {0}) → Result (Unit {0}) → ℕ × String

abbrev pub setup_healthcheck : Healthcheck
setup_healthcheck = record {
  liveness_handler = (200, "ok");
  readiness_handler = check_dependencies;
  startup_handler = check_dependencies;
}

abbrev pub default_read_timeout : ℤ
default_read_timeout = pos (35 * 1_000_000_000)

abbrev pub default_per_page : ℤ
default_per_page = pos 50

abbrev pub metrics : Metrics
metrics = record {
  enabled = true;
  endpoint = "/metrics";
  excluded_paths = "/livez" ∷ "/readyz" ∷ "/startupz" ∷ "/metrics" ∷ [];
}

abbrev pub hsts_max_age : ℕ
hsts_max_age = 365 * 24 * 60 * 60

-- TLS is set up if it has an address, and HSTS only with it.
abbrev pub setup_tls : ServerConfig → Option TlsSetup
setup_tls cfg =
    if cfg.bind_tls_addr == ""
    then none
    else some (record {
      addr = cfg.bind_tls_addr;
      read_timeout = default_read_timeout;
      cert_file = cfg.cert_file;
      key_file = cfg.key_file;
      hsts_max_age = if cfg.enable_hsts then some hsts_max_age else none;
    })

-- `some none` leaves the credentials to the library.
abbrev pub setup_pprof : AppConfig → Option (Option (String × String))
setup_pprof cfg =
    if cfg.enable_pprof
    then some (
        if cfg.pprof_username == "" && cfg.pprof_password == ""
        then none
        else some (cfg.pprof_username, cfg.pprof_password))
    else none

abbrev pub setup_middleware : Config → Bool → List Middleware
setup_middleware cfg traced =
    (compress
      ∷ tracer traced
      ∷ media_type ("application/json" ∷ default_media_type ∷ []) default_media_type "X-API-Version"
          api_version_func
      ∷ [])
    ++ (if cfg.rate_limit.enabled
        then map rate_limit (setup_tiered_rate_limit cfg.rate_limit)
        else [])

module _ {R : Type 0} (out : Outside R) where
  unfoldable pub setup_tracer : Config → R → Launch Bool × R
  setup_tracer cfg r =
      let exported = out.new_tracer cfg.app.name cfg.tracer.endpoint cfg.tracer.insecure r in
      if cfg.tracer.enabled
      then launch_then (or_fatal "Failed to create tracer" exported) (λ _ r. (launched true, r))
      else (launched false, r)

  unfoldable pub setup_redis_storage : RedisConfig → R → Launch RedisConfig × R
  setup_redis_storage cfg r =
      launch_then (or_fatal "Failed to connect to Redis" (out.redis_ping cfg.addr r))
        (λ _ r. (launched cfg, r))

  unfoldable pub setup_idempotency_config : RedisConfig → R → Launch IdempotencyConfig × R
  setup_idempotency_config storage r =
      launch_then
        (or_fatal "Failed to create idempotency store" (out.new_storage_adapter storage r))
        λ _ r. (
          launched (record { storage = storage; required = true; ttl = pos (24 * 60 * minute) }),
          r,
        )
