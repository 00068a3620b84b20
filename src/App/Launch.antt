-- ===== src/App/Launch.antt =====
-- How the process comes up: `New` (app/app.go), setupJWTConfig (app/server.go) and `main`
-- (cmd/server/main.go). `S` is the state of the database server, `R` that of all else.
-- `Fatal` of the logger ends the process. What the hooks and the health checks do is in
-- App/Launch/Hooks, the routes that `New` sets up are in App/Routes.
pub mod Steps
pub mod New
pub mod Ready
pub mod Stop
pub mod Hooks
use zerohttp_example.Base.{String, Bool, Option, List, [], ◌∷◌, Result, ok, err}
use zerohttp_example.Base.Int.{ℤ}
use zerohttp_example.Config.{Config, RedisConfig}
use zerohttp_example.Config.Flags.{Flag}
use zerohttp_example.Config.Load.{load}
use zerohttp_example.Models.Platform.{Platform}
use zerohttp_example.Prog.{Flow, ran, stopped}
use zerohttp_example.Prog.Run.{Server, run}
use zerohttp_example.Mongo.{MongoStore}
use zerohttp_example.Mongo.Connect.{Client, Handles, new_mongo_store}
use zerohttp_example.Mongo.Serve.{serve}
use zerohttp_example.App.Keys.{Crypto, System, load_or_create_key}
use zerohttp_example.App.Start.{start}
use zerohttp_example.App.Setup.{
  Launch, launch_then, or_fatal, Outside, IdempotencyConfig, JwtSetup, TlsSetup, Metrics,
  Middleware, Hook, server_ready, tracer_shutdown, mongo_close, Healthcheck, setup_healthcheck,
  default_read_timeout, default_per_page, metrics, setup_tls, setup_pprof, setup_middleware,
  setup_tracer, setup_redis_storage, setup_idempotency_config, launched, refused, fatal,
}

-- What `New` has set up: the fields of `App`, and the settings of its server and middleware.
pub record App (KeySet : Type 0) : Type 0 where
  pub cfg : Config
  pub store : Handles
  pub redis : RedisConfig
  pub traced : Bool
  pub addr : String
  pub read_timeout : ℤ
  pub default_per_page : ℤ
  pub tls : Option TlsSetup
  pub metrics : Metrics
  pub post_startup_hooks : List Hook
  pub post_shutdown_hooks : List Hook
  pub middlewares : List Middleware
  pub healthcheck : Healthcheck
  pub pprof : Option (Option (String × String))
  pub jwt : JwtSetup KeySet
  pub idempotency : IdempotencyConfig

module _ {R : Type 0} (out : Outside R) where
  module _ {S Bytes Key Jwk KeySet : Type 0} (client : Client S)
      (crypto : Crypto Bytes Key Jwk KeySet) (system : System R Bytes Key) where
    abbrev pub jwt_setup : RedisConfig → Config → KeySet → JwtSetup KeySet
    jwt_setup storage cfg set = record {
      key_set = set;
      algorithm = "ES256";
      storage = storage;
      required_claims = "sub" ∷ [];
      access_token_ttl = cfg.jwt.access_token_ttl;
      refresh_token_ttl = cfg.jwt.refresh_token_ttl;
    }

    abbrev pub with_keys : RedisConfig → Config → Result KeySet × R → Result (JwtSetup KeySet) × R
    with_keys storage cfg (ok set, r) = (ok (jwt_setup storage cfg set), r)
    with_keys storage cfg (err e, r) = (err e, r)

    unfoldable pub setup_jwt_config : RedisConfig → Config → R → Result (JwtSetup KeySet) × R
    setup_jwt_config storage cfg r =
        with_keys storage cfg (load_or_create_key crypto system cfg.jwt.private_key_path r)

    -- `New` after the store is open.
    unfoldable pub new_server : Config → Handles → R → Launch (App KeySet) × R
    unfolding setup_tracer setup_redis_storage setup_idempotency_config setup_jwt_config
    new_server cfg store r = launch_then (setup_tracer out cfg r) λ traced r.
        launch_then (setup_redis_storage out cfg.redis r) λ redis r.
          launch_then (setup_idempotency_config out redis r) λ idempotency r.
            launch_then (or_fatal "Failed to setup JWT config" (setup_jwt_config redis cfg r))
              λ jwt r. (
                launched (record {
                  cfg = cfg;
                  store = store;
                  redis = redis;
                  traced = traced;
                  addr = cfg.server.bind_addr;
                  read_timeout = default_read_timeout;
                  default_per_page = default_per_page;
                  metrics = metrics;
                  post_startup_hooks = server_ready ∷ [];
                  post_shutdown_hooks = tracer_shutdown ∷ mongo_close ∷ [];
                  tls = setup_tls cfg.server;
                  middlewares = setup_middleware cfg traced;
                  healthcheck = setup_healthcheck;
                  pprof = setup_pprof cfg.app;
                  jwt = jwt;
                  idempotency = idempotency;
                }),
                r,
              )

    abbrev pub with_store : Config → Result Handles × S → R → Launch (App KeySet) × (S × R)
    with_store cfg (err e, s) r = (refused e, (s, r))
    with_store cfg (ok store, s) r = let up = new_server cfg store r in (up.0, (s, up.1))

    unfoldable pub new_app : Config → S × R → Launch (App KeySet) × (S × R)
    new_app cfg (s, r) =
        with_store cfg (new_mongo_store client cfg.mongo.uri cfg.mongo.database s) r

-- How `main` goes on: it serves, or the process ends with a log line.
pub data Exit (A : Type 0) : Type 0 where
  serving : A → Exit A
  exits : String → Exit A

module _ {S R Bytes Key Jwk KeySet : Type 0} (out : Outside R) (client : Client S)
    (crypto : Crypto Bytes Key Jwk KeySet) (system : System R Bytes Key)
    (open_store : Handles → MongoStore S) (pf : Platform) (env : Server S) where
  -- What `Start` does before it serves, by the store of the application.
  abbrev pub prepare : App KeySet → S → Flow (Unit {0}) × S
  prepare app = run (serve (open_store app.store) pf env) (start pf app.cfg.app)

  abbrev pub prepared : App KeySet → Flow (Unit {0}) × S → R → Exit (App KeySet) × (S × R)
  prepared app (ran _, s) r = (serving app, (s, r))
  prepared app (stopped o, s) r = (exits "Application error", (s, r))

  abbrev pub started : Launch (App KeySet) × (S × R) → Exit (App KeySet) × (S × R)
  started (launched app, (s, r)) = prepared app (prepare app s) r
  started (refused e, w) = (exits "Failed to create app", w)
  started (fatal e, w) = (exits e, w)

  abbrev pub configured : Result Config → S × R → Exit (App KeySet) × (S × R)
  configured (err e) w = (exits "Failed to load config", w)
  configured (ok cfg) w = started (new_app out client crypto system cfg w)

  -- The command line's arguments are `args`.
  unfoldable pub main :
      (List Flag → List String → Config → Result Config)
      → (Config → Result Config)
      → List String
      → S × R
      → Exit (App KeySet) × (S × R)
  main parse unmarshal args w = configured (load parse unmarshal args) w
