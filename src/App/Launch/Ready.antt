-- ===== src/App/Launch/Ready.antt =====
-- What has happened when the process serves (cmd/server/main.go, app/app.go, app/server.go).
use zerohttp_example.Base.{String, ◌⊎◌, inl, inr, ◌≡◌, refl, ap, subst, sym, List, Result, ok, err}
use zerohttp_example.Config.{Config}
use zerohttp_example.Config.Flags.{Flag}
use zerohttp_example.Config.Load.{load}
use zerohttp_example.Models.Platform.{Platform}
use zerohttp_example.Prog.{Flow, ran, stopped}
use zerohttp_example.Prog.Run.{Server}
use zerohttp_example.Mongo.{MongoStore}
use zerohttp_example.Mongo.Connect.{Client, Handles, new_mongo_store}
use zerohttp_example.Mongo.Unique.{MakesIndexes, IsUnique}
use zerohttp_example.App.Keys.{Crypto, System, load_or_create_key}
use zerohttp_example.App.Keys.Reload.{IsInvertible, KeepsFiles, load_or_create_key-again}
use zerohttp_example.App.Launch.Steps.{IsErr, Launched}
use zerohttp_example.App.Setup.{Launch, launched, refused, fatal, Outside}
use zerohttp_example.App.Launch.{
  App, Exit, serving, exits, prepare, prepared, started, configured, main,
}
use zerohttp_example.App.Launch.New.{Exports, HasKeys, Fails, Broken, new_app-Launched}

module _ {S R Bytes Key Jwk KeySet : Type 0} (out : Outside R) (client : Client S)
    (crypto : Crypto Bytes Key Jwk KeySet) (system : System R Bytes Key)
    (open_store : Handles → MongoStore S) (pf : Platform) (env : Server S) where
  abbrev IsStopped : Flow (Unit {0}) → Type 0
  IsStopped (ran _) = ⊥
  IsStopped (stopped o) = Unit {0}

  -- The process has ended with the line `e` since the step of that line has failed; `s` is the state
  -- of the database server before the start.
  abbrev pub Stops : Result Config → S → String → Type 0
  Stops loaded s e =
      ((e ≡ "Failed to load config") × IsErr loaded)
      ⊎ ((cfg : Config) × (loaded ≡ ok cfg)
          × (Broken out client crypto system cfg e
              ⊎ ((e ≡ "Failed to create app")
                  × IsErr (new_mongo_store client cfg.mongo.uri cfg.mongo.database s).0)
              ⊎ ((e ≡ "Application error")
                  × (app : App KeySet) × (t : S) × (app.cfg ≡ cfg)
                  × IsStopped (prepare out client crypto system open_store pf env app t).0)))

  -- If the process serves, then with the configuration that has been loaded; the tracer, Redis and the
  -- idempotency store have answered,
  -- the key set is the one that the next start gets, and the store that has been prepared has its
  -- unique indexes.
  abbrev pub Serves : MakesIndexes client → Result Config → S → Exit (App KeySet) × (S × R) → Type 0
  Serves m loaded s (serving app, (t, r)) =
      (loaded ≡ ok app.cfg)
      × Exports out app.cfg
      × ((q : R) × ((out.redis_ping app.cfg.redis.addr q).0 ≡ ok tt))
      × ((q : R) × ((out.new_storage_adapter app.cfg.redis q).0 ≡ ok tt))
      × (load_or_create_key crypto system app.cfg.jwt.private_key_path r ≡ (ok app.jwt.key_set, r))
      × ((s : S) × IsUnique client m app.cfg.mongo.database app.store s
          × (prepare out client crypto system open_store pf env app s ≡ (ran tt, t)))
  Serves m loaded s (exits e, v) = Stops loaded s e

  module _ (m : MakesIndexes client) (inv : IsInvertible crypto)
      (files : (path : String) → KeepsFiles system path) (s0 : S) where
    prepared-Serves :
        (cfg : Config) (app : App KeySet) (s : S) (r : R) (f : Flow (Unit {0}) × S)
        → HasKeys out client crypto system cfg app r
        → IsUnique client m cfg.mongo.database app.store s
        → prepare out client crypto system open_store pf env app s ≡ f
        → Serves m (ok cfg) s0 (prepared out client crypto system open_store pf env app f r)
    prepared-Serves cfg app s r (ran _, t) (is, exports, pinged, made, (q, keys)) u e = (
      ap ok (sym is),
      subst (Exports out) (sym is) exports,
      subst (λ c. (q : R) × ((out.redis_ping c.redis.addr q).0 ≡ ok tt)) (sym is) pinged,
      subst (λ c. (q : R) × ((out.new_storage_adapter c.redis q).0 ≡ ok tt)) (sym is) made,
      subst
          (λ c. load_or_create_key crypto system c.jwt.private_key_path r ≡ (ok app.jwt.key_set, r))
          (sym is)
          (load_or_create_key-again crypto system cfg.jwt.private_key_path inv
            (files cfg.jwt.private_key_path) app.jwt.key_set r q keys),
      (s, subst (λ c. IsUnique client m c.mongo.database app.store s) (sym is) u, e),
    )
    prepared-Serves cfg app s r (stopped o, t) h u e =
        inr (cfg, refl, inr (inr (refl, app, s, h.0, subst (λ x. IsStopped x.0) (sym e) tt)))

    started-Serves :
        (cfg : Config) (opened : Result Handles) (x : Launch (App KeySet) × (S × R))
        → opened ≡ (new_mongo_store client cfg.mongo.uri cfg.mongo.database s0).0
        → Launched
            (Fails out client crypto system cfg opened)
            (λ app v.
              HasKeys out client crypto system cfg app v.1
              × IsUnique client m cfg.mongo.database app.store v.0)
            x
        → Serves m (ok cfg) s0 (started out client crypto system open_store pf env x)
    started-Serves cfg opened (launched app, (s, r)) o h =
        prepared-Serves cfg app s r _ h.0 h.1 refl
    started-Serves cfg opened (refused e, w) o h =
        inr (cfg, refl, inr (inl (refl, subst IsErr o h)))
    started-Serves cfg opened (fatal e, w) o h = inr (cfg, refl, inl h)

    configured-Serves :
        (x : Result Config) (r : R)
        → Serves m x s0 (configured out client crypto system open_store pf env x (s0, r))
    configured-Serves (err e) r = inl (refl, tt)
    configured-Serves (ok cfg) r =
        started-Serves cfg _ _ refl (new_app-Launched out client crypto system cfg m s0 r)

    -- Nothing is served before all is ready, and the process does not end without a reason. If `main`
    -- comes to serve, the configuration has been loaded and is the one in use, the exporter
    -- of the tracer has been made if it is enabled, Redis has answered a ping, the idempotency store has
    -- been made, the store was opened on the configured database with unique indexes on the ids and the
    -- emails, and was prepared without an error; and the next start with this key file gets the same
    -- key set. If the process ends, its last line is that of a step that has failed. Files, keys and
    -- indexes behave as documented.
    pub main-Serves :
        (parse : List Flag → List String → Config → Result Config)
        (unmarshal : Config → Result Config) (args : List String) (r : R)
        → Serves m
            (load parse unmarshal args)
            s0
            (main out client crypto system open_store pf env parse unmarshal args (s0, r))
    unfolding main
    main-Serves parse unmarshal args r = configured-Serves (load parse unmarshal args) r
