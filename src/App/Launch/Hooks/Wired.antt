-- ===== src/App/Launch/Hooks/Wired.antt =====
-- What the hooks and the health checks of a server come to that `New` has set up (app/app.go,
-- app/server.go).
use zerohttp_example.Base.{
  ℕ, String, ◌⊎◌, inl, inr, subst, ◌≡◌, refl, sym, Bool, true, false, if◌then◌else◌, Option, [],
  ◌∷◌, Result, ok, err,
}
use zerohttp_example.Config.{Config}
use zerohttp_example.Mongo.Connect.{Client, Handles, ping, close, new_mongo_store}
use zerohttp_example.App.Keys.{Crypto, System}
use zerohttp_example.App.Setup.{
  Launch, launched, refused, fatal, Outside, tracer_shutdown, mongo_close, setup_healthcheck,
  check_dependencies, launch_then, or_fatal, setup_tracer, setup_redis_storage,
  setup_idempotency_config,
}
use zerohttp_example.App.Launch.Steps.{IsErr, Launched, launch_then-Launched, Launched-beside}
use zerohttp_example.App.Launch.{App, setup_jwt_config, new_server, with_store, new_app}
use zerohttp_example.App.Launch.Hooks.{run_hook, run_hooks, check_readiness, then_mongo}

-- Nothing is asked of a step that fails.
abbrev Whatever : Option String → Type 0
Whatever o = Unit {0}

any-Launched : {A W : Type 0} (x : Launch A × W) → Launched Whatever (λ _ _. Unit {0}) x
any-Launched (launched a, w) = tt
any-Launched (refused e, w) = tt
any-Launched (fatal e, w) = tt

Launched-weaken :
    {A W : Type 0} (P Q : A → W → Type 0) (x : Launch A × W)
    → ((a : A) (w : W) → P a w → Q a w)
    → Launched Whatever P x
    → Launched Whatever Q x
Launched-weaken P Q (launched a, w) f h = f a w h
Launched-weaken P Q (refused e, w) f h = tt
Launched-weaken P Q (fatal e, w) f h = tt

if-traced :
    {W : Type 0} (b : Bool) (what : String) (x : Result (Unit {0}) × W) (w : W)
    → Launched Whatever
        (λ t _. t ≡ b)
        (if b
          then launch_then (or_fatal what x) (λ _ r. (launched true, r))
          else (launched false, w))
if-traced true what (ok _, v) w = refl
if-traced true what (err e, v) w = tt
if-traced false what x w = refl

-- The status is 200 if both have answered, and 503 if one has failed.
abbrev pub Says : ℕ → Result (Unit {0}) → Result (Unit {0}) → Type 0
Says status redis mongo =
    ((status ≡ 200) × (redis ≡ ok tt) × (mongo ≡ ok tt))
    ⊎ ((status ≡ 503) × (IsErr redis ⊎ IsErr mongo))

module _ {S R Bytes Key Jwk KeySet : Type 0} (out : Outside R) (client : Client S)
    (crypto : Crypto Bytes Key Jwk KeySet) (system : System R Bytes Key) (cfg : Config) where
  -- The hooks for the shutdown, the health checks, and whether there is a tracer.
  abbrev pub IsWired : App KeySet → Type 0
  IsWired app =
      (app.post_shutdown_hooks ≡ (tracer_shutdown ∷ mongo_close ∷ []))
      × (app.healthcheck ≡ setup_healthcheck)
      × (app.traced ≡ cfg.tracer.enabled)

  new_server-IsWired :
      (store : Handles) (r : R)
      → Launched Whatever (λ app _. IsWired app) (new_server out client crypto system cfg store r)
  unfolding new_server setup_tracer
  new_server-IsWired store r =
      launch_then-Launched Whatever (λ t _. t ≡ cfg.tracer.enabled) _ (setup_tracer out cfg r) _
        (if-traced cfg.tracer.enabled "Failed to create tracer"
          (out.new_tracer cfg.app.name cfg.tracer.endpoint cfg.tracer.insecure r) r)
        λ traced r same.
          launch_then-Launched Whatever _ _ (setup_redis_storage out cfg.redis r) _ (any-Launched _)
            λ redis r _.
              launch_then-Launched Whatever _ _ (setup_idempotency_config out redis r) _
                (any-Launched _)
                λ idempotency r _.
                  launch_then-Launched Whatever _ _
                    (or_fatal "Failed to setup JWT config"
                      (setup_jwt_config out client crypto system redis cfg r))
                    _ (any-Launched _) λ j v _. (refl, refl, same)

  -- The shutdown hooks, run in their order on any state, close the connection to MongoDB and stop the
  -- tracer if there is one, whether or not an error ends the run.
  abbrev pub Closes : App KeySet → Type 0
  Closes app =
      (goes_on : Bool) (s : S) (r : R)
      → run_hooks out client goes_on app app.post_shutdown_hooks (s, r)
        ≡ ((close client s).1, if cfg.tracer.enabled then out.shutdown_tracer r else r)

  -- The health check says 200 just when both Redis and MongoDB answer a ping, and 503 otherwise.
  abbrev pub Reports : App KeySet → Type 0
  Reports app =
      (s : S) (r : R)
      → Says (check_readiness out client app (s, r)).0.0 (out.redis_ping app.redis.addr r).0
          (ping client s).0

  last_hook :
      (goes_on : Bool) (x : Result (Unit {0})) (w : S × R)
      → elim x [ ok _ ↦ w | err _ ↦ if goes_on then w else w ] ≡ w
  last_hook goes_on (ok _) w = refl
  last_hook true (err e) w = refl
  last_hook false (err e) w = refl

  IsWired-Closes : (app : App KeySet) → IsWired app → Closes app
  unfolding run_hooks run_hook
  IsWired-Closes app (hooks, check, traced) goes_on s r =
      let ends : S × R = ((close client s).1, if app.traced then out.shutdown_tracer r else r) in
      subst
        (λ hs.
          run_hooks out client goes_on app hs (s, r)
          ≡ ((close client s).1, if cfg.tracer.enabled then out.shutdown_tracer r else r))
        (sym hooks)
        (subst
          (λ b.
            run_hooks out client goes_on app (tracer_shutdown ∷ mongo_close ∷ []) (s, r)
            ≡ ((close client s).1, if b then out.shutdown_tracer r else r))
          traced (last_hook goes_on (close client s).0 ends))

  check_dependencies-Reports : (p q : Result (Unit {0})) → Says (check_dependencies p q).0 p q
  check_dependencies-Reports (err e) q = inr (refl, inl tt)
  check_dependencies-Reports (ok _) (ok _) = inl (refl, refl, refl)
  check_dependencies-Reports (ok _) (err e) = inr (refl, inr tt)

  then_mongo-Reports :
      (p : Result (Unit {0}) × R) (s : S)
      → Says (then_mongo client setup_healthcheck p s).0.0 p.0 (ping client s).0
  then_mongo-Reports (err e, r) s = inr (refl, inl tt)
  then_mongo-Reports (ok _, r) s = check_dependencies-Reports (ok tt) (ping client s).0

  IsWired-Reports : (app : App KeySet) → IsWired app → Reports app
  unfolding check_readiness
  IsWired-Reports app (hooks, check, traced) s r =
      subst
        (λ c.
          Says (then_mongo client c (out.redis_ping app.redis.addr r) s).0.0
            (out.redis_ping app.redis.addr r).0 (ping client s).0)
        (sym check) (then_mongo-Reports (out.redis_ping app.redis.addr r) s)

  with_store-Wired :
      (r : R) (x : Result Handles × S)
      → Launched Whatever (λ app _. IsWired app) (with_store out client crypto system cfg x r)
  with_store-Wired r (err e, s) = tt
  with_store-Wired r (ok store, s) =
      Launched-beside Whatever _ _ (new_server out client crypto system cfg store r) s
        (λ app q h. h) (new_server-IsWired store r)

  -- If `New` succeeds, its shutdown hooks, run in their order on any state, close the connection to
  -- MongoDB and stop the tracer if it is enabled, whether or not an error ends the run; and its health
  -- check says 200 just when Redis and MongoDB each answer a ping, and 503 if one of them does not.
  new_app-Wired :
      (w : S × R)
      → Launched Whatever
          (λ app _. Closes app × Reports app)
          (new_app out client crypto system cfg w)
  unfolding new_app
  new_app-Wired (s, r) =
      Launched-weaken (λ app _. IsWired app) (λ app _. Closes app × Reports app) _
        (λ app w h. (IsWired-Closes app h, IsWired-Reports app h))
        (with_store-Wired r (new_mongo_store client cfg.mongo.uri cfg.mongo.database s))
