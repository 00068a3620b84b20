-- ===== src/App/Launch/Hooks.antt =====
-- What the hooks of the server's life cycle and its health checks do (app/app.go, app/server.go).
-- zerohttp decides when they run.
pub mod Wired
use zerohttp_example.Base.{
  ℕ, String, ◌≡◌, refl, sym, Bool, true, false, if◌then◌else◌, Option, none, some, List, [], ◌∷◌,
  Result, ok, err,
}
use zerohttp_example.Mongo.Connect.{Client, ping, close}
use zerohttp_example.App.Setup.{
  Outside, Hook, server_ready, tracer_shutdown, mongo_close, Healthcheck, setup_healthcheck,
}
use zerohttp_example.App.Launch.{App}

abbrev pub then_mongo :
    {S R : Type 0} → Client S → Healthcheck → Result (Unit {0}) × R → S → (ℕ × String) × (S × R)
then_mongo client check (err e, r) s = (check.readiness_handler (err e) (ok tt), (s, r))
then_mongo client check (ok _, r) s =
    let pong = ping client s in (check.readiness_handler (ok tt) pong.0, (pong.1, r))

module _ {S R : Type 0} (out : Outside R) (client : Client S) {KeySet : Type 0} where
  unfoldable pub run_hook : App KeySet → Hook → S × R → Result (Unit {0}) × (S × R)
  run_hook app server_ready w = (ok tt, w)
  run_hook app tracer_shutdown (s, r) =
      (ok tt, (s, if app.traced then out.shutdown_tracer r else r))
  run_hook app mongo_close (s, r) = let closed = close client s in (closed.0, (closed.1, r))

  unfoldable pub check_readiness : App KeySet → S × R → (ℕ × String) × (S × R)
  check_readiness app (s, r) = then_mongo client app.healthcheck (out.redis_ping app.redis.addr r) s

  -- The hooks in their order. After an error the next one runs if `goes_on`.
  unfoldable pub run_hooks : Bool → App KeySet → List Hook → S × R → S × R
  unfolding run_hook
  run_hooks goes_on app [] w = w
  run_hooks goes_on app (h ∷ hs) w =
      let done = run_hook app h w in
      let rest = run_hooks goes_on app hs done.1 in
      elim done.0 [ ok _ ↦ rest | err _ ↦ if goes_on then rest else done.1 ]
