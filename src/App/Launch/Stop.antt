-- ===== src/App/Launch/Stop.antt =====
-- The end of the process: what `Start` does once it serves (app/app.go), and `main` after it
-- (cmd/server/main.go). The goroutine that listens and the shutdown are zerohttp's; what they and the
-- operating system do are events.
pub mod Ends
use zerohttp_example.Base.{String, Bool, if◌then◌else◌, List, [], ◌∷◌, Result, ok, err}
use zerohttp_example.Base.Int.{ℤ}
use zerohttp_example.App.Launch.{App, Exit, serving, exits}

-- The signals that `signal.Notify` asks for.
pub data Signal : Type 0 where
  sighup sigint sigterm sigquit : Signal

-- `server.Start` has returned to its goroutine, a signal has come, `server.Shutdown` has returned.
pub data Event : Type 0 where
  listener_returned : Result (Unit {0}) → Event
  notified : Signal → Event
  shutdown_returned : Result (Unit {0}) → Event

-- `Start` waits for a signal, or has called `Shutdown` with a timeout; the process has returned from
-- `main`, or has died with a log line.
pub data Phase : Type 0 where
  waiting : Phase
  stopping : ℤ → Phase
  returned : Phase
  died : String → Phase

-- `closed` is `errors.Is(err, http.ErrServerClosed)`.
module _ (timeout : ℤ) (closed : String → Bool) where
  -- The goroutine that listens.
  unfoldable pub listen : Result (Unit {0}) → Phase → Phase
  listen (ok _) p = p
  listen (err e) p = if closed e then p else died "Server failed to start"

  unfoldable pub on_event : Phase → Event → Phase
  unfolding listen
  on_event waiting (listener_returned r) = listen r waiting
  on_event waiting (notified s) = stopping timeout
  on_event waiting (shutdown_returned r) = waiting  -- `Shutdown` has not been called
  on_event (stopping t) (listener_returned r) = listen r (stopping t)
  on_event (stopping t) (notified s) = stopping t
  on_event (stopping t) (shutdown_returned (ok _)) = returned
  on_event (stopping t) (shutdown_returned (err e)) = died "Server forced to shutdown"
  on_event returned e = returned
  on_event (died l) e = died l

  unfoldable pub follow : Phase → List Event → Phase
  unfolding on_event
  follow p [] = p
  follow p (e ∷ es) = follow (on_event p e) es

-- What comes of the process after `main` has got as far as `x`.
unfoldable pub process :
    {KeySet : Type 0} → (String → Bool) → Exit (App KeySet) → List Event → Phase
unfolding follow
process closed (exits l) es = died l
process closed (serving app) es = follow app.cfg.server.shutdown_timeout closed waiting es
