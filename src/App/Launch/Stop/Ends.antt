-- ===== src/App/Launch/Stop/Ends.antt =====
-- How the process ends (app/app.go, cmd/server/main.go).
use zerohttp_example.Base.{
  String, ◌≡◌, refl, ◌⊎◌, inl, inr, Bool, true, false, Bool-cases, List, [], ◌∷◌, All, ok, err,
}
use zerohttp_example.Base.Int.{ℤ}
use zerohttp_example.App.Launch.{App, Exit, serving, exits}
use zerohttp_example.App.Launch.Stop.{
  Signal, Event, listener_returned, notified, shutdown_returned, Phase, waiting, stopping, returned,
  died, listen, on_event, follow, process,
}

-- An event with `P`, after which `R` holds of the rest, comes after events with `Q` only.
abbrev pub Until : (Event → Type 0) → (Event → Type 0) → (List Event → Type 0) → List Event → Type 0
Until Q P R [] = ⊥
Until Q P R (e ∷ es) = (P e × R es) ⊎ (Q e × Until Q P R es)

abbrev pub Anything : List Event → Type 0
Anything es = Unit {0}

abbrev pub IsSignal : Event → Type 0
IsSignal (notified s) = Unit {0}
IsSignal _ = ⊥

-- The listener has failed.
abbrev pub IsFailure : (String → Bool) → Event → Type 0
IsFailure closed (listener_returned (err e)) = closed e ≡ false
IsFailure closed _ = ⊥

abbrev pub IsShutdown : Event → Type 0
IsShutdown (shutdown_returned (ok _)) = Unit {0}
IsShutdown _ = ⊥

abbrev pub IsForced : Event → Type 0
IsForced (shutdown_returned (err e)) = Unit {0}
IsForced _ = ⊥

-- Neither a signal nor a failure.
abbrev pub IsCalm : (String → Bool) → Event → Type 0
IsCalm closed (listener_returned (err e)) = closed e ≡ true
IsCalm closed (notified s) = ⊥
IsCalm closed _ = Unit {0}

-- Neither a failure nor the end of the shutdown.
abbrev pub IsPatient : (String → Bool) → Event → Type 0
IsPatient closed (listener_returned (err e)) = closed e ≡ true
IsPatient closed (shutdown_returned r) = ⊥
IsPatient closed _ = Unit {0}

module _ (timeout : ℤ) (closed : String → Bool) where
  -- How events lead from the shutdown to the phase.
  abbrev pub Shuts : Phase → List Event → Type 0
  Shuts waiting es = ⊥
  Shuts (stopping t) es = (t ≡ timeout) × All (IsPatient closed) es
  Shuts returned es = Until (IsPatient closed) IsShutdown Anything es
  Shuts (died l) es =
      ((l ≡ "Server forced to shutdown") × Until (IsPatient closed) IsForced Anything es)
      ⊎ ((l ≡ "Server failed to start") × Until (IsPatient closed) (IsFailure closed) Anything es)

  -- How events lead from the start to the phase.
  abbrev pub Ends : Phase → List Event → Type 0
  Ends waiting es = All (IsCalm closed) es
  Ends (stopping t) es = Until (IsCalm closed) IsSignal (Shuts (stopping t)) es
  Ends returned es = Until (IsCalm closed) IsSignal (Shuts returned) es
  Ends (died l) es =
      Until (IsCalm closed) IsSignal (Shuts (died l)) es
      ⊎ ((l ≡ "Server failed to start") × Until (IsCalm closed) (IsFailure closed) Anything es)

  Shuts-cons :
      (p : Phase) (e : Event) (es : List Event) → IsPatient closed e → Shuts p es → Shuts p (e ∷ es)
  Shuts-cons waiting e es c h = h
  Shuts-cons (stopping t) e es c h = (h.0, (c, h.1))
  Shuts-cons returned e es c h = inr (c, h)
  Shuts-cons (died l) e es c (inl h) = inl (h.0, inr (c, h.1))
  Shuts-cons (died l) e es c (inr h) = inr (h.0, inr (c, h.1))

  Ends-cons :
      (p : Phase) (e : Event) (es : List Event) → IsCalm closed e → Ends p es → Ends p (e ∷ es)
  Ends-cons waiting e es c h = (c, h)
  Ends-cons (stopping t) e es c h = inr (c, h)
  Ends-cons returned e es c h = inr (c, h)
  Ends-cons (died l) e es c (inl h) = inl (inr (c, h))
  Ends-cons (died l) e es c (inr h) = inr (h.0, inr (c, h.1))

  Shuts-signal : (p : Phase) (s : Signal) (es : List Event) → Shuts p es → Ends p (notified s ∷ es)
  Shuts-signal waiting s es h = absurd h
  Shuts-signal (stopping t) s es h = inl (tt, h)
  Shuts-signal returned s es h = inl (tt, h)
  Shuts-signal (died l) s es h = inl (inl (tt, h))

  follow-returned : (es : List Event) → follow timeout closed returned es ≡ returned
  unfolding follow on_event
  follow-returned [] = refl
  follow-returned (e ∷ es) = follow-returned es

  follow-died : (l : String) (es : List Event) → follow timeout closed (died l) es ≡ died l
  unfolding follow on_event
  follow-died l [] = refl
  follow-died l (e ∷ es) = follow-died l es

  follow-Shuts : (es : List Event) → Shuts (follow timeout closed (stopping timeout) es) es
  unfolding follow on_event listen
  follow-Shuts [] = (refl, tt)
  follow-Shuts (listener_returned (ok u) ∷ es) = Shuts-cons _ _ es tt (follow-Shuts es)
  follow-Shuts (listener_returned (err e) ∷ es) = elim (Bool-cases (closed e)) [
    | inl c ↦ rw c (Shuts-cons _ (listener_returned (err e)) es c (follow-Shuts es))
    | inr c ↦ rw (c, follow-died "Server failed to start" es) (inr (refl, inl (c, tt)))
  ]
  follow-Shuts (notified s ∷ es) = Shuts-cons _ (notified s) es tt (follow-Shuts es)
  follow-Shuts (shutdown_returned (ok u) ∷ es) = rw (follow-returned es) (inl (tt, tt))
  follow-Shuts (shutdown_returned (err e) ∷ es) =
      rw (follow-died "Server forced to shutdown" es) (inl (refl, inl (tt, tt)))

  follow-Ends : (es : List Event) → Ends (follow timeout closed waiting es) es
  unfolding follow on_event listen
  follow-Ends [] = tt
  follow-Ends (listener_returned (ok u) ∷ es) =
      Ends-cons _ (listener_returned (ok u)) es tt (follow-Ends es)
  follow-Ends (listener_returned (err e) ∷ es) = elim (Bool-cases (closed e)) [
    | inl c ↦ rw c (Ends-cons _ (listener_returned (err e)) es c (follow-Ends es))
    | inr c ↦ rw (c, follow-died "Server failed to start" es) (inr (refl, inl (c, tt)))
  ]
  follow-Ends (notified s ∷ es) = Shuts-signal _ s es (follow-Shuts es)
  follow-Ends (shutdown_returned r ∷ es) = Ends-cons _ (shutdown_returned r) es tt (follow-Ends es)

-- How the process ends, if `main` has got as far as `x`.
abbrev pub EndsFrom :
    {KeySet : Type 0} → (String → Bool) → Exit (App KeySet) → Phase → List Event → Type 0
EndsFrom closed (exits l) p es = p ≡ died l
EndsFrom closed (serving app) p es = Ends app.cfg.server.shutdown_timeout closed p es

-- The process ends only for a reason, and in order. A process that has come to serve, whatever events
-- come: it returns from `main` just after a signal and then a shutdown without error; it dies with
-- "Server forced to shutdown" after a signal and then a shutdown with an error, and with "Server
-- failed to start" when the listener returns an error but that of a closed server, before the shutdown
-- is over; it is stopping, with the configured timeout, after a signal, while neither has happened;
-- and it waits while there has been neither a signal nor such an error. A process that has ended at
-- its start has died with the line of that.
pub process-Ends :
    {KeySet : Type 0} (closed : String → Bool) (x : Exit (App KeySet)) (es : List Event)
    → EndsFrom closed x (process closed x es) es
unfolding process
process-Ends closed (exits l) es = refl
process-Ends closed (serving app) es = follow-Ends app.cfg.server.shutdown_timeout closed es
