-- ===== src/Server/Shutdown.antt =====
-- The end of cmd/api/main.go: the server listens in a goroutine, and `main` waits for a signal.
use braza_sso.Prelude.{
  ℕ, ◌≡◌, ◌↔◌, Bool, true, Option, none, some, List, [], ◌∷◌, arith, if◌then◌else◌,
}

-- What happens: `ListenAndServe` returns, with `ErrServerClosed` or with another error, or SIGINT
-- or SIGTERM is delivered.
pub data Event : Type 0 where
  listener_closed listener_failed signal : Event

-- How the process ends: by one of two calls of `log.Fatal`, or in order.
pub data Exit : Type 0 where
  server_error forced_shutdown stopped : Exit

-- The end that a history leads to, or none while the server still runs. `shutdown` says whether
-- the requests in flight are served within a number of seconds.
unfoldable pub exit_of : (ℕ → Bool) → List Event → Option Exit
exit_of shutdown [] = none
exit_of shutdown (listener_closed ∷ events) = exit_of shutdown events
exit_of shutdown (listener_failed ∷ events) = some server_error
exit_of shutdown (signal ∷ events) = some (if shutdown 30 then stopped else forced_shutdown)

-- The histories in which a signal comes before any failure of the listener.
pub data IsSignalled : List Event → Type 0 where
  first : (events : List Event) → IsSignalled (signal ∷ events)
  later : {events : List Event} → IsSignalled events → IsSignalled (listener_closed ∷ events)

module _ (shutdown : ℕ → Bool) where
  signalled-stopped :
      {events : List Event}
      → IsSignalled events
      → shutdown 30 ≡ true
      → exit_of shutdown events ≡ some stopped
  unfolding exit_of
  signalled-stopped (first events) h = ground arith
  signalled-stopped (later s) h = signalled-stopped s h

  stopped-IsSignalled :
      (events : List Event)
      → exit_of shutdown events ≡ some stopped
      → IsSignalled events × (shutdown 30 ≡ true)
  unfolding exit_of
  stopped-IsSignalled [] h = absurd (ground arith)
  stopped-IsSignalled (listener_closed ∷ events) h =
      let (s, done) = stopped-IsSignalled events h in (later s, done)
  stopped-IsSignalled (listener_failed ∷ events) h = absurd (ground arith)
  stopped-IsSignalled (signal ∷ events) h = (first events, ground arith)

  -- The process stops in order exactly if a signal comes before any failure of the listener, and
  -- the requests in flight then end within thirty seconds.
  pub exit_of_iff :
      (events : List Event)
      → (exit_of shutdown events ≡ some stopped) ↔ (IsSignalled events × (shutdown 30 ≡ true))
  exit_of_iff events = (stopped-IsSignalled events, λ (s, done). signalled-stopped s done)
