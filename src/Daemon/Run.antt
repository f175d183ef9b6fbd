-- ===== src/Daemon/Run.antt =====
-- Run of pkg/daemon/daemon.go: what one firing of the timer does, and the loop.
pub mod Backoff
pub mod States
pub mod Ticks
use go_goodwe.Base.{
  ℕ, zero, suc, ◌*◌, ltb, ◌==◌, Option, none, some, Bool, true, false, not, ◌||◌, List, [], ◌∷◌,
  if◌then◌else◌,
}
use go_goodwe.Base.Program.{Program, ◌>>=◌, ◌>>◌, pure}
use go_goodwe.Et.Value.{Float64}
use go_goodwe.Daemon.World.{
  InverterConnState, disabled, disconnected, connecting, connected, failed, is_connected, World,
  Config, Daemon, System, get_daemon, set_state,
}
use go_goodwe.Daemon.Connect.{do_connect, close_connection}
use go_goodwe.Daemon.Poll.{do_poll}
use go_goodwe.Daemon.Aggregate.{do_startup_aggregation}

abbrev pub backoff_initial : ℕ
backoff_initial = 5_000_000_000

abbrev pub backoff_max : ℕ
backoff_max = 300_000_000_000

-- The delay before the next firing, with the backoff to use then; `none` ends the polling.
unfoldable pub schedule : ℕ → InverterConnState → ℕ → Option (ℕ × ℕ)
schedule poll_interval connected backoff = some (poll_interval, backoff_initial)
schedule poll_interval disconnected backoff =
    some (backoff, if ltb backoff_max (backoff * 2) then backoff_max else backoff * 2)
schedule poll_interval failed backoff = none
schedule poll_interval disabled backoff = some (poll_interval, backoff)
schedule poll_interval connecting backoff = some (poll_interval, backoff)

-- New
unfoldable pub new_daemon : Config → Daemon
new_daemon config = record {
  conn_state = if config.has_inverter then disconnected else disabled;
  conn_err = none;
  verification_err = none;
  inverter_identity = none;
}

module _ {fl : Float64} (w : World fl) (config : Config) where
  -- The action that the state calls for.
  unfoldable pub act : Program (System w) (Unit {0})
  unfolding do_connect do_poll
  act = do
    d ← get_daemon w
    elim d.conn_state [
      | disconnected ↦ do
        do_connect w config
        e ← get_daemon w
        if is_connected e.conn_state then do_poll w config else pure tt
      | connected ↦ do_poll w config
      | disabled ↦ pure tt
      | connecting ↦ pure tt
      | failed ↦ pure tt
    ]

  unfoldable pub tick : ℕ → Program (System w) (Option (ℕ × ℕ))
  unfolding act schedule
  tick backoff = do act; d ← get_daemon w; pure (schedule config.poll_interval d.conn_state backoff)

  -- The timer fires `n` times before the context is cancelled; the delays that it is reset to.
  unfoldable pub ticks : ℕ → ℕ → Program (System w) (List ℕ)
  unfolding tick close_connection
  ticks zero backoff = do close_connection w config; pure []
  ticks (suc n) backoff = do
    next ← tick backoff
    elim next [
      | none ↦ pure []
      | some (delay, following) ↦ do delays ← ticks n following; pure (delay ∷ delays)
    ]

  unfoldable pub run : ℕ → Program (System w) (List ℕ)
  unfolding ticks do_startup_aggregation
  run n =
      if not config.has_inverter
      then (do set_state w disabled none; pure [])
      else (if config.poll_interval == 0 then (do set_state w disconnected none; pure []) else (do
        do_startup_aggregation w config
        set_state w disconnected none
        ticks n backoff_initial))
