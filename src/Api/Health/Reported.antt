-- ===== src/Api/Health/Reported.antt =====
-- What the handlers report of a daemon between two firings of its timer.
use go_goodwe.Base.{ℕ, Bool, true, none, some, ◌≡◌, ◌↔◌, refl, arith}
use go_goodwe.Base.Text.{Text}
use go_goodwe.Daemon.World.{
  Daemon, InverterConnState, disabled, disconnected, connecting, connected, failed, is_connected,
}
use go_goodwe.Daemon.Run.States.{IsSettled, settled}
use go_goodwe.Api.Response.{json}
use go_goodwe.Api.Health.{InverterState, daemon_health, handle_health, refusal}

-- Of a settled daemon the health answer reports a connected inverter exactly if the daemon is in the
-- Connected state, and exactly then a live read of the inverter's identity is not refused.
pub handle_health_reported :
    (rfc3339 : ℕ → Text) (d : Daemon) (has_inverter : Bool) (now : ℕ)
    → IsSettled d
    → (status : Text) × (v : InverterState) × (handle_health rfc3339 (some d) has_inverter now
        ≡ json (record { status = status; timestamp = rfc3339 now; inverter = some v }))
      × (v.is_connected ≡ is_connected d.conn_state)
      × ((refusal d ≡ none) ↔ (v.is_connected ≡ true))
unfolding handle_health refusal
handle_health_reported rfc3339 d has_inverter now (settled calm checked) =
    let (connection, refused) = by_state d.conn_state refl in
    ((daemon_health d).0, (daemon_health d).1, refl, connection, refused)
  where
    by_state :
        (state : InverterConnState)
        → d.conn_state ≡ state
        → ((daemon_health d).1.is_connected ≡ is_connected d.conn_state)
          × ((refusal d ≡ none) ↔ ((daemon_health d).1.is_connected ≡ true))
    by_state disabled e = (ground (arith, e), ground (arith, e))
    by_state disconnected e = (ground (arith, e), ground (arith, e))
    by_state connecting e = (ground (arith, e), ground (arith, e))
    by_state connected e =
        let clear = checked e in (ground (arith, e, clear), ground (arith, e, clear))
    by_state failed e = (ground (arith, e), ground (arith, e))
