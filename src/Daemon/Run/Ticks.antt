-- ===== src/Daemon/Run/Ticks.antt =====
-- What a run of the loop does after a failed poll and after a serial mismatch.
use go_goodwe.Base.{ℕ, suc, [], some, true, false, ◌≡◌, ◌≢◌, refl, arith}
use go_goodwe.Base.Text.{Text, equal_text}
use go_goodwe.Base.Result.{Result, ok, err, panic}
use go_goodwe.Et.Value.{Float64}
use go_goodwe.Daemon.World.{
  disconnected, connected, failed, Identity, World, Config, Daemon, set_state,
}
use go_goodwe.Daemon.Connect.{mismatch_message, close_connection}
use go_goodwe.Daemon.Connect.Identified.{do_connect-mismatch}
use go_goodwe.Daemon.Poll.{do_poll}
use go_goodwe.Daemon.Run.{act, schedule, tick, ticks}

module _ {fl : Float64} (w : World fl) (config : Config) where
  -- A daemon that is not connected and then meets an inverter with another serial number than the
  -- stored one ends its loop at that firing of the timer: it never polls, and the database is as
  -- the reads left it, however many firings were to come.
  pub ticks-mismatch :
      (n backoff : ℕ) (d : Daemon) (s t u v : w.voltage.State) (info stored : Identity)
      → d.conn_state ≡ disconnected
      → config.has_store ≡ true
      → w.inverter_connect s ≡ (ok tt, t)
      → w.get_info t ≡ (ok info, u)
      → w.get_identity u ≡ (ok (some stored), v)
      → equal_text stored.serial info.serial ≡ false
      → ticks w config (suc n) backoff (d, s) ≡ (
        ok [],
        (
          record {
            conn_state = failed;
            conn_err = some (mismatch_message w config stored.serial info.serial);
            verification_err = some (mismatch_message w config stored.serial info.serial);
            inverter_identity = some stored;
          },
          v,
        ),
      )
  unfolding ticks tick act schedule
  ticks-mismatch n backoff d s t u v info stored apart database opened told found other = ground (
    arith,
    apart,
    do_connect-mismatch w config d s t u v info stored database opened told found other,
  )

  -- A poll that fails closes the connection and leaves the daemon disconnected with the error, and
  -- the next firing is the one that the disconnected state schedules; closing must not panic.
  pub tick-poll_failed :
      (backoff : ℕ) (d : Daemon) (s t u : w.voltage.State) (e : Text) (closed : Result (Unit {0}))
      → d.conn_state ≡ connected
      → w.get_sensors s ≡ (err e, t)
      → w.inverter_close t ≡ (closed, u)
      → closed ≢ panic
      → tick w config backoff (d, s) ≡ (
        ok (schedule config.poll_interval disconnected backoff),
        (record d { conn_state = disconnected; conn_err = some e }, u),
      )
  unfolding tick act schedule do_poll close_connection set_state
  tick-poll_failed backoff d s t u e (ok _) live asked left safe = ground (arith, live, asked, left)
  tick-poll_failed backoff d s t u e (err _) live asked left safe =
      ground (arith, live, asked, left)
  tick-poll_failed backoff d s t u e panic live asked left safe = absurd (safe refl)
