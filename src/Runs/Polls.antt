-- ===== src/Runs/Polls.antt =====
-- Runs of the daemon's loop.
use go_goodwe.Base.{
  ℕ, suc, ◌*◌, ◌^◌, ◌<◌, ◌≡◌, refl, List, [], length, get_elem?, none, some, true, false,
}
use Prim.Native.Nat.{min}
use go_goodwe.Base.Text.{Text, codes}
use go_goodwe.Base.Result.{ok, err}
use go_goodwe.Daemon.World.{
  disconnected, connected, failed, Identity, World, Config, Daemon, System,
}
use go_goodwe.Daemon.Connect.{mismatch_message}
use go_goodwe.Daemon.Aggregate.{do_aggregate, do_startup_aggregation}
use go_goodwe.Daemon.Aggregate.Kept.{do_aggregate-kept}
use go_goodwe.Daemon.Run.{schedule, tick, ticks, run, backoff_initial}
use go_goodwe.Daemon.Run.States.{IsSettled, settled, tick-IsSettled}
use go_goodwe.Daemon.Run.Ticks.{ticks-mismatch, tick-poll_failed}
use go_goodwe.Daemon.Run.Backoff.{run_unreachable}
use go_goodwe.Runs.Setup.{whole, counting}

abbrev identity : Text → Identity
identity serial = record {
  serial = serial;
  model = [];
  firmware = [];
  dsp_version = [];
  arm_version = [];
  rated_power = 10_000;
}

-- An inverter that answers with one serial number before a database with another, whose polls and
-- daily aggregations fail.
abbrev replaced : World whole
replaced = record {
  voltage = counting;
  inverter_connect = λ s. (ok tt, suc s);
  inverter_close = λ s. (ok tt, suc s);
  get_info = λ s. (ok (identity (codes "new")), suc s);
  get_sensors = λ s. (err (codes "timeout"), suc s);
  ping = λ ip s. (ok true, suc s);
  get_identity = λ s. (ok (some (identity (codes "old"))), suc s);
  set_identity = λ i s. (ok tt, suc s);
  purge_bad_samples = λ p s. (ok tt, suc s);
  insert_sample = λ name unit at number words s. (ok tt, suc s);
  aggregate_hourly = λ now s. (ok 3, suc s);
  aggregate_daily = λ now s. (err (codes "locked"), suc s);
  prune_samples = λ before batch s. (ok 1, suc s);
  prune_hourly = λ before batch s. (ok 1, suc s);
  now = λ s. s;
  quote = λ t. t;
}

abbrev config : Config
config = record {
  has_inverter = true;
  has_store = true;
  inverter_ip = [];
  poll_interval = 60_000_000_000;
  aggregate_interval = 0;
  retention_days = 30;
}

abbrev idle : Daemon
idle = record {
  conn_state = disconnected;
  conn_err = none;
  verification_err = none;
  inverter_identity = none;
}

abbrev running : Daemon
running = record {
  conn_state = connected;
  conn_err = none;
  verification_err = none;
  inverter_identity = none;
}

abbrev stopped : Daemon
stopped = record {
  conn_state = failed;
  conn_err = some (mismatch_message replaced config (codes "old") (codes "new"));
  verification_err = some (mismatch_message replaced config (codes "old") (codes "new"));
  inverter_identity = some (identity (codes "old"));
}

ticks-mismatch_example : ticks replaced config 9 backoff_initial (idle, 0) ≡ (ok [], (stopped, 3))
ticks-mismatch_example =
    ticks-mismatch replaced config 8 backoff_initial idle 0 1 2 3 (identity (codes "new"))
      (identity (codes "old")) refl refl refl refl refl refl

abbrev lost : Daemon
lost = record {
  conn_state = disconnected;
  conn_err = some (codes "timeout");
  verification_err = none;
  inverter_identity = none;
}

tick-poll_failed_example :
    tick replaced config 7 (running, 0) ≡ (ok (schedule 60_000_000_000 disconnected 7), (lost, 2))
tick-poll_failed_example =
    tick-poll_failed replaced config 7 running 0 1 2 (codes "timeout") (ok tt) refl refl refl
      (λ e. cc)

do_aggregate-kept_example : do_aggregate replaced config (idle, 0) ≡ (ok tt, (idle, 2))
do_aggregate-kept_example = do_aggregate-kept replaced config idle 0 2 (codes "locked") refl refl

tick-IsSettled_example : IsSettled lost
tick-IsSettled_example =
    tick-IsSettled replaced config 7 (schedule 60_000_000_000 disconnected 7) (running, 0) (lost, 2)
      (settled (λ e. cc) (λ e. refl)) tick-poll_failed_example

-- An inverter that refuses every connection.
abbrev absent : World whole
absent = record replaced { inverter_connect = λ s. (err (codes "timeout"), suc s) }

abbrev storeless : Config
storeless = record config { has_store = false }

started : do_startup_aggregation absent storeless (idle, 0) ≡ (ok tt, (idle, 0))
unfolding do_startup_aggregation
started = refl

run_unreachable_example :
    (delays : List ℕ) × (z : System absent) × (run absent storeless 9 (idle, 0) ≡ (ok delays, z))
    × (length delays ≡ 9)
    × ((k : ℕ) → k < 9 → get_elem? delays k ≡ some (min (5_000_000_000 * 2 ^ k) 300_000_000_000))
run_unreachable_example =
    run_unreachable absent storeless
      (record {
        refuses = λ s. (codes "timeout", suc s, refl);
        pings = λ s e. cc;
        closes = λ s e. cc;
      })
      9 (idle, 0) (idle, 0) refl refl started
