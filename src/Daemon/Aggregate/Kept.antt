-- ===== src/Daemon/Aggregate/Kept.antt =====
-- What a failing aggregation leaves of the database.
use go_goodwe.Base.{ℕ, true, ◌≡◌, refl, arith}
use go_goodwe.Base.Text.{Text}
use go_goodwe.Base.Result.{Result, ok, err, panic}
use go_goodwe.Base.Program.{◌>>=◌}
use go_goodwe.Et.Value.{Float64}
use go_goodwe.Daemon.World.{World, Config, Daemon}
use go_goodwe.Daemon.Aggregate.{aggregate_and_prune, do_aggregate}

module _ {fl : Float64} (w : World fl) (config : Config) where
  -- With a database, a cycle in which the hourly or the daily aggregation fails deletes nothing: it
  -- leaves the database as the aggregations left it, and the daemon as it was.
  pub do_aggregate-kept :
      (d : Daemon) (s t : w.voltage.State) (e : Text)
      → config.has_store ≡ true
      → (w.aggregate_hourly (w.now s) >>= λ _. w.aggregate_daily (w.now s)) s ≡ (err e, t)
      → do_aggregate w config (d, s) ≡ (ok tt, (d, t))
  unfolding do_aggregate aggregate_and_prune
  do_aggregate-kept d s t e database refused =
      by_hourly (w.aggregate_hourly (w.now s) s) refl refused
    where
      by_hourly :
          (r : Result ℕ × w.voltage.State)
          → w.aggregate_hourly (w.now s) s ≡ r
          → (w.aggregate_hourly (w.now s) >>= λ _. w.aggregate_daily (w.now s)) s ≡ (err e, t)
          → do_aggregate w config (d, s) ≡ (ok tt, (d, t))
      by_hourly (ok n, u) ran given = ground (arith, database, ran, given)
      by_hourly (err m, u) ran given = ground (arith, database, ran, given)
      by_hourly (panic, u) ran given = ground (arith, database, ran, given)
