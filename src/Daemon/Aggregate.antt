-- ===== src/Daemon/Aggregate.antt =====
-- doStartupAggregation, doAggregate and aggregationLoop of pkg/daemon/daemon.go.
pub mod Kept
use go_goodwe.Base.{ℕ, suc, ◌-◌, ◌*◌, ltb, Option, Bool, not, if◌then◌else◌, ◌⊎◌, inl, inr}
use go_goodwe.Base.Program.{Program, ◌>>=◌, ◌>>◌, pure}
use go_goodwe.Et.Value.{Float64}
use go_goodwe.Daemon.World.{World, Config, System, attempt}

-- `t.AddDate(0, 0, -n)` in UTC, where a day has 86400 seconds.
abbrev pub days_before : ℕ → ℕ → ℕ
days_before n t = t - n * 86_400_000_000_000

module _ {fl : Float64} (w : World fl) (config : Config) where
  unfoldable pub prune : ℕ → Program (System w) (Unit {0})
  prune now =
      if ltb 0 config.retention_days
      then (do
        _ ← attempt w (w.prune_samples (days_before config.retention_days now) 1000)
        _ ← attempt w (w.prune_hourly (days_before 365 now) 1000)
        pure tt)
      else pure tt

  -- The two aggregations up to now, then the pruning; an error ends the cycle.
  unfoldable pub aggregate_and_prune : ℕ → Program (System w) (Unit {0})
  unfolding prune
  aggregate_and_prune now = do
    hourly ← attempt w (w.aggregate_hourly now)
    elim hourly [
      | inr e ↦ pure tt
      | inl _ ↦ do
        daily ← attempt w (w.aggregate_daily now)
        elim daily [ inr e ↦ pure tt | inl _ ↦ prune now ]
    ]

  unfoldable pub do_aggregate : Program (System w) (Unit {0})
  unfolding aggregate_and_prune
  do_aggregate (d, s) =
      (if not config.has_store then pure tt else aggregate_and_prune (w.now s)) (d, s)

  -- It differs from doAggregate in what it logs.
  unfoldable pub do_startup_aggregation : Program (System w) (Unit {0})
  unfolding aggregate_and_prune
  do_startup_aggregation (d, s) =
      (if not config.has_store then pure tt else aggregate_and_prune (w.now s)) (d, s)
