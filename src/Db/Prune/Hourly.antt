-- ===== src/Db/Prune/Hourly.antt =====
-- PruneHourly.
pub mod Complete
use go_goodwe.Base.{
  ℕ, zero, suc, ◌+◌, ◌-◌, ltb, ◌==◌, ◌||◌, Bool, true, false, not, List, [], ◌∷◌, take, length,
}
use go_goodwe.Base.Text.{codes}
use go_goodwe.Base.Result.{panic}
use go_goodwe.Base.Program.{Program, ◌>>=◌, ◌>>◌, pure}
use go_goodwe.Et.Value.{Float64}
use go_goodwe.Db.Tables.{AggregatedSample, Tables, Engine, statement, logged, check_context, keep}
use go_goodwe.Db.Buckets.{by_bucket, same_key}

module _ {fl : Float64} where
  abbrev pub is_old : ℕ → AggregatedSample fl → Bool
  is_old before row = ltb row.bucket_start before

  abbrev pub is_picked : List (AggregatedSample fl) → AggregatedSample fl → Bool
  is_picked [] row = false
  is_picked (pick ∷ picks) row = same_key row pick || is_picked picks row

  -- SELECT … WHERE bucket_start < ? ORDER BY bucket_start LIMIT ?
  abbrev pub pick_oldest : ℕ → ℕ → List (AggregatedSample fl) → List (AggregatedSample fl)
  pick_oldest before batch rows = take batch (by_bucket (keep (is_old before) rows))

  abbrev pub drop_oldest : ℕ → ℕ → List (AggregatedSample fl) → List (AggregatedSample fl)
  drop_oldest before batch rows =
      keep (λ row. not (is_picked (pick_oldest before batch rows) row)) rows

  module _ (engine : Engine fl) where
    unfoldable pub delete_hourly : ℕ → ℕ → Program (Tables fl) ℕ
    delete_hourly before batch = statement engine (codes "prune hourly: ") (λ t.
        let rest = drop_oldest before batch t.hourly in
        (length t.hourly - length rest, record t { hourly = rest }))

    -- The loop; a round more than there are rows is never used up.
    unfoldable pub prune_hourly_rounds : ℕ → ℕ → ℕ → ℕ → Program (Tables fl) ℕ
    prune_hourly_rounds zero before batch total t = (panic, t)
    prune_hourly_rounds (suc rounds) before batch total t =
        (delete_hourly before batch >>= λ n. elim (n == 0) [
          | true ↦ pure total
          | false ↦ check_context engine >> prune_hourly_rounds rounds before batch (total + n)
        ])
          t

    unfoldable pub prune_hourly : ℕ → ℕ → Program (Tables fl) ℕ
    unfolding prune_hourly_rounds
    prune_hourly before batch = do
      logged engine
      λ t. prune_hourly_rounds (suc (length t.hourly)) before batch 0 t
