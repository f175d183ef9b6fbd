-- ===== src/Db/Query.antt =====
-- QueryAggregatedSamples. `quote` is strconv.Quote, the verb %q.
use go_goodwe.Base.{ℕ, leb, ◌&&◌, Bool, if◌then◌else◌, List, ◌++◌, String}
use text.Mathlib.Text.{◌==◌ as str_eq}
use go_goodwe.Base.Text.{Text, codes, equal_text}
use go_goodwe.Base.Result.{err}
use go_goodwe.Base.Program.{Program}
use go_goodwe.Et.Value.{Float64}
use go_goodwe.Db.Tables.{AggregatedSample, Tables, Engine, statement, keep}
use go_goodwe.Db.Buckets.{by_bucket}

module _ {fl : Float64} where
  -- WHERE sensor_name = ? AND bucket_start >= ? AND bucket_start <= ?
  abbrev pub in_bucket_range : String → ℕ → ℕ → AggregatedSample fl → Bool
  in_bucket_range name since until row =
      str_eq row.sensor_name name && leb since row.bucket_start && leb row.bucket_start until

  module _ (engine : Engine fl) (quote : Text → Text) where
    abbrev pub select_from :
        (Tables fl → List (AggregatedSample fl))
        → String
        → ℕ
        → ℕ
        → Program (Tables fl) (List (AggregatedSample fl))
    select_from table name since until =
        statement engine (codes "query aggregated: ")
          (λ t. (by_bucket (keep (in_bucket_range name since until) (table t)), t))

    unfoldable pub query_aggregated_samples :
        String → ℕ → ℕ → Text → Program (Tables fl) (List (AggregatedSample fl))
    query_aggregated_samples name since until bucket =
        if equal_text bucket (codes "hour")
        then select_from (λ t. t.hourly) name since until
        else if equal_text bucket (codes "day")
        then select_from (λ t. t.daily) name since until
        else (λ t. (err (codes "query aggregated: unknown bucket " ++ quote bucket), t))
