-- ===== src/Db/Aggregate/Filled.antt =====
-- What the two aggregations leave in their tables.
use go_goodwe.Base.{
  ℕ, suc, ◌+◌, ◌-◌, ◌*◌, ◌<◌, ◌≤◌, ◌⊎◌, ◌&&◌, false, List, [], ◌∷◌, map, String, some, none, inl,
  inr, length, ◌≡◌, ◌≢◌, refl, ap, sym, ◌∙◌, arith,
}
use text.Mathlib.Text.{◌==◌ as str_eq}
use go_goodwe.Base.Result.{ok}
use go_goodwe.Et.Value.{Float64}
use go_goodwe.Db.Tables.{
  AggregatedSample, Tables, Engine, IsHealthy, IsLive, keep, contains_name, earliest, latest,
}
use go_goodwe.Db.Keep.{keep-keep}
use go_goodwe.Db.Aggregate.{
  truncate, first_bucket, values, sum, summary, is_measured, is_of_day, Level, hourly, daily,
  aggregate,
}
use go_goodwe.Db.Aggregate.Rows.{
  row_at, row_at-gather, row_at-gather_other, IsGroup, first, or_else, contains_name-distinct_names,
}
use go_goodwe.Db.Aggregate.Fill.{
  rows_of, fill_table, IsLevel, aggregate_buckets-fill_table, fill_table-before, fill_table-after,
  fill_table-bucket,
}

module _ {fl : Float64} where
  summary-IsGroup :
      (average : List fl.F → fl.F) (at : ℕ) (name : String) (lows highs means : List fl.F)
      (count : ℕ)
      → IsGroup name at (summary {fl = fl} average at name lows highs means count)
  summary-IsGroup average at name [] highs means count = inl refl
  summary-IsGroup average at name (low ∷ lows) [] means count = inl refl
  summary-IsGroup average at name (low ∷ lows) (high ∷ highs) means count =
      inr (_, refl, refl, refl)

  -- A level whose groups are by name and bucket, and whose names are those of all its groups.
  pub record IsGrouped (level : Level fl) : Type 0 where
    is_level : IsLevel level
    groups : (t : Tables fl) (at : ℕ) (name : String) → IsGroup name at (level.group t at name)
    listed :
        (t : Tables fl) (at : ℕ) (name : String)
        → contains_name name (level.names t at) ≡ false
        → level.group t at name ≡ []

  pub hourly-IsGrouped : (engine : Engine fl) → IsGrouped (hourly engine)
  hourly-IsGrouped engine = record {
    is_level = record {
      wide = omega arith;
      stored = λ rows t k. refl;
      counted = λ t k. (refl, refl, λ at. refl);
      apart = λ rows t k at. refl;
    };
    groups = λ t at name. summary-IsGroup engine.average at name _ _ _ _;
    listed = λ t at name h.
        let none =
          contains_name-distinct_names (λ row. row.sensor_name) name
            (keep (is_measured at) t.samples) h in
        let joined =
          keep-keep (is_measured at) (λ row. str_eq row.sensor_name name)
            (λ row. is_measured at row && str_eq row.sensor_name name) t.samples (λ row. refl) in
        ap (λ rows. let vs = values rows in summary engine.average at name vs vs vs (length vs))
          (sym joined ∙ none);
  }

  pub daily-IsGrouped : (engine : Engine fl) → IsGrouped (daily engine)
  daily-IsGrouped engine = record {
    is_level = record {
      wide = omega arith;
      stored = λ rows t k. refl;
      counted = λ t k. (refl, refl, λ at. refl);
      apart = λ rows t k at. refl;
    };
    groups = λ t at name. summary-IsGroup engine.average at name _ _ _ _;
    listed = λ t at name h.
        let none =
          contains_name-distinct_names (λ row. row.sensor_name) name (keep (is_of_day at) t.hourly)
            h in
        let joined =
          keep-keep (is_of_day at) (λ row. str_eq row.sensor_name name)
            (λ row. is_of_day at row && str_eq row.sensor_name name) t.hourly (λ row. refl) in
        ap
          (λ rows.
            summary engine.average at name (map (λ row. row.value_min) rows)
              (map (λ row. row.value_max) rows) (map (λ row. row.value_avg) rows)
              (sum (map (λ row. row.sample_count) rows)))
          (sym joined ∙ none);
  }

  module _ (engine : Engine fl) (healthy : IsHealthy engine) (live : IsLive engine)
      (level : Level fl) (laws : IsGrouped level) where
    -- The aggregation returns, fills the buckets and leaves the earlier ones.
    abbrev pub Aggregates : ℕ → ℕ → Tables fl → ℕ → Type 0
    Aggregates since until t start =
        (n : ℕ) × (u : Tables fl) × (aggregate engine level since until t ≡ (ok n, u))
        × ((name : String) (i b : ℕ)
            → b ≡ start + i * level.width
            → b < truncate level.width until
            → row_at name b (level.target u)
              ≡ or_else (first (level.group t b name)) (row_at name b (level.target t)))
        × ((name : String) (b : ℕ)
            → (b < start) ⊎ (truncate level.width until ≤ b)
            → row_at name b (level.target u) ≡ row_at name b (level.target t))

    pub aggregate-fills :
        (since until floor : ℕ) (t : Tables fl)
        → earliest (level.times t) ≡ some floor
        → Aggregates since until t (
            first_bucket level.width since
              (latest (map (λ row. row.bucket_start) (level.target t)))
              (some floor))
    unfolding aggregate
    aggregate-fills since until floor t there =
        let start =
          first_bucket level.width since (latest (map (λ row. row.bucket_start) (level.target t)))
            (some floor) in
        let end = truncate level.width until in
        let read = laws.is_level.counted t (suc t.executed) in
        let counted = laws.is_level.counted t (suc (suc t.executed)) in
        let u : Tables fl = record t { executed = suc (suc t.executed) } in
        let rows : ℕ → List (AggregatedSample fl) = rows_of level t in
        let (n, v, ran, filled) =
          aggregate_buckets-fill_table engine healthy live level laws.is_level rows
            (suc (end - start)) start end 0 u (omega arith) counted.2 in
        let own : (name : String) (b at : ℕ) → b ≢ at → row_at name b (rows at) ≡ none =
          λ name b at.
            row_at-gather_other at (level.group t at) (laws.groups t at) name b
              (level.names t at) in
        (
          n,
          v,
          ground (arith, healthy t.executed, healthy (suc t.executed), there, read.1, ran),
          λ name i b here inside.
              let table =
                fill_table-bucket rows level.width laws.is_level.wide name (own name)
                  (suc (end - start)) start end i b (level.target t) (omega arith) here inside in
              let grouped =
                row_at-gather b (level.group t b) (laws.groups t b) name (level.names t b)
                  (laws.listed t b name) in
              ap (row_at name b) (
                filled ∙ ap (fill_table rows level.width (suc (end - start)) start end) (counted.0))
              ∙ (table ∙ ap (λ o. or_else o (row_at name b (level.target t))) grouped),
          λ name b outside.
              ap (row_at name b) (
                filled ∙ ap (fill_table rows level.width (suc (end - start)) start end) (counted.0))
              ∙ elim outside [
                | inl before ↦
                    fill_table-before rows level.width laws.is_level.wide name (own name)
                      (suc (end - start)) start end b (level.target t) before
                | inr behind ↦
                    fill_table-after rows level.width laws.is_level.wide name (own name)
                      (suc (end - start)) start end b (level.target t) behind
              ],
        )
