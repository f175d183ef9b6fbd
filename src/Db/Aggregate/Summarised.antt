-- ===== src/Db/Aggregate/Summarised.antt =====
-- What an aggregation leaves in its table, told without the code's own words.
use go_goodwe.Base.{
  ℕ, ◌+◌, ◌*◌, ◌/◌, ◌<◌, ◌≤◌, List, [], ◌∷◌, map, String, Option, some, inl, inr, length, All,
  All-map, ◌⊎◌, ◌≡◌, refl, ap, sym, subst, ◌∙◌, arith,
}
use Prim.Native.Nat.{max}
use go_goodwe.Base.Picks.{Picks, Picks-All}
use go_goodwe.Base.Result.{ok}
use go_goodwe.Et.Value.{Float64}
use go_goodwe.Db.Tables.{AggregatedSample, Tables, Engine, IsHealthy, IsLive, latest}
use go_goodwe.Db.Aggregate.{
  values, sum, summary, measured_by, hours_of, hourly, daily, aggregate_hourly, aggregate_daily,
}
use go_goodwe.Db.Aggregate.Rows.{row_at, first, or_else}
use go_goodwe.Db.Aggregate.Filled.{aggregate-fills, hourly-IsGrouped, daily-IsGrouped}
use go_goodwe.Db.Aggregate.Summary.{IsOrdered, IsSummary, summary-IsSummary}
use go_goodwe.Db.Aggregate.Start.{first_hour, first_day}
use go_goodwe.Db.Aggregate.Taken.{
  IsEarliest, IsLatest, earliest-lem, latest-lem, IsReading, IsHourOfDay, readings-Picks,
  hours-Picks,
}

abbrev pub total : List ℕ → ℕ
total [] = 0
total (n ∷ ns) = n + total ns

total-sum : (ns : List ℕ) → sum ns ≡ total ns
total-sum [] = refl
total-sum (n ∷ ns) = ap (λ k. n + k) (total-sum ns)

module _ {fl : Float64} (engine : Engine fl) (healthy : IsHealthy engine) (live : IsLive engine)
    (IsNumber : fl.F → Type 0) (order : IsOrdered fl IsNumber) where
  -- The row of a sensor and a bucket before and after: as it was if there is nothing to sum up, and
  -- the sum of what there is.
  abbrev pub Becomes :
      String
      → ℕ
      → List fl.F
      → List fl.F
      → List fl.F
      → ℕ
      → Option (AggregatedSample fl)
      → Option (AggregatedSample fl)
      → Type 0
  Becomes name bucket lows highs means count before after =
      ((lows ≡ []) × (after ≡ before))
      ⊎ ((row : AggregatedSample fl) × (after ≡ some row)
          × IsSummary fl engine.average name bucket lows highs means count row)

  hourly-Becomes :
      (name : String) (b : ℕ) (t : Tables fl)
      → All (λ row. (v : fl.F) → row.sample.value ≡ some v → IsNumber v) t.samples
      → (before after : Option (AggregatedSample fl))
      → let vs = values (measured_by b name t.samples) in
        after
          ≡ or_else (first (summary {fl = fl} engine.average b name vs vs vs (length vs))) before
        → Becomes name b vs vs vs (length vs) before after
  hourly-Becomes name b t numbers before after filled =
      by_values (values (measured_by b name t.samples))
        (Picks-All (IsReading name b) (λ row. (v : fl.F) → row.sample.value ≡ some v → IsNumber v)
          IsNumber (λ row v carry (_, _, _, given). carry v given) t.samples _
          (readings-Picks name b t.samples) numbers)
        filled
    where
      by_values :
          (vs : List fl.F)
          → All IsNumber vs
          → after
            ≡ or_else (first (summary {fl = fl} engine.average b name vs vs vs (length vs))) before
          → Becomes name b vs vs vs (length vs) before after
      by_values [] h e = inl (refl, e)
      by_values (v ∷ vs) h e =
          let (row, there, summed) =
            summary-IsSummary fl IsNumber order engine.average name b v vs v vs (v ∷ vs)
              (length (v ∷ vs)) h h in
          inr (row, e ∙ ap (λ o. or_else o before) there, summed)

  daily-Becomes :
      (name : String) (b : ℕ) (t : Tables fl)
      → All (λ row. IsNumber row.value_min × IsNumber row.value_max) t.hourly
      → (before after : Option (AggregatedSample fl))
      → let rows = hours_of b name t.hourly in
        after
          ≡ or_else
              (first (
                summary {fl = fl} engine.average b name
                  (map (λ row. row.value_min) rows)
                  (map (λ row. row.value_max) rows)
                  (map (λ row. row.value_avg) rows)
                  (sum (map (λ row. row.sample_count) rows))))
              before
        → Becomes name b
            (map (λ row. row.value_min) rows)
            (map (λ row. row.value_max) rows)
            (map (λ row. row.value_avg) rows)
            (total (map (λ row. row.sample_count) rows))
            before
            after
  daily-Becomes name b t numbers before after filled =
      by_rows (hours_of b name t.hourly)
        (Picks-All (IsHourOfDay name b) (λ row. IsNumber row.value_min × IsNumber row.value_max)
          (λ row. IsNumber row.value_min × IsNumber row.value_max)
          (λ row same h (_, _, _, e). subst (λ r. IsNumber r.value_min × IsNumber r.value_max) e h)
          t.hourly _ (hours-Picks name b t.hourly) numbers)
        filled
    where
      by_rows :
          (rows : List (AggregatedSample fl))
          → All (λ row. IsNumber row.value_min × IsNumber row.value_max) rows
          → after
            ≡ or_else
                (first (
                  summary {fl = fl} engine.average b name
                    (map (λ row. row.value_min) rows)
                    (map (λ row. row.value_max) rows)
                    (map (λ row. row.value_avg) rows)
                    (sum (map (λ row. row.sample_count) rows))))
                before
          → Becomes name b
              (map (λ row. row.value_min) rows)
              (map (λ row. row.value_max) rows)
              (map (λ row. row.value_avg) rows)
              (total (map (λ row. row.sample_count) rows))
              before
              after
      by_rows [] h e = inl (refl, e)
      by_rows (r ∷ rows) ((low, high), hs) e =
          let lows =
            All-map (λ row. row.value_min) IsNumber
              (λ row. IsNumber row.value_min × IsNumber row.value_max) (λ row h. h.0) rows hs in
          let highs =
            All-map (λ row. row.value_max) IsNumber
              (λ row. IsNumber row.value_min × IsNumber row.value_max) (λ row h. h.1) rows hs in
          let (row, there, summed) =
            summary-IsSummary fl IsNumber order engine.average name b r.value_min
              (map (λ row. row.value_min) rows) r.value_max (map (λ row. row.value_max) rows)
              (map (λ row. row.value_avg) (r ∷ rows))
              (sum (map (λ row. row.sample_count) (r ∷ rows))) (low, lows) (high, highs) in
          inr (
            row,
            e ∙ ap (λ o. or_else o before) there,
            subst
                (λ count.
                  IsSummary fl engine.average name b (map (λ row. row.value_min) (r ∷ rows))
                    (map (λ row. row.value_max) (r ∷ rows)) (map (λ row. row.value_avg) (r ∷ rows))
                    count row)
                (total-sum (map (λ row. row.sample_count) (r ∷ rows))) summed,
          )

  -- Where no statement fails, the context is not cancelled and the stored numbers compare as numbers
  -- do, the hourly aggregation of a database whose earliest sample is at `floor`, and whose last hourly
  -- row is of the hour `last`, returns. It starts at the hour of the latest of three times: the one
  -- behind `last`, `since` and `floor`. Each hour from there on that ends by `until` then has, for
  -- each sensor with a number measured in it, the row with the least of these numbers, the greatest,
  -- what AVG makes of them and how many they are; for other sensors it has what it had. All earlier
  -- and later hours are as they were.
  pub aggregate_hourly_summarises :
      (since until floor last : ℕ) (t : Tables fl)
      → All (λ row. (v : fl.F) → row.sample.value ≡ some v → IsNumber v) t.samples
      → IsEarliest floor (map (λ row. row.sample.sampled_at) t.samples)
      → IsLatest last (map (λ row. row.bucket_start) t.hourly)
      → let start =
          max (max (last + 3_600_000_000_000) since) floor
          / 3_600_000_000_000
          * 3_600_000_000_000 in
        (n : ℕ) × (u : Tables fl) × (aggregate_hourly engine since until t ≡ (ok n, u))
        × ((name : String) (i b : ℕ)
            → b ≡ start + i * 3_600_000_000_000
            → b + 3_600_000_000_000 ≤ until
            → (vs : List fl.F) × Picks (IsReading name b) t.samples vs
              × Becomes name b vs vs vs
                  (length vs)
                  (row_at name b t.hourly)
                  (row_at name b u.hourly))
        × ((name : String) (b : ℕ)
            → (b < start) ⊎ (until / 3_600_000_000_000 * 3_600_000_000_000 ≤ b)
            → row_at name b u.hourly ≡ row_at name b t.hourly)
  unfolding aggregate_hourly
  aggregate_hourly_summarises since until floor last t numbers lowest highest =
      let begin =
        max (max (last + 3_600_000_000_000) since) floor / 3_600_000_000_000 * 3_600_000_000_000 in
      let (n, u, ran, inside, outside) =
        aggregate-fills engine healthy live (hourly engine) (hourly-IsGrouped engine) since until
          floor t (earliest-lem floor _ lowest) in
      let same =
        first_hour since floor last (latest (map (λ row. row.bucket_start) t.hourly))
          (latest-lem last _ highest) in
      (
        n,
        u,
        ran,
        λ name i b here ends. (
          _,
          readings-Picks name b _,
          hourly-Becomes name b t numbers _ _ (
              inside name i b (here ∙ ap (λ s. s + i * 3_600_000_000_000) (sym same))
                (omega (arith, here))),
        ),
        λ name b apart. outside name b (elim apart [
          | inl before ↦ inl (omega (arith, before, same))
          | inr behind ↦ inr (omega (arith, behind))
        ]),
      )

  -- Where no statement fails, the context is not cancelled and the stored numbers compare as numbers
  -- do, the daily aggregation of a database whose earliest hourly row is of the hour `floor`, and whose
  -- last daily row is of the day `last`, returns. It starts at the day of the latest of three times:
  -- the one behind `last`, `since` and `floor`. Each day from there on that ends by `until` then has,
  -- for each sensor with hourly rows in it, the row with the least of their minima, the greatest of
  -- their maxima, what AVG makes of their averages and the sum of their counts; for other sensors it
  -- has what it had. All earlier and later days are as they were.
  pub aggregate_daily_summarises :
      (since until floor last : ℕ) (t : Tables fl)
      → All (λ row. IsNumber row.value_min × IsNumber row.value_max) t.hourly
      → IsEarliest floor (map (λ row. row.bucket_start) t.hourly)
      → IsLatest last (map (λ row. row.bucket_start) t.daily)
      → let start =
          max (max (last + 86_400_000_000_000) since) floor
          / 86_400_000_000_000
          * 86_400_000_000_000 in
        (n : ℕ) × (u : Tables fl) × (aggregate_daily engine since until t ≡ (ok n, u))
        × ((name : String) (i b : ℕ)
            → b ≡ start + i * 86_400_000_000_000
            → b + 86_400_000_000_000 ≤ until
            → (rows : List (AggregatedSample fl)) × Picks (IsHourOfDay name b) t.hourly rows
              × Becomes name b
                  (map (λ row. row.value_min) rows)
                  (map (λ row. row.value_max) rows)
                  (map (λ row. row.value_avg) rows)
                  (total (map (λ row. row.sample_count) rows))
                  (row_at name b t.daily)
                  (row_at name b u.daily))
        × ((name : String) (b : ℕ)
            → (b < start) ⊎ (until / 86_400_000_000_000 * 86_400_000_000_000 ≤ b)
            → row_at name b u.daily ≡ row_at name b t.daily)
  unfolding aggregate_daily
  aggregate_daily_summarises since until floor last t numbers lowest highest =
      let begin =
        max (max (last + 86_400_000_000_000) since) floor
        / 86_400_000_000_000
        * 86_400_000_000_000 in
      let (n, u, ran, inside, outside) =
        aggregate-fills engine healthy live (daily engine) (daily-IsGrouped engine) since until
          floor t (earliest-lem floor _ lowest) in
      let same =
        first_day since floor last (latest (map (λ row. row.bucket_start) t.daily))
          (latest-lem last _ highest) in
      (
        n,
        u,
        ran,
        λ name i b here ends. (
          _,
          hours-Picks name b _,
          daily-Becomes name b t numbers _ _ (
              inside name i b (here ∙ ap (λ s. s + i * 86_400_000_000_000) (sym same))
                (omega (arith, here))),
        ),
        λ name b apart. outside name b (elim apart [
          | inl before ↦ inl (omega (arith, before, same))
          | inr behind ↦ inr (omega (arith, behind))
        ]),
      )
