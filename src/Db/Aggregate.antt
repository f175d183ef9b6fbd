-- ===== src/Db/Aggregate.antt =====
-- AggregateHourly and AggregateDaily. The two differ in their texts, the width of a bucket and what
-- a bucket's rows are made of, which are the fields of a Level; a day is 24 hours, in UTC.
pub mod Summary
pub mod Taken
pub mod Rows
pub mod Fill
pub mod Filled
pub mod Start
pub mod Summarised
use go_goodwe.Base.{
  ℕ, zero, suc, ◌+◌, ◌-◌, ◌*◌, ◌%◌, ltb, leb, ◌==◌, ◌&&◌, Bool, true, false, if◌then◌else◌, List,
  [], ◌∷◌, ◌++◌, map, length, String, Option, none, some,
}
use text.Mathlib.Text.{◌==◌ as str_eq}
use go_goodwe.Base.Text.{Text, codes}
use go_goodwe.Base.Result.{ok, panic}
use go_goodwe.Base.Program.{Program, ◌>>=◌, ◌>>◌, pure}
use go_goodwe.Et.Value.{Float64}
use go_goodwe.Db.Tables.{
  StoredSample, AggregatedSample, Tables, Engine, statement, check_context, keep, distinct_names,
  earliest, latest,
}
use go_goodwe.Db.Buckets.{same_key}

abbrev pub hour : ℕ
hour = 3_600_000_000_000

abbrev pub day : ℕ
day = 24 * hour

-- `t.Truncate(width)`
abbrev pub truncate : ℕ → ℕ → ℕ
truncate width t = t - t % width

-- The first bucket: behind the last one that is stored, not before `since`, and not before the
-- earliest data; an epoch's start stands for a table without a row.
abbrev pub first_bucket : ℕ → ℕ → Option ℕ → Option ℕ → ℕ
first_bucket width since cursor floor =
    let next = (elim cursor [ none ↦ 0 | some at ↦ at ]) + width in
    let start = truncate width (if ltb next since then since else next) in
    elim floor [
      | none ↦ start
      | some at ↦ (if ltb start (truncate width at) then truncate width at else start)
    ]

abbrev pub least : (fl : Float64) → fl.F → List fl.F → fl.F
least fl v [] = v
least fl v (w ∷ ws) = least fl (if fl.lt w v then w else v) ws

abbrev pub greatest : (fl : Float64) → fl.F → List fl.F → fl.F
greatest fl v [] = v
greatest fl v (w ∷ ws) = greatest fl (if fl.lt v w then w else v) ws

abbrev pub sum : List ℕ → ℕ
sum [] = 0
sum (n ∷ ns) = n + sum ns

-- One group after the other.
abbrev pub gather {ℓ} : {A : Type ℓ} → (String → List A) → List String → List A
gather group [] = []
gather group (name ∷ names) = group name ++ gather group names

pub record Level (fl : Float64) : Type 0 where
  pub subject : Text
  pub bucket : Text
  pub width : ℕ
  -- the times of the data that is aggregated
  pub times : Tables fl → List ℕ
  pub group : Tables fl → ℕ → String → List (AggregatedSample fl)
  pub names : Tables fl → ℕ → List String
  pub target : Tables fl → List (AggregatedSample fl)
  pub store : List (AggregatedSample fl) → Tables fl → Tables fl

module _ {fl : Float64} where
  abbrev pub values : List (StoredSample fl) → List fl.F
  values [] = []
  values (row ∷ rows) = elim row.sample.value [ none ↦ values rows | some v ↦ v ∷ values rows ]

  -- WHERE sampled_at >= ? AND sampled_at < ? AND value IS NOT NULL
  abbrev pub is_measured : ℕ → StoredSample fl → Bool
  is_measured t row =
      leb t row.sample.sampled_at
      && ltb row.sample.sampled_at (t + hour)
      && elim row.sample.value [ none ↦ false | some _ ↦ true ]

  abbrev pub measured_by : ℕ → String → List (StoredSample fl) → List (StoredSample fl)
  measured_by t name rows = keep (λ row. is_measured t row && str_eq row.sensor_name name) rows

  -- WHERE bucket_start >= ? AND bucket_start < ?
  abbrev pub is_of_day : ℕ → AggregatedSample fl → Bool
  is_of_day t row = leb t row.bucket_start && ltb row.bucket_start (t + day)

  abbrev pub hours_of : ℕ → String → List (AggregatedSample fl) → List (AggregatedSample fl)
  hours_of t name rows = keep (λ row. is_of_day t row && str_eq row.sensor_name name) rows

  -- A group's row; a group is not empty.
  abbrev pub summary :
      (List fl.F → fl.F)
      → ℕ
      → String
      → List fl.F
      → List fl.F
      → List fl.F
      → ℕ
      → List (AggregatedSample fl)
  summary average t name (low ∷ lows) (high ∷ highs) means count =
      record {
        sensor_name = name;
        bucket_start = t;
        value_min = least fl low lows;
        value_max = greatest fl high highs;
        value_avg = average means;
        sample_count = count;
      }
      ∷ []
  summary average t name lows highs means count = []

  -- INSERT OR REPLACE
  abbrev pub put_row : AggregatedSample fl → List (AggregatedSample fl) → List (AggregatedSample fl)
  put_row new [] = new ∷ []
  put_row new (row ∷ rows) = if same_key row new then new ∷ rows else row ∷ put_row new rows

  abbrev pub put_rows :
      List (AggregatedSample fl) → List (AggregatedSample fl) → List (AggregatedSample fl)
  put_rows [] rows = rows
  put_rows (new ∷ more) rows = put_row new (put_rows more rows)

  module _ (engine : Engine fl) where
    abbrev pub hourly : Level fl
    hourly = record {
      subject = codes "aggregate hourly: ";
      bucket = codes "hour ";
      width = hour;
      times = λ t. map (λ row. row.sample.sampled_at) t.samples;
      group = λ t at name.
          let vs = values (measured_by at name t.samples) in
          summary engine.average at name vs vs vs (length vs);
      names = λ t at. distinct_names (λ row. row.sensor_name) (keep (is_measured at) t.samples);
      target = λ t. t.hourly;
      store = λ rows t. record t { hourly = rows };
    }

    abbrev pub daily : Level fl
    daily = record {
      subject = codes "aggregate daily: ";
      bucket = codes "day ";
      width = day;
      times = λ t. map (λ row. row.bucket_start) t.hourly;
      group = λ t at name.
          let rows = hours_of at name t.hourly in
          summary engine.average at name (map (λ row. row.value_min) rows)
            (map (λ row. row.value_max) rows) (map (λ row. row.value_avg) rows)
            (sum (map (λ row. row.sample_count) rows));
      names = λ t at. distinct_names (λ row. row.sensor_name) (keep (is_of_day at) t.hourly);
      target = λ t. t.daily;
      store = λ rows t. record t { daily = rows };
    }

    module _ (level : Level fl) where
      -- The rows of one bucket; the number of them.
      unfoldable pub aggregate_bucket : ℕ → Program (Tables fl) ℕ
      aggregate_bucket at =
          statement engine (level.subject ++ (level.bucket ++ (engine.rfc3339 at ++ codes ": ")))
            (λ t.
              let rows = gather (level.group t at) (level.names t at) in
              (length rows, level.store (put_rows rows (level.target t)) t))

      -- The loop over the buckets before `end`; a round more than there are nanoseconds is never
      -- used up.
      unfoldable pub aggregate_buckets : ℕ → ℕ → ℕ → ℕ → Program (Tables fl) ℕ
      aggregate_buckets zero at end total t = (panic, t)
      aggregate_buckets (suc rounds) at end total t = elim (ltb at end) [
        | false ↦ (ok total, t)
        | true ↦
            (do
              n ← aggregate_bucket at
              check_context engine
              aggregate_buckets rounds (at + level.width) end (total + n))
              t
      ]

      -- The query of the earliest time of the data may fail, `none`, which only leaves the start as
      -- it is.
      unfoldable pub aggregate : ℕ → ℕ → Program (Tables fl) ℕ
      unfolding aggregate_buckets
      aggregate since until = do
        cursor ←
            statement engine (level.subject ++ codes "get cursor: ")
              (λ t. (latest (map (λ row. row.bucket_start) (level.target t)), t))
        floor ← λ t. (
          ok (elim (engine.fault t.executed) [
            | none ↦ some (earliest (level.times t))
            | some _ ↦ none
          ]),
          record t { executed = suc t.executed },
        )
        elim floor [
          | none ↦ over (first_bucket level.width since cursor none) (truncate level.width until)
          | some none ↦ pure 0
          | some (some first) ↦
              over (first_bucket level.width since cursor (some first)) (truncate level.width until)
        ]
        where
          over : ℕ → ℕ → Program (Tables fl) ℕ
          over start end = aggregate_buckets (suc (end - start)) start end 0

    unfoldable pub aggregate_hourly : ℕ → ℕ → Program (Tables fl) ℕ
    unfolding aggregate
    aggregate_hourly since until = aggregate hourly since until

    unfoldable pub aggregate_daily : ℕ → ℕ → Program (Tables fl) ℕ
    unfolding aggregate
    aggregate_daily since until = aggregate daily since until
