-- ===== src/Db/Tables.antt =====
-- The tables of pkg/db/store.go. A statement is a function on them; a time is a number of
-- nanoseconds. The driver writes UTC times so that their texts compare as the times do; of times in
-- other zones, which a request to the API may name, that is not so and is not modelled.
use go_goodwe.Base.{
  ℕ, suc, ◌≡◌, ◌++◌, List, [], ◌∷◌, String, Option, none, some, Bool, false, ◌||◌, ltb,
  if◌then◌else◌,
}
use text.Mathlib.Text.{◌==◌ as str_eq}
use go_goodwe.Base.Int.{ℤ}
use go_goodwe.Base.Text.{Text}
use go_goodwe.Base.Result.{ok, err}
use go_goodwe.Base.Program.{Program}
use go_goodwe.Et.Value.{Float64}
use go_goodwe.Analysis.Voltage.{Cursor}
use go_goodwe.Daemon.World.{Identity}

-- db.Sample
pub record Sample (fl : Float64) : Type 0 where
  pub value : Option fl.F
  pub value_text : Option Text
  pub unit : String
  pub sampled_at : ℕ

-- A row of sensor_samples.
pub record StoredSample (fl : Float64) : Type 0 where
  pub id : ℕ
  pub sensor_name : String
  pub sample : Sample fl

-- A row of sensor_samples_hourly or sensor_samples_daily, and db.AggregatedSample.
pub record AggregatedSample (fl : Float64) : Type 0 where
  pub sensor_name : String
  pub bucket_start : ℕ
  pub value_min : fl.F
  pub value_max : fl.F
  pub value_avg : fl.F
  pub sample_count : ℕ

-- db.VoltageEvent without the numbers of its samples, which the analysis sets to 0.
pub record VoltageEvent (fl : Float64) : Type 0 where
  pub id : ℕ
  pub phase : String
  pub start_time : Option ℕ
  pub end_time : Option ℕ
  pub min_voltage : fl.F
  pub max_voltage : fl.F
  pub avg_voltage : fl.F
  pub duration_seconds : Option ℤ

-- A row of inverter_identity.
pub record IdentityRow : Type 0 where
  pub identity : Identity
  pub first_seen : ℕ
  pub last_seen : ℕ

-- The database. Rows stand in the order of their numbers; `executed` counts the statements.
pub record Tables (fl : Float64) : Type 0 where
  pub identities : List IdentityRow
  pub samples : List (StoredSample fl)
  pub last_sample_id : ℕ
  pub hourly : List (AggregatedSample fl)
  pub daily : List (AggregatedSample fl)
  pub cursor : Cursor
  pub events : List (VoltageEvent fl)
  pub last_event_id : ℕ
  pub executed : ℕ

-- What SQLite and its driver decide: whether a statement fails, by the statements before it; the
-- error of the context if it is cancelled by then; the order that `ORDER BY sampled_at DESC` puts rows in; AVG; and what time.Format
-- writes of a time.
pub record Engine (fl : Float64) : Type 0 where
  pub fault : ℕ → Option Text
  pub cancelled : ℕ → Option Text
  pub newest_first : List (StoredSample fl) → List (StoredSample fl)
  pub average : List fl.F → fl.F
  pub rfc3339 : ℕ → Text

-- No statement fails.
abbrev pub IsHealthy : {fl : Float64} → Engine fl → Type 0
IsHealthy engine = (n : ℕ) → engine.fault n ≡ none

-- The context is never cancelled.
abbrev pub IsLive : {fl : Float64} → Engine fl → Type 0
IsLive engine = (n : ℕ) → engine.cancelled n ≡ none

module _ {fl : Float64} (engine : Engine fl) where
  -- One statement: it fails and changes no table, or has its effect.
  abbrev pub statement {ℓ} :
      {A : Type ℓ} → Text → (Tables fl → A × Tables fl) → Program (Tables fl) A
  statement prefix effect t =
      let (a, u) = effect t in
      elim (engine.fault t.executed) [
        | none ↦ (ok a, record u { executed = suc t.executed })
        | some e ↦ (err (prefix ++ e), record t { executed = suc t.executed })
      ]

  -- A statement that only serves the log: its error ends nothing.
  abbrev pub logged : Program (Tables fl) (Unit {0})
  logged t = (ok tt, record t { executed = suc t.executed })

  -- `select { case <-ctx.Done(): return total, ctx.Err() default: }`
  abbrev pub check_context : Program (Tables fl) (Unit {0})
  check_context t = elim (engine.cancelled t.executed) [ none ↦ (ok tt, t) | some e ↦ (err e, t) ]

abbrev pub contains_name : String → List String → Bool
contains_name name [] = false
contains_name name (n ∷ names) = str_eq name n || contains_name name names

-- The names in a column, each one once: `SELECT DISTINCT` and the groups of `GROUP BY`.
abbrev pub distinct_names {ℓ} : {A : Type ℓ} → (A → String) → List A → List String
distinct_names column [] = []
distinct_names column (row ∷ rows) =
    let names = distinct_names column rows in
    if contains_name (column row) names then names else column row ∷ names

-- The rows that a test holds of.
abbrev pub keep {ℓ} : {A : Type ℓ} → (A → Bool) → List A → List A
keep p [] = []
keep p (x ∷ xs) = if p x then x ∷ keep p xs else keep p xs

-- MIN and MAX of a column of times.
abbrev pub earliest : List ℕ → Option ℕ
earliest [] = none
earliest (at ∷ times) = elim (earliest times) [
  | none ↦ some at
  | some first ↦ some (if ltb at first then at else first)
]

abbrev pub latest : List ℕ → Option ℕ
latest [] = none
latest (at ∷ times) = elim (latest times) [
  | none ↦ some at
  | some last ↦ some (if ltb last at then at else last)
]
