-- ===== src/Api/GetAggregate.antt =====
-- handleGetAggregate. The query parameters are texts, "" for one that is not given. Parameters:
-- time.Parse of RFC3339, where `none` is an error, and strconv.Quote. A time before 1970 is not
-- modelled.
pub mod Raw
use go_goodwe.Base.{
  ℕ, ◌-◌, ltb, ◌==◌, ◌||◌, not, Bool, true, false, if◌then◌else◌, List, [], ◌∷◌, map, String,
  Option, none, some,
}
use text.Mathlib.Text.{◌==◌ as str_eq}
use go_goodwe.Base.Int.{ℤ, pos, negsuc, sub_ℕ}
use go_goodwe.Base.Text.{Text, codes, is_empty, equal_text}
use go_goodwe.Base.Text.Decimal.{parse_int}
use go_goodwe.Base.Result.{Result, ok, err, panic}
use go_goodwe.Et.Value.{Float64}
use go_goodwe.Db.Tables.{Sample, AggregatedSample, Tables, Engine}
use go_goodwe.Db.Samples.{latest_sample, sample_at, query_raw_samples}
use go_goodwe.Db.Query.{query_aggregated_samples}
use go_goodwe.Api.Response.{Response, json, json_error}
use go_goodwe.Api.Downsample.{downsample}

pub record AggregateQuery : Type 0 where
  pub latest : Text
  pub since : Text
  pub until : Text
  pub limit : Text
  pub bucket : Text
  pub delta : Text

-- The body's "delta"; the gap is in nanoseconds here.
pub record Delta : Type 0 where
  pub at : Text
  pub reference_at : Text
  pub gap : ℤ

pub data AggregateBody (fl : Float64) : Type 0 where
  raw : List (Sample fl) → Option Delta → AggregateBody fl
  -- the bucket, the unit and the rows
  aggregated : Text → String → List (AggregatedSample fl) → AggregateBody fl

abbrev pub max_points : ℕ
max_points = 2000

-- A limit that is not a positive number is passed over.
unfoldable pub sample_limit : Text → ℕ
sample_limit text = if is_empty text then 100000 else elim (parse_int text) [
  | none ↦ 100000
  | some (pos n) ↦ (if n == 0 then 100000 else n)
  | some (negsuc n) ↦ 100000
]

module _ {fl : Float64} where
  -- The values less the reference's.
  abbrev pub adjust : fl.F → Sample fl → Sample fl
  adjust reference s = record s {
    value = elim s.value [ none ↦ none | some v ↦ some (fl.sub v reference) ];
  }

  abbrev pub unit_of : Result (Option (Sample fl)) → String
  unit_of (ok (some s)) = s.unit
  unit_of _ = ""

  module _ (engine : Engine fl) (parse_time : Text → Option ℕ) (quote : Text → Text) where
    -- `since`, `until`, or the message that refuses them.
    unfoldable pub time_range : ℕ → AggregateQuery → Result (ℕ × ℕ)
    time_range now q =
        elim (if is_empty q.since then some (now - 86_400_000_000_000) else parse_time q.since) [
          | none ↦ err (codes "invalid since format (use RFC3339)")
          | some since ↦ elim (if is_empty q.until then some now else parse_time q.until) [
            | none ↦ err (codes "invalid until format (use RFC3339)")
            | some until ↦
                let clamped = if ltb now until then now else until in
                if ltb clamped since
                then err (codes "since must be before until")
                else ok (since, clamped)
          ]
        ]

    -- ?latest=true
    unfoldable pub answer_latest : String → Tables fl → Response (AggregateBody fl) × Tables fl
    answer_latest sensor t =
        let (queried, u) = latest_sample engine sensor t in
        (
          elim queried [
            | ok none ↦ json (raw [] none)
            | ok (some sample) ↦ json (raw (sample ∷ []) none)
            | err e ↦ json_error 500 (codes "failed to query latest sample")
            | panic ↦ json_error 500 (codes "failed to query latest sample")
          ],
          u,
        )

    -- ?bucket=hour and ?bucket=day; the unit is that of the latest sample.
    unfoldable pub answer_aggregated :
        String → ℕ → ℕ → Text → Tables fl → Response (AggregateBody fl) × Tables fl
    answer_aggregated sensor since until bucket t =
        let (queried, u) = query_aggregated_samples engine quote sensor since until bucket t in
        elim queried [
          | err e ↦ (json_error 500 (codes "failed to query aggregated samples"), u)
          | panic ↦ (json_error 500 (codes "failed to query aggregated samples"), u)
          | ok rows ↦
              let (last, v) = latest_sample engine sensor u in
              (json (aggregated bucket (unit_of last) rows), v)
        ]

    -- The samples, less the value of a reference sample if there is one.
    unfoldable pub answer_raw :
        String
        → ℕ
        → ℕ
        → ℕ
        → Option (fl.F × Delta)
        → Tables fl
        → Response (AggregateBody fl) × Tables fl
    answer_raw sensor since until limit reference t =
        let (queried, u) = query_raw_samples engine sensor since until limit t in
        (
          elim queried [
            | err e ↦ json_error 500 (codes "failed to query samples")
            | panic ↦ json_error 500 (codes "failed to query samples")
            | ok samples ↦
                let points = downsample samples max_points in
                (elim reference [
                  | none ↦ json (raw points none)
                  | some (value, delta) ↦ json (raw (map (adjust value) points) (some delta))
                ])
          ],
          u,
        )

    -- ?delta=
    unfoldable pub answer_delta :
        String → ℕ → ℕ → ℕ → Text → Tables fl → Response (AggregateBody fl) × Tables fl
    unfolding answer_raw
    answer_delta sensor since until limit delta t = elim (parse_time delta) [
      | none ↦ (json_error 400 (codes "invalid delta format (use RFC3339)"), t)
      | some at ↦
          let (queried, u) = sample_at engine sensor at t in
          elim queried [
            | err e ↦ (json_error 500 (codes "failed to query delta reference"), u)
            | panic ↦ (json_error 500 (codes "failed to query delta reference"), u)
            | ok none ↦ (json_error 400 (codes "no sample found at delta timestamp"), u)
            | ok (some s) ↦ elim s.value [
              | none ↦ (json_error 400 (codes "no sample found at delta timestamp"), u)
              | some value ↦
                  answer_raw sensor since until limit
                    (some (
                      value,
                      record {
                        at = engine.rfc3339 at;
                        reference_at = engine.rfc3339 s.sampled_at;
                        gap = sub_ℕ at s.sampled_at;
                      },
                    ))
                    u
            ]
          ]
    ]

    -- The branches behind the parsed parameters.
    unfoldable pub answer_range :
        String → AggregateQuery → ℕ → ℕ → Tables fl → Response (AggregateBody fl) × Tables fl
    unfolding answer_delta
    answer_range sensor q since until t =
        if equal_text q.bucket (codes "hour") || equal_text q.bucket (codes "day")
        then answer_aggregated sensor since until q.bucket t
        else if is_empty q.delta
        then answer_raw sensor since until (sample_limit q.limit) none t
        else answer_delta sensor since until (sample_limit q.limit) q.delta t

    unfoldable pub handle_get_aggregate :
        Bool → ℕ → String → AggregateQuery → Tables fl → Response (AggregateBody fl) × Tables fl
    unfolding answer_range
    handle_get_aggregate has_store now sensor q t =
        if str_eq sensor ""
        then (json_error 400 (codes "sensor name is required"), t)
        else if not has_store
        then (json_error 501 (codes "database not configured; aggregate data unavailable"), t)
        else if equal_text q.latest (codes "true")
        then answer_latest sensor t
        else elim (time_range now q) [
          | ok (since, until) ↦ answer_range sensor q since until t
          | err message ↦ (json_error 400 message, t)
          | panic ↦ (json_error 500 (codes ""), t)
        ]
