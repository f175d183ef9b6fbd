-- ===== src/Api/GridVoltage.antt =====
-- handleGridVoltage. The query parameters are texts, "" for one that is not given.
pub mod Falling
pub mod Pages
use go_goodwe.Base.{
  ℕ, zero, suc, leb, ◌==◌, ◌&&◌, not, Bool, if◌then◌else◌, List, [], ◌∷◌, Option, none, some,
  length,
}
use go_goodwe.Base.Int.{ℤ, pos, negsuc}
use go_goodwe.Base.Text.{Text, codes, is_empty}
use go_goodwe.Base.Text.Decimal.{parse_int}
use go_goodwe.Base.Result.{ok, err, panic}
use go_goodwe.Et.Value.{Float64}
use go_goodwe.Db.Tables.{VoltageEvent, Tables, Engine}
use go_goodwe.Db.Voltage.{query_voltage_events, get_voltage_analysis_cursor}
use go_goodwe.Api.Response.{Response, json, json_error}

pub record VoltagePage (fl : Float64) : Type 0 where
  pub events : List (VoltageEvent fl)
  pub total_events : ℕ
  pub next : ℕ
  pub has_more : Bool
  pub last_run_at : Option ℕ
  pub poll_interval : ℕ

-- `n > 0 && n <= 100`, and 20 by default; `none` is refused.
unfoldable pub voltage_limit : Text → Option ℕ
voltage_limit text = if is_empty text then some 20 else elim (parse_int text) [
  | none ↦ none
  | some (pos n) ↦ (if not (n == 0) && leb n 100 then some n else none)
  | some (negsuc n) ↦ none
]

unfoldable pub voltage_before : Text → Option ℕ
voltage_before text =
    if is_empty text
    then some 0
    else elim (parse_int text) [ none ↦ none | some (pos n) ↦ some n | some (negsuc n) ↦ none ]

module _ {fl : Float64} where
  -- The number of the last event, 0 if there is none.
  abbrev pub next_cursor : List (VoltageEvent fl) → ℕ
  next_cursor [] = 0
  next_cursor (event ∷ []) = event.id
  next_cursor (event ∷ second ∷ events) = next_cursor (second ∷ events)

  module _ (engine : Engine fl) (poll_interval : ℕ) where
    -- The page, when the limit and the cursor are read.
    unfoldable pub voltage_page : ℕ → ℕ → Tables fl → Response (VoltagePage fl) × Tables fl
    voltage_page before limit t =
        let (queried, u) = query_voltage_events engine before limit t in
        elim queried [
          | err e ↦ (json_error 500 (codes "failed to query events"), u)
          | panic ↦ (json_error 500 (codes ""), u)
          | ok (events, total) ↦
              let (read, v) = get_voltage_analysis_cursor engine u in
              (
                json (record {
                  events = events;
                  total_events = total;
                  next = next_cursor events;
                  has_more = leb limit (length events);
                  last_run_at = elim read [
                    | ok c ↦ some c.last_run_at
                    | err e ↦ none
                    | panic ↦ none
                  ];
                  poll_interval = poll_interval;
                }),
                v,
              )
        ]

    unfoldable pub handle_grid_voltage :
        Bool → Text → Text → Tables fl → Response (VoltagePage fl) × Tables fl
    unfolding voltage_page
    handle_grid_voltage has_store before_text limit_text t =
        if not has_store
        then (json_error 501 (codes "analysis store not available"), t)
        else elim (voltage_limit limit_text) [
          | none ↦ (json_error 400 (codes "invalid limit (must be 1-100)"), t)
          | some limit ↦ elim (voltage_before before_text) [
            | none ↦ (json_error 400 (codes "invalid before cursor"), t)
            | some before ↦ voltage_page before limit t
          ]
        ]
