-- ===== src/Runs/Statements.antt =====
-- The statements of the database and the handlers over them.
use go_goodwe.Base.{
  ℕ, ◌≤◌, ◌&&◌, not, List, [], ◌∷◌, none, some, length, true, ◌⊎◌, ◌≡◌, ◌≢◌, refl, arith,
}
use Prim.Native.Nat.{min}
use go_goodwe.Base.Int.{pos}
use go_goodwe.Base.Text.{codes}
use go_goodwe.Base.Text.Decimal.{parse_int, value_from}
use go_goodwe.Base.Result.{ok, panic}
use go_goodwe.Analysis.Voltage.{run_voltage_analysis}
use go_goodwe.Db.Tables.{Sample, VoltageEvent, Tables, keep}
use go_goodwe.Db.Voltage.{voltage_store}
use go_goodwe.Db.Voltage.Events.{IsOpen}
use go_goodwe.Db.Voltage.Tracked.Run.{IsTracking, IsOngoing, run_voltage_analysis-IsTracking}
use go_goodwe.Db.Prune.{is_old, prune_samples}
use go_goodwe.Db.Prune.Samples.{prune_samples_all}
use go_goodwe.Db.Prune.Recent.{prune_samples_recent}
use go_goodwe.Db.Samples.{in_window, query_raw_samples}
use go_goodwe.Db.Samples.Newest.{from, IsAscending, query_raw_samples_newest}
use go_goodwe.Api.Response.{json}
use go_goodwe.Api.GridVoltage.{voltage_limit}
use go_goodwe.Api.GridVoltage.Pages.{all_pages, handle_grid_voltage_pages}
use go_goodwe.Api.GetAggregate.{AggregateQuery, raw, max_points, time_range, handle_get_aggregate}
use go_goodwe.Api.GetAggregate.Raw.{handle_get_aggregate_raw}
use go_goodwe.Runs.Setup.{whole}
use go_goodwe.Runs.Rows.{sqlite, sqlite-IsNewestFirst, tables}

untracked : IsTracking tables.cursor tables
untracked = record {
  numbered = tt;
  open1 = λ id e. cc;
  open2 = λ id e. cc;
  open3 = λ id e. cc;
  apart12 = λ id e. cc;
  apart13 = λ id e. cc;
  apart23 = λ id e. cc;
}

run_voltage_analysis-IsTracking_example :
    (u : Tables whole) × (run_voltage_analysis whole (voltage_store sqlite) (λ _. 90) tables
      ≡ (ok tt, u))
    × IsTracking u.cursor u
    × ((id : ℕ)
        → IsOpen id u.events
        → IsOngoing id u.cursor ⊎ ((¬ IsOngoing id tables.cursor) × IsOpen id tables.events))
    × (0 ≤ u.cursor.last_processed_sample_id)
run_voltage_analysis-IsTracking_example =
    run_voltage_analysis-IsTracking sqlite (λ n. refl) (λ _. 90) tables untracked

prune_samples_all_example :
    (k : ℕ) × (prune_samples sqlite 25 1 tables ≡ (
      ok 1,
      record tables { samples = keep (λ row. not (is_old 25 row)) tables.samples; executed = k },
    ))
prune_samples_all_example = prune_samples_all sqlite (λ n. refl) (λ n. refl) 25 0 tables

prune_samples_recent_example :
    ((prune_samples sqlite 25 0 tables).0 ≢ panic)
    × (keep (λ row. not (is_old 25 row)) (prune_samples sqlite 25 0 tables).1.samples
        ≡ keep (λ row. not (is_old 25 row)) tables.samples)
prune_samples_recent_example = prune_samples_recent sqlite 25 0 tables

query_raw_samples_newest_example :
    (samples : List (Sample whole)) × (u : Tables whole) × (query_raw_samples sqlite
        "meter_voltage1" 0 100 1 tables
      ≡ (ok samples, u))
    × IsAscending samples
    × ((at : ℕ)
        → length (keep (from at) samples)
          ≡ min 1 (
              length (
                keep
                  (λ row. in_window "meter_voltage1" 0 100 row && from at row.sample)
                  tables.samples)))
query_raw_samples_newest_example =
    query_raw_samples_newest sqlite (λ n. refl) sqlite-IsNewestFirst "meter_voltage1" 0 100 1 tables

abbrev event : ℕ → VoltageEvent whole
event id = record {
  id = id;
  phase = "meter_voltage1";
  start_time = some 20;
  end_time = none;
  min_voltage = pos 300;
  max_voltage = pos 310;
  avg_voltage = pos 305;
  duration_seconds = none;
}

abbrev logged_events : Tables whole
logged_events = record tables { events = event 1 ∷ event 3 ∷ event 4 ∷ [] }

limit_of_two : voltage_limit (codes "2") ≡ some 2
unfolding voltage_limit parse_int value_from
limit_of_two = refl

handle_grid_voltage_pages_example :
    all_pages sqlite 60 4 [] (codes "2") logged_events ≡ some (event 4 ∷ event 3 ∷ event 1 ∷ [])
handle_grid_voltage_pages_example =
    handle_grid_voltage_pages sqlite 60 (λ n. refl) 1 (codes "2") logged_events limit_of_two
      (record {
        rising = ((omega arith, (omega arith, tt)), ((omega arith, tt), (tt, tt)));
        positive = (omega arith, (omega arith, (omega arith, tt)));
        small = (omega arith, (omega arith, (omega arith, tt)));
      })

abbrev whole_range : AggregateQuery
whole_range = record {
  latest = [];
  since = codes "0";
  until = [];
  limit = [];
  bucket = [];
  delta = [];
}

range_read :
    time_range sqlite (λ text. some 0) (λ text. text) 4_000_000_000_000 whole_range
    ≡ ok (0, 4_000_000_000_000)
unfolding time_range
range_read = refl

handle_get_aggregate_raw_example :
    (points : List (Sample whole)) × (u : Tables whole) × (handle_get_aggregate sqlite
        (λ text. some 0)
        (λ text. text)
        true
        4_000_000_000_000
        "meter_voltage1"
        whole_range
        tables
      ≡ (json (raw points none), u))
    × (length points ≤ max_points)
    × IsAscending points
handle_get_aggregate_raw_example =
    handle_get_aggregate_raw sqlite (λ n. refl) sqlite-IsNewestFirst (λ text. some 0) (λ text. text)
      4_000_000_000_000 "meter_voltage1" whole_range 0 4_000_000_000_000 tables refl refl refl refl
      range_read
