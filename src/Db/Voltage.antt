-- ===== src/Db/Voltage.antt =====
-- The statements on the voltage analysis' two tables, and the store that they make for the analysis.
pub mod Events
pub mod Tracked
use go_goodwe.Base.{
  ℕ, suc, ltb, ◌==◌, ◌&&◌, Bool, if◌then◌else◌, List, [], ◌∷◌, ◌++◌, map, take, length, String,
  Option, none, some,
}
use text.Mathlib.Text.{◌==◌ as str_eq}
use mathlib.Core.List.{reverse}
use go_goodwe.Base.Int.{ℤ}
use go_goodwe.Base.Text.{codes}
use go_goodwe.Base.Result.{ok}
use go_goodwe.Base.Program.{Program, ◌>>=◌, pure}
use go_goodwe.Et.Value.{Float64}
use go_goodwe.Analysis.Voltage.{SampleRow, Cursor, VoltageStore}
use go_goodwe.Db.Tables.{StoredSample, VoltageEvent, Tables, Engine, statement, keep}

module _ {fl : Float64} where
  -- UPDATE … WHERE id = ?
  abbrev pub update_where :
      ℕ → (VoltageEvent fl → VoltageEvent fl) → List (VoltageEvent fl) → List (VoltageEvent fl)
  update_where id change [] = []
  update_where id change (event ∷ events) =
      (if event.id == id then change event else event) ∷ update_where id change events

  -- SELECT … WHERE id = ?
  abbrev pub event_of : ℕ → List (VoltageEvent fl) → Option (VoltageEvent fl)
  event_of id [] = none
  event_of id (event ∷ events) = if event.id == id then some event else event_of id events

  -- WHERE sensor_name = ? AND rowid > ?
  abbrev pub is_new : String → ℕ → StoredSample fl → Bool
  is_new name since row = str_eq row.sensor_name name && ltb since row.id

  abbrev pub sample_row : StoredSample fl → SampleRow fl
  sample_row row = record {
    id = row.id;
    value = row.sample.value;
    sampled_at = row.sample.sampled_at;
  }

  module _ (engine : Engine fl) where
    unfoldable pub get_voltage_analysis_cursor : Program (Tables fl) Cursor
    get_voltage_analysis_cursor =
        statement engine (codes "get voltage cursor: ") (λ t. (t.cursor, t))

    unfoldable pub save_voltage_analysis_cursor : Cursor → Program (Tables fl) (Unit {0})
    save_voltage_analysis_cursor c =
        statement engine (codes "save voltage cursor: ") (λ t. (tt, record t { cursor = c }))

    unfoldable pub insert_voltage_event :
        String → Option ℕ → fl.F → fl.F → fl.F → Program (Tables fl) ℕ
    insert_voltage_event phase start low high mean =
        statement engine (codes "insert voltage event: ") (λ t. (
          suc t.last_event_id,
          record t {
            events =
                t.events
                ++ (record {
                  id = suc t.last_event_id;
                  phase = phase;
                  start_time = start;
                  end_time = none;
                  min_voltage = low;
                  max_voltage = high;
                  avg_voltage = mean;
                  duration_seconds = none;
                }
                    ∷ []);
            last_event_id = suc t.last_event_id;
          },
        ))

    -- The columns that the analysis reads; `none` if there is no such event.
    unfoldable pub get_voltage_event : ℕ → Program (Tables fl) (Option (Option ℕ))
    get_voltage_event id =
        statement engine (codes "get voltage event: ") (λ t.
          (elim (event_of id t.events) [ none ↦ none | some event ↦ some event.start_time ], t))

    unfoldable pub close_voltage_event : ℕ → ℕ → ℤ → Program (Tables fl) (Unit {0})
    close_voltage_event id end seconds = statement engine (codes "close voltage event: ") (λ t. (
      tt,
      record t {
        events =
            update_where id
              (λ event. record event { end_time = some end; duration_seconds = some seconds })
              t.events;
      },
    ))

    unfoldable pub update_voltage_event : ℕ → fl.F → fl.F → fl.F → Program (Tables fl) (Unit {0})
    update_voltage_event id low high mean = statement engine (codes "update voltage event: ") (λ t.
        (
          tt,
          record t {
            events =
                update_where id
                  (λ event. record event {
                    min_voltage = low;
                    max_voltage = high;
                    avg_voltage = mean;
                  })
                  t.events;
          },
        ))

    -- The newest events first, and the number of all events.
    unfoldable pub query_voltage_events : ℕ → ℕ → Program (Tables fl) (List (VoltageEvent fl) × ℕ)
    query_voltage_events before limit = do
      total ← statement engine (codes "count voltage events: ") (λ t. (length t.events, t))
      events ← statement engine (codes "query voltage events: ") (λ t. (
        take limit (
            reverse
              (if ltb 0 before then keep (λ event. ltb event.id before) t.events else t.events)),
        t,
      ))
      pure (events, total)

    unfoldable pub get_new_voltage_sample_rows :
        String → ℕ → Program (Tables fl) (List (SampleRow fl))
    get_new_voltage_sample_rows name since =
        statement engine (codes "query voltage samples: ")
          (λ t. (map sample_row (keep (is_new name since) t.samples), t))

    -- *db.Store as the VoltageStore of the analysis.
    abbrev pub voltage_store : VoltageStore fl
    voltage_store = record {
      State = Tables fl;
      get_cursor = get_voltage_analysis_cursor;
      save_cursor = save_voltage_analysis_cursor;
      insert_event = insert_voltage_event;
      close_event = close_voltage_event;
      update_event = update_voltage_event;
      get_event = get_voltage_event;
      get_new_rows = get_new_voltage_sample_rows;
    }
