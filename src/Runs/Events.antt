-- ===== src/Runs/Events.antt =====
-- Runs of the voltage analysis over a database that counts the calls and has one row, of 300 V, and
-- over the tables.
use go_goodwe.Base.{
  ℕ, ◌≡◌, ◌≢◌, ◌≤◌, refl, subst, arith, List, [], ◌∷◌, Option, none, some, All, true, ◌⊎◌,
}
use mathlib.Core.Logic.{◌↔◌}
use go_goodwe.Base.Int.{pos}
use go_goodwe.Base.Picks.{Picks}
use go_goodwe.Base.Result.{ok}
use go_goodwe.Base.Program.{◌>>=◌}
use go_goodwe.Analysis.Voltage.{SampleRow, is_out, resume, process_sample, analyse_phase}
use go_goodwe.Analysis.Voltage.Phase.{is_some, ends_out}
use go_goodwe.Analysis.Voltage.Resume.{resume_overwrites}
use go_goodwe.Db.Tables.{Tables}
use go_goodwe.Db.Voltage.{voltage_store}
use go_goodwe.Db.Voltage.Events.{IsOpen}
use go_goodwe.Db.Voltage.Tracked.Turn.{IsNewRow, analyse_phase_events}
use go_goodwe.Runs.Setup.{whole, high, counting}
use go_goodwe.Runs.Rows.{sqlite, tables}

-- An event of the second phase that a run before left ongoing.
abbrev begun : Tables whole
begun = record tables {
  events =
      record {
        id = 1;
        phase = "meter_voltage2";
        start_time = some 5;
        end_time = none;
        min_voltage = pos 260;
        max_voltage = pos 260;
        avg_voltage = pos 260;
        duration_seconds = none;
      }
      ∷ [];
  last_event_id = 1;
}

abbrev ongoing : Option ℕ
ongoing = some 1

begun-IsOpen : (id : ℕ) → ongoing ≡ some id → IsOpen id begun.events
begun-IsOpen id e = subst (λ i. IsOpen i begun.events) {x = 1} (one_of id e) (_, refl, refl)
  where
    one_of : (id : ℕ) → ongoing ≡ some id → 1 ≡ id
    one_of id e = cc

analyse_phase_events_example :
    (rows : List (SampleRow whole)) × Picks (IsNewRow "meter_voltage2" 0) begun.samples rows
    × ((left : Option ℕ) × (upto : ℕ) × (u : Tables whole) × (analyse_phase whole
            (voltage_store sqlite)
            "meter_voltage2"
            0
            ongoing
            0
            begun
          ≡ (ok (left, upto), u))
        × (is_some left ≡ ends_out whole rows (is_some ongoing))
        × ((id : ℕ)
            → IsOpen id u.events
              ↔ ((left ≡ some id) ⊎ ((ongoing ≢ some id) × IsOpen id begun.events)))
        × (0 ≤ upto)
        × All (λ row. row.id ≤ upto) rows)
analyse_phase_events_example =
    analyse_phase_events sqlite (λ n. refl) "meter_voltage2" 0 0 ongoing begun (omega arith, tt)
      begun-IsOpen

high_is_out : is_out whole (pos 300) ≡ true
unfolding is_out
high_is_out = refl

resume_overwrites_example :
    ((resume whole counting (some 8) >>= process_sample whole counting "meter_voltage1" high) 0).1
    ≡ 2
resume_overwrites_example =
    resume_overwrites whole counting "meter_voltage1" 8 (some (some 0)) high (pos 300) 0 1 2 refl
      refl high_is_out refl
