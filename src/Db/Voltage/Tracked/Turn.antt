-- ===== src/Db/Voltage/Tracked/Turn.antt =====
-- One sensor's turn in a run of the analysis on the tables.
use go_goodwe.Base.{
  ℕ, suc, ◌≤◌, ◌<◌, ltb, List, map, String, Option, some, All, ◌⊎◌, inl, inr, &&_left, &&_right,
  ltb→lt, ◌≡◌, ◌≢◌, refl, sym, ◌∙◌, arith,
}
use text.Mathlib.Text.{◌==◌ as str_eq}
use text.Mathlib.TextEquality.{eq_iff}
use mathlib.Core.Logic.{◌↔◌}
use go_goodwe.Base.Picks.{Picks}
use go_goodwe.Base.Result.{ok}
use go_goodwe.Et.Value.{Float64}
use go_goodwe.Analysis.Voltage.{SampleRow, max_seen, analyse_phase}
use go_goodwe.Analysis.Voltage.Phase.{
  Writable, is_some, ends_out, process_samples-leaves, max_seen-upper,
}
use go_goodwe.Db.Tables.{StoredSample, Tables, Engine, IsHealthy, keep}
use go_goodwe.Db.Keep.{keep-Picks}
use go_goodwe.Db.Voltage.{
  voltage_store, insert_voltage_event, update_voltage_event, close_voltage_event,
  get_new_voltage_sample_rows, is_new, sample_row,
}
use go_goodwe.Db.Voltage.Events.{IsOpen, AreUpTo}
use go_goodwe.Db.Voltage.Tracked.{process_samples-Advances}
use go_goodwe.Db.Voltage.Tracked.Run.{AreOpen, resume-Keeps}

module _ {fl : Float64} where
  -- The row of a sample of the sensor that is behind the last one processed.
  abbrev pub IsNewRow : String → ℕ → StoredSample fl → SampleRow fl → Type 0
  IsNewRow sensor since stored row =
      (stored.sensor_name ≡ sensor)
      × (since < stored.id)
      × (row.id ≡ stored.id)
      × (row.value ≡ stored.sample.value)
      × (row.sampled_at ≡ stored.sample.sampled_at)

  new_rows-Picks :
      (sensor : String) (since : ℕ) (samples : List (StoredSample fl))
      → Picks (IsNewRow sensor since) samples (map sample_row (keep (is_new sensor since) samples))
  new_rows-Picks sensor since samples =
      keep-Picks (is_new sensor since) sample_row (IsNewRow sensor since)
        (λ stored h. (
          (eq_iff stored.sensor_name sensor).0
              (&&_left (str_eq stored.sensor_name sensor) (ltb since stored.id) h),
          ltb→lt since stored.id
              (&&_right (str_eq stored.sensor_name sensor) (ltb since stored.id) h),
          refl,
          refl,
          refl,
        ))
        (λ stored row h (named, later, _, _, _).
          ground (arith, h, (eq_iff stored.sensor_name sensor).1 named, later))
        samples

  module _ (engine : Engine fl) (healthy : IsHealthy engine) where
    tables-Writable : Writable fl (voltage_store engine)
    unfolding insert_voltage_event update_voltage_event close_voltage_event
    tables-Writable = record {
      inserts = λ sensor start v s. (
        suc s.last_event_id,
        (insert_voltage_event engine sensor start v v v s).1,
        ground (arith, healthy s.executed),
      );
      updates = λ id low high mean s. (
        tt,
        (update_voltage_event engine id low high mean s).1,
        ground (arith, healthy s.executed),
      );
      closes = λ id end seconds s.
          (tt, (close_voltage_event engine id end seconds s).1, ground (arith, healthy s.executed));
    }

    -- On tables in which no event's number is above the last one given, and the sensor's ongoing
    -- event, if there is one, is stored and has not ended, a sensor's turn in which no statement
    -- fails returns without an error. It leaves an event ongoing exactly if the last reading of the
    -- sensor's new samples was below 207.0 or above 253.0, or, where they have no reading, if one
    -- was ongoing before. The stored events that have not ended are then that one and those that
    -- had not ended before, without the one that was ongoing. The new cursor is not below the old
    -- one nor below any new sample's number.
    pub analyse_phase_events :
        (sensor : String) (since seen : ℕ) (ongoing : Option ℕ) (t : Tables fl)
        → AreUpTo t.last_event_id t.events
        → AreOpen ongoing t.events
        → (rows : List (SampleRow fl)) × Picks (IsNewRow sensor since) t.samples rows
          × ((left : Option ℕ) × (upto : ℕ) × (u : Tables fl) × (analyse_phase fl
                  (voltage_store engine)
                  sensor
                  since
                  ongoing
                  seen
                  t
                ≡ (ok (left, upto), u))
              × (is_some left ≡ ends_out fl rows (is_some ongoing))
              × ((id : ℕ)
                  → IsOpen id u.events
                    ↔ ((left ≡ some id) ⊎ ((ongoing ≢ some id) × IsOpen id t.events)))
              × (seen ≤ upto)
              × All (λ row. row.id ≤ upto) rows)
    unfolding analyse_phase get_new_voltage_sample_rows
    analyse_phase_events sensor since seen ongoing t below opened =
        let rows = map sample_row (keep (is_new sensor since) t.samples) in
        let listed : Tables fl = record t { executed = suc t.executed } in
        let (p, n, taken, same) = resume-Keeps engine healthy ongoing listed in
        let start : Tables fl = record t { executed = n } in
        let (q, u, ran, after, spared, ended) =
          process_samples-Advances engine healthy sensor rows p start
            (below, λ id e. opened id (sym same ∙ e)) in
        let (r, v, again, left) =
          process_samples-leaves fl (voltage_store engine) tables-Writable sensor rows p start in
        let (above, each) = max_seen-upper fl (voltage_store engine) seen rows in
        (
          rows,
          new_rows-Picks sensor since t.samples,
          (
            q.event_id,
            max_seen fl (voltage_store engine) seen rows,
            u,
            ground (arith, healthy t.executed, taken, ran),
            ground (arith, ran, again, left, same),
            λ id. (
              λ held. elim (ended id held) [
                | inl its ↦ inl its
                | inr (unlike, before) ↦ inr (λ e. unlike (same ∙ e), before)
              ],
              λ either. elim either [
                | inl its ↦ after.1 id its
                | inr (unlike, before) ↦ (spared id (λ e. unlike (sym same ∙ e)) before).0
              ],
            ),
            above,
            each,
          ),
        )
