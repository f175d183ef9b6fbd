-- ===== src/Db/Voltage/Tracked/Run.antt =====
-- A whole run of the analysis on the tables.
use go_goodwe.Base.{
  ℕ, suc, ◌≤◌, List, map, String, Option, none, some, ◌⊎◌, inl, inr, ◌≡◌, ◌≢◌, refl, sym, ◌∙◌,
  arith,
}
use go_goodwe.Base.Result.{ok}
use go_goodwe.Et.Value.{Float64}
use go_goodwe.Analysis.Voltage.{
  PhaseState, Cursor, new_phase, resume, max_seen, analyse_phase, run_voltage_analysis,
}
use go_goodwe.Analysis.Voltage.Phase.{max_seen-upper}
use go_goodwe.Db.Tables.{VoltageEvent, Tables, Engine, IsHealthy, keep}
use go_goodwe.Db.Voltage.{
  voltage_store, get_voltage_analysis_cursor, save_voltage_analysis_cursor, get_voltage_event,
  get_new_voltage_sample_rows, is_new, sample_row, event_of,
}
use go_goodwe.Db.Voltage.Events.{IsOpen, AreUpTo}
use go_goodwe.Db.Voltage.Tracked.{Tracked, Spares, Ends, process_samples-Advances}

-- Two phases have no ongoing event in common.
abbrev pub AreApart : Option ℕ → Option ℕ → Type 0
AreApart a b = (id : ℕ) → a ≡ some id → b ≢ some id

-- The event is ongoing in one of the phases.
abbrev pub IsOngoing : ℕ → Cursor → Type 0
IsOngoing id c = (c.ongoing_l1 ≡ some id) ⊎ ((c.ongoing_l2 ≡ some id) ⊎ (c.ongoing_l3 ≡ some id))

module _ {fl : Float64} where
  abbrev pub AreOpen : Option ℕ → List (VoltageEvent fl) → Type 0
  AreOpen ongoing events = (id : ℕ) → ongoing ≡ some id → IsOpen id events

  -- No event's number is above the last one given, and each phase's ongoing event is a stored event
  -- of its own that has not ended.
  pub record IsTracking (c : Cursor) (t : Tables fl) : Type 0 where
    pub numbered : AreUpTo t.last_event_id t.events
    pub open1 : AreOpen c.ongoing_l1 t.events
    pub open2 : AreOpen c.ongoing_l2 t.events
    pub open3 : AreOpen c.ongoing_l3 t.events
    pub apart12 : AreApart c.ongoing_l1 c.ongoing_l2
    pub apart13 : AreApart c.ongoing_l1 c.ongoing_l3
    pub apart23 : AreApart c.ongoing_l2 c.ongoing_l3

module _ {fl : Float64} (engine : Engine fl) (healthy : IsHealthy engine) where
  pub resume-Keeps :
      (ongoing : Option ℕ) (s : Tables fl)
      → (q : PhaseState fl) × (n : ℕ) × (resume fl (voltage_store engine) ongoing s
          ≡ (ok q, record s { executed = n }))
        × (q.event_id ≡ ongoing)
  unfolding resume new_phase get_voltage_event
  resume-Keeps none s = (new_phase fl, s.executed, refl, refl)
  resume-Keeps (some id) s = (
    record (new_phase fl) {
      event_id = some id;
      start_time = elim (event_of id s.events) [ none ↦ none | some event ↦ event.start_time ];
    },
    suc s.executed,
    ground (arith, healthy s.executed),
    refl,
  )

  -- One sensor's turn.
  analyse_phase-Tracked :
      (sensor : String) (since : ℕ) (ongoing : Option ℕ) (seen : ℕ) (s : Tables fl)
      → Tracked engine healthy ongoing s
      → (left : Option ℕ) × (upto : ℕ) × (t : Tables fl) × (analyse_phase fl
            (voltage_store engine)
            sensor
            since
            ongoing
            seen
            s
          ≡ (ok (left, upto), t))
        × (seen ≤ upto)
        × Tracked engine healthy left t
        × Spares engine healthy ongoing s left t
        × Ends engine healthy ongoing s left t
  unfolding analyse_phase get_new_voltage_sample_rows
  analyse_phase-Tracked sensor since ongoing seen s tracked =
      let rows = map sample_row (keep (is_new sensor since) s.samples) in
      let listed : Tables fl = record s { executed = suc s.executed } in
      let (p, n, taken, same) = resume-Keeps ongoing listed in
      let (q, t, ran, after, spared, ended) =
        process_samples-Advances engine healthy sensor rows p (record s { executed = n })
          (tracked.0, λ id e. tracked.1 id (sym same ∙ e)) in
      (
        q.event_id,
        max_seen fl (voltage_store engine) seen rows,
        t,
        ground (arith, healthy s.executed, taken, ran),
        (max_seen-upper fl (voltage_store engine) seen rows).0,
        after,
        λ id other held. spared id (λ e. other (sym same ∙ e)) held,
        λ id held. elim (ended id held) [
          | inl its ↦ inl its
          | inr (unlike, before) ↦ inr (λ e. unlike (same ∙ e), before)
        ],
      )

  -- On tables in which no event's number is above the last one given, and each ongoing event of the
  -- cursor is a stored event of its own that has not ended, a run of the voltage analysis in which
  -- no statement fails returns without an error; all of that holds again after the run, every
  -- event that has not ended then is ongoing, unless it was neither ongoing nor ended before, and
  -- the cursor has not moved back.
  pub run_voltage_analysis-IsTracking :
      (clock : Tables fl → ℕ) (t : Tables fl)
      → IsTracking t.cursor t
      → (u : Tables fl) × (run_voltage_analysis fl (voltage_store engine) clock t ≡ (ok tt, u))
        × IsTracking u.cursor u
        × ((id : ℕ)
            → IsOpen id u.events
            → IsOngoing id u.cursor ⊎ ((¬ IsOngoing id t.cursor) × IsOpen id t.events))
        × (t.cursor.last_processed_sample_id ≤ u.cursor.last_processed_sample_id)
  unfolding run_voltage_analysis get_voltage_analysis_cursor save_voltage_analysis_cursor
  run_voltage_analysis-IsTracking clock t h =
      let c = t.cursor in
      let start = c.last_processed_sample_id in
      let read : Tables fl = record t { executed = suc t.executed } in
      let (l1, seen1, t1, ran1, up1, tracked1, spared1, ended1) =
        analyse_phase-Tracked "meter_voltage1" start c.ongoing_l1 start read
          (h.numbered, h.open1) in
      let (l2, seen2, t2, ran2, up2, tracked2, spared2, ended2) =
        analyse_phase-Tracked "meter_voltage2" start c.ongoing_l2 seen1 t1
          (tracked1.0, λ id e. (spared1 id (λ e1. h.apart12 id e1 e) (h.open2 id e)).0) in
      let (l3, seen3, t3, ran3, up3, tracked3, spared3, ended3) =
        analyse_phase-Tracked "meter_voltage3" start c.ongoing_l3 seen2 t2 (
          tracked2.0,
          λ id e.
              (spared2 id (λ e2. h.apart23 id e2 e)
                (spared1 id (λ e1. h.apart13 id e1 e) (h.open3 id e)).0).0,
        ) in
      let third_open : (id : ℕ) → c.ongoing_l3 ≡ some id → IsOpen id t1.events × (l1 ≢ some id) =
        λ id e. spared1 id (λ e1. h.apart13 id e1 e) (h.open3 id e) in
      let first : (id : ℕ) → l1 ≡ some id → IsOpen id t2.events × (l2 ≢ some id) = λ id e.
        spared2 id (λ e2. (spared1 id (λ e1. h.apart12 id e1 e2) (h.open2 id e2)).1 e)
          (tracked1.1 id e) in
      let first_spared : (id : ℕ) → l1 ≡ some id → IsOpen id t3.events × (l3 ≢ some id) =
        λ id e. spared3 id (λ e3. (third_open id e3).1 e) (first id e).0 in
      let second_spared : (id : ℕ) → l2 ≡ some id → IsOpen id t3.events × (l3 ≢ some id) = λ id e.
        spared3 id (λ e3. (spared2 id (λ e2. h.apart23 id e2 e3) (third_open id e3).0).1 e)
          (tracked2.1 id e) in
      let u : Tables fl = record t3 {
        executed = suc t3.executed;
        cursor = record {
          last_processed_sample_id = seen3;
          ongoing_l1 = l1;
          ongoing_l2 = l2;
          ongoing_l3 = l3;
          last_run_at = clock t3;
        };
      } in
      (
        u,
        ground (arith, healthy t.executed, healthy t3.executed, ran1, ran2, ran3),
        record {
          numbered = tracked3.0;
          open1 = λ id e. (first_spared id e).0;
          open2 = λ id e. (second_spared id e).0;
          open3 = tracked3.1;
          apart12 = λ id e. (first id e).1;
          apart13 = λ id e. (first_spared id e).1;
          apart23 = λ id e. (second_spared id e).1;
        },
        λ id held. elim (ended3 id held) [
          | inl third ↦ inl (inr (inr third))
          | inr (not3, held2) ↦ elim (ended2 id held2) [
            | inl second ↦ inl (inr (inl second))
            | inr (not2, held1) ↦ elim (ended1 id held1) [
              | inl its ↦ inl (inl its)
              | inr (not1, older) ↦ inr (
                λ was. elim was [ inl a ↦ not1 a | inr (inl b) ↦ not2 b | inr (inr c) ↦ not3 c ],
                older,
              )
            ]
          ]
        ],
        omega (arith, up1, up2, up3),
      )
