-- ===== src/Analysis/Voltage.antt =====
-- RunVoltageAnalysis of pkg/analysis/voltage.go. A time is a number of nanoseconds; `none` is the
-- zero time.Time.
pub mod Phase
pub mod Resume
use go_goodwe.Base.{
  ℕ, zero, suc, ◌+◌, ◌-◌, ◌/◌, ltb, ◌==◌, if◌then◌else◌, List, [], ◌∷◌, ◌++◌, String, Option, none,
  some, Bool, ◌||◌,
}
use go_goodwe.Base.Int.{ℤ, pos, negsuc, sub_ℕ}
use go_goodwe.Base.Text.{Text, codes, decimal}
use go_goodwe.Base.Result.{Result, ok, err, panic}
use go_goodwe.Base.Program.{Program, ◌>>=◌, ◌>>◌, pure}
use go_goodwe.Et.Value.{Float64}

-- db.SampleRow, as far as the analysis reads it.
pub record SampleRow (fl : Float64) : Type 0 where
  pub id : ℕ
  pub value : Option fl.F
  pub sampled_at : ℕ

-- db.VoltageAnalysisCursor
pub record Cursor : Type 0 where
  pub last_processed_sample_id : ℕ
  pub ongoing_l1 : Option ℕ
  pub ongoing_l2 : Option ℕ
  pub ongoing_l3 : Option ℕ
  pub last_run_at : ℕ

-- VoltageStore, with the state of the database. The sample numbers of an event, which the analysis
-- always passes as 0, are left out.
pub record VoltageStore (fl : Float64) : Type 1 where
  pub State : Type 0
  pub get_cursor : Program State Cursor
  pub save_cursor : Cursor → Program State (Unit {0})
  pub insert_event : String → Option ℕ → fl.F → fl.F → fl.F → Program State ℕ
  pub close_event : ℕ → ℕ → ℤ → Program State (Unit {0})
  pub update_event : ℕ → fl.F → fl.F → fl.F → Program State (Unit {0})
  -- the start time of an event; `none` if there is no such event
  pub get_event : ℕ → Program State (Option (Option ℕ))
  pub get_new_rows : String → ℕ → Program State (List (SampleRow fl))

-- `int(end.Sub(start).Seconds())`: whole seconds towards zero, where the float64 that Seconds returns
-- does not round a fraction up, which takes an event of months. From the zero time the difference
-- saturates at the largest Duration.
unfoldable pub whole_seconds : ℕ → Option ℕ → ℤ
whole_seconds end none = pos 9223372036
whole_seconds end (some start) =
    if ltb end start
    then sub_ℕ 0 ((start - end) / 1_000_000_000)
    else pos ((end - start) / 1_000_000_000)

-- `return fmt.Errorf(prefix + "%w", err)` on a failing call
abbrev pub wrapped {ℓ} : {S : Type 0} {A : Type ℓ} → Text → Program S A → Program S A
wrapped prefix m s =
    let (r, t) = m s in (elim r [ ok a ↦ ok a | err e ↦ err (prefix ++ e) | panic ↦ panic ], t)

module _ (fl : Float64) where
  open fl use {F, literal, lt, add, div, of_ℤ}

  -- phaseState
  pub record PhaseState : Type 0 where
    pub event_id : Option ℕ
    pub start_time : Option ℕ
    pub min_v : F
    pub max_v : F
    pub sum_v : F
    pub count : ℕ

  abbrev pub float_zero : F
  float_zero = of_ℤ (pos 0)

  unfoldable pub new_phase : PhaseState
  new_phase = record {
    event_id = none;
    start_time = none;
    min_v = float_zero;
    max_v = float_zero;
    sum_v = float_zero;
    count = 0;
  }

  -- `v < VoltageMin || v > VoltageMax`, with the bounds 207.0 and 253.0.
  unfoldable pub is_out : F → Bool
  is_out v = lt v (literal 2070 1) || lt (literal 2530 1) v

  abbrev pub begin_run : F → PhaseState → PhaseState
  begin_run v p = record p { min_v = v; max_v = v; sum_v = v; count = 1 }

  -- The extremes and the sum of an ongoing event after one more sample.
  unfoldable pub accumulate : F → PhaseState → PhaseState
  accumulate v p = if p.count == 0 then begin_run v p else record p {
    min_v = if lt v p.min_v then v else p.min_v;
    max_v = if lt p.max_v v then v else p.max_v;
    sum_v = add p.sum_v v;
    count = p.count + 1;
  }

  abbrev pub average : PhaseState → F
  average p = div p.sum_v (of_ℤ (pos p.count))

  module _ (store : VoltageStore fl) where
    open store use {State}

    -- A sample out of range starts an event, or is added to the ongoing one.
    unfoldable pub out_of_range : String → ℕ → F → PhaseState → Program State PhaseState
    unfolding accumulate
    out_of_range sensor at v p = elim p.event_id [
      | none ↦ do
        id ← wrapped (codes "insert event: ") (store.insert_event sensor (some at) v v v)
        pure (record (begin_run v p) { event_id = some id; start_time = some at })
      | some id ↦
          let q = accumulate v p in
          (do
            wrapped (codes "update event: ") (store.update_event id q.min_v q.max_v (average q))
            pure q)
    ]

    -- A sample in range closes the ongoing event.
    unfoldable pub in_range : ℕ → PhaseState → Program State PhaseState
    in_range at p = elim p.event_id [
      | none ↦ pure p
      | some id ↦ do
        wrapped (codes "close event: ") (store.close_event id at (whole_seconds at p.start_time))
        pure (record p { event_id = none })
    ]

    unfoldable pub process_sample : String → SampleRow fl → PhaseState → Program State PhaseState
    unfolding out_of_range in_range
    process_sample sensor row p = elim row.value [
      | none ↦ pure p
      | some v ↦
          (if is_out v then out_of_range sensor row.sampled_at v p else in_range row.sampled_at p)
    ]

    unfoldable pub process_samples :
        String → List (SampleRow fl) → PhaseState → Program State PhaseState
    process_samples sensor [] p = pure p
    process_samples sensor (row ∷ rows) p = do
      q ← process_sample sensor row p
      process_samples sensor rows q

    -- An ongoing event of the run before is taken up again, with its start time alone.
    unfoldable pub resume : Option ℕ → Program State PhaseState
    resume none = pure new_phase
    resume (some id) = do
      event ← wrapped (codes "get event " ++ (decimal id ++ codes ": ")) (store.get_event id)
      pure (record new_phase {
        event_id = some id;
        start_time = elim event [ none ↦ none | some start ↦ start ];
      })

    -- The largest row number seen.
    unfoldable pub max_seen : ℕ → List (SampleRow fl) → ℕ
    max_seen m [] = m
    max_seen m (row ∷ rows) = max_seen (if ltb m row.id then row.id else m) rows

    -- One turn of the loop over the sensors: the event left open, and the largest row number.
    unfoldable pub analyse_phase : String → ℕ → Option ℕ → ℕ → Program State (Option ℕ × ℕ)
    analyse_phase sensor since ongoing seen = do
      rows ←
          wrapped (codes "get samples for " ++ (codes sensor ++ codes ": "))
            (store.get_new_rows sensor since)
      p ← resume ongoing
      q ← process_samples sensor rows p
      pure (q.event_id, max_seen seen rows)

    -- `clock` is time.Now, which is read at the end of the run.
    unfoldable pub run_voltage_analysis : (State → ℕ) → Program State (Unit {0})
    run_voltage_analysis clock = do
      cursor ← wrapped (codes "get cursor: ") store.get_cursor
      (l1, seen1) ←
          analyse_phase "meter_voltage1" cursor.last_processed_sample_id cursor.ongoing_l1
            cursor.last_processed_sample_id
      (l2, seen2) ←
          analyse_phase "meter_voltage2" cursor.last_processed_sample_id cursor.ongoing_l2 seen1
      (l3, seen3) ←
          analyse_phase "meter_voltage3" cursor.last_processed_sample_id cursor.ongoing_l3 seen2
      now ← λ s. (ok (clock s), s)
      store.save_cursor (record {
        last_processed_sample_id = seen3;
        ongoing_l1 = l1;
        ongoing_l2 = l2;
        ongoing_l3 = l3;
        last_run_at = now;
      })
