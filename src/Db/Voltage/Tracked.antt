-- ===== src/Db/Voltage/Tracked.antt =====
-- The events that the voltage analysis of pkg/analysis/voltage.go leaves ongoing in the tables.
pub mod Run
pub mod Turn
use go_goodwe.Base.{
  ℕ, suc, ◌≤◌, List, [], ◌∷◌, ◌++◌, String, Option, none, some, Option-cases, Bool-cases, ◌⊎◌, ◌==◌,
  inl, inr, ◌≡◌, ◌≢◌, refl, subst, All-append, sym, ap, ◌∙◌, arith,
}
use go_goodwe.Base.Result.{ok}
use go_goodwe.Base.Program.{Program}
use go_goodwe.Et.Value.{Float64}
use go_goodwe.Analysis.Voltage.{
  SampleRow, PhaseState, is_out, out_of_range, in_range, process_sample, new_phase, process_samples,
  resume, max_seen, analyse_phase, whole_seconds, begin_run, accumulate, average,
  run_voltage_analysis,
}
use go_goodwe.Db.Tables.{VoltageEvent, Tables, Engine, IsHealthy}
use go_goodwe.Db.Voltage.{
  voltage_store, update_where, get_voltage_analysis_cursor, save_voltage_analysis_cursor,
  insert_voltage_event, get_voltage_event, close_voltage_event, update_voltage_event,
  get_new_voltage_sample_rows,
}
use go_goodwe.Db.Voltage.Events.{
  IsOpen, AreUpTo, AreUpTo-mono, IsOpen-upper, IsOpen-append, IsOpen-appended, AreUpTo-update_where,
  IsOpen-update_where, IsOpen-update_where_back, IsOpen-update_where_ended, IsOpen-append_back,
}

module _ {fl : Float64} (engine : Engine fl) (healthy : IsHealthy engine) where
  -- Every event's number is below the next one, and the ongoing event is stored and open.
  abbrev pub Tracked : Option ℕ → Tables fl → Type 0
  Tracked ongoing t =
      AreUpTo t.last_event_id t.events × ((id : ℕ) → ongoing ≡ some id → IsOpen id t.events)

  -- The open events of other phases stay so, and do not become this phase's.
  abbrev pub Spares : Option ℕ → Tables fl → Option ℕ → Tables fl → Type 0
  Spares before s after t =
      (id : ℕ) → before ≢ some id → IsOpen id s.events → IsOpen id t.events × (after ≢ some id)

  -- Any event that is open then is this phase's, or was open and another one than this phase's was.
  abbrev pub Ends : Option ℕ → Tables fl → Option ℕ → Tables fl → Type 0
  Ends before s after t =
      (id : ℕ) → IsOpen id t.events → (after ≡ some id) ⊎ ((before ≢ some id) × IsOpen id s.events)

  -- A part of one phase's turn: it returns without an error, tracks the phase's event, spares the
  -- others and leaves no other one open.
  abbrev pub Advances : Program (Tables fl) (PhaseState fl) → Option ℕ → Tables fl → Type 0
  Advances m before s =
      (q : PhaseState fl) × (t : Tables fl) × (m s ≡ (ok q, t))
      × Tracked q.event_id t
      × Spares before s q.event_id t
      × Ends before s q.event_id t

  accumulate-event_id : (v : fl.F) (p : PhaseState fl) → (accumulate fl v p).event_id ≡ p.event_id
  unfolding accumulate
  accumulate-event_id v p = ground arith

  Ends-refl :
      (ongoing : Option ℕ) (s : Tables fl)
      → ((id : ℕ) → ongoing ≡ some id → IsOpen id s.events)
      → Ends ongoing s ongoing s
  Ends-refl none s tracked id held = inr (λ e. cc, held)
  Ends-refl (some j) s tracked id held = elim (Bool-cases (j == id)) [
    | inl here ↦ inl (ap (λ k. some k) (ground (arith, here)))
    | inr apart ↦ inr (λ e. ground (arith, apart, e), held)
  ]

  some-injective : (i j : ℕ) → some i ≡ some j → i ≡ j
  some-injective i j e = cc

  inserted-Advances :
      (sensor : String) (at : ℕ) (v : fl.F) (p : PhaseState fl) (s : Tables fl)
      → Tracked none s
      → p.event_id ≡ none
      → Advances (out_of_range fl (voltage_store engine) sensor at v p) none s
  unfolding out_of_range insert_voltage_event
  inserted-Advances sensor at v p s (below, _) closed =
      let new : VoltageEvent fl = record {
        id = suc s.last_event_id;
        phase = sensor;
        start_time = some at;
        end_time = none;
        min_voltage = v;
        max_voltage = v;
        avg_voltage = v;
        duration_seconds = none;
      } in
      let grown = AreUpTo-mono s.last_event_id new.id s.events (omega arith) below in
      (
        record (begin_run fl v p) { event_id = some new.id; start_time = some at },
        record s {
          events = s.events ++ (new ∷ []);
          last_event_id = new.id;
          executed = suc s.executed;
        },
        ground (arith, closed, healthy s.executed),
        (
          All-append (λ event. event.id ≤ new.id) s.events (new ∷ []) grown (omega arith, tt),
          λ id e.
              subst (λ i. IsOpen i (s.events ++ (new ∷ []))) (some-injective new.id id e)
                (IsOpen-appended s.last_event_id s.events new below (omega arith) refl),
        ),
        λ id other held. (
          IsOpen-append id s.events (new ∷ []) held,
          λ e. omega (
            arith,
            some-injective new.id id e,
            IsOpen-upper s.last_event_id id s.events below held,
          ),
        ),
        λ id held. elim (IsOpen-append_back id s.events new held) [
          | inl last ↦ inl (ap (λ j. some j) last)
          | inr older ↦ inr (λ e. cc, older)
        ],
      )

  updated-Advances :
      (sensor : String) (at : ℕ) (v : fl.F) (p : PhaseState fl) (s : Tables fl) (id : ℕ)
      → Tracked p.event_id s
      → p.event_id ≡ some id
      → Advances (out_of_range fl (voltage_store engine) sensor at v p) p.event_id s
  unfolding out_of_range update_voltage_event
  updated-Advances sensor at v p s id (below, tracked) ongoing =
      let q = accumulate fl v p in
      let same = accumulate-event_id v p in
      let change : VoltageEvent fl → VoltageEvent fl = λ event. record event {
        min_voltage = q.min_v;
        max_voltage = q.max_v;
        avg_voltage = average fl q;
      } in
      let kept : (i : ℕ) → IsOpen i s.events → IsOpen i (update_where id change s.events) =
        λ i. IsOpen-update_where id change (λ event. refl) i s.events (λ _ event. refl) in
      (
        q,
        record s { events = update_where id change s.events; executed = suc s.executed },
        ground (arith, ongoing, healthy s.executed),
        (
          AreUpTo-update_where id change (λ event. refl) s.last_event_id s.events below,
          λ i e. kept i (tracked i (sym same ∙ e)),
        ),
        λ i other held. (kept i held, λ e. other (sym same ∙ e)),
        λ i held. elim (Bool-cases (id == i)) [
          | inl here ↦ inl (ground (arith, same, ongoing, here))
          | inr apart ↦ inr (
            λ e. ground (arith, ongoing, apart, e),
            IsOpen-update_where_back id change (λ event. refl) i s.events (λ event e. e) held,
          )
        ],
      )

  out_of_range-Advances :
      (sensor : String) (at : ℕ) (v : fl.F) (p : PhaseState fl) (s : Tables fl)
      → Tracked p.event_id s
      → Advances (out_of_range fl (voltage_store engine) sensor at v p) p.event_id s
  out_of_range-Advances sensor at v p s tracked = elim (Option-cases p.event_id) [
    | inl closed ↦
        subst (λ o. Advances (out_of_range fl (voltage_store engine) sensor at v p) o s)
          (sym closed)
          (inserted-Advances sensor at v p s (subst (λ o. Tracked o s) closed tracked) closed)
    | inr (id, ongoing) ↦ updated-Advances sensor at v p s id tracked ongoing
  ]

  in_range-Advances :
      (at : ℕ) (p : PhaseState fl) (s : Tables fl)
      → Tracked p.event_id s
      → Advances (in_range fl (voltage_store engine) at p) p.event_id s
  unfolding in_range close_voltage_event
  in_range-Advances at p s (below, tracked) = elim (Option-cases p.event_id) [
    | inl closed ↦ (
      p,
      s,
      ground (arith, closed),
      (below, tracked),
      λ i other held. (held, other),
      λ i held. inr (λ e. cc, held),
    )
    | inr (id, ongoing) ↦
        let change : VoltageEvent fl → VoltageEvent fl = λ event. record event {
          end_time = some at;
          duration_seconds = some (whole_seconds at p.start_time);
        } in
        (
          record p { event_id = none },
          record s { events = update_where id change s.events; executed = suc s.executed },
          ground (arith, ongoing, healthy s.executed),
          (
            AreUpTo-update_where id change (λ event. refl) s.last_event_id s.events below,
            λ i e. cc,
          ),
          λ i other held. (
            IsOpen-update_where id change (λ event. refl) i s.events
                (λ e. absurd (other (ongoing ∙ ap (λ j. some j) (sym e)))) held,
            λ e. cc,
          ),
          λ i held. elim (Bool-cases (id == i)) [
            | inl here ↦
                let equal : id ≡ i = ground (arith, here) in
                absurd (
                  IsOpen-update_where_ended id change (λ event. refl) s.events (λ event e. cc)
                    (subst (λ j. IsOpen j (update_where id change s.events)) (sym equal) held))
            | inr apart ↦ inr (
              λ e. ground (arith, ongoing, apart, e),
              IsOpen-update_where_back id change (λ event. refl) i s.events (λ event e. cc) held,
            )
          ],
        )
  ]

  process_sample-Advances :
      (sensor : String) (row : SampleRow fl) (p : PhaseState fl) (s : Tables fl)
      → Tracked p.event_id s
      → Advances (process_sample fl (voltage_store engine) sensor row p) p.event_id s
  unfolding process_sample
  process_sample-Advances sensor row p s tracked = elim (Option-cases row.value) [
    | inl missing ↦ (
      p,
      s,
      ground (arith, missing),
      tracked,
      λ i other held. (held, other),
      Ends-refl p.event_id s (tracked.1),
    )
    | inr (v, given) ↦ elim (Bool-cases (is_out fl v)) [
      | inl out ↦
          let (q, t, ran, after, spared, ended) =
            out_of_range-Advances sensor row.sampled_at v p s tracked in
          (q, t, ground (arith, given, out, ran), after, spared, ended)
      | inr inside ↦
          let (q, t, ran, after, spared, ended) = in_range-Advances row.sampled_at p s tracked in
          (q, t, ground (arith, given, inside, ran), after, spared, ended)
    ]
  ]

  pub process_samples-Advances :
      (sensor : String) (rows : List (SampleRow fl)) (p : PhaseState fl) (s : Tables fl)
      → Tracked p.event_id s
      → Advances (process_samples fl (voltage_store engine) sensor rows p) p.event_id s
  unfolding process_samples
  process_samples-Advances sensor [] p s tracked =
      (p, s, refl, tracked, λ i other held. (held, other), Ends-refl p.event_id s (tracked.1))
  process_samples-Advances sensor (row ∷ rows) p s tracked =
      let (q, t, ran, after, spared, ended) = process_sample-Advances sensor row p s tracked in
      let (r, u, rest, final, spared_too, ended_too) =
        process_samples-Advances sensor rows q t after in
      (
        r,
        u,
        ground (arith, ran, rest),
        final,
        λ i other held. (let (still, unlike) = spared i other held in spared_too i unlike still),
        λ i held. elim (ended_too i held) [
          | inl its ↦ inl its
          | inr (unlike, before) ↦ elim (ended i before) [
            | inl same ↦ absurd (unlike same)
            | inr older ↦ inr older
          ]
        ],
      )
