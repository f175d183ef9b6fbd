-- ===== src/Analysis/Voltage/Phase.antt =====
-- The loop over one sensor's samples, and its turn in a run: the event it leaves and the cursor.
use go_goodwe.Base.{
  ℕ, ◌≤◌, ltb, List, [], ◌∷◌, String, Option, none, some, Bool, true, false, Bool-cases, ◌||◌,
  Option-cases, inl, inr, All, ◌≡◌, refl, arith, if◌then◌else◌,
}
use go_goodwe.Base.Int.{ℤ}
use go_goodwe.Base.Result.{ok}
use go_goodwe.Base.Program.{Program}
use go_goodwe.Et.Value.{Float64}
use go_goodwe.Analysis.Voltage.{
  SampleRow, VoltageStore, PhaseState, is_out, out_of_range, in_range, process_sample,
  process_samples, max_seen, whole_seconds, begin_run, accumulate, average,
}

-- A call that returns without an error.
abbrev pub Succeeds {ℓ} : {S : Type 0} {A : Type ℓ} → Program S A → S → Type ℓ
Succeeds {S} {A} m s = (a : A) × (t : S) × (m s ≡ (ok a, t))

-- The three calls of the loop return without an error.
pub record Writable (fl : Float64) (store : VoltageStore fl) : Type 0 where
  pub inserts :
      (sensor : String) (start : Option ℕ) (v : fl.F) (s : store.State)
      → Succeeds (store.insert_event sensor start v v v) s
  pub updates :
      (id : ℕ) (low high mean : fl.F) (s : store.State)
      → Succeeds (store.update_event id low high mean) s
  pub closes :
      (id end : ℕ) (seconds : ℤ) (s : store.State) → Succeeds (store.close_event id end seconds) s

abbrev pub is_some {ℓ} : {A : Type ℓ} → Option A → Bool
is_some none = false
is_some (some a) = true

-- Whether the last reading is below 207.0 or above 253.0; `before` if there is no reading.
abbrev pub ends_out : (fl : Float64) → List (SampleRow fl) → Bool → Bool
ends_out fl [] before = before
ends_out fl (row ∷ rows) before = ends_out fl rows (elim row.value [
  | none ↦ before
  | some v ↦ fl.lt v (fl.literal 2070 1) || fl.lt (fl.literal 2530 1) v
])

module _ (fl : Float64) (store : VoltageStore fl) (writable : Writable fl store) where
  open store use {State}

  -- A program that returns a phase state whose event is open or not, as told.
  abbrev Leaves : Program State (PhaseState fl) → State → Bool → Type 0
  Leaves m s b = (q : PhaseState fl) × (t : State) × (m s ≡ (ok q, t)) × (is_some q.event_id ≡ b)

  accumulate-event_id : (v : fl.F) (p : PhaseState fl) → (accumulate fl v p).event_id ≡ p.event_id
  unfolding accumulate
  accumulate-event_id v p = ground arith

  out_of_range-opens :
      (sensor : String) (at : ℕ) (v : fl.F) (p : PhaseState fl) (s : State)
      → Leaves (out_of_range fl store sensor at v p) s true
  unfolding out_of_range
  out_of_range-opens sensor at v p s = elim (Option-cases p.event_id) [
    | inl closed ↦
        let (id, t, called) = writable.inserts sensor (some at) v s in
        (
          record (begin_run fl v p) { event_id = some id; start_time = some at },
          t,
          ground (arith, closed, called),
          refl,
        )
    | inr (id, ongoing) ↦
        let q = accumulate fl v p in
        let (_, t, called) = writable.updates id q.min_v q.max_v (average fl q) s in
        (q, t, ground (arith, ongoing, called), ground (arith, ongoing, accumulate-event_id v p))
  ]

  in_range-closes :
      (at : ℕ) (p : PhaseState fl) (s : State) → Leaves (in_range fl store at p) s false
  unfolding in_range
  in_range-closes at p s = elim (Option-cases p.event_id) [
    | inl closed ↦ (p, s, ground (arith, closed), ground (arith, closed))
    | inr (id, ongoing) ↦
        let (_, t, called) = writable.closes id at (whole_seconds at p.start_time) s in
        (record p { event_id = none }, t, ground (arith, ongoing, called), refl)
  ]

  process_sample-Leaves :
      (sensor : String) (row : SampleRow fl) (p : PhaseState fl) (s : State)
      → Leaves (process_sample fl store sensor row p) s (elim row.value [
        | none ↦ is_some p.event_id
        | some v ↦ fl.lt v (fl.literal 2070 1) || fl.lt (fl.literal 2530 1) v
      ])
  unfolding process_sample is_out
  process_sample-Leaves sensor row p s = elim (Option-cases row.value) [
    | inl missing ↦ (p, s, ground (arith, missing), ground (arith, missing))
    | inr (v, given) ↦ elim (Bool-cases (is_out fl v)) [
      | inl out ↦
          let (q, t, ran, opened) = out_of_range-opens sensor row.sampled_at v p s in
          (q, t, ground (arith, given, out, ran), ground (arith, given, out, opened))
      | inr inside ↦
          let (q, t, ran, closed) = in_range-closes row.sampled_at p s in
          (q, t, ground (arith, given, inside, ran), ground (arith, given, inside, closed))
    ]
  ]

  -- On a database whose calls succeed the loop over a sensor's samples succeeds, and it leaves an
  -- event open exactly if the last reading was out of range; with no reading among the samples
  -- that is as it was before.
  pub process_samples-leaves :
      (sensor : String) (rows : List (SampleRow fl)) (p : PhaseState fl) (s : State)
      → (q : PhaseState fl) × (t : State) × (process_samples fl store sensor rows p s ≡ (ok q, t))
        × (is_some q.event_id ≡ ends_out fl rows (is_some p.event_id))
  unfolding process_samples
  process_samples-leaves sensor [] p s = (p, s, refl, refl)
  process_samples-leaves sensor (row ∷ rows) p s =
      let (q, t, ran, left) = process_sample-Leaves sensor row p s in
      let (r, u, rest, final) = process_samples-leaves sensor rows q t in
      (r, u, ground (arith, ran, rest), ground (arith, left, final))

pub max_seen-upper :
    (fl : Float64) (store : VoltageStore fl) (m : ℕ) (rows : List (SampleRow fl))
    → (m ≤ max_seen fl store m rows) × All (λ row. row.id ≤ max_seen fl store m rows) rows
unfolding max_seen
max_seen-upper fl store m [] = (omega arith, tt)
max_seen-upper fl store m (row ∷ rows) =
    let (above, each) = max_seen-upper fl store (if ltb m row.id then row.id else m) rows in
    (ground (arith, above), (ground (arith, above), each))
