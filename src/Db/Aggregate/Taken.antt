-- ===== src/Db/Aggregate/Taken.antt =====
-- The rows that a bucket is made of, and the times that bound the buckets.
use go_goodwe.Base.{
  ℕ, zero, suc, ◌+◌, ◌≤◌, ◌<◌, ◌&&◌, ltb, Bool-cases, Option-cases, true, inl, inr, List, [], ◌∷◌,
  String, Option, none, some, get_elem?, All, &&_right, if◌then◌else◌, ◌⊎◌, ◌≡◌, refl, ap, ◌∙◌,
  subst, arith,
}
use text.Mathlib.Text.{◌==◌ as str_eq}
use text.Mathlib.TextEquality.{eq_iff}
use go_goodwe.Base.Picks.{Picks, done, taken, passed}
use go_goodwe.Et.Value.{Float64}
use go_goodwe.Db.Tables.{StoredSample, AggregatedSample, earliest, latest}
use go_goodwe.Db.Aggregate.{values, measured_by, is_measured, hours_of, is_of_day}
use go_goodwe.Db.Aggregate.Summary.{Occurs}

-- The smallest of a list of times.
abbrev pub IsEarliest : ℕ → List ℕ → Type 0
IsEarliest at times = Occurs at times × All (λ other. at ≤ other) times

-- The largest of a list of times, or 0, the epoch, if there are none.
abbrev pub IsLatest : ℕ → List ℕ → Type 0
IsLatest at times = ((times ≡ []) × (at ≡ 0)) ⊎ (Occurs at times × All (λ other. other ≤ at) times)

earliest_bound :
    (at m : ℕ) (times : List ℕ) → All (λ other. at ≤ other) times → earliest times ≡ some m → at ≤ m
earliest_bound at m [] h e = cc
earliest_bound at m (x ∷ xs) (h, hs) e = elim (Option-cases (earliest xs)) [
  | inl empty ↦ ground (arith, empty, e)
  | inr (k, found) ↦ ground (arith, found, e, earliest_bound at k xs hs found)
]

earliest_reached :
    (at i : ℕ) (times : List ℕ)
    → get_elem? times i ≡ some at
    → (m : ℕ) × (earliest times ≡ some m) × (m ≤ at)
earliest_reached at i [] e = cc
earliest_reached at zero (x ∷ xs) e = elim (Option-cases (earliest xs)) [
  | inl empty ↦ (x, ground (arith, empty), ground (arith, e))
  | inr (k, found) ↦ (if ltb x k then x else k, ground (arith, found), ground (arith, e))
]
earliest_reached at (suc i) (x ∷ xs) e =
    let (k, found, near) = earliest_reached at i xs e in
    (if ltb x k then x else k, ground (arith, found), ground (arith, near))

pub earliest-lem : (at : ℕ) (times : List ℕ) → IsEarliest at times → earliest times ≡ some at
earliest-lem at times ((i, e), h) =
    let (m, found, near) = earliest_reached at i times e in
    omega_some m found near (earliest_bound at m times h found)
  where
    omega_some : (m : ℕ) → earliest times ≡ some m → m ≤ at → at ≤ m → earliest times ≡ some at
    omega_some m found near far = found ∙ ap (λ k. some k) (omega arith)

latest_bound :
    (at m : ℕ) (times : List ℕ) → All (λ other. other ≤ at) times → latest times ≡ some m → m ≤ at
latest_bound at m [] h e = cc
latest_bound at m (x ∷ xs) (h, hs) e = elim (Option-cases (latest xs)) [
  | inl empty ↦ ground (arith, empty, e)
  | inr (k, found) ↦ ground (arith, found, e, latest_bound at k xs hs found)
]

latest_reached :
    (at i : ℕ) (times : List ℕ)
    → get_elem? times i ≡ some at
    → (m : ℕ) × (latest times ≡ some m) × (at ≤ m)
latest_reached at i [] e = cc
latest_reached at zero (x ∷ xs) e = elim (Option-cases (latest xs)) [
  | inl empty ↦ (x, ground (arith, empty), ground (arith, e))
  | inr (k, found) ↦ (if ltb k x then x else k, ground (arith, found), ground (arith, e))
]
latest_reached at (suc i) (x ∷ xs) e =
    let (k, found, near) = latest_reached at i xs e in
    (if ltb k x then x else k, ground (arith, found), ground (arith, near))

pub latest-lem :
    (at : ℕ) (times : List ℕ)
    → IsLatest at times
    → elim (latest times) [ none ↦ 0 | some last ↦ last ] ≡ at
latest-lem at times (inl (empty, start)) = ground (arith, empty, start)
latest-lem at times (inr ((i, e), h)) =
    let (m, found, near) = latest_reached at i times e in
    ground (arith, found, near, latest_bound at m times h found)

-- A number measured for the sensor in the hour.
abbrev pub IsReading : {fl : Float64} → String → ℕ → StoredSample fl → fl.F → Type 0
IsReading name bucket row v =
    (row.sensor_name ≡ name)
    × (bucket ≤ row.sample.sampled_at)
    × (row.sample.sampled_at < bucket + 3_600_000_000_000)
    × (row.sample.value ≡ some v)

-- An hourly row of the sensor in the day.
abbrev pub IsHourOfDay :
    {fl : Float64} → String → ℕ → AggregatedSample fl → AggregatedSample fl → Type 0
IsHourOfDay name bucket row same =
    (row.sensor_name ≡ name)
    × (bucket ≤ row.bucket_start)
    × (row.bucket_start < bucket + 86_400_000_000_000)
    × (row ≡ same)

module _ {fl : Float64} (name : String) (bucket : ℕ) where
  pub readings-Picks :
      (rows : List (StoredSample fl))
      → Picks (IsReading name bucket) rows (values (measured_by bucket name rows))
  readings-Picks [] = done
  readings-Picks (row ∷ rows) =
      elim (Bool-cases (is_measured bucket row && str_eq row.sensor_name name)) [
        | inl measured ↦ by_value measured row.sample.value refl (readings-Picks rows)
        | inr other ↦
            subst (λ vs. Picks (IsReading name bucket) (row ∷ rows) vs) (ground (arith, other))
              (passed
                (λ v (named, after, before, given).
                  ground
                    (arith, other, after, before, given, (eq_iff row.sensor_name name).1 named))
                (readings-Picks rows))
      ]
    where
      by_value :
          (is_measured bucket row && str_eq row.sensor_name name) ≡ true
          → (o : Option fl.F) → row.sample.value ≡ o
          → Picks (IsReading name bucket) rows (values (measured_by bucket name rows))
          → Picks
              (IsReading name bucket)
              (row ∷ rows)
              (values (measured_by bucket name (row ∷ rows)))
      by_value measured none missing picks = absurd (ground (arith, measured, missing))
      by_value measured (some v) given picks =
          subst (λ vs. Picks (IsReading name bucket) (row ∷ rows) vs)
            {x = v ∷ values (measured_by bucket name rows)} (ground (arith, measured, given))
            (taken
              (
                (eq_iff row.sensor_name name).0
                    (&&_right (is_measured bucket row) (str_eq row.sensor_name name) measured),
                ground (arith, measured),
                ground (arith, measured),
                given,
              )
              picks)

  pub hours-Picks :
      (rows : List (AggregatedSample fl))
      → Picks (IsHourOfDay name bucket) rows (hours_of bucket name rows)
  hours-Picks [] = done
  hours-Picks (row ∷ rows) =
      elim (Bool-cases (is_of_day bucket row && str_eq row.sensor_name name)) [
        | inl within ↦
            subst (λ hours. Picks (IsHourOfDay name bucket) (row ∷ rows) hours)
              {x = row ∷ hours_of bucket name rows} (ground (arith, within))
              (taken
                (
                  (eq_iff row.sensor_name name).0
                      (&&_right (is_of_day bucket row) (str_eq row.sensor_name name) within),
                  ground (arith, within),
                  ground (arith, within),
                  refl,
                )
                (hours-Picks rows))
        | inr other ↦
            subst (λ hours. Picks (IsHourOfDay name bucket) (row ∷ rows) hours)
              {x = hours_of bucket name rows} (ground (arith, other))
              (passed
                (λ same (named, after, before, _).
                  ground (arith, other, after, before, (eq_iff row.sensor_name name).1 named))
                (hours-Picks rows))
      ]
