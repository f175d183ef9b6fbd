-- ===== src/Db/Aggregate/Rows.antt =====
-- The rows of a bucket and the table they are put into, seen by key.
use go_goodwe.Base.{
  ℕ, ◌==◌, ◌&&◌, Bool, true, false, Bool-cases, &&_left, &&_right, ==_iff, if◌then◌else◌, List, [],
  ◌∷◌, ◌++◌, String, Option, none, some, ◌⊎◌, inl, inr, ◌≡◌, ◌≢◌, refl, ap, sym, subst, ◌∙◌, arith,
}
use text.Mathlib.Text.{◌==◌ as str_eq}
use text.Mathlib.TextEquality.{eq_iff}
use go_goodwe.Et.Value.{Float64}
use go_goodwe.Db.Tables.{AggregatedSample, contains_name, distinct_names, keep}
use go_goodwe.Db.Buckets.{same_key}
use go_goodwe.Db.Aggregate.{put_row, put_rows, gather}

-- The first of two that is there.
abbrev pub or_else {ℓ} : {A : Type ℓ} → Option A → Option A → Option A
or_else none b = b
or_else (some a) b = some a

abbrev pub first {ℓ} : {A : Type ℓ} → List A → Option A
first [] = none
first (x ∷ xs) = some x

str_eq-false : (a b : String) → str_eq a b ≡ false → a ≢ b
str_eq-false a b h e = ground (arith, h, (eq_iff a b).1 e)

str_eq-swap : (a b : String) → str_eq a b ≡ false → str_eq b a ≡ false
str_eq-swap a b h = elim (Bool-cases (str_eq b a)) [
  | inl same ↦ absurd (str_eq-false a b h (sym ((eq_iff b a).0 same)))
  | inr differs ↦ differs
]

module _ {fl : Float64} where
  abbrev has_key : String → ℕ → AggregatedSample fl → Bool
  has_key name at row = str_eq row.sensor_name name && row.bucket_start == at

  -- The row of a sensor and a bucket.
  abbrev pub row_at : String → ℕ → List (AggregatedSample fl) → Option (AggregatedSample fl)
  row_at name at [] = none
  row_at name at (row ∷ rows) = if has_key name at row then some row else row_at name at rows

  has_key-same :
      (name : String) (at : ℕ) (a b : AggregatedSample fl)
      → same_key a b ≡ true
      → has_key name at a ≡ has_key name at b
  has_key-same name at a b h =
      let named =
        (eq_iff a.sensor_name b.sensor_name).0
          (&&_left (str_eq a.sensor_name b.sensor_name) (a.bucket_start == b.bucket_start) h) in
      let started =
        (==_iff a.bucket_start b.bucket_start).0
          (&&_right (str_eq a.sensor_name b.sensor_name) (a.bucket_start == b.bucket_start) h) in
      cc (named, started)

  has_key-equal :
      (name : String) (at : ℕ) (row : AggregatedSample fl)
      → has_key name at row ≡ true
      → (row.sensor_name ≡ name) × (row.bucket_start ≡ at)
  has_key-equal name at row h = (
    (eq_iff row.sensor_name name).0
        (&&_left (str_eq row.sensor_name name) (row.bucket_start == at) h),
    (==_iff row.bucket_start at).0
        (&&_right (str_eq row.sensor_name name) (row.bucket_start == at) h),
  )

  equal-has_key :
      (name : String) (at : ℕ) (row : AggregatedSample fl)
      → row.sensor_name ≡ name
      → row.bucket_start ≡ at
      → has_key name at row ≡ true
  equal-has_key name at row named started =
      ground (arith, (eq_iff row.sensor_name name).1 named, started)

  same_key-of :
      (name : String) (at : ℕ) (a b : AggregatedSample fl)
      → has_key name at a ≡ true
      → has_key name at b ≡ true
      → same_key a b ≡ true
  same_key-of name at a b ha hb =
      let (named, started) = has_key-equal name at a ha in
      let (called, begun) = has_key-equal name at b hb in
      equal-has_key b.sensor_name b.bucket_start a (named ∙ sym called) (started ∙ sym begun)

  row_at-put_row :
      (name : String) (at : ℕ) (new : AggregatedSample fl) (rows : List (AggregatedSample fl))
      → row_at name at (put_row new rows)
        ≡ (if has_key name at new then some new else row_at name at rows)
  row_at-put_row name at new [] = refl
  row_at-put_row name at new (row ∷ rows) = elim (Bool-cases (same_key row new)) [
    | inl same ↦ ground (arith, same, has_key-same name at row new same)
    | inr other ↦ elim (Bool-cases (has_key name at row)) [
      | inl here ↦ elim (Bool-cases (has_key name at new)) [
        | inl too ↦ absurd (ground (arith, other, same_key-of name at row new here too))
        | inr absent ↦ ground (arith, other, here, absent)
      ]
      | inr there ↦ ground (arith, other, there, row_at-put_row name at new rows)
    ]
  ]

  pub row_at-put_rows :
      (name : String) (at : ℕ) (new rows : List (AggregatedSample fl))
      → row_at name at (put_rows new rows) ≡ or_else (row_at name at new) (row_at name at rows)
  row_at-put_rows name at [] rows = refl
  row_at-put_rows name at (new ∷ more) rows = elim (Bool-cases (has_key name at new)) [
    | inl here ↦ ground (arith, here, row_at-put_row name at new (put_rows more rows))
    | inr there ↦ ground (
      arith,
      there,
      row_at-put_row name at new (put_rows more rows),
      row_at-put_rows name at more rows,
    )
  ]

  row_at-append :
      (name : String) (at : ℕ) (xs ys : List (AggregatedSample fl))
      → row_at name at (xs ++ ys) ≡ or_else (row_at name at xs) (row_at name at ys)
  row_at-append name at [] ys = refl
  row_at-append name at (row ∷ rows) ys = elim (Bool-cases (has_key name at row)) [
    | inl here ↦ ground (arith, here)
    | inr there ↦ ground (arith, there, row_at-append name at rows ys)
  ]

  -- A group has at most one row, which has the group's key.
  abbrev pub IsGroup : String → ℕ → List (AggregatedSample fl) → Type 0
  IsGroup name at rows =
      (rows ≡ [])
      ⊎ ((row : AggregatedSample fl) × (rows ≡ row ∷ [])
          × (row.sensor_name ≡ name)
          × (row.bucket_start ≡ at))

  module _ (at : ℕ) (group : String → List (AggregatedSample fl))
      (grouped : (name : String) → IsGroup name at (group name)) where
    row_at-group : (name : String) → row_at name at (group name) ≡ first (group name)
    row_at-group name = elim (grouped name) [
      | inl empty ↦ ground (arith, empty)
      | inr (row, only, named, started) ↦
          ground (arith, only, equal-has_key name at row named started)
    ]

    row_at-other :
        (name other : String) (b : ℕ)
        → (name ≢ other) ⊎ (b ≢ at)
        → row_at name b (group other) ≡ none
    row_at-other name other b unlike = elim (grouped other) [
      | inl empty ↦ ground (arith, empty)
      | inr (row, only, named, started) ↦ elim (Bool-cases (has_key name b row)) [
        | inr differs ↦ ground (arith, only, differs)
        | inl same ↦
            let (called, begun) = has_key-equal name b row same in
            absurd (elim unlike [
              | inl unnamed ↦ unnamed (sym called ∙ named)
              | inr unbegun ↦ unbegun (sym begun ∙ started)
            ])
      ]
    ]

    pub row_at-gather_other :
        (name : String) (b : ℕ) (names : List String)
        → b ≢ at
        → row_at name b (gather group names) ≡ none
    row_at-gather_other name b [] unlike = refl
    row_at-gather_other name b (other ∷ names) unlike = ground (
      arith,
      row_at-append name b (group other) (gather group names),
      row_at-other name other b (inr unlike),
      row_at-gather_other name b names unlike,
    )

    gathered :
        (name : String) (names : List String)
        → row_at name at (gather group names)
          ≡ (if contains_name name names then first (group name) else none)
    gathered name [] = refl
    gathered name (other ∷ names) = elim (Bool-cases (str_eq name other)) [
      | inl same ↦
          let found : row_at name at (group other) ≡ first (group name) =
            subst (λ n. row_at name at (group n) ≡ first (group name)) ((eq_iff name other).0 same)
              (row_at-group name) in
          ground (
            arith,
            same,
            found,
            row_at-append name at (group other) (gather group names),
            repeated (first (group name)) (contains_name name names),
            gathered name names,
          )
      | inr differs ↦
          let missed = row_at-other name other at (inl (λ e. str_eq-false name other differs e)) in
          ground (
            arith,
            differs,
            missed,
            row_at-append name at (group other) (gather group names),
            gathered name names,
          )
    ]
      where
        repeated :
            (o : Option (AggregatedSample fl)) (b : Bool) → or_else o (if b then o else none) ≡ o
        repeated none true = refl
        repeated none false = refl
        repeated (some row) b = refl

    -- What a bucket's rows have for a sensor is the row of its group.
    pub row_at-gather :
        (name : String) (names : List String)
        → (contains_name name names ≡ false → group name ≡ [])
        → row_at name at (gather group names) ≡ first (group name)
    row_at-gather name names listed = elim (Bool-cases (contains_name name names)) [
      | inl there ↦ ground (arith, there, gathered name names)
      | inr absent ↦ ground (arith, absent, gathered name names, listed absent)
    ]

-- A name that is not listed is no row's name.
pub contains_name-distinct_names {ℓ} :
    {A : Type ℓ} (column : A → String) (name : String) (rows : List A)
    → contains_name name (distinct_names column rows) ≡ false
    → keep (λ row. str_eq (column row) name) rows ≡ []
contains_name-distinct_names column name [] h = refl
contains_name-distinct_names column name (row ∷ rows) h =
    let rest = distinct_names column rows in
    elim (Bool-cases (contains_name (column row) rest)) [
      | inl known ↦ elim (Bool-cases (str_eq name (column row))) [
        | inl same ↦
            let equal = ap (λ n. contains_name n rest) ((eq_iff name (column row)).0 same) in
            absurd (ground (arith, known, h, equal))
        | inr differs ↦ ground (
          arith,
          str_eq-swap name (column row) differs,
          contains_name-distinct_names column name rows (ground (arith, known, h)),
        )
      ]
      | inr new ↦ elim (Bool-cases (str_eq name (column row))) [
        | inl same ↦ absurd (ground (arith, new, same, h))
        | inr differs ↦ ground (
          arith,
          str_eq-swap name (column row) differs,
          contains_name-distinct_names column name rows (ground (arith, new, differs, h)),
        )
      ]
    ]
