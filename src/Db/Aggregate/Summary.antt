-- ===== src/Db/Aggregate/Summary.antt =====
-- What a row of an aggregate table says of the rows that it is made of.
use go_goodwe.Base.{
  ℕ, zero, suc, Bool-cases, true, false, inl, inr, List, [], ◌∷◌, String, some, get_elem?, All, ◌≡◌,
  refl, sym, subst, arith,
}
use go_goodwe.Et.Value.{Float64}
use go_goodwe.Db.Tables.{AggregatedSample}
use go_goodwe.Db.Aggregate.{least, greatest, summary}
use go_goodwe.Db.Aggregate.Rows.{first}

-- An item of a list.
abbrev pub Occurs {ℓ} : {A : Type ℓ} → A → List A → Type ℓ
Occurs x xs = (i : ℕ) × (get_elem? xs i ≡ some x)

-- How the numbers that a column holds compare: of two different ones at most one is less, and `not
-- less` is transitive. SQLite stores NaN, which neither holds of, as NULL.
pub record IsOrdered (fl : Float64) (IsNumber : fl.F → Type 0) : Type 0 where
  pub asymmetric : (a b : fl.F) → IsNumber a → IsNumber b → fl.lt a b ≡ true → fl.lt b a ≡ false
  pub not_less_trans :
      (a b c : fl.F)
      → IsNumber a
      → IsNumber b
      → IsNumber c
      → fl.lt a b ≡ false
      → fl.lt b c ≡ false
      → fl.lt a c ≡ false

module _ (fl : Float64) where
  -- One of the numbers, and none is less.
  abbrev pub IsLeast : fl.F → List fl.F → Type 0
  IsLeast low vs = Occurs low vs × All (λ v. fl.lt v low ≡ false) vs

  -- One of the numbers, and none is greater.
  abbrev pub IsGreatest : fl.F → List fl.F → Type 0
  IsGreatest high vs = Occurs high vs × All (λ v. fl.lt high v ≡ false) vs

  module _ (IsNumber : fl.F → Type 0) (order : IsOrdered fl IsNumber) where
    not_less_itself : (v : fl.F) → IsNumber v → fl.lt v v ≡ false
    not_less_itself v h = elim (Bool-cases (fl.lt v v)) [
      | inl less ↦ order.asymmetric v v h h less
      | inr same ↦ same
    ]

    skip :
        {m : fl.F} (v w : fl.F) (vs : List fl.F) (i : ℕ)
        → get_elem? (v ∷ vs) i ≡ some m
        → Occurs m (v ∷ w ∷ vs)
    skip v w vs zero found = (0, found)
    skip v w vs (suc i) found = (suc (suc i), found)

    least-IsLeast :
        (v : fl.F) (vs : List fl.F)
        → IsNumber v
        → All IsNumber vs
        → IsLeast (least fl v vs) (v ∷ vs) × IsNumber (least fl v vs)
    least-IsLeast v [] h hs = (((0, refl), (not_less_itself v h, tt)), h)
    least-IsLeast v (w ∷ vs) h (h', hs) = elim (Bool-cases (fl.lt w v)) [
      | inl less ↦
          let (((i, found), (bound, rest)), number) = least-IsLeast w vs h' hs in
          let same : least fl v (w ∷ vs) ≡ least fl w vs = ground (arith, less) in
          subst (λ m. IsLeast m (v ∷ w ∷ vs) × IsNumber m) (sym same)
            (
              (
                (suc i, found),
                (
                  order.not_less_trans v w (least fl w vs) h h' number
                      (order.asymmetric w v h' h less) bound,
                  (bound, rest),
                ),
              ),
              number,
            )
      | inr kept ↦
          let (((i, found), (bound, rest)), number) = least-IsLeast v vs h hs in
          let same : least fl v (w ∷ vs) ≡ least fl v vs = ground (arith, kept) in
          subst (λ m. IsLeast m (v ∷ w ∷ vs) × IsNumber m) (sym same)
            (
              (
                skip v w vs i found,
                (bound, (order.not_less_trans w v (least fl v vs) h' h number kept bound, rest)),
              ),
              number,
            )
    ]

    greatest-IsGreatest :
        (v : fl.F) (vs : List fl.F)
        → IsNumber v
        → All IsNumber vs
        → IsGreatest (greatest fl v vs) (v ∷ vs) × IsNumber (greatest fl v vs)
    greatest-IsGreatest v [] h hs = (((0, refl), (not_less_itself v h, tt)), h)
    greatest-IsGreatest v (w ∷ vs) h (h', hs) = elim (Bool-cases (fl.lt v w)) [
      | inl less ↦
          let (((i, found), (bound, rest)), number) = greatest-IsGreatest w vs h' hs in
          let same : greatest fl v (w ∷ vs) ≡ greatest fl w vs = ground (arith, less) in
          subst (λ m. IsGreatest m (v ∷ w ∷ vs) × IsNumber m) (sym same)
            (
              (
                (suc i, found),
                (
                  order.not_less_trans (greatest fl w vs) w v number h' h bound
                      (order.asymmetric v w h h' less),
                  (bound, rest),
                ),
              ),
              number,
            )
      | inr kept ↦
          let (((i, found), (bound, rest)), number) = greatest-IsGreatest v vs h hs in
          let same : greatest fl v (w ∷ vs) ≡ greatest fl v vs = ground (arith, kept) in
          subst (λ m. IsGreatest m (v ∷ w ∷ vs) × IsNumber m) (sym same)
            (
              (
                skip v w vs i found,
                (bound, (order.not_less_trans (greatest fl v vs) v w number h h' bound kept, rest)),
              ),
              number,
            )
    ]

  -- The row of a sensor and a bucket: the least of the minima, the greatest of the maxima, what AVG
  -- makes of the means, and a count.
  pub record IsSummary (average : List fl.F → fl.F) (name : String) (bucket : ℕ)
      (lows highs means : List fl.F) (count : ℕ) (row : AggregatedSample fl) : Type 0 where
    pub named : row.sensor_name ≡ name
    pub started : row.bucket_start ≡ bucket
    pub minimum : IsLeast row.value_min lows
    pub maximum : IsGreatest row.value_max highs
    pub mean : row.value_avg ≡ average means
    pub counted : row.sample_count ≡ count

  pub summary-IsSummary :
      (IsNumber : fl.F → Type 0)
      → IsOrdered fl IsNumber
      → (average : List fl.F → fl.F) (name : String) (bucket : ℕ) (low : fl.F) (lows : List fl.F)
        (high : fl.F) (highs means : List fl.F) (count : ℕ)
      → All IsNumber (low ∷ lows)
      → All IsNumber (high ∷ highs)
      → (row : AggregatedSample fl) × (first
            (summary {fl = fl} average bucket name (low ∷ lows) (high ∷ highs) means count)
          ≡ some row)
        × IsSummary average name bucket (low ∷ lows) (high ∷ highs) means count row
  summary-IsSummary IsNumber order average name bucket low lows high highs means count (h, hs)
        (g, gs) =
      (
        _,
        refl,
        record {
          named = refl;
          started = refl;
          minimum = (least-IsLeast IsNumber order low lows h hs).0;
          maximum = (greatest-IsGreatest IsNumber order high highs g gs).0;
          mean = refl;
          counted = refl;
        },
      )
