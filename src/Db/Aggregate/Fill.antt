-- ===== src/Db/Aggregate/Fill.antt =====
-- The table that the loop over the buckets leaves, and that the loop ends.
use go_goodwe.Base.{
  ℕ, zero, suc, ◌+◌, ◌-◌, ◌*◌, ◌<◌, ◌≤◌, ltb, true, false, Bool-cases, List, String, none, inl, inr,
  ◌≡◌, ◌≢◌, refl, ap, length, lt→ltb, ◌∙◌, arith,
}
use go_goodwe.Base.Result.{ok}
use go_goodwe.Et.Value.{Float64}
use go_goodwe.Db.Tables.{AggregatedSample, Tables, Engine, IsHealthy, IsLive}
use go_goodwe.Db.Aggregate.{put_rows, gather, Level, aggregate_bucket, aggregate_buckets}
use go_goodwe.Db.Aggregate.Rows.{row_at, row_at-put_rows, or_else}

module _ {fl : Float64} where
  abbrev pub rows_of : Level fl → Tables fl → ℕ → List (AggregatedSample fl)
  rows_of level t at = gather (level.group t at) (level.names t at)

  -- The loop as a function on the table.
  abbrev pub fill_table :
      (ℕ → List (AggregatedSample fl))
      → ℕ
      → ℕ
      → ℕ
      → ℕ
      → List (AggregatedSample fl)
      → List (AggregatedSample fl)
  fill_table rows width zero at end table = table
  fill_table rows width (suc rounds) at end table = elim (ltb at end) [
    | false ↦ table
    | true ↦ fill_table rows width rounds (at + width) end (put_rows (rows at) table)
  ]

  -- What storing rows, and the count of the statements, leave as it was.
  pub record IsLevel (level : Level fl) : Type 0 where
    pub wide : 0 < level.width
    pub stored :
        (rows : List (AggregatedSample fl)) (t : Tables fl) (k : ℕ)
        → level.target (record (level.store rows t) { executed = k }) ≡ rows
    pub counted :
        (t : Tables fl) (k : ℕ)
        → (level.target (record t { executed = k }) ≡ level.target t)
          × (level.times (record t { executed = k }) ≡ level.times t)
          × ((at : ℕ) → rows_of level (record t { executed = k }) at ≡ rows_of level t at)
    pub apart :
        (rows : List (AggregatedSample fl)) (t : Tables fl) (k at : ℕ)
        → rows_of level (record (level.store rows t) { executed = k }) at ≡ rows_of level t at

  module _ (engine : Engine fl) (healthy : IsHealthy engine) (live : IsLive engine)
      (level : Level fl) (laws : IsLevel level) (rows : ℕ → List (AggregatedSample fl)) where
    pub aggregate_buckets-fill_table :
        (rounds at end total : ℕ) (t : Tables fl)
        → end - at < rounds
        → ((b : ℕ) → rows_of level t b ≡ rows b)
        → (n : ℕ) × (u : Tables fl) × (aggregate_buckets engine level rounds at end total t
            ≡ (ok n, u))
          × (level.target u ≡ fill_table rows level.width rounds at end (level.target t))
    unfolding aggregate_buckets aggregate_bucket
    aggregate_buckets-fill_table zero at end total t enough same = absurd (omega arith)
    aggregate_buckets-fill_table (suc rounds) at end total t enough same =
        elim (Bool-cases (ltb at end)) [
          | inr past ↦ (total, t, ground (arith, past), ground (arith, past))
          | inl before ↦
              let next = put_rows (rows_of level t at) (level.target t) in
              let after : Tables fl = record (level.store next t) { executed = suc t.executed } in
              let (n, u, ran, filled) =
                aggregate_buckets-fill_table rounds (at + level.width) end
                  (total + length (rows_of level t at)) after
                  (ground (arith, before, enough, laws.wide))
                  (λ b. laws.apart next t (suc t.executed) b ∙ same b) in
              let put : level.target after ≡ put_rows (rows at) (level.target t) =
                laws.stored next t (suc t.executed)
                ∙ ap (λ new. put_rows new (level.target t)) (same at) in
              (
                n,
                u,
                ground (arith, before, healthy t.executed, live (suc t.executed), ran),
                ground (arith, before, filled, put),
              )
        ]

  module _ (rows : ℕ → List (AggregatedSample fl)) (width : ℕ) (wide : 0 < width) (name : String)
      (own : (b at : ℕ) → b ≢ at → row_at name b (rows at) ≡ none) where
    pub fill_table-before :
        (rounds at end b : ℕ) (table : List (AggregatedSample fl))
        → b < at
        → row_at name b (fill_table rows width rounds at end table) ≡ row_at name b table
    fill_table-before zero at end b table before = refl
    fill_table-before (suc rounds) at end b table before = elim (Bool-cases (ltb at end)) [
      | inr past ↦ ground (arith, past)
      | inl more ↦
          let later =
            fill_table-before rounds (at + width) end b (put_rows (rows at) table) (omega arith) in
          ground (
            arith,
            more,
            later,
            row_at-put_rows name b (rows at) table,
            own b at (λ e. omega (arith, e)),
          )
    ]

    pub fill_table-after :
        (rounds at end b : ℕ) (table : List (AggregatedSample fl))
        → end ≤ b
        → row_at name b (fill_table rows width rounds at end table) ≡ row_at name b table
    fill_table-after zero at end b table behind = refl
    fill_table-after (suc rounds) at end b table behind = elim (Bool-cases (ltb at end)) [
      | inr past ↦ ground (arith, past)
      | inl more ↦
          let later =
            fill_table-after rounds (at + width) end b (put_rows (rows at) table) behind in
          ground (
            arith,
            more,
            later,
            row_at-put_rows name b (rows at) table,
            own b at (λ e. ground (arith, e, more, behind)),
          )
    ]

    -- A bucket's rows are put over what was there.
    pub fill_table-bucket :
        (rounds at end i b : ℕ) (table : List (AggregatedSample fl))
        → end - at < rounds
        → b ≡ at + i * width
        → b < end
        → row_at name b (fill_table rows width rounds at end table)
          ≡ or_else (row_at name b (rows b)) (row_at name b table)
    fill_table-bucket zero at end i b table enough here inside = absurd (omega arith)
    fill_table-bucket (suc rounds) at end zero b table enough here inside =
        let equal : b ≡ at = omega (arith, here) in
        let more : ltb at end ≡ true = lt→ltb at end (omega arith) in
        let later =
          fill_table-before rounds (at + width) end b (put_rows (rows at) table) (omega arith) in
        ground (arith, more, later, row_at-put_rows name b (rows at) table, ap rows equal)
    fill_table-bucket (suc rounds) at end (suc i) b table enough here inside =
        let more : ltb at end ≡ true = lt→ltb at end (omega arith) in
        let later =
          fill_table-bucket rounds (at + width) end i b (put_rows (rows at) table) (omega arith)
            (here ∙ step at i) inside in
        ground (
          arith,
          more,
          later,
          row_at-put_rows name b (rows at) table,
          own b at (λ e. omega (arith, here, e, step at i)),
        )
      where
        step : (at i : ℕ) → at + suc i * width ≡ (at + width) + i * width
        step at i = omega arith
