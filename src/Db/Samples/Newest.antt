-- ===== src/Db/Samples/Newest.antt =====
-- QueryRawSamples returns the newest samples, the oldest of them first.
use go_goodwe.Base.{
  ℕ, zero, suc, ◌≤◌, ◌+◌, leb, ◌&&◌, Bool, false, Bool-cases, List, [], ◌∷◌, ◌++◌, take, length,
  All, All-append, take-All, reverse-All, String, inl, inr, ◌≡◌, refl, ap, sym, subst, ◌∙◌, arith,
}
use Prim.Native.Nat.{min}
use mathlib.Core.List.{reverse, reverse-cons}
use go_goodwe.Base.Result.{ok}
use go_goodwe.Et.Value.{Float64}
use go_goodwe.Db.Tables.{Sample, StoredSample, Tables, Engine, IsHealthy, keep}
use go_goodwe.Db.Samples.{in_window, samples_of, query_raw_samples}
use go_goodwe.Db.Keep.{keep-keep}

module _ {fl : Float64} where
  abbrev pub from : ℕ → Sample fl → Bool
  from at sample = leb at sample.sampled_at

  abbrev pub IsDescending : List (StoredSample fl) → Type 0
  IsDescending [] = Unit {0}
  IsDescending (row ∷ rows) =
      All (λ r. r.sample.sampled_at ≤ row.sample.sampled_at) rows × IsDescending rows

  abbrev pub IsAscending : List (Sample fl) → Type 0
  IsAscending [] = Unit {0}
  IsAscending (sample ∷ samples) =
      All (λ s. sample.sampled_at ≤ s.sampled_at) samples × IsAscending samples

  -- `ORDER BY sampled_at DESC` gives back the same rows, the newest first.
  pub record IsNewestFirst (engine : Engine fl) : Type 0 where
    pub descending : (rows : List (StoredSample fl)) → IsDescending (engine.newest_first rows)
    pub same_rows :
        (p : StoredSample fl → Bool) (rows : List (StoredSample fl))
        → length (keep p (engine.newest_first rows)) ≡ length (keep p rows)

  keep-older :
      (at : ℕ) (row : StoredSample fl) (rows : List (StoredSample fl))
      → from at row.sample ≡ false
      → All (λ r. r.sample.sampled_at ≤ row.sample.sampled_at) rows
      → length (keep (λ r. from at r.sample) rows) ≡ 0
  keep-older at row [] older h = refl
  keep-older at row (r ∷ rows) older (h, hs) =
      let late : from at r.sample ≡ false = ground (arith, older, h) in
      ground (arith, late, keep-older at row rows older hs)

  take-Descending :
      (n : ℕ) (rows : List (StoredSample fl)) → IsDescending rows → IsDescending (take n rows)
  take-Descending zero rows h = tt
  take-Descending (suc n) [] h = tt
  take-Descending (suc n) (row ∷ rows) (h, hs) = (
    take-All (λ r. r.sample.sampled_at ≤ row.sample.sampled_at) n rows h,
    take-Descending n rows hs,
  )

  -- The first rows of a descending list are the newest.
  take-newest :
      (n at : ℕ) (rows : List (StoredSample fl))
      → IsDescending rows
      → length (keep (λ r. from at r.sample) (take n rows))
        ≡ min n (length (keep (λ r. from at r.sample) rows))
  take-newest zero at rows h = omega arith
  take-newest (suc n) at [] h = omega arith
  take-newest (suc n) at (row ∷ rows) (h, hs) = elim (Bool-cases (from at row.sample)) [
    | inl new ↦ ground (arith, new, take-newest n at rows hs)
    | inr old ↦ ground (
      arith,
      old,
      keep-older at row rows old h,
      keep-older at row (take n rows) old
          (take-All (λ r. r.sample.sampled_at ≤ row.sample.sampled_at) n rows h),
    )
  ]

  keep-append_length :
      (p : Sample fl → Bool) (xs ys : List (Sample fl))
      → length (keep p (xs ++ ys)) ≡ length (keep p xs) + length (keep p ys)
  keep-append_length p [] ys = omega arith
  keep-append_length p (x ∷ xs) ys = ground (arith, keep-append_length p xs ys)

  keep-reverse :
      (p : Sample fl → Bool) (xs : List (Sample fl))
      → length (keep p (reverse xs)) ≡ length (keep p xs)
  keep-reverse p [] = refl
  keep-reverse p (x ∷ xs) =
      ap (λ s. length (keep p s)) (reverse-cons x xs)
      ∙ ground (arith, keep-append_length p (reverse xs) (x ∷ []), keep-reverse p xs)

  keep-samples_of :
      (p : Sample fl → Bool) (rows : List (StoredSample fl))
      → length (keep p (samples_of rows)) ≡ length (keep (λ r. p r.sample) rows)
  keep-samples_of p [] = refl
  keep-samples_of p (row ∷ rows) = ground (arith, keep-samples_of p rows)

  samples_of-All :
      (P : Sample fl → Type 0) (rows : List (StoredSample fl))
      → All (λ r. P r.sample) rows
      → All P (samples_of rows)
  samples_of-All P [] h = tt
  samples_of-All P (row ∷ rows) (h, hs) = (h, samples_of-All P rows hs)

  append-Ascending :
      (xs : List (Sample fl)) (x : Sample fl)
      → IsAscending xs
      → All (λ s. s.sampled_at ≤ x.sampled_at) xs
      → IsAscending (xs ++ (x ∷ []))
  append-Ascending [] x up below = (tt, tt)
  append-Ascending (y ∷ xs) x (h, hs) (b, bs) = (
    All-append (λ s. y.sampled_at ≤ s.sampled_at) xs (x ∷ []) h (b, tt),
    append-Ascending xs x hs bs,
  )

  reverse-Ascending :
      (rows : List (StoredSample fl)) → IsDescending rows → IsAscending (reverse (samples_of rows))
  reverse-Ascending [] h = tt
  reverse-Ascending (row ∷ rows) (h, hs) =
      subst (λ s. IsAscending s) (sym (reverse-cons row.sample (samples_of rows)))
        (append-Ascending (reverse (samples_of rows)) row.sample (reverse-Ascending rows hs) (
          reverse-All (λ s. s.sampled_at ≤ row.sample.sampled_at) (samples_of rows)
            (samples_of-All (λ s. s.sampled_at ≤ row.sample.sampled_at) rows h)))

  module _ (engine : Engine fl) (healthy : IsHealthy engine) (order : IsNewestFirst engine) where
    -- Where no statement fails and the database orders rows as told, a query of raw samples returns
    -- them oldest first, and the newest ones: of the sensor's samples in the window that are not
    -- older than any given time there are as many as there are in the database, up to the limit.
    pub query_raw_samples_newest :
        (name : String) (since until limit : ℕ) (t : Tables fl)
        → (samples : List (Sample fl)) × (u : Tables fl) × (query_raw_samples engine name since
              until limit t
            ≡ (ok samples, u))
          × IsAscending samples
          × ((at : ℕ)
              → length (keep (from at) samples)
                ≡ min limit (
                    length (
                      keep
                        (λ row. in_window name since until row && from at row.sample)
                        t.samples)))
    unfolding query_raw_samples
    query_raw_samples_newest name since until limit t =
        let found = keep (in_window name since until) t.samples in
        let sorted = engine.newest_first found in
        let down = order.descending found in
        (
          reverse (samples_of (take limit sorted)),
          record t { executed = suc t.executed },
          ground (arith, healthy t.executed),
          reverse-Ascending (take limit sorted) (take-Descending limit sorted down),
          λ at.
              keep-reverse (from at) (samples_of (take limit sorted))
              ∙ (keep-samples_of (from at) (take limit sorted)
                  ∙ (take-newest limit at sorted down
                      ∙ ap (min limit) (
                          order.same_rows (λ r. from at r.sample) found
                          ∙ ap (λ rows. length rows)
                              (keep-keep (in_window name since until) (λ r. from at r.sample)
                                (λ row. in_window name since until row && from at row.sample)
                                t.samples (λ row. refl))))),
        )
