-- ===== src/Db/Prune/Hourly/Complete.antt =====
-- What the pruning of the hourly rows leaves.
use go_goodwe.Base.{
  take-All, ℕ, zero, suc, ◌+◌, ◌-◌, ◌<◌, ◌==◌, ◌&&◌, Bool, true, false, not, Bool-cases, &&_right,
  List, [], ◌∷◌, take, length, All, inl, inr, ◌≡◌, refl, ap, sym, ◌∙◌, arith,
}
use text.Mathlib.Text.{◌==◌ as str_eq}
use text.Mathlib.TextEquality.{eq_iff}
use go_goodwe.Base.Result.{ok}
use go_goodwe.Et.Value.{Float64}
use go_goodwe.Db.Tables.{AggregatedSample, Tables, Engine, IsHealthy, IsLive, keep}
use go_goodwe.Db.Buckets.{by_bucket, by_bucket-All, length-by_bucket, same_key}
use go_goodwe.Db.Keep.{
  length-keep, keep-keep, keep_full, keep_same_length, keep_none, keep-All, keep_holds,
}
use go_goodwe.Db.Prune.Hourly.{
  is_old, is_picked, pick_oldest, drop_oldest, delete_hourly, prune_hourly_rounds, prune_hourly,
}

module _ {fl : Float64} (before : ℕ) where
  same_key-old :
      (a b : AggregatedSample fl)
      → same_key a b ≡ true
      → is_old before b ≡ true
      → is_old before a ≡ true
  same_key-old a b same old = ground (
    arith,
    &&_right (str_eq a.sensor_name b.sensor_name) (a.bucket_start == b.bucket_start) same,
    old,
  )

  is_picked-old :
      (picks : List (AggregatedSample fl)) (row : AggregatedSample fl)
      → All (λ pick. is_old before pick ≡ true) picks
      → is_picked picks row ≡ true
      → is_old before row ≡ true
  is_picked-old [] row h picked = cc
  is_picked-old (pick ∷ picks) row (h, hs) picked = elim (Bool-cases (same_key row pick)) [
    | inl this ↦ same_key-old row pick this h
    | inr other ↦ is_picked-old picks row hs ground (arith, picked, other)
  ]

  pick_oldest-old :
      (batch : ℕ) (rows : List (AggregatedSample fl))
      → All (λ pick. is_old before pick ≡ true) (pick_oldest before batch rows)
  pick_oldest-old batch rows =
      take-All (λ pick. is_old before pick ≡ true) batch (by_bucket (keep (is_old before) rows))
        (by_bucket-All (λ pick. is_old before pick ≡ true) (keep (is_old before) rows)
          (keep_holds (is_old before) rows))

  -- A batch takes no row that is not old.
  drop_oldest-recent :
      (batch : ℕ) (rows : List (AggregatedSample fl))
      → keep (λ row. not (is_old before row)) (drop_oldest before batch rows)
        ≡ keep (λ row. not (is_old before row)) rows
  drop_oldest-recent batch rows =
      keep-keep (λ row. not (is_picked (pick_oldest before batch rows) row))
        (λ row. not (is_old before row)) (λ row. not (is_old before row)) rows
        (λ row.
          not_both (is_picked (pick_oldest before batch rows) row) (is_old before row)
            (is_picked-old (pick_oldest before batch rows) row (pick_oldest-old batch rows)))
    where
      not_both : (p o : Bool) → (p ≡ true → o ≡ true) → not o ≡ (not p && not o)
      not_both true o h = ap not (h refl)
      not_both false o h = refl

  is_picked-head :
      (row : AggregatedSample fl) (picks : List (AggregatedSample fl))
      → is_picked (row ∷ picks) row ≡ true
  is_picked-head row picks = ground (arith, (eq_iff row.sensor_name row.sensor_name).1 refl)

  all_unpicked :
      (b : ℕ) (sorted : List (AggregatedSample fl))
      → All (λ row. not (is_picked (take (suc b) sorted) row) ≡ true) sorted
      → length sorted ≡ 0
  all_unpicked b [] h = refl
  all_unpicked b (row ∷ sorted) (h, hs) =
      absurd (ground (arith, h, is_picked-head row (take b sorted)))

  length_zero : (rows : List (AggregatedSample fl)) → length rows ≡ 0 → rows ≡ []
  length_zero [] h = refl
  length_zero (row ∷ rows) h = absurd (omega (arith, h))

  -- A batch that takes nothing was the last.
  drop_oldest-last :
      (b : ℕ) (rows : List (AggregatedSample fl))
      → length (drop_oldest before (suc b) rows) ≡ length rows
      → keep (λ row. not (is_old before row)) rows ≡ rows
  drop_oldest-last b rows same =
      let picks = pick_oldest before (suc b) rows in
      let unpicked = keep_full (λ row. not (is_picked picks row)) rows same in
      let sorted = by_bucket (keep (is_old before) rows) in
      let nothing = all_unpicked b sorted (
        by_bucket-All (λ row. not (is_picked picks row) ≡ true) (keep (is_old before) rows)
          (keep-All (λ row. not (is_picked picks row) ≡ true) (is_old before) rows unpicked)) in
      keep_none (is_old before) rows (
        length_zero (keep (is_old before) rows)
          (sym (length-by_bucket (keep (is_old before) rows)) ∙ nothing))

module _ {fl : Float64} (engine : Engine fl) (healthy : IsHealthy engine) (live : IsLive engine)
    (before b : ℕ) where
  prune_hourly_rounds_all :
      (rounds total : ℕ) (t : Tables fl)
      → length t.hourly < rounds
      → (k : ℕ) × (prune_hourly_rounds engine rounds before (suc b) total t ≡ (
        ok (total + (length t.hourly - length (keep (λ row. not (is_old before row)) t.hourly))),
        record t { hourly = keep (λ row. not (is_old before row)) t.hourly; executed = k },
      ))
  unfolding prune_hourly_rounds delete_hourly
  prune_hourly_rounds_all zero total t enough = absurd (omega arith)
  prune_hourly_rounds_all (suc rounds) total t enough =
      let picks = pick_oldest before (suc b) t.hourly in
      let rest = drop_oldest before (suc b) t.hourly in
      let fewer = length-keep (λ row. not (is_picked picks row)) t.hourly in
      elim (Bool-cases ((length t.hourly - length rest) == 0)) [
        | inl last ↦
            let same : length rest ≡ length t.hourly = ground (arith, last, fewer) in
            let done = drop_oldest-last before b t.hourly same in
            let stays = keep_same_length (λ row. not (is_picked picks row)) t.hourly same in
            (suc t.executed, ground (arith, healthy t.executed, last, same, done, stays))
        | inr more ↦
            let u : Tables fl = record t { hourly = rest; executed = suc t.executed } in
            let (k, ran) =
              prune_hourly_rounds_all rounds (total + (length t.hourly - length rest)) u
                (ground (arith, more, enough, fewer)) in
            let same = drop_oldest-recent before (suc b) t.hourly in
            let bound = length-keep (λ row. not (is_old before row)) rest in
            (
              k,
              ground
                  (arith, healthy t.executed, live (suc t.executed), more, ran, same, bound, fewer),
            )
      ]

  -- Where no statement fails, the context is not cancelled and the batch is not empty, pruning the
  -- hourly rows returns: it deletes exactly the rows of buckets before the given time, changes no
  -- other table and returns how many they were.
  pub prune_hourly_all :
      (t : Tables fl)
      → (k : ℕ) × (prune_hourly engine before (suc b) t ≡ (
        ok (length t.hourly - length (keep (λ row. not (is_old before row)) t.hourly)),
        record t { hourly = keep (λ row. not (is_old before row)) t.hourly; executed = k },
      ))
  unfolding prune_hourly
  prune_hourly_all t =
      let (k, ran) =
        prune_hourly_rounds_all (suc (length t.hourly)) 0 (record t { executed = suc t.executed })
          (omega arith) in
      (k, ground (arith, ran))
