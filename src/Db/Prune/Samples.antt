-- ===== src/Db/Prune/Samples.antt =====
-- What the pruning of the raw samples leaves.
use go_goodwe.Base.{
  ℕ, zero, suc, ◌+◌, ◌-◌, ◌<◌, ◌==◌, ◌&&◌, ◌||◌, Bool, true, false, not, Bool-cases, List, [], ◌∷◌,
  length, String, All, inl, inr, ◌≡◌, refl, ap, sym, subst, arith,
}
use text.Mathlib.Text.{◌==◌ as str_eq}
use text.Mathlib.TextEquality.{eq_iff}
use go_goodwe.Base.Result.{ok}
use go_goodwe.Et.Value.{Float64}
use go_goodwe.Db.Tables.{
  StoredSample, Tables, Engine, IsHealthy, IsLive, keep, contains_name, distinct_names,
}
use go_goodwe.Db.Prune.{
  remove, is_prunable, is_old, delete_samples, prune_name, prune_names, prune_samples,
}
use go_goodwe.Db.Prune.Batches.{length-remove, keep-remove, remove_last, remove_same}
use go_goodwe.Db.Keep.{keep-keep, keep_same, keep_any, length-keep}

module _ {fl : Float64} (engine : Engine fl) (healthy : IsHealthy engine) (live : IsLive engine)
    (before b : ℕ) where
  kept_of : String → List (StoredSample fl) → List (StoredSample fl)
  kept_of name = keep (λ row. not (is_prunable name before row))

  prune_name_all :
      (rounds : ℕ) (name : String) (total : ℕ) (t : Tables fl)
      → length t.samples < rounds
      → (k : ℕ) × (prune_name engine rounds name before (suc b) total t ≡ (
        ok (
            total
            + (length t.samples
                - length (keep (λ row. not (is_prunable name before row)) t.samples))),
        record t {
          samples = keep (λ row. not (is_prunable name before row)) t.samples;
          executed = k;
        },
      ))
  unfolding prune_name delete_samples
  prune_name_all zero name total t enough = absurd (omega arith)
  prune_name_all (suc rounds) name total t enough =
      let p = is_prunable {fl = fl} name before in
      let s = t.samples in
      let rest = remove (suc b) p s in
      let fewer = length-remove (suc b) p s in
      elim (Bool-cases ((length s - length rest) == 0)) [
        | inl last ↦
            let same : length rest ≡ length s = ground (arith, last, fewer) in
            let stays = remove_same (suc b) p s same in
            let done = remove_last b p s same in
            (suc t.executed, ground (arith, healthy t.executed, last, same, done, stays))
        | inr more ↦
            let next : Tables fl = record t { samples = rest; executed = suc t.executed } in
            let (k, ran) =
              prune_name_all rounds name (total + (length s - length rest)) next
                (ground (arith, more, enough, fewer)) in
            let same = keep-remove (suc b) p (λ row. not (p row)) s (λ row h. ap not h) in
            let bound = length-keep (λ row. not (p row)) rest in
            (k, ground (arith, healthy t.executed, more, ran, same, bound, fewer))
      ]

  -- A row that is old and of one of the names.
  abbrev is_doomed : List String → StoredSample fl → Bool
  is_doomed names row = is_old before row && contains_name row.sensor_name names

  one_or_more :
      (old this others : Bool)
      → not (old && (this || others)) ≡ (not (this && old) && not (old && others))
  one_or_more true true others = refl
  one_or_more true false others = refl
  one_or_more false true others = refl
  one_or_more false false others = refl

  prune_names_all :
      (names : List String) (total : ℕ) (t : Tables fl)
      → (k : ℕ) × (prune_names engine names before (suc b) total t ≡ (
        ok (
            total
            + (length t.samples - length (keep (λ row. not (is_doomed names row)) t.samples))),
        record t { samples = keep (λ row. not (is_doomed names row)) t.samples; executed = k },
      ))
  unfolding prune_names
  prune_names_all [] total t =
      let all = keep_any (λ row. not (is_doomed [] row)) t.samples (λ row. ground arith) in
      (t.executed, ground (arith, all))
  prune_names_all (name ∷ names) total t =
      let (k, ran) = prune_name_all (suc (length t.samples)) name total t (omega arith) in
      let first = keep (λ row. not (is_prunable name before row)) t.samples in
      let (n, rest) =
        prune_names_all names (total + (length t.samples - length first))
          (record t { samples = first; executed = k }) in
      let joined =
        keep-keep (λ row. not (is_prunable name before row)) (λ row. not (is_doomed names row))
          (λ row. not (is_doomed (name ∷ names) row)) t.samples
          (λ row.
            one_or_more (is_old before row) (str_eq row.sensor_name name)
              (contains_name row.sensor_name names)) in
      let bound = length-keep (λ row. not (is_doomed names row)) first in
      let bound1 = length-keep (λ row. not (is_prunable name before row)) t.samples in
      (n, ground (arith, live k, ran, rest, joined, bound, bound1))

  contains_name_mono :
      (names : List String) (name : String) (rows : List (StoredSample fl))
      → All (λ row. contains_name row.sensor_name names ≡ true) rows
      → All (λ row. contains_name row.sensor_name (name ∷ names) ≡ true) rows
  contains_name_mono names name [] h = tt
  contains_name_mono names name (row ∷ rows) (h, hs) =
      (ground (arith, h), contains_name_mono names name rows hs)

  distinct_names_all :
      (rows : List (StoredSample fl))
      → All
          (λ row. contains_name row.sensor_name (distinct_names (λ r. r.sensor_name) rows) ≡ true)
          rows
  distinct_names_all [] = tt
  distinct_names_all (row ∷ rows) =
      elim (Bool-cases (contains_name row.sensor_name (distinct_names (λ r. r.sensor_name) rows))) [
        | inl listed ↦
            let same : distinct_names (λ r. r.sensor_name) (row ∷ rows)
                ≡ distinct_names (λ r. r.sensor_name) rows =
              ground (arith, listed) in
            subst (λ names. All (λ r. contains_name r.sensor_name names ≡ true) (row ∷ rows))
              (sym same) (listed, distinct_names_all rows)
        | inr new ↦
            let grown : distinct_names (λ r. r.sensor_name) (row ∷ rows)
                ≡ row.sensor_name ∷ distinct_names (λ r. r.sensor_name) rows =
              ground (arith, new) in
            subst (λ names. All (λ r. contains_name r.sensor_name names ≡ true) (row ∷ rows))
              (sym grown)
              (
                ground (arith, (eq_iff row.sensor_name row.sensor_name).1 refl),
                contains_name_mono (distinct_names (λ r. r.sensor_name) rows) row.sensor_name rows
                    (distinct_names_all rows),
              )
      ]

  not_and : (a b : Bool) → b ≡ true → not (a && b) ≡ not a
  not_and true true h = refl
  not_and true false h = cc
  not_and false c h = refl

  listed_doomed :
      (names : List String) (rows : List (StoredSample fl))
      → All (λ row. contains_name row.sensor_name names ≡ true) rows
      → All (λ row. not (is_doomed names row) ≡ not (is_old before row)) rows
  listed_doomed names [] h = tt
  listed_doomed names (row ∷ rows) (h, hs) = (
    not_and (is_old before row) (contains_name row.sensor_name names) h,
    listed_doomed names rows hs,
  )

  -- Where no statement fails, the context is not cancelled and the batch is not empty, pruning the
  -- samples returns: it deletes exactly the samples older than the given time, changes no other table
  -- and returns how many they were.
  pub prune_samples_all :
      (t : Tables fl)
      → (k : ℕ) × (prune_samples engine before (suc b) t ≡ (
        ok (length t.samples - length (keep (λ row. not (is_old before row)) t.samples)),
        record t { samples = keep (λ row. not (is_old before row)) t.samples; executed = k },
      ))
  unfolding prune_samples
  prune_samples_all t =
      let names = distinct_names (λ r. r.sensor_name) t.samples in
      let (k, ran) = prune_names_all names 0 (record t { executed = suc (suc t.executed) }) in
      let same =
        keep_same (λ row. not (is_doomed names row)) (λ row. not (is_old before row)) t.samples
          (listed_doomed names t.samples (distinct_names_all t.samples)) in
      (k, ground (arith, healthy t.executed, ran, same))
