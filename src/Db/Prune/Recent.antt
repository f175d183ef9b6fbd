-- ===== src/Db/Prune/Recent.antt =====
-- What pruning cannot do, whatever fails.
use go_goodwe.Base.{
  ℕ, zero, suc, ◌<◌, ◌-◌, ◌==◌, true, false, not, Bool-cases, &&_right, Option-cases, List, [], ◌∷◌,
  length, String, inl, inr, ◌≡◌, ◌≢◌, refl, ap, sym, subst, ◌∙◌, ◌+◌, ◌++◌, Option, none, some,
  arith,
}
use go_goodwe.Base.Text.{Text, codes}
use text.Mathlib.Text.{◌==◌ as str_eq}
use go_goodwe.Base.Result.{Result, ok, err, panic}
use go_goodwe.Base.Program.{Program, ◌>>=◌, ◌>>◌}
use go_goodwe.Et.Value.{Float64}
use go_goodwe.Db.Tables.{
  StoredSample, Tables, Engine, statement, check_context, logged, keep, distinct_names,
}
use go_goodwe.Db.Prune.{
  remove, is_prunable, is_old, delete_samples, prune_name, prune_names, prune_samples,
}
use go_goodwe.Db.Prune.Batches.{length-remove, keep-remove}

module _ {fl : Float64} (engine : Engine fl) (before batch : ℕ) where
  abbrev recent : Tables fl → List (StoredSample fl)
  recent t = keep (λ row. not (is_old before row)) t.samples

  -- A value or an error, and the samples that are not old are still there.
  abbrev Spares {ℓ} : {A : Type ℓ} → Tables fl → Result A × Tables fl → Type ℓ
  Spares t y = (y.0 ≢ panic) × (recent y.1 ≡ recent t)

  >>=-Spares {ℓ κ} :
      {A : Type ℓ} {B : Type κ} (m : Program (Tables fl) A) (f : A → Program (Tables fl) B)
      (t : Tables fl) (y : Result A × Tables fl)
      → m t ≡ y
      → Spares t y
      → ((a : A) (u : Tables fl) → Spares u (f a u))
      → Spares t ((m >>= f) t)
  >>=-Spares m f t (ok a, u) e (returns, kept) next =
      let bound : (m >>= f) t ≡ f a u = ground (arith, e) in
      let (again, same) = next a u in subst (λ y. Spares t y) (sym bound) (again, same ∙ kept)
  >>=-Spares m f t (err text, u) e (returns, kept) next =
      let bound : (m >>= f) t ≡ (err text, u) = ground (arith, e) in
      subst (λ y. Spares t y) (sym bound) ((λ equal. cc), kept)
  >>=-Spares m f t (panic, u) e (returns, kept) next = absurd (returns refl)

  old_prunable :
      (name : String) (row : StoredSample fl)
      → is_prunable name before row ≡ true
      → not (is_old before row) ≡ false
  old_prunable name row h = ap not (&&_right (str_eq row.sensor_name name) (is_old before row) h)

  prune_name-Spares :
      (rounds : ℕ) (name : String) (total : ℕ) (t : Tables fl)
      → length t.samples < rounds
      → Spares t (prune_name engine rounds name before batch total t)
  unfolding prune_name delete_samples
  prune_name-Spares zero name total t enough = absurd (omega arith)
  prune_name-Spares (suc rounds) name total t enough =
      elim (Option-cases (engine.fault t.executed)) [
        | inr (e, failed) ↦
            let outcome : prune_name engine (suc rounds) name before batch total t
                ≡ (err (codes "prune samples: " ++ e), record t { executed = suc t.executed }) =
              ground (arith, failed) in
            subst (λ y. Spares t y) (sym outcome) ((λ equal. cc), refl)
        | inl fine ↦
            let rest = remove batch (is_prunable {fl = fl} name before) t.samples in
            let fewer = length-remove batch (is_prunable {fl = fl} name before) t.samples in
            let kept =
              keep-remove batch (is_prunable {fl = fl} name before) (λ row. not (is_old before row))
                t.samples (old_prunable name) in
            let u : Tables fl = record t { samples = rest; executed = suc t.executed } in
            elim (Bool-cases ((length t.samples - length rest) == 0)) [
              | inl last ↦
                  let outcome : prune_name engine (suc rounds) name before batch total t
                      ≡ (ok total, u) =
                    ground (arith, fine, last) in
                  subst (λ y. Spares t y) (sym outcome) ((λ equal. cc), kept)
              | inr more ↦
                  let n = total + (length t.samples - length rest) in
                  let outcome : prune_name engine (suc rounds) name before batch total t
                      ≡ prune_name engine rounds name before batch n u =
                    ground (arith, fine, more) in
                  let (returns, same) =
                    prune_name-Spares rounds name n u (ground (arith, more, enough, fewer)) in
                  subst (λ y. Spares t y) (sym outcome) (returns, same ∙ kept)
            ]
      ]

  check_context-Spares : (t : Tables fl) → Spares t (check_context engine t)
  check_context-Spares t = by_context (engine.cancelled t.executed)
    where
      by_context :
          (o : Option Text)
          → Spares {A = Unit {0}} t (elim o [ none ↦ (ok tt, t) | some e ↦ (err e, t) ])
      by_context none = ((λ equal. cc), refl)
      by_context (some e) = ((λ equal. cc), refl)

  prune_names-Spares :
      (names : List String) (total : ℕ) (t : Tables fl)
      → Spares t (prune_names engine names before batch total t)
  unfolding prune_names
  prune_names-Spares [] total t = ((λ equal. cc), refl)
  prune_names-Spares (name ∷ names) total t =
      >>=-Spares (λ u. prune_name engine (suc (length u.samples)) name before batch total u)
        (λ n. check_context engine >> prune_names engine names before batch n) t _ refl
        (prune_name-Spares (suc (length t.samples)) name total t (omega arith))
        (λ n u.
          >>=-Spares (check_context engine) (λ _. prune_names engine names before batch n) u _ refl
            (check_context-Spares u) (λ _ v. prune_names-Spares names n v))

  -- Whatever statement fails and whenever the context is cancelled, pruning the samples returns, with
  -- a count or an error, and deletes no sample that is not older than the given time.
  pub prune_samples_recent :
      (t : Tables fl)
      → ((prune_samples engine before batch t).0 ≢ panic)
        × (keep (λ row. not (is_old before row)) (prune_samples engine before batch t).1.samples
            ≡ keep (λ row. not (is_old before row)) t.samples)
  unfolding prune_samples
  prune_samples_recent t =
      >>=-Spares
        (statement engine (codes "prune samples: list sensors: ")
          (λ u. (distinct_names (λ r. r.sensor_name) u.samples, u)))
        (λ names. logged engine >> prune_names engine names before batch 0) t _ refl
        (listed (engine.fault t.executed))
        (λ names u.
          >>=-Spares (logged engine) (λ _. prune_names engine names before batch 0) u _ refl
            ((λ equal. cc), refl) (λ _ v. prune_names-Spares names 0 v))
    where
      listed :
          (o : Option Text)
          → Spares {A = List String} t (elim o [
            | none ↦ (
              ok (distinct_names (λ r. r.sensor_name) t.samples),
              record t { executed = suc t.executed },
            )
            | some e ↦ (
              err (codes "prune samples: list sensors: " ++ e),
              record t { executed = suc t.executed },
            )
          ])
      listed none = ((λ equal. cc), refl)
      listed (some e) = ((λ equal. cc), refl)
