-- ===== src/Db/Prune.antt =====
-- PruneSamples, PruneHourly and PurgeBadSamples. The count that the code returns beside an error,
-- which no caller reads, is left out.
pub mod Batches
pub mod Samples
pub mod Recent
pub mod Hourly
use go_goodwe.Base.{
  ℕ, zero, suc, ◌+◌, ◌-◌, ◌*◌, ltb, leb, ◌==◌, ◌&&◌, ◌||◌, Bool, true, false, not, if◌then◌else◌,
  List, [], ◌∷◌, take, length, String, Option, none, some,
}
use text.Mathlib.Text.{◌==◌ as str_eq}
use go_goodwe.Base.Int.{ℤ, pos, negsuc}
use go_goodwe.Base.Text.{codes}
use go_goodwe.Base.Result.{panic}
use go_goodwe.Base.Program.{Program, ◌>>=◌, ◌>>◌, pure}
use go_goodwe.Et.Value.{Float64}
use go_goodwe.Db.Tables.{
  Sample, StoredSample, AggregatedSample, Tables, Engine, statement, logged, check_context, keep,
  contains_name, distinct_names,
}

-- The rows without the first `n` that a test holds of: the selection of a batch has no order.
abbrev pub remove {ℓ} : {A : Type ℓ} → ℕ → (A → Bool) → List A → List A
remove zero p xs = xs
remove (suc n) p [] = []
remove (suc n) p (x ∷ xs) = if p x then remove n p xs else x ∷ remove (suc n) p xs

module _ {fl : Float64} where
  abbrev pub is_old : ℕ → StoredSample fl → Bool
  is_old before row = ltb row.sample.sampled_at before

  -- WHERE sensor_name = ? AND sampled_at < ?
  abbrev pub is_prunable : String → ℕ → StoredSample fl → Bool
  is_prunable name before row = str_eq row.sensor_name name && is_old before row

  -- The readings that no inverter of this rated power can have.
  abbrev pub is_bad : ℕ → Sample fl → Bool
  is_bad rated sample = elim sample.value [
    | none ↦ false
    | some v ↦
        (str_eq sample.unit "W" && above v (rated * 2))
        || (str_eq sample.unit "%" && (above v 100 || negative v))
        || (str_eq sample.unit "V" && above v 600)
        || (str_eq sample.unit "A" && above v 50)
        || (str_eq sample.unit "C" && (above v 200 || fl.lt v (fl.of_ℤ (negsuc 49))))
        || (str_eq sample.unit "Hz" && (above v 60 || fl.lt v (fl.of_ℤ (pos 40))))
        || (str_eq sample.unit "kWh" && negative v)
        || (str_eq sample.unit "var" && (above v 50000 || fl.lt v (fl.of_ℤ (negsuc 49999))))
        || (str_eq sample.unit "VA" && (above v 50000 || negative v))
  ]
    where
      above : fl.F → ℕ → Bool
      above v n = fl.lt (fl.of_ℤ (pos n)) v

      negative : fl.F → Bool
      negative v = fl.lt v (fl.of_ℤ (pos 0))

  module _ (engine : Engine fl) where
    -- One DELETE of at most `batch` rows; the number of rows it affected.
    unfoldable pub delete_samples : String → ℕ → ℕ → Program (Tables fl) ℕ
    delete_samples name before batch = statement engine (codes "prune samples: ") (λ t.
        let rest = remove batch (is_prunable name before) t.samples in
        (length t.samples - length rest, record t { samples = rest }))

    -- The loop on one name; each round that does not end it deletes a row, so that a round more than
    -- there are rows is never used up.
    unfoldable pub prune_name : ℕ → String → ℕ → ℕ → ℕ → Program (Tables fl) ℕ
    prune_name zero name before batch total t = (panic, t)
    prune_name (suc rounds) name before batch total t =
        (delete_samples name before batch >>= λ n. elim (n == 0) [
          | true ↦ pure total
          | false ↦ prune_name rounds name before batch (total + n)
        ])
          t

    unfoldable pub prune_names : List String → ℕ → ℕ → ℕ → Program (Tables fl) ℕ
    unfolding prune_name
    prune_names [] before batch total = pure total
    prune_names (name ∷ names) before batch total = do
      more ← λ t. prune_name (suc (length t.samples)) name before batch total t
      check_context engine
      prune_names names before batch more

    unfoldable pub prune_samples : ℕ → ℕ → Program (Tables fl) ℕ
    unfolding prune_names
    prune_samples before batch = do
      names ←
          statement engine (codes "prune samples: list sensors: ")
            (λ t. (distinct_names (λ row. row.sensor_name) t.samples, t))
      logged engine
      prune_names names before batch 0

    unfoldable pub purge_bad_samples : ℕ → Program (Tables fl) (Unit {0})
    purge_bad_samples rated_power = statement engine (codes "purge bad samples: ") (λ t. (
      tt,
      record t {
        samples =
            keep (λ row. not (is_bad (if rated_power == 0 then 15000 else rated_power) row.sample))
              t.samples;
      },
    ))
