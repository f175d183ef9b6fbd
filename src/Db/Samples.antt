-- ===== src/Db/Samples.antt =====
-- The statements on sensor_samples that read and write single rows.
pub mod Newest
use go_goodwe.Base.{
  ℕ, suc, ◌*◌, leb, ltb, ◌==◌, ◌&&◌, ◌||◌, Bool, true, false, if◌then◌else◌, List, [], ◌∷◌, ◌++◌,
  take, map, String, Option, none, some,
}
use mathlib.Core.List.{reverse}
use text.Mathlib.Text.{◌==◌ as str_eq}
use go_goodwe.Base.Int.{ℤ, pos, negsuc, leb_ℤ, ◌*ℤ◌}
use go_goodwe.Base.Text.{Text, codes}
use go_goodwe.Base.Result.{Result, ok, err}
use go_goodwe.Base.Program.{Program, ◌>>=◌, pure}
use go_goodwe.Et.Value.{Float64}
use go_goodwe.Db.Tables.{Sample, StoredSample, Tables, Engine, statement, keep, latest}

module _ {fl : Float64} where
  -- WHERE sensor_name = ? AND sampled_at >= ? AND sampled_at <= ?
  abbrev pub in_window : String → ℕ → ℕ → StoredSample fl → Bool
  in_window name since until row =
      str_eq row.sensor_name name
      && leb since row.sample.sampled_at
      && leb row.sample.sampled_at until

  abbrev pub named : String → StoredSample fl → Bool
  named name row = str_eq row.sensor_name name

  abbrev pub up_to : String → ℕ → StoredSample fl → Bool
  up_to name at row = str_eq row.sensor_name name && leb row.sample.sampled_at at

  abbrev pub samples_of : List (StoredSample fl) → List (Sample fl)
  samples_of [] = []
  samples_of (row ∷ rows) = row.sample ∷ samples_of rows

  abbrev pub first_sample : List (StoredSample fl) → Option (Sample fl)
  first_sample [] = none
  first_sample (row ∷ rows) = some row.sample

  module _ (engine : Engine fl) where
    unfoldable pub insert_sample :
        String → String → ℕ → Option fl.F → Option Text → Program (Tables fl) (Unit {0})
    insert_sample name unit at value words = statement engine (codes "insert sample: ") (λ t. (
      tt,
      record t {
        samples =
            t.samples
            ++ (record {
              id = suc t.last_sample_id;
              sensor_name = name;
              sample = record { value = value; value_text = words; unit = unit; sampled_at = at };
            }
                ∷ []);
        last_sample_id = suc t.last_sample_id;
      },
    ))

    -- The newest rows come first, and are reversed.
    unfoldable pub query_raw_samples : String → ℕ → ℕ → ℕ → Program (Tables fl) (List (Sample fl))
    query_raw_samples name since until limit = statement engine (codes "query samples: ") (λ t. (
      reverse (
          samples_of
            (take limit (engine.newest_first (keep (in_window name since until) t.samples)))),
      t,
    ))

    unfoldable pub last_sample_time : Program (Tables fl) (Option ℕ)
    last_sample_time =
        statement engine (codes "query last sample time: ")
          (λ t. (latest (map (λ row. row.sample.sampled_at) t.samples), t))

    unfoldable pub latest_sample : String → Program (Tables fl) (Option (Sample fl))
    latest_sample name =
        statement engine (codes "latest sample: ")
          (λ t. (first_sample (engine.newest_first (keep (named name) t.samples)), t))

    unfoldable pub sample_at : String → ℕ → Program (Tables fl) (Option (Sample fl))
    sample_at name at =
        statement engine (codes "sample at: ")
          (λ t. (first_sample (engine.newest_first (keep (up_to name at) t.samples)), t))
