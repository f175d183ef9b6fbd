-- ===== src/Analysis/Voltage/Resume.antt =====
-- What the analysis forgets between two runs.
use go_goodwe.Base.{ℕ, Option, some, true, ◌≡◌, arith, String}
use go_goodwe.Base.Int.{pos}
use go_goodwe.Base.Result.{ok}
use go_goodwe.Base.Program.{◌>>=◌}
use go_goodwe.Et.Value.{Float64}
use go_goodwe.Analysis.Voltage.{
  SampleRow, VoltageStore, is_out, out_of_range, process_sample, new_phase, accumulate, resume,
}

module _ (fl : Float64) (store : VoltageStore fl) where
  open store use {State}

  -- An event that a run takes up again starts its extremes and its average afresh: at the first
  -- reading out of range the stored minimum, maximum and average are all overwritten by that one
  -- reading, whatever they were, if the calls to the database succeed.
  pub resume_overwrites :
      (sensor : String) (id : ℕ) (event : Option (Option ℕ)) (row : SampleRow fl) (v : fl.F)
      (s t u : State)
      → store.get_event id s ≡ (ok event, t)
      → row.value ≡ some v
      → is_out fl v ≡ true
      → store.update_event id v v (fl.div v (fl.of_ℤ (pos 1))) t ≡ (ok tt, u)
      → ((resume fl store (some id) >>= process_sample fl store sensor row) s).1 ≡ u
  unfolding resume process_sample out_of_range accumulate new_phase
  resume_overwrites sensor id event row v s t u called given out updated =
      ground (arith, called, given, out, updated)
