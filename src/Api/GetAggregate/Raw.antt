-- ===== src/Api/GetAggregate/Raw.antt =====
-- The answer with raw samples.
use go_goodwe.Base.{
  ℕ, zero, suc, ◌+◌, ◌≤◌, ◌<◌, leb, ◌||◌, true, false, Bool-cases, List, [], ◌∷◌, length, get_elem?,
  All, String, Option, none, some, Option-cases, inl, inr, ◌≡◌, arith,
}
use text.Mathlib.Text.{◌==◌ as str_eq}
use go_goodwe.Base.Text.{Text, codes, is_empty, equal_text}
use go_goodwe.Base.Result.{ok}
use go_goodwe.Et.Value.{Float64}
use go_goodwe.Db.Tables.{Sample, Tables, Engine, IsHealthy}
use go_goodwe.Db.Samples.Newest.{IsAscending, IsNewestFirst, query_raw_samples_newest}
use go_goodwe.Api.Response.{json}
use go_goodwe.Api.Downsample.{every, downsample}
use go_goodwe.Api.Downsample.Even.{length-downsample}
use go_goodwe.Api.GetAggregate.{
  AggregateQuery, raw, max_points, sample_limit, time_range, answer_raw, answer_range,
  handle_get_aggregate,
}

module _ {fl : Float64} where
  get_elem?-lower :
      (at j : ℕ) (samples : List (Sample fl)) (b : Sample fl)
      → All (λ s. at ≤ s.sampled_at) samples
      → get_elem? samples j ≡ some b
      → at ≤ b.sampled_at
  get_elem?-lower at j [] b h found = cc
  get_elem?-lower at zero (s ∷ samples) b (h, hs) found = ground (arith, h, found)
  get_elem?-lower at (suc j) (s ∷ samples) b (h, hs) found = get_elem?-lower at j samples b hs found

  get_elem?-Ascending :
      (i j : ℕ) (samples : List (Sample fl)) (a b : Sample fl)
      → IsAscending samples
      → get_elem? samples i ≡ some a
      → get_elem? samples j ≡ some b
      → i ≤ j
      → a.sampled_at ≤ b.sampled_at
  get_elem?-Ascending i j [] a b up first second h = cc
  get_elem?-Ascending zero zero (s ∷ samples) a b up first second h = ground (arith, first, second)
  get_elem?-Ascending zero (suc j) (s ∷ samples) a b (above, up) first second h =
      ground (arith, first, get_elem?-lower s.sampled_at j samples b above second)
  get_elem?-Ascending (suc i) zero (s ∷ samples) a b up first second h = absurd (omega arith)
  get_elem?-Ascending (suc i) (suc j) (s ∷ samples) a b (above, up) first second h =
      get_elem?-Ascending i j samples a b up first second (omega arith)

  every-lower :
      (rounds step i low : ℕ) (samples : List (Sample fl)) (a : Sample fl)
      → IsAscending samples
      → get_elem? samples low ≡ some a
      → low ≤ i
      → All (λ s. a.sampled_at ≤ s.sampled_at) (every rounds step i samples)
  unfolding every
  every-lower zero step i low samples a up here h = tt
  every-lower (suc rounds) step i low samples a up here h =
      elim (Option-cases (get_elem? samples i)) [
        | inl past ↦ rw (past, All) tt
        | inr (b, found) ↦
            rw (found, All)
              (
                get_elem?-Ascending low i samples a b up here found h,
                every-lower rounds step (i + step) low samples a up here (omega arith),
              )
      ]

  every-Ascending :
      (rounds step i : ℕ) (samples : List (Sample fl))
      → IsAscending samples
      → IsAscending (every rounds step i samples)
  unfolding every
  every-Ascending zero step i samples up = tt
  every-Ascending (suc rounds) step i samples up = elim (Option-cases (get_elem? samples i)) [
    | inl past ↦ rw (past, IsAscending) tt
    | inr (b, found) ↦
        rw (found, IsAscending)
          (
            every-lower rounds step (i + step) i samples b up found (omega arith),
            every-Ascending rounds step (i + step) samples up,
          )
  ]

  downsample-Ascending :
      (max : ℕ) (samples : List (Sample fl))
      → IsAscending samples
      → IsAscending (downsample samples max)
  unfolding downsample
  downsample-Ascending max samples up = elim (Bool-cases (leb (length samples) max)) [
    | inl few ↦ rw few up
    | inr many ↦ rw many (every-Ascending (length samples) _ 0 samples up)
  ]

  downsample-upper :
      (max : ℕ) (samples : List (Sample fl)) → 0 < max → length (downsample samples max) ≤ max
  unfolding downsample
  downsample-upper max samples h = elim (Bool-cases (leb (length samples) max)) [
    | inl few ↦ ground (arith, few)
    | inr many ↦ length-downsample samples max h (ground (arith, many))
  ]

  module _ (engine : Engine fl) (healthy : IsHealthy engine) (order : IsNewestFirst engine)
      (parse_time : Text → Option ℕ) (quote : Text → Text) where
    -- A request for the raw samples of a named sensor without a delta, in a range that is accepted,
    -- is answered with at most 2000 samples, the oldest first, where no statement fails and the
    -- database orders rows as told.
    pub handle_get_aggregate_raw :
        (now : ℕ) (sensor : String) (q : AggregateQuery) (since until : ℕ) (t : Tables fl)
        → str_eq sensor "" ≡ false
        → equal_text q.latest (codes "true") ≡ false
        → (equal_text q.bucket (codes "hour") || equal_text q.bucket (codes "day")) ≡ false
        → is_empty q.delta ≡ true
        → time_range engine parse_time quote now q ≡ ok (since, until)
        → (points : List (Sample fl)) × (u : Tables fl) × (handle_get_aggregate engine parse_time
              quote true now sensor q t
            ≡ (json (raw points none), u))
          × (length points ≤ max_points)
          × IsAscending points
    unfolding handle_get_aggregate answer_range answer_raw
    handle_get_aggregate_raw now sensor q since until t named latest bucket delta range =
        let (samples, u, ran, up, _) =
          query_raw_samples_newest engine healthy order sensor since until (sample_limit q.limit)
            t in
        (
          downsample samples max_points,
          u,
          ground (arith, named, latest, bucket, delta, range, ran),
          downsample-upper max_points samples (omega arith),
          downsample-Ascending max_points samples up,
        )
