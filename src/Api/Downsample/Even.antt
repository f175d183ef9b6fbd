-- ===== src/Api/Downsample/Even.antt =====
-- Which samples are kept.
use go_goodwe.Base.{
  ℕ, zero, suc, ◌+◌, ◌-◌, ◌*◌, ◌/◌, ◌≤◌, ◌<◌, ltb, ltb→lt, ltb_false→le, Bool-cases, inl, inr, List,
  none, Option-cases, length, get_elem?, get_elem?-some, get_elem?-none, ◌≡◌, sym, arith,
}
use native.Mathlib.Nat.{mod-lt}
use native.Mathlib.Omega.{div_any}
use go_goodwe.Api.Downsample.{every, downsample}

-- One more index is reached in one more round.
next_index : (i j step : ℕ) → i + suc j * step ≡ i + step + j * step
next_index i j step = omega arith

module _ {ℓ} {A : Type ℓ} where
  get_elem?_none→le : (xs : List A) (i : ℕ) → get_elem? xs i ≡ none → length xs ≤ i
  get_elem?_none→le xs i past = elim (Bool-cases (ltb i (length xs))) [
    | inl inside ↦
        let (x, here) = get_elem?-some xs i (ltb→lt _ _ inside) in
        absurd (ground (arith, past, here))
    | inr outside ↦ ltb_false→le _ _ outside
  ]

  get_elem?-every :
      (rounds step i j : ℕ) (samples : List A)
      → 0 < step
      → length samples ≤ i + rounds
      → get_elem? (every rounds step i samples) j ≡ get_elem? samples (i + j * step)
  unfolding every
  get_elem?-every zero step i j samples h enough =
      sym (get_elem?-none samples (i + j * step) (omega arith))
  get_elem?-every (suc rounds) step i zero samples h enough =
      elim (Option-cases (get_elem? samples i)) [
        | inl past ↦ ground (arith, past)
        | inr (x, here) ↦ ground (arith, here)
      ]
  get_elem?-every (suc rounds) step i (suc j) samples h enough =
      elim (Option-cases (get_elem? samples i)) [
        | inl past ↦
            let after = get_elem?_none→le samples i past in
            ground (arith, past, get_elem?-none samples (i + suc j * step) (omega (arith, after)))
        | inr (x, here) ↦ ground (
          arith,
          here,
          next_index i j step,
          get_elem?-every rounds step (i + step) j samples h (omega arith),
        )
      ]

-- The step is long enough for `max` steps to pass the end.
step_reaches : (n max : ℕ) → 0 < max → n ≤ max * ((n + max - 1) / max)
step_reaches n max h = omega (arith, div_any (n + max - 1) max, mod-lt (n + max - 1) h)

module _ {ℓ} {A : Type ℓ} where
  module _ (samples : List A) (max : ℕ) (h : 0 < max) (more : max < length samples) where
    abbrev stride : ℕ
    stride = (length samples + max - 1) / max

    stride_pos : 0 < stride
    stride_pos = by_zero stride (step_reaches (length samples) max h)
      where
        by_zero : (n : ℕ) → length samples ≤ max * n → 0 < n
        by_zero zero e = omega arith
        by_zero (suc n) e = omega arith

    get_elem?-downsample :
        (j : ℕ) → get_elem? (downsample samples max) j ≡ get_elem? samples (j * stride)
    unfolding downsample
    get_elem?-downsample j =
        ground (arith, get_elem?-every (length samples) stride 0 j samples stride_pos (omega arith))

    pub length-downsample : length (downsample samples max) ≤ max
    length-downsample = elim (Bool-cases (ltb max (length (downsample samples max)))) [
      | inl over ↦
          let (x, here) = get_elem?-some (downsample samples max) max (ltb→lt _ _ over) in
          let past = get_elem?-none samples (max * stride) (step_reaches (length samples) max h) in
          absurd (ground (arith, here, past, get_elem?-downsample max))
      | inr within ↦ ltb_false→le _ _ within
    ]

  -- Where there are more samples than the maximum, which is not zero, at most the maximum is kept:
  -- the first sample and then every n-th one, n being the quotient of the two lengths rounded up.
  pub downsample_even :
      (samples : List A) (max j : ℕ)
      → 0 < max
      → max < length samples
      → (length (downsample samples max) ≤ max)
        × (get_elem? (downsample samples max) j
            ≡ get_elem? samples (j * ((length samples + max - 1) / max)))
  downsample_even samples max j h more =
      (length-downsample samples max h more, get_elem?-downsample samples max h more j)
