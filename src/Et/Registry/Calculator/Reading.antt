-- ===== src/Et/Registry/Calculator/Reading.antt =====
-- What every calculator makes of the registers of its block.
use go_goodwe.Base.{
  ℕ, ◌+◌, ◌*◌, ◌/◌, ◌%◌, ◌^◌, ◌==◌, if◌then◌else◌, bit_or, List, [], ◌≡◌, ◌∙◌, arith, Option, none,
  some, Option-cases, inl, inr, get_elem?-some,
}
use go_goodwe.Base.Int.{ℤ, pos, signed8, signed16, signed32, ◌+ℤ◌, ◌-ℤ◌}
use go_goodwe.Base.Result.{ok}
use go_goodwe.Et.Value.{Float64, Value, float64, string, zero_time, date}
use go_goodwe.Et.Labels.Table.{Labels, find_label, find_label_ℤ}
use go_goodwe.Et.Labels.Modes.{grid_in_out_modes}
use go_goodwe.Et.Reader.{undef16, undef32, undef64, text_of, is_no_reading}
use go_goodwe.Et.Reader
use go_goodwe.Et.Reader.Bitmap.{decode_bitmap}
use go_goodwe.Et.Reader.Words.{
  bytes_of, maybe, register, register_pair, register_quad, at_high, at_low, at_register, at_pair,
  at_quad, read_uint32_of, be16_of, be16_forty, six_bytes, register-ge, register-lt,
  length-bytes_of,
}
use go_goodwe.Et.Registry.Calculator.{
  Calculator, uint16, int16, decimal, float, uint32, int32, energy4, energy2, energy8, timestamp,
  high_byte, low_byte, temp, cell_voltage, enum_h, enum_l, enum2, enum_bitmap4, enum_bitmap22,
  grid_in_out, grid_in_out_label, ppv, house_consumption, defined32, grid_direction, scale,
  calculate, grid_in_out_code, grid_in_out_mode, house_power, total_pv_power,
}

module _ (fl : Float64) (ws : List ℕ) where
  number : ℤ → Value fl
  number n = float64 (fl.of_ℤ n)

  -- The number divided by a whole number.
  over : ℤ → ℕ → Value fl
  over n d = float64 (fl.div (fl.of_ℤ n) (fl.literal d 0))

  -- The number that a pair of registers holds, and 0 where the block ends before.
  pair_or_zero : ℕ → ℕ
  pair_or_zero i = maybe 0 (λ v. v) (register_pair ws i)

  defined_pair : ℕ → ℕ
  unfolding pair_or_zero
  defined_pair i = defined32 (pair_or_zero i)

  -- The value of a sensor, read off the registers of its block; `none` where the block has no
  -- register 40 and the calculator does not ask.
  unfoldable pub reading : Calculator → Option (Value fl)
  unfolding number over pair_or_zero defined_pair
  reading (uint16 i s) = some (
      maybe (number (pos 0))
        (λ w.
          if w == undef16 then number (pos 0) else float64 (fl.mul (fl.of_ℤ (pos w)) (scale fl s)))
        (register ws i))
  reading (int16 i s) = some (
      maybe (number (pos 0)) (λ w. float64 (fl.mul (fl.of_ℤ (signed16 w)) (scale fl s)))
        (register ws i))
  reading (decimal i s) = some (
      maybe (number (pos 0)) (λ w. float64 (fl.div (fl.of_ℤ (signed16 w)) (scale fl s)))
        (register ws i))
  reading (float i s) = some (
      maybe (number (pos 0)) (λ v. float64 (fl.div (fl.of_bits32 v) (scale fl s)))
        (register_pair ws i))
  reading (uint32 i) =
      some (if pair_or_zero i == undef32 then number (pos 0) else number (pos (pair_or_zero i)))
  reading (int32 i) = some (number (signed32 (pair_or_zero i)))
  reading (energy4 i) =
      some (if pair_or_zero i == undef32 then number (pos 0) else over (pos (pair_or_zero i)) 10)
  reading (energy2 i) = some (
      maybe (number (pos 0)) (λ w. if w == undef16 then number (pos 0) else over (pos w) 10)
        (register ws i))
  reading (energy8 i) = some (
      maybe (number (pos 0)) (λ v. if v == undef64 then number (pos 0) else over (pos v) 100)
        (register_quad ws i))
  reading (timestamp i) = some (
      maybe zero_time
        (λ a.
          maybe zero_time
            (λ b.
              maybe zero_time
                (λ c. date (record {
                  year = 2000 + a / 256;
                  month = a % 256;
                  day = b / 256;
                  hour = b % 256;
                  minute = c / 256;
                  second = c % 256;
                }))
                (register ws (i + 2)))
            (register ws (i + 1)))
        (register ws i))
  reading (high_byte i) =
      some (maybe (number (pos 0)) (λ w. number (signed8 (w / 256))) (register ws i))
  reading (low_byte i) =
      some (maybe (number (pos 0)) (λ w. number (signed8 (w % 256))) (register ws i))
  reading (temp i) = some (
      maybe (number (pos 0))
        (λ w. if is_no_reading (signed16 w) then number (pos 0) else over (signed16 w) 10)
        (register ws i))
  reading (cell_voltage i) = some (maybe (number (pos 0)) (λ w. over (pos w) 1000) (register ws i))
  reading (enum_h i labels) = some (
      maybe (string []) (λ w. string (text_of (find_label_ℤ (signed8 (w / 256)) labels)))
        (register ws i))
  reading (enum_l i labels) = some (
      maybe (string []) (λ w. string (text_of (find_label_ℤ (signed8 (w % 256)) labels)))
        (register ws i))
  reading (enum2 i labels) =
      some (maybe (string []) (λ w. string (text_of (find_label w labels))) (register ws i))
  reading (enum_bitmap4 i labels) =
      some (maybe (string []) (λ v. string (decode_bitmap v labels)) (register_pair ws i))
  reading (enum_bitmap22 hi lo labels) = some (
      maybe (string [])
        (λ h.
          maybe (string []) (λ l. string (decode_bitmap (bit_or (h * 2 ^ 16) l) labels))
            (register ws lo))
        (register ws hi))
  reading grid_in_out =
      maybe none (λ w. some (number (pos (grid_direction (signed16 w))))) (register ws 40)
  reading grid_in_out_label =
      maybe none
        (λ w. some (string (text_of (find_label (grid_direction (signed16 w)) grid_in_out_modes))))
        (register ws 40)
  reading ppv = some (
      number (pos ((defined_pair 5 + defined_pair 9 + defined_pair 13 + defined_pair 17) % 2 ^ 32)))
  reading house_consumption =
      maybe none
        (λ w. some (
          number (
            pos (defined_pair 5)
            +ℤ pos (defined_pair 9)
            +ℤ pos (defined_pair 13)
            +ℤ pos (defined_pair 17)
            +ℤ signed32 (pair_or_zero 82)
            -ℤ signed16 w)))
        (register ws 40)

  reads_timestamp :
      (i : ℕ) {v : Value fl}
      → reading (timestamp i) ≡ some v
      → Reader.timestamp_reader fl i (bytes_of ws) ≡ ok v
  unfolding reading Reader.timestamp_reader
  reads_timestamp i h = elim (Option-cases (register ws (i + 2))) [
    | inl e ↦ ground (arith, e, register-ge ws (i + 2) e, length-bytes_of ws)
    | inr (c, hc) ↦
        let (a, ha) = get_elem?-some ws i (omega (arith, register-lt ws (i + 2) c hc)) in
        let (b, hb) = get_elem?-some ws (i + 1) (omega (arith, register-lt ws (i + 2) c hc)) in
        ground (
          arith,
          ha,
          hb,
          hc,
          register-lt ws (i + 2) c hc,
          length-bytes_of ws,
          six_bytes ws i a b c ha hb hc,
        )
  ]

  reads_bitmap22 :
      (hi lo : ℕ) (labels : Labels) {v : Value fl}
      → reading (enum_bitmap22 hi lo labels) ≡ some v
      → Reader.enum_bitmap22_reader fl hi lo labels (bytes_of ws) ≡ ok v
  unfolding reading Reader.enum_bitmap22_reader
  reads_bitmap22 hi lo labels h = elim (Option-cases (register ws hi)) [
    | inl e ↦ ground (arith, e, register-ge ws hi e, length-bytes_of ws)
    | inr (a, ha) ↦ elim (Option-cases (register ws lo)) [
      | inl e ↦ ground (arith, e, ha, register-ge ws lo e, length-bytes_of ws)
      | inr (b, hb) ↦ ground (
        arith,
        ha,
        hb,
        register-lt ws hi a ha,
        register-lt ws lo b hb,
        length-bytes_of ws,
        be16_of ws hi,
        be16_of ws lo,
      )
    ]
  ]

  module _ (spare : List ℕ) where
    reads_grid_code :
        {v : Value fl}
        → reading grid_in_out ≡ some v
        → grid_in_out_code fl (bytes_of ws) spare ≡ ok v
    unfolding reading grid_in_out_code
    reads_grid_code h = elim (Option-cases (register ws 40)) [
      | inl e ↦ ground (arith, e)
      | inr (w, e) ↦ ground (arith, e, be16_forty ws spare w e)
    ]

    reads_grid_mode :
        {v : Value fl}
        → reading grid_in_out_label ≡ some v
        → grid_in_out_mode fl (bytes_of ws) spare ≡ ok v
    unfolding reading grid_in_out_mode
    reads_grid_mode h = elim (Option-cases (register ws 40)) [
      | inl e ↦ ground (arith, e)
      | inr (w, e) ↦ ground (arith, e, be16_forty ws spare w e)
    ]

    reads_house_power :
        {v : Value fl}
        → reading house_consumption ≡ some v
        → house_power fl (bytes_of ws) spare ≡ ok v
    unfolding reading house_power
    reads_house_power h = elim (Option-cases (register ws 40)) [
      | inl e ↦ ground (arith, e)
      | inr (w, e) ↦
          rw
            (
              read_uint32_of ws 5,
              read_uint32_of ws 9,
              read_uint32_of ws 13,
              read_uint32_of ws 17,
              read_uint32_of ws 82,
              be16_forty ws spare w e,
            )
            (cc (rw e at h))
    ]

  reads_total_pv_power :
      {v : Value fl} → reading ppv ≡ some v → total_pv_power fl (bytes_of ws) ≡ ok v
  unfolding reading total_pv_power
  reads_total_pv_power h =
      rw (read_uint32_of ws 5, read_uint32_of ws 9, read_uint32_of ws 13, read_uint32_of ws 17)
        (cc h)

  -- For every calculator whose reading of the registers is defined, the byte-level code returns that
  -- reading, whatever lies in the slice's spare capacity.
  pub calculate-reading :
      (c : Calculator) (spare : List ℕ) {v : Value fl}
      → reading c ≡ some v
      → calculate fl c (bytes_of ws) spare ≡ ok v
  unfolding calculate reading
  calculate-reading (uint16 i s) spare h =
      unfold Reader.uint16_reader in at_register ws i _ _ ∙ ground arith
  calculate-reading (int16 i s) spare h =
      unfold Reader.int16_reader in at_register ws i _ _ ∙ ground arith
  calculate-reading (decimal i s) spare h =
      unfold Reader.decimal_reader in at_register ws i _ _ ∙ ground arith
  calculate-reading (float i s) spare h =
      unfold Reader.float_reader in at_pair ws i _ _ ∙ ground arith
  calculate-reading (uint32 i) spare h =
      unfold Reader.uint32_reader in ground (arith, read_uint32_of ws i)
  calculate-reading (int32 i) spare h =
      unfold Reader.int32_reader in ground (arith, read_uint32_of ws i)
  calculate-reading (energy4 i) spare h =
      unfold Reader.energy4_reader in ground (arith, read_uint32_of ws i)
  calculate-reading (energy2 i) spare h =
      unfold Reader.energy2_reader in at_register ws i _ _ ∙ ground arith
  calculate-reading (energy8 i) spare h =
      unfold Reader.energy8_reader in at_quad ws i _ _ ∙ ground arith
  calculate-reading (timestamp i) spare h = reads_timestamp i h
  calculate-reading (high_byte i) spare h =
      unfold Reader.high_byte_reader in at_high ws i _ _ ∙ ground arith
  calculate-reading (low_byte i) spare h =
      unfold Reader.low_byte_reader in at_low ws i _ _ ∙ ground arith
  calculate-reading (temp i) spare h =
      unfold Reader.temp_reader in at_register ws i _ _ ∙ ground arith
  calculate-reading (cell_voltage i) spare h =
      unfold Reader.cell_voltage_reader in at_register ws i _ _ ∙ ground arith
  calculate-reading (enum_h i labels) spare h =
      unfold Reader.enum_h_reader in at_high ws i _ _ ∙ ground arith
  calculate-reading (enum_l i labels) spare h =
      unfold Reader.enum_l_reader in at_low ws i _ _ ∙ ground arith
  calculate-reading (enum2 i labels) spare h =
      unfold Reader.enum2_reader in at_register ws i _ _ ∙ ground arith
  calculate-reading (enum_bitmap4 i labels) spare h =
      unfold Reader.enum_bitmap4_reader in at_pair ws i _ _ ∙ ground arith
  calculate-reading (enum_bitmap22 hi lo labels) spare h = reads_bitmap22 hi lo labels h
  calculate-reading grid_in_out spare h = reads_grid_code spare h
  calculate-reading grid_in_out_label spare h = reads_grid_mode spare h
  calculate-reading ppv spare h = reads_total_pv_power h
  calculate-reading house_consumption spare h = reads_house_power spare h
