-- ===== src/Et/Registry/Calculator/Total.antt =====
-- Calculators on any block of bytes, of any length.
use go_goodwe.Base.{
  ℕ, ◌+◌, ◌*◌, ◌≤◌, ◌<◌, length, get_elem?-some, get_elem?-append_left, get_elem?-append_middle,
  get_elem?-append_second, length-append, List, [], ◌∷◌, ◌++◌, ◌≡◌, refl, arith, true,
}
use go_goodwe.Base.Int.{pos, signed16}
use go_goodwe.Base.Result.{ok, index, is_ok}
use go_goodwe.Et.Value.{Float64, float64}
use go_goodwe.Et.Reader
use go_goodwe.Et.Reader.{be16, be32, be64, read_uint32}
use go_goodwe.Et.Registry.Calculator.{
  Calculator, uint16, int16, decimal, float, uint32, int32, energy4, energy2, energy8, timestamp,
  high_byte, low_byte, temp, cell_voltage, enum_h, enum_l, enum2, enum_bitmap4, enum_bitmap22,
  grid_in_out, grid_in_out_label, ppv, house_consumption, grid_direction, calculate,
  grid_in_out_code, grid_in_out_mode, house_power, total_pv_power,
}

module _ (b : List ℕ) where
  pub be16_ok : (off : ℕ) → off + 2 ≤ length b → is_ok (be16 b off) ≡ true
  unfolding be16
  be16_ok off h =
      let (hi, e) = get_elem?-some b off (omega arith) in
      let (lo, f) = get_elem?-some b (off + 1) (omega arith) in ground (arith, e, f)

  be32_ok : (off : ℕ) → off + 4 ≤ length b → is_ok (be32 b off) ≡ true
  unfolding be32
  be32_ok off h = ground (arith, be16_ok off (omega arith), be16_ok (off + 2) (omega arith))

  be64_ok : (off : ℕ) → off + 8 ≤ length b → is_ok (be64 b off) ≡ true
  unfolding be64
  be64_ok off h = ground (arith, be32_ok off (omega arith), be32_ok (off + 4) (omega arith))

  read_uint32_ok : (reg : ℕ) → is_ok (read_uint32 b reg) ≡ true
  unfolding read_uint32
  read_uint32_ok reg = ground (arith, be32_ok (reg * 2))

  index_ok : (i : ℕ) → i < length b → is_ok (index b i) ≡ true
  index_ok i h = let (x, e) = get_elem?-some b i h in ground (arith, e)

module _ (fl : Float64) where
  -- Every calculator returns a value on every block of bytes whose slice has a capacity of 82 bytes
  -- or more; none panics.
  pub calculate_total :
      (c : Calculator) (block spare : List ℕ)
      → 82 ≤ length block + length spare
      → is_ok (calculate fl c block spare) ≡ true
  unfolding calculate
  calculate_total (uint16 i s) block spare h =
      unfold Reader.uint16_reader in ground (arith, be16_ok block (i * 2))
  calculate_total (int16 i s) block spare h =
      unfold Reader.int16_reader in ground (arith, be16_ok block (i * 2))
  calculate_total (decimal i s) block spare h =
      unfold Reader.decimal_reader in ground (arith, be16_ok block (i * 2))
  calculate_total (float i s) block spare h =
      unfold Reader.float_reader in ground (arith, be32_ok block (i * 2))
  calculate_total (uint32 i) block spare h =
      unfold Reader.uint32_reader in ground (arith, read_uint32_ok block i)
  calculate_total (int32 i) block spare h =
      unfold Reader.int32_reader in ground (arith, read_uint32_ok block i)
  calculate_total (energy4 i) block spare h =
      unfold Reader.energy4_reader in ground (arith, read_uint32_ok block i)
  calculate_total (energy2 i) block spare h =
      unfold Reader.energy2_reader in ground (arith, be16_ok block (i * 2))
  calculate_total (energy8 i) block spare h =
      unfold Reader.energy8_reader in ground (arith, be64_ok block (i * 2))
  calculate_total (timestamp i) block spare h =
      unfold Reader.timestamp_reader in
      ground (
        arith,
        index_ok block (i * 2),
        index_ok block (i * 2 + 1),
        index_ok block (i * 2 + 2),
        index_ok block (i * 2 + 3),
        index_ok block (i * 2 + 4),
        index_ok block (i * 2 + 5),
      )
  calculate_total (high_byte i) block spare h =
      unfold Reader.high_byte_reader in ground (arith, index_ok block (i * 2))
  calculate_total (low_byte i) block spare h =
      unfold Reader.low_byte_reader in ground (arith, index_ok block (i * 2 + 1))
  calculate_total (temp i) block spare h =
      unfold Reader.temp_reader in ground (arith, be16_ok block (i * 2))
  calculate_total (cell_voltage i) block spare h =
      unfold Reader.cell_voltage_reader in ground (arith, be16_ok block (i * 2))
  calculate_total (enum_h i labels) block spare h =
      unfold Reader.enum_h_reader in ground (arith, index_ok block (i * 2))
  calculate_total (enum_l i labels) block spare h =
      unfold Reader.enum_l_reader in ground (arith, index_ok block (i * 2 + 1))
  calculate_total (enum2 i labels) block spare h =
      unfold Reader.enum2_reader in ground (arith, be16_ok block (i * 2))
  calculate_total (enum_bitmap4 i labels) block spare h =
      unfold Reader.enum_bitmap4_reader in ground (arith, be32_ok block (i * 2))
  calculate_total (enum_bitmap22 hi lo labels) block spare h =
      unfold Reader.enum_bitmap22_reader in
      ground (arith, be16_ok block (hi * 2), be16_ok block (lo * 2))
  calculate_total grid_in_out block spare h =
      unfold grid_in_out_code in
      ground (arith, be16_ok (block ++ spare) 80, length-append block spare)
  calculate_total grid_in_out_label block spare h =
      unfold grid_in_out_mode in
      ground (arith, be16_ok (block ++ spare) 80, length-append block spare)
  calculate_total ppv block spare h =
      unfold total_pv_power in
      ground (
        arith,
        read_uint32_ok block 5,
        read_uint32_ok block 9,
        read_uint32_ok block 13,
        read_uint32_ok block 17,
      )
  calculate_total house_consumption block spare h =
      unfold house_power in
      ground (
        arith,
        read_uint32_ok block 5,
        read_uint32_ok block 9,
        read_uint32_ok block 13,
        read_uint32_ok block 17,
        read_uint32_ok block 82,
        be16_ok (block ++ spare) 80,
        length-append block spare,
      )

  be16-spare : (block spare : List ℕ) → 82 ≤ length block → be16 (block ++ spare) 80 ≡ be16 block 80
  unfolding be16
  be16-spare block spare h =
      ground (arith, get_elem?-append_left block spare 80, get_elem?-append_left block spare 81)

  -- On a block of 82 bytes or more no calculator looks behind its end.
  pub calculate_spare :
      (c : Calculator) (block spare : List ℕ)
      → 82 ≤ length block
      → calculate fl c block spare ≡ calculate fl c block []
  unfolding calculate
  calculate_spare (uint16 i s) block spare h = refl
  calculate_spare grid_in_out block spare h =
      unfold grid_in_out_code in rw (be16-spare block spare h, be16-spare block [] h)
  calculate_spare grid_in_out_label block spare h =
      unfold grid_in_out_mode in rw (be16-spare block spare h, be16-spare block [] h)
  calculate_spare house_consumption block spare h =
      unfold house_power in ground (arith, be16-spare block spare h, be16-spare block [] h)
  calculate_spare _ block spare h = refl

  -- On a block of 80 bytes, which ends in front of register 40, the grid direction is computed from
  -- the two bytes behind the block's end.
  pub grid_in_out_past_end :
      (block rest : List ℕ) (hi lo : ℕ)
      → length block ≡ 80
      → calculate fl grid_in_out block (hi ∷ lo ∷ rest)
        ≡ ok (float64 (fl.of_ℤ (pos (grid_direction (signed16 (hi * 256 + lo))))))
  unfolding calculate grid_in_out_code be16
  grid_in_out_past_end block rest hi lo h =
      let first = rw h at (get_elem?-append_middle block (lo ∷ rest) hi) in
      let second = rw h at (get_elem?-append_second block rest hi lo) in
      ground (arith, first, second)
