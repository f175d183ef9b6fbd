-- ===== src/Et/Reader.antt =====
-- The reader helpers of et/registry.go. A register index is doubled into a byte offset. The block
-- is a slice: `block` holds its bytes, and `spare` what lies between its length and its capacity,
-- which a slice expression may still reach.
pub mod Bitmap
pub mod Words
use go_goodwe.Base.{
  ℕ, suc, ◌+◌, ◌-◌, ◌*◌, ◌/◌, ◌%◌, ◌^◌, ltb, ◌==◌, if◌then◌else◌, length, bit_or, Bool, ◌||◌,
  String, Option, none, some,
}
use go_goodwe.Base.{List, [], ◌∷◌, ◌++◌}
use go_goodwe.Base.Int.{ℤ, pos, negsuc, signed8, signed16, signed32, ltb_ℤ, leb_ℤ, ◌+ℤ◌, ◌-ℤ◌}
use go_goodwe.Base.Text.{Text, codes}
use go_goodwe.Base.Result.{Result, ok, panic, ◌>>=◌, index}
use go_goodwe.Et.Value.{Float64, Value, float64, string, zero_time, date}
use go_goodwe.Et.Labels.Table.{Labels, find_label, find_label_ℤ}
use go_goodwe.Et.Labels.Modes.{grid_in_out_modes}
use Bitmap.{decode_bitmap}

-- `binary.BigEndian.Uint16(b[off : off+2])`, `Uint32(b[off : off+4])` and `Uint64(b[off : off+8])`
unfoldable pub be16 : List ℕ → ℕ → Result ℕ
be16 b off = do hi ← index b off; lo ← index b (off + 1); ok (hi * 256 + lo)

unfoldable pub be32 : List ℕ → ℕ → Result ℕ
be32 b off = do hi ← be16 b off; lo ← be16 b (off + 2); ok (hi * 2 ^ 16 + lo)

unfoldable pub be64 : List ℕ → ℕ → Result ℕ
be64 b off = do hi ← be32 b off; lo ← be32 b (off + 4); ok (hi * 2 ^ 32 + lo)

-- Shorter than four bytes from the register on: 0.
unfoldable pub read_uint32 : List ℕ → ℕ → Result ℕ
read_uint32 block reg = if ltb (length block) (reg * 2 + 4) then ok 0 else be32 block (reg * 2)

-- The undefined values of 16, 32 and 64 bits.
abbrev pub undef16 : ℕ
undef16 = 0xFFFF

abbrev pub undef32 : ℕ
undef32 = 0xFFFFFFFF

abbrev pub undef64 : ℕ
undef64 = 0xFFFFFFFFFFFFFFFF

-- `s, ok := labels[v]; if !ok { return "" }`
abbrev pub text_of : Option String → Text
text_of none = []
text_of (some label) = codes label

-- `v == -1 || v == 32767`
abbrev pub is_no_reading : ℤ → Bool
is_no_reading (pos n) = n == 32767
is_no_reading (negsuc n) = n == 0

module _ (fl : Float64) where
  abbrev zero_float : Result (Value fl)
  zero_float = ok (float64 (fl.of_ℤ (pos 0)))

  abbrev empty : Result (Value fl)
  empty = ok (string [])

  unfoldable pub uint16_reader : ℕ → fl.F → List ℕ → Result (Value fl)
  uint16_reader reg scale block = if ltb (length block) (reg * 2 + 2) then zero_float else (do
    raw ← be16 block (reg * 2)
    if raw == undef16 then zero_float else ok (float64 (fl.mul (fl.of_ℤ (pos raw)) scale)))

  unfoldable pub int16_reader : ℕ → fl.F → List ℕ → Result (Value fl)
  int16_reader reg scale block =
      if ltb (length block) (reg * 2 + 2)
      then zero_float
      else (do raw ← be16 block (reg * 2); ok (float64 (fl.mul (fl.of_ℤ (signed16 raw)) scale)))

  unfoldable pub uint32_reader : ℕ → List ℕ → Result (Value fl)
  uint32_reader reg block = do
    v ← read_uint32 block reg
    if v == undef32 then zero_float else ok (float64 (fl.of_ℤ (pos v)))

  unfoldable pub int32_reader : ℕ → List ℕ → Result (Value fl)
  int32_reader reg block = do v ← read_uint32 block reg; ok (float64 (fl.of_ℤ (signed32 v)))

  unfoldable pub energy4_reader : ℕ → List ℕ → Result (Value fl)
  energy4_reader reg block = do
    v ← read_uint32 block reg
    if v == undef32 then zero_float else ok (float64 (fl.div (fl.of_ℤ (pos v)) (fl.literal 10 0)))

  unfoldable pub energy2_reader : ℕ → List ℕ → Result (Value fl)
  energy2_reader reg block = if ltb (length block) (reg * 2 + 2) then zero_float else (do
    raw ← be16 block (reg * 2)
    if raw == undef16
        then zero_float
        else ok (float64 (fl.div (fl.of_ℤ (pos raw)) (fl.literal 10 0))))

  unfoldable pub timestamp_reader : ℕ → List ℕ → Result (Value fl)
  timestamp_reader reg block = if ltb (length block) (reg * 2 + 6) then ok zero_time else (do
    year ← index block (reg * 2)
    month ← index block (reg * 2 + 1)
    day ← index block (reg * 2 + 2)
    hour ← index block (reg * 2 + 3)
    minute ← index block (reg * 2 + 4)
    second ← index block (reg * 2 + 5)
    ok (
        date (record {
          year = 2000 + year;
          month = month;
          day = day;
          hour = hour;
          minute = minute;
          second = second;
        })))

  unfoldable pub high_byte_reader : ℕ → List ℕ → Result (Value fl)
  high_byte_reader reg block =
      if ltb (length block) (reg * 2 + 2)
      then zero_float
      else (do b ← index block (reg * 2); ok (float64 (fl.of_ℤ (signed8 b))))

  unfoldable pub low_byte_reader : ℕ → List ℕ → Result (Value fl)
  low_byte_reader reg block =
      if ltb (length block) (reg * 2 + 2)
      then zero_float
      else (do b ← index block (reg * 2 + 1); ok (float64 (fl.of_ℤ (signed8 b))))

  unfoldable pub enum_h_reader : ℕ → Labels → List ℕ → Result (Value fl)
  enum_h_reader reg labels block =
      if ltb (length block) (reg * 2 + 2)
      then empty
      else (do b ← index block (reg * 2); ok (string (text_of (find_label_ℤ (signed8 b) labels))))

  unfoldable pub enum_l_reader : ℕ → Labels → List ℕ → Result (Value fl)
  enum_l_reader reg labels block = if ltb (length block) (reg * 2 + 2) then empty else (do
    b ← index block (reg * 2 + 1)
    ok (string (text_of (find_label_ℤ (signed8 b) labels))))

  unfoldable pub enum2_reader : ℕ → Labels → List ℕ → Result (Value fl)
  enum2_reader reg labels block =
      if ltb (length block) (reg * 2 + 2)
      then empty
      else (do v ← be16 block (reg * 2); ok (string (text_of (find_label v labels))))

  unfoldable pub enum_bitmap4_reader : ℕ → Labels → List ℕ → Result (Value fl)
  enum_bitmap4_reader reg labels block =
      if ltb (length block) (reg * 2 + 4)
      then empty
      else (do v ← be32 block (reg * 2); ok (string (decode_bitmap v labels)))

  -- -1 and 32767 stand for no reading.
  unfoldable pub temp_reader : ℕ → List ℕ → Result (Value fl)
  temp_reader reg block = if ltb (length block) (reg * 2 + 2) then zero_float else (do
    raw ← be16 block (reg * 2)
    if is_no_reading (signed16 raw)
        then zero_float
        else ok (float64 (fl.div (fl.of_ℤ (signed16 raw)) (fl.literal 10 0))))

  unfoldable pub cell_voltage_reader : ℕ → List ℕ → Result (Value fl)
  cell_voltage_reader reg block = if ltb (length block) (reg * 2 + 2) then zero_float else (do
    raw ← be16 block (reg * 2)
    ok (float64 (fl.div (fl.of_ℤ (pos raw)) (fl.literal 1000 0))))

  unfoldable pub enum_bitmap22_reader : ℕ → ℕ → Labels → List ℕ → Result (Value fl)
  enum_bitmap22_reader hi_reg lo_reg labels block =
      if ltb (length block) (hi_reg * 2 + 2) || ltb (length block) (lo_reg * 2 + 2)
      then empty
      else (do
        hi ← be16 block (hi_reg * 2)
        lo ← be16 block (lo_reg * 2)
        ok (string (decode_bitmap (bit_or (hi * 2 ^ 16) lo) labels)))

  unfoldable pub decimal_reader : ℕ → fl.F → List ℕ → Result (Value fl)
  decimal_reader reg scale block =
      if ltb (length block) (reg * 2 + 2)
      then zero_float
      else (do raw ← be16 block (reg * 2); ok (float64 (fl.div (fl.of_ℤ (signed16 raw)) scale)))

  unfoldable pub float_reader : ℕ → fl.F → List ℕ → Result (Value fl)
  float_reader reg scale block =
      if ltb (length block) (reg * 2 + 4)
      then zero_float
      else (do raw ← be32 block (reg * 2); ok (float64 (fl.div (fl.of_bits32 raw) scale)))

  unfoldable pub energy8_reader : ℕ → List ℕ → Result (Value fl)
  energy8_reader reg block = if ltb (length block) (reg * 2 + 8) then zero_float else (do
    v ← be64 block (reg * 2)
    if v == undef64 then zero_float else ok (float64 (fl.div (fl.of_ℤ (pos v)) (fl.literal 100 0))))
