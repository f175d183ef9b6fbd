-- ===== src/Et/Registry/Calculator.antt =====
-- A sensor's calculator as data: which reader helper made it, with the helper's arguments; the four
-- that the source writes out stand under their sensors' names.
pub mod Reading
pub mod Total
use go_goodwe.Base.{
  ℕ, ◌+◌, ◌%◌, ◌^◌, ◌==◌, if◌then◌else◌, ◌++◌, List, String, ltb, length, some, none,
}
use go_goodwe.Base.Int.{ℤ, pos, negsuc, signed16, signed32, ltb_ℤ, leb_ℤ, ◌+ℤ◌, ◌-ℤ◌}
use go_goodwe.Base.Result.{Result, ok, panic, ◌>>=◌}
use go_goodwe.Et.Value.{Float64, Value, float64, string}
use go_goodwe.Et.Labels.Table.{Labels, find_label}
use go_goodwe.Et.Labels.Modes.{grid_in_out_modes}
use go_goodwe.Et.Reader
use go_goodwe.Et.Reader.{be16, read_uint32, undef32, text_of}

-- The literals 1, 0.1, 0.01 and 1000.
pub data Scale : Type 0 where
  one tenth hundredth thousand : Scale

pub data Calculator : Type 0 where
  uint16 int16 decimal float : ℕ → Scale → Calculator
  uint32 int32 energy4 energy2 energy8 timestamp high_byte low_byte temp cell_voltage :
      ℕ → Calculator
  enum_h enum_l enum2 enum_bitmap4 : ℕ → Labels → Calculator
  enum_bitmap22 : ℕ → ℕ → Labels → Calculator
  grid_in_out grid_in_out_label ppv house_consumption : Calculator

pub data SensorDefinition : Type 0 where
  sensor : String → String → Calculator → SensorDefinition

abbrev pub Registry : Type 0
Registry = List (String × SensorDefinition)

abbrev pub calculator_of : SensorDefinition → Calculator
calculator_of (sensor name unit calculator) = calculator

-- `if v == undef32 { v = 0 }`
abbrev pub defined32 : ℕ → ℕ
defined32 v = if v == undef32 then 0 else v

-- 2 below -90, 1 from 90 on, otherwise 0.
unfoldable pub grid_direction : ℤ → ℕ
grid_direction v = if ltb_ℤ v (negsuc 89) then 2 else (if leb_ℤ (pos 90) v then 1 else 0)

module _ (fl : Float64) where
  abbrev scale : Scale → fl.F
  scale one = fl.literal 1 0
  scale tenth = fl.literal 1 1
  scale hundredth = fl.literal 1 2
  scale thousand = fl.literal 1000 0

  -- `data[80:82]` has no length test in front of it: the slice reaches into the spare capacity, and
  -- panics beyond that.
  unfoldable pub grid_in_out_code : List ℕ → List ℕ → Result (Value fl)
  grid_in_out_code block spare = do
    raw ← be16 (block ++ spare) 80
    ok (float64 (fl.of_ℤ (pos (grid_direction (signed16 raw)))))

  unfoldable pub grid_in_out_mode : List ℕ → List ℕ → Result (Value fl)
  grid_in_out_mode block spare = do
    raw ← be16 (block ++ spare) 80
    ok (string (text_of (find_label (grid_direction (signed16 raw)) grid_in_out_modes)))

  -- The sum is a uint32.
  unfoldable pub total_pv_power : List ℕ → Result (Value fl)
  total_pv_power block = do
    v1 ← read_uint32 block 5
    v2 ← read_uint32 block 9
    v3 ← read_uint32 block 13
    v4 ← read_uint32 block 17
    ok (
        float64
          (fl.of_ℤ (pos ((defined32 v1 + defined32 v2 + defined32 v3 + defined32 v4) % 2 ^ 32))))

  -- The sum is an int64, which six numbers of at most 32 bits do not overflow.
  unfoldable pub house_power : List ℕ → List ℕ → Result (Value fl)
  house_power block spare = do
    v1 ← read_uint32 block 5
    v2 ← read_uint32 block 9
    v3 ← read_uint32 block 13
    v4 ← read_uint32 block 17
    v5 ← read_uint32 block 82
    v6 ← be16 (block ++ spare) 80
    ok (
        float64 (
          fl.of_ℤ (
            pos (defined32 v1)
            +ℤ pos (defined32 v2)
            +ℤ pos (defined32 v3)
            +ℤ pos (defined32 v4)
            +ℤ signed32 v5
            -ℤ signed16 v6)))

  -- `def.Calculator(data)`
  unfoldable pub calculate : Calculator → List ℕ → List ℕ → Result (Value fl)
  calculate (uint16 reg s) block spare = Reader.uint16_reader fl reg (scale s) block
  calculate (int16 reg s) block spare = Reader.int16_reader fl reg (scale s) block
  calculate (decimal reg s) block spare = Reader.decimal_reader fl reg (scale s) block
  calculate (float reg s) block spare = Reader.float_reader fl reg (scale s) block
  calculate (uint32 reg) block spare = Reader.uint32_reader fl reg block
  calculate (int32 reg) block spare = Reader.int32_reader fl reg block
  calculate (energy4 reg) block spare = Reader.energy4_reader fl reg block
  calculate (energy2 reg) block spare = Reader.energy2_reader fl reg block
  calculate (energy8 reg) block spare = Reader.energy8_reader fl reg block
  calculate (timestamp reg) block spare = Reader.timestamp_reader fl reg block
  calculate (high_byte reg) block spare = Reader.high_byte_reader fl reg block
  calculate (low_byte reg) block spare = Reader.low_byte_reader fl reg block
  calculate (temp reg) block spare = Reader.temp_reader fl reg block
  calculate (cell_voltage reg) block spare = Reader.cell_voltage_reader fl reg block
  calculate (enum_h reg labels) block spare = Reader.enum_h_reader fl reg labels block
  calculate (enum_l reg labels) block spare = Reader.enum_l_reader fl reg labels block
  calculate (enum2 reg labels) block spare = Reader.enum2_reader fl reg labels block
  calculate (enum_bitmap4 reg labels) block spare = Reader.enum_bitmap4_reader fl reg labels block
  calculate (enum_bitmap22 hi lo labels) block spare =
      Reader.enum_bitmap22_reader fl hi lo labels block
  calculate grid_in_out block spare = grid_in_out_code block spare
  calculate grid_in_out_label block spare = grid_in_out_mode block spare
  calculate ppv block spare = total_pv_power block
  calculate house_consumption block spare = house_power block spare
