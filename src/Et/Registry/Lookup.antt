-- ===== src/Et/Registry/Lookup.antt =====
-- `sensorLookup`, which `init` fills from the four registries.
pub mod Distinct
pub mod Extent
use go_goodwe.Base.{ℕ, List, [], ◌∷◌, ◌++◌, map, String, Option, none, some, Bool, if◌then◌else◌}
use text.Mathlib.Text.{◌==◌}
use go_goodwe.Et.Registry.Calculator.{SensorDefinition, Registry}
use go_goodwe.Et.Registry.Main.{registry}
use go_goodwe.Et.Registry.Blocks.{battery_registry, meter_registry, mppt_registry}

pub data BlockType : Type 0 where
  main battery meter mppt : BlockType

unfoldable pub block_label : BlockType → String
block_label main = "Main Telemetry"
block_label battery = "Battery"
block_label meter = "Meter"
block_label mppt = "MPPT"

abbrev pub base_registers_offset : ℕ
base_registers_offset = 35100

abbrev pub base_registers_count : ℕ
base_registers_count = 125

abbrev pub battery_registers_offset : ℕ
battery_registers_offset = 37000

abbrev pub battery_registers_count : ℕ
battery_registers_count = 24

abbrev pub mppt_registers_offset : ℕ
mppt_registers_offset = 35301

abbrev pub mppt_registers_count : ℕ
mppt_registers_count = 61

abbrev pub meter_registers_offset : ℕ
meter_registers_offset = 36000

abbrev pub meter_registers_count : ℕ
meter_registers_count = 125

abbrev pub meter_registers_count_fallb1 : ℕ
meter_registers_count_fallb1 = 58

abbrev pub meter_registers_count_fallb2 : ℕ
meter_registers_count_fallb2 = 45

pub record SensorBlock : Type 0 where
  pub block : BlockType
  pub start_reg : ℕ
  pub read_qty : ℕ
  pub def : SensorDefinition

abbrev pub Table : Type 0
Table = List (String × SensorBlock)

-- A map as a list of its assignments, the latest first.
unfoldable pub assign_all : (SensorDefinition → SensorBlock) → Registry → Table → Table
assign_all make [] table = table
assign_all make ((name, def) ∷ sensors) table = assign_all make sensors ((name, make def) ∷ table)

abbrev pub main_block : SensorDefinition → SensorBlock
main_block d = record {
  block = main;
  start_reg = base_registers_offset;
  read_qty = base_registers_count;
  def = d;
}

abbrev pub battery_block : SensorDefinition → SensorBlock
battery_block d = record {
  block = battery;
  start_reg = battery_registers_offset;
  read_qty = battery_registers_count;
  def = d;
}

abbrev pub meter_block : SensorDefinition → SensorBlock
meter_block d = record {
  block = meter;
  start_reg = meter_registers_offset;
  read_qty = meter_registers_count;
  def = d;
}

abbrev pub mppt_block : SensorDefinition → SensorBlock
mppt_block d = record {
  block = mppt;
  start_reg = mppt_registers_offset;
  read_qty = mppt_registers_count;
  def = d;
}

unfoldable pub sensor_lookup : Table
unfolding assign_all
sensor_lookup = assign_all mppt_block mppt_registry (
    assign_all meter_block meter_registry
      (assign_all battery_block battery_registry (assign_all main_block registry [])))

unfoldable pub lookup {ℓ} : {A : Type ℓ} → String → List (String × A) → Option A
lookup k [] = none
lookup k ((j, v) ∷ table) = if j == k then some v else lookup k table
