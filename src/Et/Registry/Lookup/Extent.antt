-- ===== src/Et/Registry/Lookup/Extent.antt =====
-- Which registers a calculator needs, and which of them a sensor's block holds.
use go_goodwe.Base.{
  ℕ, zero, suc, ◌+◌, ◌≤◌, leb, leb→le, length, get_elem?, get_elem?-append_left, List, [], ◌∷◌,
  ◌++◌, String, some, Bool, true, ◌&&◌, ◌≡◌, refl, subst, arith,
}
use go_goodwe.Et.Value.{Float64}
use go_goodwe.Et.Reader.Words.{register, register_pair, register_quad}
use go_goodwe.Et.Registry.Calculator.{
  Calculator, SensorDefinition, Registry, uint16, int16, decimal, float, uint32, int32, energy4,
  energy2, energy8, timestamp, high_byte, low_byte, temp, cell_voltage, enum_h, enum_l, enum2,
  enum_bitmap4, enum_bitmap22, grid_in_out, grid_in_out_label, ppv, house_consumption,
  calculator_of,
}
use go_goodwe.Et.Registry.Calculator.Reading.{reading}
use go_goodwe.Et.Registry.Main.{registry, grid_sensors, backup_sensors, energy_sensors}
use go_goodwe.Et.Registry.Blocks.{battery_registry, meter_registry, mppt_registry}
use go_goodwe.Et.Registry.Lookup.{BlockType, main, battery, meter, mppt}
use go_goodwe.Et.Registry.Lookup.Distinct.{registry_of, block_of}
use Prim.Native.Nat.{max}

-- The number of registers that a block must have for all that the calculator reads.
unfoldable pub extent : Calculator → ℕ
extent (uint16 i s) = i + 1
extent (int16 i s) = i + 1
extent (decimal i s) = i + 1
extent (float i s) = i + 2
extent (uint32 i) = i + 2
extent (int32 i) = i + 2
extent (energy4 i) = i + 2
extent (energy2 i) = i + 1
extent (energy8 i) = i + 4
extent (timestamp i) = i + 3
extent (high_byte i) = i + 1
extent (low_byte i) = i + 1
extent (temp i) = i + 1
extent (cell_voltage i) = i + 1
extent (enum_h i labels) = i + 1
extent (enum_l i labels) = i + 1
extent (enum2 i labels) = i + 1
extent (enum_bitmap4 i labels) = i + 2
extent (enum_bitmap22 hi lo labels) = max hi lo + 1
extent grid_in_out = 41
extent grid_in_out_label = 41
extent ppv = 19
extent house_consumption = 84

all_fit : ℕ → Registry → Bool
unfolding extent
all_fit quantity [] = true
all_fit quantity ((name, d) ∷ sensors) =
    leb (extent (calculator_of d)) quantity && all_fit quantity sensors

all_fit_sound :
    (quantity : ℕ) (sensors : Registry) (i : ℕ) (name : String) (d : SensorDefinition)
    → all_fit quantity sensors ≡ true
    → get_elem? sensors i ≡ some (name, d)
    → extent (calculator_of d) ≤ quantity
unfolding all_fit
all_fit_sound quantity [] i name d h e = cc
all_fit_sound quantity ((m, d') ∷ sensors) zero name d h e =
    let same : d' ≡ d = cc in
    let fit : leb (extent (calculator_of d')) quantity ≡ true = ground arith in
    subst (λ (x : SensorDefinition). extent (calculator_of x) ≤ quantity) same (leb→le _ _ fit)
all_fit_sound quantity ((m, d') ∷ sensors) (suc i) name d h e =
    all_fit_sound quantity sensors i name d (ground arith) e

main_fits : all_fit 125 registry ≡ true
unfolding all_fit registry grid_sensors backup_sensors energy_sensors
main_fits = refl

battery_fits : all_fit 24 battery_registry ≡ true
unfolding all_fit battery_registry
battery_fits = refl

meter_fits : all_fit 125 meter_registry ≡ true
unfolding all_fit meter_registry
meter_fits = refl

mppt_fits : all_fit 61 mppt_registry ≡ true
unfolding all_fit mppt_registry
mppt_fits = refl

-- Every sensor of the four registries reads within the registers that are requested for its block,
-- and no request asks for more than the 125 registers that one Modbus response holds.
pub sensor_block-holds :
    (b : BlockType) (i : ℕ) (name : String) (d : SensorDefinition)
    → get_elem? (registry_of b) i ≡ some (name, d)
    → (extent (calculator_of d) ≤ (block_of b d).read_qty) × ((block_of b d).read_qty ≤ 125)
unfolding registry_of
sensor_block-holds main i name d e = (all_fit_sound 125 registry i name d main_fits e, omega arith)
sensor_block-holds battery i name d e =
    (all_fit_sound 24 battery_registry i name d battery_fits e, omega arith)
sensor_block-holds meter i name d e =
    (all_fit_sound 125 meter_registry i name d meter_fits e, omega arith)
sensor_block-holds mppt i name d e =
    (all_fit_sound 61 mppt_registry i name d mppt_fits e, omega arith)

module _ (fl : Float64) (ws more : List ℕ) where
  same_register : (i : ℕ) → i + 1 ≤ length ws → register (ws ++ more) i ≡ register ws i
  same_register i h = get_elem?-append_left ws more i (omega arith)

  same_pair : (i : ℕ) → i + 2 ≤ length ws → register_pair (ws ++ more) i ≡ register_pair ws i
  same_pair i h = ground (arith, same_register i, same_register (i + 1))

  same_quad : (i : ℕ) → i + 4 ≤ length ws → register_quad (ws ++ more) i ≡ register_quad ws i
  same_quad i h = ground (arith, same_pair i, same_pair (i + 2))

  -- A block that holds the registers of a calculator's extent settles its reading: longer blocks
  -- that begin the same give the same value.
  pub reading-extent :
      (c : Calculator) → extent c ≤ length ws → reading fl (ws ++ more) c ≡ reading fl ws c
  unfolding reading extent
  reading-extent (uint16 i s) h = rw (same_register i h)
  reading-extent (int16 i s) h = rw (same_register i h)
  reading-extent (decimal i s) h = rw (same_register i h)
  reading-extent (float i s) h = rw (same_pair i h)
  reading-extent (uint32 i) h = rw (same_pair i h)
  reading-extent (int32 i) h = rw (same_pair i h)
  reading-extent (energy4 i) h = rw (same_pair i h)
  reading-extent (energy2 i) h = rw (same_register i h)
  reading-extent (energy8 i) h = rw (same_quad i h)
  reading-extent (timestamp i) h = rw (
    same_register i (omega arith),
    same_register (i + 1) (omega arith),
    same_register (i + 2) (omega arith),
  )
  reading-extent (high_byte i) h = rw (same_register i h)
  reading-extent (low_byte i) h = rw (same_register i h)
  reading-extent (temp i) h = rw (same_register i h)
  reading-extent (cell_voltage i) h = rw (same_register i h)
  reading-extent (enum_h i labels) h = rw (same_register i h)
  reading-extent (enum_l i labels) h = rw (same_register i h)
  reading-extent (enum2 i labels) h = rw (same_register i h)
  reading-extent (enum_bitmap4 i labels) h = rw (same_pair i h)
  reading-extent (enum_bitmap22 hi lo labels) h =
      rw (same_register hi (omega arith), same_register lo (omega arith))
  reading-extent grid_in_out h = rw (same_register 40 h)
  reading-extent grid_in_out_label h = rw (same_register 40 h)
  reading-extent ppv h = rw (
    same_pair 5 (omega arith),
    same_pair 9 (omega arith),
    same_pair 13 (omega arith),
    same_pair 17 (omega arith),
  )
  reading-extent house_consumption h = rw (
    same_register 40 (omega arith),
    same_pair 5 (omega arith),
    same_pair 9 (omega arith),
    same_pair 13 (omega arith),
    same_pair 17 (omega arith),
    same_pair 82 (omega arith),
  )
