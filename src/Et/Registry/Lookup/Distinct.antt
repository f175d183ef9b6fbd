-- ===== src/Et/Registry/Lookup/Distinct.antt =====
-- The names of the four registries, which `init` ranges over in no fixed order.
use go_goodwe.Base.{
  ℕ, zero, suc, List, [], ◌∷◌, ◌++◌, String, some, Bool, true, ◌&&◌, not, get_elem?, ◌≡◌, refl, ◌∙◌,
  arith,
}
use text.Mathlib.Text.{◌==◌}
use text.Mathlib.TextEquality.{eq_iff}
use go_goodwe.Et.Registry.Calculator.{SensorDefinition, Registry}
use go_goodwe.Et.Registry.Main.{registry, grid_sensors, backup_sensors, energy_sensors}
use go_goodwe.Et.Registry.Blocks.{battery_registry, meter_registry, mppt_registry}
use go_goodwe.Et.Registry.Lookup.{
  BlockType, main, battery, meter, mppt, SensorBlock, Table, assign_all, main_block, battery_block,
  meter_block, mppt_block, sensor_lookup, lookup,
}

module _ {ℓ} {A : Type ℓ} where
  absent : String → List (String × A) → Bool
  absent k [] = true
  absent k ((j, v) ∷ sensors) = not (j == k) && absent k sensors

  distinct : List (String × A) → Bool
  distinct [] = true
  distinct ((j, v) ∷ sensors) = absent j sensors && distinct sensors

  absent-append :
      (k : String) (xs ys : List (String × A)) → absent k (xs ++ ys) ≡ (absent k xs && absent k ys)
  unfolding absent
  absent-append k [] ys = refl
  absent-append k ((j, v) ∷ xs) ys = ground (arith, absent-append k xs ys)

  distinct_right : (xs ys : List (String × A)) → distinct (xs ++ ys) ≡ true → distinct ys ≡ true
  unfolding distinct
  distinct_right [] ys h = h
  distinct_right ((j, v) ∷ xs) ys h = distinct_right xs ys (ground arith)

  distinct_left : (xs ys : List (String × A)) → distinct (xs ++ ys) ≡ true → distinct xs ≡ true
  unfolding distinct
  distinct_left [] ys h = refl
  distinct_left ((j, v) ∷ xs) ys h =
      ground (arith, absent-append j xs ys, distinct_left xs ys (ground arith))

  -- A name of the first part does not stand in the second.
  distinct_apart :
      (xs ys : List (String × A)) (i : ℕ) (k : String) (v : A)
      → get_elem? xs i ≡ some (k, v)
      → distinct (xs ++ ys) ≡ true
      → absent k ys ≡ true
  unfolding distinct
  distinct_apart [] ys i k v e h = cc
  distinct_apart ((j, w) ∷ xs) ys zero k v e h =
      ground (arith, absent-append j xs ys, absent-append k xs ys)
  distinct_apart ((j, w) ∷ xs) ys (suc i) k v e h = distinct_apart xs ys i k v e (ground arith)

module _ (make : SensorDefinition → SensorBlock) where
  lookup-absent :
      (k : String) (sensors : Registry) (table : Table)
      → absent k sensors ≡ true
      → lookup k (assign_all make sensors table) ≡ lookup k table
  unfolding lookup assign_all absent
  lookup-absent k [] table h = refl
  lookup-absent k ((j, d) ∷ sensors) table h =
      lookup-absent k sensors ((j, make d) ∷ table) (ground arith) ∙ ground arith

  lookup_present :
      (sensors : Registry) (table : Table) (i : ℕ) (k : String) (d : SensorDefinition)
      → get_elem? sensors i ≡ some (k, d)
      → distinct sensors ≡ true
      → lookup k (assign_all make sensors table) ≡ some (make d)
  unfolding lookup assign_all distinct
  lookup_present [] table i k d e h = cc
  lookup_present ((j, d') ∷ sensors) table zero k d e h =
      lookup-absent k sensors ((j, make d') ∷ table) (ground arith) ∙ ground (arith, eq_iff j k)
  lookup_present ((j, d') ∷ sensors) table (suc i) k d e h =
      lookup_present sensors ((j, make d') ∷ table) i k d e (ground arith)

all_sensors : Registry
all_sensors = registry ++ (battery_registry ++ (meter_registry ++ mppt_registry))

all_distinct : distinct all_sensors ≡ true
unfolding distinct absent all_sensors registry grid_sensors backup_sensors energy_sensors
    battery_registry meter_registry mppt_registry
all_distinct = refl

shut : distinct (registry ++ (battery_registry ++ (meter_registry ++ mppt_registry))) ≡ true
unfolding all_sensors
shut = all_distinct

-- The four registries by block.
unfoldable pub registry_of : BlockType → Registry
registry_of main = registry
registry_of battery = battery_registry
registry_of meter = meter_registry
registry_of mppt = mppt_registry

abbrev pub block_of : BlockType → SensorDefinition → SensorBlock
block_of main = main_block
block_of battery = battery_block
block_of meter = meter_block
block_of mppt = mppt_block

-- Every entry of each of the four registries is found in sensorLookup under its name, as a sensor of
-- that registry's block: no name hides another, within a registry or across them.
pub sensor_lookup_complete :
    (b : BlockType) (i : ℕ) (k : String) (d : SensorDefinition)
    → get_elem? (registry_of b) i ≡ some (k, d)
    → lookup k sensor_lookup ≡ some (block_of b d)
unfolding sensor_lookup registry_of
sensor_lookup_complete mppt i k d e = lookup_present mppt_block mppt_registry _ i k d e (
    distinct_right meter_registry _
      (distinct_right battery_registry _ (distinct_right registry _ shut)))
sensor_lookup_complete meter i k d e =
    let here = distinct_right battery_registry _ (distinct_right registry _ shut) in
    lookup-absent mppt_block k mppt_registry _
      (distinct_apart meter_registry mppt_registry i k d e here)
    ∙ lookup_present meter_block meter_registry _ i k d e
        (distinct_left meter_registry mppt_registry here)
sensor_lookup_complete battery i k d e =
    let here = distinct_right registry _ shut in
    let apart = absent-append k meter_registry mppt_registry in
    let later = distinct_apart battery_registry (meter_registry ++ mppt_registry) i k d e here in
    lookup-absent mppt_block k mppt_registry _ (ground (arith, apart, later))
    ∙ lookup-absent meter_block k meter_registry _ (ground (arith, apart, later))
    ∙ lookup_present battery_block battery_registry _ i k d e
        (distinct_left battery_registry _ here)
sensor_lookup_complete main i k d e =
    let apart = absent-append k battery_registry (meter_registry ++ mppt_registry) in
    let farther = absent-append k meter_registry mppt_registry in
    let later =
      distinct_apart registry (battery_registry ++ (meter_registry ++ mppt_registry)) i k d e
        shut in
    lookup-absent mppt_block k mppt_registry _ (ground (arith, apart, farther, later))
    ∙ lookup-absent meter_block k meter_registry _ (ground (arith, apart, farther, later))
    ∙ lookup-absent battery_block k battery_registry _ (ground (arith, apart, later))
    ∙ lookup_present main_block registry _ i k d e (distinct_left registry _ shut)
