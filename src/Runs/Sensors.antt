-- ===== src/Runs/Sensors.antt =====
-- Runs of the sensor registry and of reading one sensor.
use go_goodwe.Base.{
  ℕ, suc, List, none, false, ◌≡◌, ◌≤◌, refl, arith, [], ◌∷◌, some, true, get_elem?, inl,
  if◌then◌else◌,
}
use go_goodwe.Base.Int.{pos, signed16, ◌*ℤ◌}
use go_goodwe.Base.Picks.{Picks}
use go_goodwe.Base.Text.{Text, codes}
use go_goodwe.Base.Result.{ok, err, is_ok}
use go_goodwe.Modbus.Message.{exception_message, is_illegal_data_address}
use go_goodwe.Et.Value.{Value, float64}
use go_goodwe.Et.Reader.Words.{bytes_of}
use go_goodwe.Et.Reader.Bitmap.{decode_bitmap}
use go_goodwe.Et.Reader.Bitmap.Labelled.{listed, bits_from, IsShown, decode_bitmap-listed}
use go_goodwe.Et.Labels.Codes.{bms_alarm_codes}
use go_goodwe.Et.Registry.Calculator.{
  SensorDefinition, sensor, calculate, uint16, int16, one, grid_in_out, house_consumption,
  grid_direction,
}
use go_goodwe.Et.Registry.Calculator.Reading.{reading, calculate-reading}
use go_goodwe.Et.Registry.Calculator.Total.{calculate_total, grid_in_out_past_end}
use go_goodwe.Et.Registry.Main.{registry}
use go_goodwe.Et.Registry.Blocks.{battery_registry, meter_registry, mppt_registry}
use go_goodwe.Et.Registry.Lookup.{battery, sensor_lookup, lookup, meter_block, battery_block}
use go_goodwe.Et.Registry.Lookup.Distinct.{registry_of, sensor_lookup_complete}
use go_goodwe.Et.Registry.Lookup.Extent.{extent, sensor_block-holds}
use go_goodwe.Et.Inverter.{Slice, Transport, read_block, read_sensor}
use go_goodwe.Et.Inverter.Bulk.{Context, Readings, get_sensors}
use go_goodwe.Et.Inverter.Bulk.Fill.{Returns, returned}
use go_goodwe.Et.Inverter.Bulk.Complete.{Shows, get_sensors_complete}
use go_goodwe.Et.Inverter.Sensor.{read_sensor-reading, read_block_meter, read_sensor_failed}
use go_goodwe.Runs.Setup.{whole, sevens, steady, refusing}

abbrev index_sensor : SensorDefinition
index_sensor = sensor "Battery Index" "" (uint16 1 one)

index_listed : get_elem? (registry_of battery) 1 ≡ some ("battery_index", index_sensor)
unfolding registry_of battery_registry
index_listed = refl

read_sensor-reading_example :
    (v : Value whole) × (reading whole (sevens 24) (uint16 1 one) ≡ some v)
    × (read_sensor steady whole "battery_index" 0
        ≡ (ok (record { value = v; unit = ""; name = "Battery Index" }), 1))
read_sensor-reading_example =
    read_sensor-reading whole steady battery 1 "battery_index" "Battery Index" "" (uint16 1 one)
      (sevens 24) [] 0 1 index_listed refl refl

reading_seven : reading whole (sevens 24) (int16 1 one) ≡ some (float64 (pos 7))
unfolding reading ◌*ℤ◌
reading_seven = refl

calculate-reading_example :
    calculate whole (int16 1 one) (bytes_of (sevens 24)) [] ≡ ok (float64 (pos 7))
calculate-reading_example = calculate-reading whole (sevens 24) (int16 1 one) [] reading_seven

calculate_total_example : is_ok (calculate whole house_consumption [] (sevens 82)) ≡ true
calculate_total_example = calculate_total whole house_consumption [] (sevens 82) (omega arith)

grid_in_out_past_end_example :
    calculate whole grid_in_out (sevens 80) (0 ∷ 200 ∷ [])
    ≡ ok (float64 (pos (grid_direction (signed16 (200)))))
grid_in_out_past_end_example = grid_in_out_past_end whole (sevens 80) [] 0 200 refl

sensor_lookup_complete_example :
    lookup "battery_index" sensor_lookup ≡ some (battery_block index_sensor)
sensor_lookup_complete_example =
    sensor_lookup_complete battery 1 "battery_index" index_sensor index_listed

sensor_block-holds_example : (extent (uint16 1 one) ≤ 24) × (24 ≤ 125)
sensor_block-holds_example = sensor_block-holds battery 1 "battery_index" index_sensor index_listed

read_block_meter_example :
    read_block (refusing (exception_message 0x83 2)) (meter_block index_sensor) 0 ≡ (
      if is_illegal_data_address (exception_message 0x83 2)
      then (err (exception_message 0x83 2), 3)
      else (err (exception_message 0x83 2), 2))
read_block_meter_example =
    read_block_meter whole (refusing (exception_message 0x83 2)) index_sensor 0 1 0x83 refl

read_sensor_failed_example :
    read_sensor (refusing (codes "modbus read error: timeout")) whole "battery_index" 0
    ≡ (err (codes "failed to read sensor battery_index: modbus read error: timeout"), 1)
read_sensor_failed_example =
    read_sensor_failed whole (refusing (codes "modbus read error: timeout")) battery 1
      "battery_index" index_sensor 0 1 (codes "modbus read error: timeout") index_listed refl
      (inl (λ e. cc))

-- A transport that slices a buffer with 82 bytes more.
abbrev from_buffer : ℕ → Slice
from_buffer quantity = record { block = bytes_of (sevens quantity); spare = sevens 82 }

abbrev roomy : Transport
roomy = record {
  State = ℕ;
  connect = λ s. (ok tt, s);
  close = λ s. (ok tt, s);
  read_registers = λ start_reg quantity s. (ok (from_buffer quantity), suc s);
}

roomy-Returns : (start_reg quantity s : ℕ) → Returns (roomy.read_registers start_reg quantity s)
roomy-Returns start_reg quantity s = returned (omega arith)

abbrev patient : Context
patient = record { cancelled = λ i. false; cause = []; walk = λ r. r }

get_sensors_complete_example :
    (out : Readings whole) × (get_sensors whole roomy patient 0 ≡ (ok (out, none), 4))
    × Shows whole roomy registry (ok (from_buffer 125)) out
    × Shows whole roomy battery_registry (ok (from_buffer 24)) out
    × Shows whole roomy meter_registry (ok (from_buffer 125)) out
    × Shows whole roomy mppt_registry (ok (from_buffer 61)) out
get_sensors_complete_example =
    get_sensors_complete whole roomy patient (λ i. refl) roomy-Returns 0 1 (from_buffer 125) refl
      (omega arith) (λ sensors name def. (λ e. e, λ e. e))

decode_bitmap-listed_example :
    (parts : List Text) × Picks (IsShown 5 bms_alarm_codes) (bits_from 32 0) parts
    × (decode_bitmap 5 bms_alarm_codes ≡ listed parts)
decode_bitmap-listed_example = decode_bitmap-listed 5 bms_alarm_codes
