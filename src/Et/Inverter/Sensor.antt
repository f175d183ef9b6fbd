-- ===== src/Et/Inverter/Sensor.antt =====
-- Reading one sensor, from its name to the registers of the inverter.
use go_goodwe.Base.{
  ℕ, ◌≤◌, List, ◌++◌, String, none, some, length, get_elem?, get_elem?-some, Option-cases, inl, inr,
  false, ◌≡◌, ◌≢◌, ◌⊎◌, if◌then◌else◌, arith,
}
use go_goodwe.Base.Text.{Text, codes}
use go_goodwe.Base.Result.{ok, err, panic}
use go_goodwe.Modbus.Message.{is_illegal_data_address, exception_message}
use go_goodwe.Modbus.Message.Exception.{is_illegal_data_address_iff}
use go_goodwe.Et.Value.{Float64, Value}
use go_goodwe.Et.Reader.Words.{bytes_of}
use go_goodwe.Et.Registry.Calculator.{
  Calculator, SensorDefinition, sensor, uint16, grid_in_out, grid_in_out_label, house_consumption,
}
use go_goodwe.Et.Registry.Calculator.Reading.{reading, calculate-reading}
use go_goodwe.Et.Registry.Lookup.{BlockType, main, battery, meter, mppt, meter_block}
use go_goodwe.Et.Registry.Lookup.Distinct.{registry_of, block_of, sensor_lookup_complete}
use go_goodwe.Et.Registry.Lookup.Extent.{extent, sensor_block-holds}
use go_goodwe.Et.Inverter.{Transport, read_block, measure, read_sensor}

module _ (fl : Float64) (ws : List ℕ) where
  reading-ne-none : (c : Calculator) → extent c ≤ length ws → reading fl ws c ≢ none
  unfolding reading extent
  reading-ne-none (uint16 i s) h = λ e. cc
  reading-ne-none grid_in_out h =
      let (w, e) = get_elem?-some ws 40 (omega arith) in ground (arith, e)
  reading-ne-none grid_in_out_label h =
      let (w, e) = get_elem?-some ws 40 (omega arith) in ground (arith, e)
  reading-ne-none house_consumption h =
      let (w, e) = get_elem?-some ws 40 (omega arith) in ground (arith, e)
  reading-ne-none _ h = λ e. cc

  -- A block as long as the calculator's extent has a reading.
  pub reading-some :
      (c : Calculator) → extent c ≤ length ws → (v : Value fl) × (reading fl ws c ≡ some v)
  reading-some c h = elim (Option-cases (reading fl ws c)) [
    | inl e ↦ absurd (reading-ne-none c h e)
    | inr found ↦ found
  ]

module _ (fl : Float64) (tr : Transport) where
  -- A sensor of any registry, whose block the inverter answers in full, reads as the value that
  -- those registers have for its calculator, with the sensor's own name and unit.
  pub read_sensor-reading :
      (b : BlockType) (i : ℕ) (key name unit : String) (c : Calculator) (ws spare : List ℕ)
      (s t : tr.State)
      → get_elem? (registry_of b) i ≡ some (key, sensor name unit c)
      → let sb = block_of b (sensor name unit c) in
        tr.read_registers sb.start_reg sb.read_qty s
          ≡ (ok (record { block = bytes_of ws; spare = spare }), t)
        → length ws ≡ sb.read_qty
        → (v : Value fl) × (reading fl ws c ≡ some v)
          × (read_sensor tr fl key s ≡ (ok (record { value = v; unit = unit; name = name }), t))
  unfolding read_sensor read_block measure
  read_sensor-reading b i key name unit c ws spare s t e answer size =
      let d = sensor name unit c in
      let (fits, _) = sensor_block-holds b i key d e in
      let (v, reads) = reading-some fl ws c (omega arith) in
      (
        v,
        reads,
        ground (
          arith,
          sensor_lookup_complete b i key d e,
          answer,
          calculate-reading fl ws c spare reads,
        ),
      )

  -- A meter sensor that ILLEGAL_DATA_ADDRESS refuses at 125 registers is read at 58, and if that is
  -- refused too at 45; any other outcome of a read ends the search. The result is that of the last
  -- read that was made.
  pub read_block_meter :
      (d : SensorDefinition) (s t : tr.State) (func_code : ℕ)
      → tr.read_registers 36000 125 s ≡ (err (exception_message func_code 2), t)
      → read_block tr (meter_block d) s ≡ (
          let (r, u) = tr.read_registers 36000 58 t in
          elim r [
            | err e ↦
                (if is_illegal_data_address e then tr.read_registers 36000 45 u else (err e, u))
            | ok x ↦ (ok x, u)
            | panic ↦ (panic, u)
          ])
  unfolding read_block
  read_block_meter d s t func_code refused =
      ground (arith, is_illegal_data_address_iff func_code 2 (omega arith))

  -- In the other blocks, and at the meter on any other error, nothing else is tried: the error of
  -- the first read is the sensor's.
  pub read_sensor_failed :
      (b : BlockType) (i : ℕ) (key : String) (d : SensorDefinition) (s t : tr.State) (e : Text)
      → get_elem? (registry_of b) i ≡ some (key, d)
      → let sb = block_of b d in
        tr.read_registers sb.start_reg sb.read_qty s ≡ (err e, t)
        → (b ≢ meter) ⊎ (is_illegal_data_address e ≡ false)
        → read_sensor tr fl key s
          ≡ (err (codes "failed to read sensor " ++ (codes key ++ (codes ": " ++ e))), t)
  unfolding read_sensor read_block
  read_sensor_failed main i key d s t e at answer other =
      ground (arith, sensor_lookup_complete main i key d at)
  read_sensor_failed battery i key d s t e at answer other =
      ground (arith, sensor_lookup_complete battery i key d at)
  read_sensor_failed meter i key d s t e at answer other =
      ground (arith, sensor_lookup_complete meter i key d at)
  read_sensor_failed mppt i key d s t e at answer other =
      ground (arith, sensor_lookup_complete mppt i key d at)
