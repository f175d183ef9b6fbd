-- ===== src/Et/Inverter.antt =====
-- ETInverter of et/et.go: connecting, closing, and reading one sensor. The transport is the
-- interface of et/transport.go.
pub mod Sensor
pub mod Bulk
pub mod Info
use go_goodwe.Base.{
  ℕ, ◌<◌, List, [], ◌∷◌, ◌++◌, String, Option, none, some, Bool, true, false, leb, ltb, ◌==◌, ◌&&◌,
  if◌then◌else◌,
}
use go_goodwe.Base.Text.{Text, codes}
use go_goodwe.Base.Result.{Result, ok, err, panic}
use go_goodwe.Modbus.Message.{is_illegal_data_address}
use go_goodwe.Et.Value.{Float64, Value}
use go_goodwe.Et.Registry.Calculator.{SensorDefinition, sensor, calculate}
use go_goodwe.Et.Registry.Lookup.{
  BlockType, main, battery, meter, mppt, SensorBlock, sensor_lookup, lookup, meter_registers_count,
  meter_registers_count_fallb1, meter_registers_count_fallb2,
}

-- A byte slice: its bytes, and those between its length and its capacity.
pub record Slice : Type 0 where
  pub block : List ℕ
  pub spare : List ℕ

-- et.Transport, with the state that its implementation keeps.
pub record Transport : Type 1 where
  pub State : Type 0
  pub connect : State → Result (Unit {0}) × State
  pub close : State → Result (Unit {0}) × State
  pub read_registers : ℕ → ℕ → State → Result Slice × State

-- goodwe.SensorValue
pub record SensorValue (fl : Float64) : Type 0 where
  pub value : Value fl
  pub unit : String
  pub name : String

abbrev is_meter : BlockType → Bool
is_meter meter = true
is_meter _ = false

module _ (tr : Transport) where
  -- The state of an ETInverter's transport; `none` is the nil transport.
  abbrev pub Handle : Type 0
  Handle = Option tr.State

  -- An error of closing the previous connection is logged only.
  unfoldable pub connect : Handle → Result (Unit {0}) × Handle
  connect none =
      (err (codes "no transport configured: use discovery.Discover() instead of New()"), none)
  connect (some s) =
      let (r, t) = tr.connect (tr.close s).1 in
      (
        elim r [ ok _ ↦ ok tt | err e ↦ err (codes "connection failed: " ++ e) | panic ↦ panic ],
        some t,
      )

  unfoldable pub close : Handle → Result (Unit {0}) × Handle
  close none = (ok tt, none)
  close (some s) = let (r, t) = tr.close s in (r, some t)

  -- The quantity to try next after ILLEGAL_DATA_ADDRESS; 0 is none.
  unfoldable pub fallback_qty : SensorBlock → ℕ
  fallback_qty sb =
      if leb meter_registers_count sb.read_qty
      then meter_registers_count_fallb1
      else (if leb meter_registers_count_fallb1 sb.read_qty
          then meter_registers_count_fallb2
          else 0)

  -- readOnceWithFallback: one read; the error is only logged.
  unfoldable pub read_once_with_fallback : ℕ → ℕ → tr.State → Result Slice × tr.State
  read_once_with_fallback start_reg quantity s = tr.read_registers start_reg quantity s

  -- The second read, and the third if the second was the first fallback and refused as well.
  unfoldable pub read_fallback : ℕ → ℕ → tr.State → Result Slice × tr.State
  read_fallback start_reg quantity s =
      let (r, t) = tr.read_registers start_reg quantity s in
      elim r [
        | err e ↦
            (if is_illegal_data_address e && quantity == meter_registers_count_fallb1
              then tr.read_registers start_reg meter_registers_count_fallb2 t
              else (err e, t))
        | ok d ↦ (ok d, t)
        | panic ↦ (panic, t)
      ]

  unfoldable pub read_block : SensorBlock → tr.State → Result Slice × tr.State
  unfolding fallback_qty read_once_with_fallback read_fallback
  read_block sb s =
      let (r, t) = read_once_with_fallback sb.start_reg sb.read_qty s in
      elim r [
        | err e ↦
            (if is_meter sb.block && is_illegal_data_address e && ltb 0 (fallback_qty sb)
              then read_fallback sb.start_reg (fallback_qty sb) t
              else (err e, t))
        | ok d ↦ (ok d, t)
        | panic ↦ (panic, t)
      ]

  module _ (fl : Float64) where
    -- `def.Calculator(data)` with the sensor's name and unit.
    unfoldable pub measure : SensorDefinition → Slice → Result (SensorValue fl)
    measure (sensor name unit calculator) d = elim (calculate fl calculator d.block d.spare) [
      | ok v ↦ ok (record { value = v; unit = unit; name = name })
      | err e ↦ err e
      | panic ↦ panic
    ]

    unfoldable pub read_sensor : String → tr.State → Result (SensorValue fl) × tr.State
    read_sensor name s = elim (lookup name sensor_lookup) [
      | none ↦ (err (codes "unknown sensor: " ++ codes name), s)
      | some sb ↦
          let (r, t) = read_block sb s in
          (
            elim r [
              | ok d ↦ measure sb.def d
              | err e ↦ err (codes "failed to read sensor " ++ (codes name ++ (codes ": " ++ e)))
              | panic ↦ panic
            ],
            t,
          )
    ]
