-- ===== src/Et/Inverter/Bulk.antt =====
-- GetSensors of et/et.go: the four blocks, one after the other.
pub mod Fill
pub mod Complete
use go_goodwe.Base.{ℕ, suc, List, [], ◌∷◌, ◌++◌, String, Option, none, some, Bool, if◌then◌else◌}
use go_goodwe.Base.Text.{Text, codes}
use go_goodwe.Base.Result.{Result, ok, err, panic}
use go_goodwe.Base.Program.{Program, ◌>>=◌, pure}
use go_goodwe.Modbus.Message.{is_illegal_data_address}
use go_goodwe.Et.Value.{Float64}
use go_goodwe.Et.Registry.Calculator.{Registry, SensorDefinition}
use go_goodwe.Et.Registry.Main.{registry}
use go_goodwe.Et.Registry.Blocks.{battery_registry, meter_registry, mppt_registry}
use go_goodwe.Et.Registry.Lookup.{
  base_registers_offset, base_registers_count, battery_registers_offset, battery_registers_count,
  meter_registers_offset, meter_registers_count, meter_registers_count_fallb1,
  meter_registers_count_fallb2, mppt_registers_offset, mppt_registers_count,
}
use go_goodwe.Et.Inverter.{Slice, Transport, SensorValue, read_once_with_fallback, measure}

-- The context: whether a test of Done finds it cancelled, by the tests made before; its error; and
-- the order in which a registry is ranged over.
pub record Context : Type 0 where
  pub cancelled : ℕ → Bool
  pub cause : Text
  pub walk : Registry → Registry

module _ (fl : Float64) where
  -- The map of results as the list of its assignments, the latest first.
  abbrev pub Readings : Type 0
  Readings = List (String × SensorValue fl)

  -- The results so far with the number of tests of the context; `none` once it was found cancelled.
  abbrev pub Progress : Type 0
  Progress = Readings × Option ℕ

  abbrev pub finish : Context → Progress → Readings × Option Text
  finish ctx (readings, none) = (readings, some ctx.cause)
  finish ctx (readings, some i) = (readings, none)

  module _ (tr : Transport) where
    -- One loop over a registry.
    unfoldable pub fill : Context → ℕ → Registry → Slice → Readings → Result Progress
    fill ctx i [] d readings = ok (readings, some i)
    fill ctx i ((name, def) ∷ sensors) d readings = elim (ctx.cancelled i) [
      | Bool.true ↦ ok (readings, none)
      | Bool.false ↦ elim (measure tr fl def d) [
        | ok v ↦ fill ctx (suc i) sensors d ((name, v) ∷ readings)
        | err e ↦ err e
        | panic ↦ panic
      ]
    ]

    -- A block that the inverter may refuse: its sensors are left out then.
    unfoldable pub fill_block :
        Context
        → (tr.State → Result Slice × tr.State)
        → Registry
        → Progress
        → Program tr.State Progress
    unfolding fill
    fill_block ctx read sensors (readings, none) s = (ok (readings, none), s)
    fill_block ctx read sensors (readings, some i) s =
        let (r, t) = read s in
        elim r [
          | ok d ↦ (fill ctx i (ctx.walk sensors) d readings, t)
          | err e ↦ (ok (readings, some i), t)
          | panic ↦ (panic, t)
        ]

    -- The next smaller read where the last one was refused.
    unfoldable pub or_smaller : ℕ → Result Slice × tr.State → Result Slice × tr.State
    or_smaller quantity (r, t) = elim r [
      | err e ↦
          (if is_illegal_data_address e
            then tr.read_registers meter_registers_offset quantity t
            else (err e, t))
      | ok d ↦ (ok d, t)
      | panic ↦ (panic, t)
    ]

    unfoldable pub read_meter : tr.State → Result Slice × tr.State
    unfolding or_smaller
    read_meter s = or_smaller meter_registers_count_fallb2 (
        or_smaller meter_registers_count_fallb1
          (tr.read_registers meter_registers_offset meter_registers_count s))

    -- The main block, which has to be answered.
    unfoldable pub fill_main : Context → Program tr.State Progress
    unfolding fill
    fill_main ctx s =
        let (r, t) = read_once_with_fallback tr base_registers_offset base_registers_count s in
        elim r [
          | ok d ↦ (fill ctx 0 (ctx.walk registry) d [], t)
          | err e ↦ (err (codes "failed to read bulk telemetry: " ++ e), t)
          | panic ↦ (panic, t)
        ]

    -- The results, and the context's error if it was cancelled meanwhile.
    unfoldable pub get_sensors : Context → Program tr.State (Readings × Option Text)
    unfolding fill_main fill_block read_meter
    get_sensors ctx = do
      main ← fill_main ctx
      battery ←
          fill_block ctx (λ s. tr.read_registers battery_registers_offset battery_registers_count s)
            battery_registry main
      meter ← fill_block ctx read_meter meter_registry battery
      mppt ←
          fill_block ctx (λ s. tr.read_registers mppt_registers_offset mppt_registers_count s)
            mppt_registry meter
      pure (finish ctx mppt)
