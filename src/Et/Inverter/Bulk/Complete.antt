-- ===== src/Et/Inverter/Bulk/Complete.antt =====
-- What a bulk read returns where no call panics and nobody cancels it.
use go_goodwe.Base.{
  ℕ, List, [], ◌∷◌, String, none, some, Bool-cases, if◌then◌else◌, inl, inr, ◌≡◌, refl, sym, subst,
  ◌∙◌, arith,
}
use go_goodwe.Base.Text.{Text}
use go_goodwe.Base.Result.{Result, ok, err, panic}
use go_goodwe.Et.Value.{Float64}
use go_goodwe.Et.Registry.Calculator.{Registry, SensorDefinition}
use go_goodwe.Et.Registry.Main.{registry}
use go_goodwe.Et.Registry.Blocks.{battery_registry, meter_registry, mppt_registry}
use go_goodwe.Et.Registry.Lookup.{BlockType, main, battery, meter, mppt, lookup}
use go_goodwe.Et.Registry.Lookup.Distinct.{registry_of, block_of, sensor_lookup_complete}
use go_goodwe.Modbus.Message.{is_illegal_data_address}
use go_goodwe.Et.Inverter.{Slice, Transport, SensorValue, read_once_with_fallback, measure}
use go_goodwe.Et.Inverter.Bulk.{Context, Readings, fill_main, or_smaller, read_meter, get_sensors}
use go_goodwe.Et.Inverter.Bulk.Fill.{
  IsLive, IsEntry, IsRange, IsSingle, IsRoomy, Returns, Assigns, fill-Assigns, fill_block-Assigns,
}

-- No name stands in both registries.
abbrev AreApart : Registry → Registry → Type 0
AreApart r r' =
    (name : String) (def : SensorDefinition)
    → IsEntry name def r
    → (def' : SensorDefinition) → ¬ IsEntry name def' r'

same_block :
    (b c : BlockType) (name : String) (def def' : SensorDefinition)
    → IsEntry name def (registry_of b)
    → IsEntry name def' (registry_of c)
    → block_of b def ≡ block_of c def'
same_block b c name def def' (i, e) (j, e') =
    let found = sensor_lookup_complete b i name def e in
    let found' = sensor_lookup_complete c j name def' e' in cc

registry_of-IsSingle : (b : BlockType) → IsSingle (registry_of b)
registry_of-IsSingle main name def def' e e' =
    ground (arith, same_block main main name def def' e e')
registry_of-IsSingle battery name def def' e e' =
    ground (arith, same_block battery battery name def def' e e')
registry_of-IsSingle meter name def def' e e' =
    ground (arith, same_block meter meter name def def' e e')
registry_of-IsSingle mppt name def def' e e' =
    ground (arith, same_block mppt mppt name def def' e e')

main-battery : AreApart registry battery_registry
unfolding registry_of
main-battery name def e def' e' = ground (arith, same_block main battery name def def' e e')

main-meter : AreApart registry meter_registry
unfolding registry_of
main-meter name def e def' e' = ground (arith, same_block main meter name def def' e e')

main-mppt : AreApart registry mppt_registry
unfolding registry_of
main-mppt name def e def' e' = ground (arith, same_block main mppt name def def' e e')

battery-meter : AreApart battery_registry meter_registry
unfolding registry_of
battery-meter name def e def' e' = ground (arith, same_block battery meter name def def' e e')

battery-mppt : AreApart battery_registry mppt_registry
unfolding registry_of
battery-mppt name def e def' e' = ground (arith, same_block battery mppt name def def' e e')

meter-mppt : AreApart meter_registry mppt_registry
unfolding registry_of
meter-mppt name def e def' e' = ground (arith, same_block meter mppt name def def' e e')

turned : (r r' : Registry) → AreApart r r' → AreApart r' r
turned r r' apart name def e def' e' = apart name def' e' def e

module _ (fl : Float64) (tr : Transport) where
  -- The answer to the first of the meter's reads that is not refused as an illegal address, or to
  -- the last one: `quantity` registers are asked for, then the given quantities.
  abbrev pub first_accepted : ℕ → List ℕ → tr.State → Result Slice × tr.State
  first_accepted quantity [] s = tr.read_registers 36000 quantity s
  first_accepted quantity (smaller ∷ more) s =
      let (r, t) = tr.read_registers 36000 quantity s in
      elim r [
        | err e ↦ (if is_illegal_data_address e then first_accepted smaller more t else (err e, t))
        | ok d ↦ (ok d, t)
        | panic ↦ (panic, t)
      ]

  read_meter-first_accepted :
      (s : tr.State) → read_meter fl tr s ≡ first_accepted 125 (58 ∷ 45 ∷ []) s
  unfolding read_meter or_smaller
  read_meter-first_accepted s = by_first (tr.read_registers 36000 125 s) refl
    where
      by_first :
          (r : Result Slice × tr.State)
          → tr.read_registers 36000 125 s ≡ r
          → read_meter fl tr s ≡ first_accepted 125 (58 ∷ 45 ∷ []) s
      by_first (ok d, t) first = ground (arith, first)
      by_first (panic, t) first = ground (arith, first)
      by_first (err e, t) first = ground (arith, first)

  -- What the map of results has of a block, by what its read answered: the value of each sensor, or
  -- nothing.
  pub record Shows (sensors : Registry) (answer : Result Slice) (out : Readings fl) : Type 0 where
    pub shown :
        (d : Slice) (name : String) (def : SensorDefinition)
        → answer ≡ ok d
        → IsEntry name def sensors
        → (v : SensorValue fl) × (measure tr fl def d ≡ ok v) × (lookup name out ≡ some v)
    pub missing :
        (e : Text) (name : String) (def : SensorDefinition)
        → answer ≡ err e
        → IsEntry name def sensors
        → lookup name out ≡ none

  abbrev IsBlank : Registry → Readings fl → Type 0
  IsBlank sensors readings =
      (name : String) (def : SensorDefinition)
      → IsEntry name def sensors
      → lookup name readings ≡ none

  IsBlank-later :
      (r r' : Registry) (answer : Result Slice) (before after : Readings fl)
      → AreApart r r'
      → Assigns fl tr r' answer before after
      → IsBlank r before
      → IsBlank r after
  IsBlank-later r r' answer before after apart assigns blank name def e =
      assigns.others name (apart name def e) ∙ blank name def e

  Shows-first :
      (r : Registry) (answer : Result Slice) (before after : Readings fl)
      → IsBlank r before
      → Assigns fl tr r answer before after
      → Shows r answer after
  Shows-first r answer before after blank assigns = record {
    shown = assigns.shown;
    missing = λ e name def failed entry. assigns.left e name failed ∙ blank name def entry;
  }

  Shows-later :
      (r r' : Registry) (first answer : Result Slice) (before after : Readings fl)
      → AreApart r r'
      → Assigns fl tr r' answer before after
      → Shows r first before
      → Shows r first after
  Shows-later r r' first answer before after apart assigns shows = record {
    shown = λ d name def e entry.
        let (v, measured, held) = shows.shown d name def e entry in
        (v, measured, assigns.others name (apart name def entry) ∙ held);
    missing = λ e name def failed entry.
        assigns.others name (apart name def entry) ∙ shows.missing e name def failed entry;
  }

  first_accepted-Returns :
      ((start_reg quantity : ℕ) (s : tr.State) → Returns (tr.read_registers start_reg quantity s))
      → (quantity : ℕ) (more : List ℕ) (s : tr.State) → Returns (first_accepted quantity more s)
  first_accepted-Returns answers quantity [] s = answers 36000 quantity s
  first_accepted-Returns answers quantity (smaller ∷ more) s =
      by_read (tr.read_registers 36000 quantity s) refl (answers 36000 quantity s)
        (λ t. first_accepted-Returns answers smaller more t)
    where
      by_read :
          (r : Result Slice × tr.State)
          → tr.read_registers 36000 quantity s ≡ r
          → Returns r
          → ((t : tr.State) → Returns (first_accepted smaller more t))
          → Returns (first_accepted quantity (smaller ∷ more) s)
      by_read (ok d, t) e result rest = subst Returns (ground (arith, e)) result
      by_read (panic, t) e result rest = elim result [ ]
      by_read (err m, t) e result rest = elim (Bool-cases (is_illegal_data_address m)) [
        | inl illegal ↦ subst Returns (ground (arith, e, illegal)) (rest t)
        | inr other ↦ subst Returns (ground (arith, e, other)) result
      ]

  module _ (ctx : Context) (live : IsLive ctx)
      (answers : (start_reg quantity : ℕ) (s : tr.State)
        → Returns (tr.read_registers start_reg quantity s)) where
    -- A bulk read that nobody cancels and that ranges over whole registries, over a transport whose
    -- reads return errors or slices with a capacity of at least 82 bytes, returns without an error
    -- if the main block is answered. It asks for the battery block, for the meter block, with fewer
    -- registers while the quantity is refused as an illegal address, and for the MPPT block. The map
    -- of results then has each sensor of each block that was answered with the value computed from
    -- that block's answer, and no sensor of a block whose read returned an error.
    pub get_sensors_complete :
        (s t : tr.State) (d : Slice)
        → tr.read_registers 35100 125 s ≡ (ok d, t)
        → IsRoomy d
        → IsRange ctx
        → let of_battery = tr.read_registers 37000 24 t in
          let of_meter = first_accepted 125 (58 ∷ 45 ∷ []) of_battery.1 in
          let of_mppt = tr.read_registers 35301 61 of_meter.1 in
          (out : Readings fl) × (get_sensors fl tr ctx s ≡ (ok (out, none), of_mppt.1))
          × Shows registry (ok d) out
          × Shows battery_registry of_battery.0 out
          × Shows meter_registry of_meter.0 out
          × Shows mppt_registry of_mppt.0 out
    unfolding get_sensors fill_main read_once_with_fallback registry_of lookup
    get_sensors_complete s t d first room ranged =
        let of_battery = tr.read_registers 37000 24 t in
        let of_meter = first_accepted 125 (58 ∷ 45 ∷ []) of_battery.1 in
        let (a, n, ran, main_done) =
          fill-Assigns fl tr ctx live ranged registry (registry_of-IsSingle main) 0 d [] room in
        let (b, m, ran₁, battery_done) =
          fill_block-Assigns fl tr ctx live ranged battery_registry (registry_of-IsSingle battery)
            (λ s. tr.read_registers 37000 24 s) n a t (answers 37000 24 t) in
        let asked = read_meter-first_accepted of_battery.1 in
        let (c, k, ran₂, meter_ran) =
          fill_block-Assigns fl tr ctx live ranged meter_registry (registry_of-IsSingle meter)
            (λ s. read_meter fl tr s) m b of_battery.1
            (subst Returns (sym asked)
              (first_accepted-Returns answers 125 (58 ∷ 45 ∷ []) of_battery.1)) in
        let meter_done = subst (λ r. Assigns fl tr meter_registry r.0 b c) asked meter_ran in
        let (out, l, ran₃, mppt_done) =
          fill_block-Assigns fl tr ctx live ranged mppt_registry (registry_of-IsSingle mppt)
            (λ s. tr.read_registers 35301 61 s) k c of_meter.1 (answers 35301 61 of_meter.1) in
        let blank : (r : Registry) → IsBlank r [] = λ r name def e. refl in
        let battery_blank =
          IsBlank-later battery_registry registry (ok d) [] a
            (turned registry battery_registry main-battery) main_done (blank battery_registry) in
        let meter_blank =
          IsBlank-later meter_registry battery_registry of_battery.0 a b
            (turned battery_registry meter_registry battery-meter) battery_done
            (IsBlank-later meter_registry registry (ok d) [] a
              (turned registry meter_registry main-meter) main_done (blank meter_registry)) in
        let mppt_blank =
          IsBlank-later mppt_registry meter_registry of_meter.0 b c
            (turned meter_registry mppt_registry meter-mppt) meter_done
            (IsBlank-later mppt_registry battery_registry of_battery.0 a b
              (turned battery_registry mppt_registry battery-mppt) battery_done
              (IsBlank-later mppt_registry registry (ok d) [] a
                (turned registry mppt_registry main-mppt) main_done (blank mppt_registry))) in
        (
          out,
          ground (arith, first, ran, ran₁, asked, ran₂, ran₃),
          Shows-later registry mppt_registry (ok d) _ c out main-mppt mppt_done (
              Shows-later registry meter_registry (ok d) of_meter.0 b c main-meter meter_done (
                Shows-later registry battery_registry (ok d) of_battery.0 a b main-battery
                  battery_done (Shows-first registry (ok d) [] a (blank registry) main_done))),
          Shows-later battery_registry mppt_registry of_battery.0 _ c out battery-mppt mppt_done (
              Shows-later battery_registry meter_registry of_battery.0 of_meter.0 b c battery-meter
                meter_done
                (Shows-first battery_registry of_battery.0 a b battery_blank battery_done)),
          Shows-later meter_registry mppt_registry of_meter.0 _ c out meter-mppt mppt_done
              (Shows-first meter_registry of_meter.0 b c meter_blank meter_done),
          Shows-first mppt_registry _ c out mppt_blank mppt_done,
        )
