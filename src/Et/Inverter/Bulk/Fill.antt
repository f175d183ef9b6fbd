-- ===== src/Et/Inverter/Bulk/Fill.antt =====
-- What the loops of a bulk read assign, seen as a map.
use go_goodwe.Base.{
  ℕ, zero, suc, ◌+◌, ◌≤◌, [], ◌∷◌, String, some, Bool-cases, false, length, get_elem?, ◌⊎◌, inl,
  inr, ◌≡◌, refl, sym, subst, ◌∙◌, arith,
}
use text.Mathlib.Text.{◌==◌ as str_eq}
use text.Mathlib.TextEquality.{eq_iff}
use go_goodwe.Base.Text.{Text}
use go_goodwe.Base.Result.{Result, ok, err, panic}
use go_goodwe.Et.Value.{Float64, Value}
use go_goodwe.Et.Registry.Calculator.{Registry, SensorDefinition, sensor, calculate}
use go_goodwe.Et.Registry.Calculator.Total.{calculate_total}
use go_goodwe.Et.Registry.Lookup.{lookup}
use go_goodwe.Et.Inverter.{Slice, Transport, SensorValue, measure}
use go_goodwe.Et.Inverter.Bulk.{Context, Readings, fill, fill_block}

-- The context is never found cancelled.
abbrev pub IsLive : Context → Type 0
IsLive ctx = (i : ℕ) → ctx.cancelled i ≡ false

-- An entry of a registry.
abbrev pub IsEntry : String → SensorDefinition → Registry → Type 0
IsEntry name def sensors = (at : ℕ) × (get_elem? sensors at ≡ some (name, def))

-- A range over a registry meets every entry and nothing else.
abbrev pub IsRange : Context → Type 0
IsRange ctx =
    (sensors : Registry) (name : String) (def : SensorDefinition)
    → (IsEntry name def sensors → IsEntry name def (ctx.walk sensors))
      × (IsEntry name def (ctx.walk sensors) → IsEntry name def sensors)

-- No name has two definitions.
abbrev pub IsSingle : Registry → Type 0
IsSingle sensors =
    (name : String) (def def' : SensorDefinition)
    → IsEntry name def sensors
    → IsEntry name def' sensors
    → def ≡ def'

abbrev pub IsRoomy : Slice → Type 0
IsRoomy d = 82 ≤ length d.block + length d.spare

-- A read of the transport returns an error, or a slice with a capacity of at least 82 bytes.
pub data Returns {S : Type 0} : Result Slice × S → Type 0 where
  returned : {d : Slice} {s : S} → IsRoomy d → Returns (ok d, s)
  refused : {e : Text} {s : S} → Returns (err e, s)

module _ (fl : Float64) (tr : Transport) where
  measure-ok :
      (def : SensorDefinition) (d : Slice)
      → IsRoomy d
      → (v : SensorValue fl) × (measure tr fl def d ≡ ok v)
  unfolding measure
  measure-ok (sensor name unit c) d room = by_value (calculate fl c d.block d.spare) refl
    where
      by_value :
          (r : Result (Value fl))
          → calculate fl c d.block d.spare ≡ r
          → (v : SensorValue fl) × (measure tr fl (sensor name unit c) d ≡ ok v)
      by_value (ok v) e = (record { value = v; unit = unit; name = name }, ground (arith, e))
      by_value (err m) e = absurd (ground (arith, e, calculate_total fl c d.block d.spare room))
      by_value panic e = absurd (ground (arith, e, calculate_total fl c d.block d.spare room))

  -- What a loop over a registry changes: no other name, and every name of it that had the value
  -- of the block, or is still to come, has it.
  record Fills (sensors : Registry) (d : Slice) (before after : Readings fl) : Type 0 where
    others :
        (name : String)
        → ((def : SensorDefinition) → ¬ IsEntry name def sensors)
        → lookup name after ≡ lookup name before
    own :
        (name : String) (def : SensorDefinition) (v : SensorValue fl)
        → ((def' : SensorDefinition) → IsEntry name def' sensors → def' ≡ def)
        → measure tr fl def d ≡ ok v
        → (lookup name before ≡ some v) ⊎ IsEntry name def sensors
        → lookup name after ≡ some v

  fill-Fills :
      (ctx : Context)
      → IsLive ctx
      → (i : ℕ) (sensors : Registry) (d : Slice) (readings : Readings fl) → IsRoomy d
      → (out : Readings fl) × (n : ℕ) × (fill fl tr ctx i sensors d readings ≡ ok (out, some n))
        × Fills sensors d readings out
  unfolding fill lookup
  fill-Fills ctx live i [] d readings room = (
    readings,
    i,
    refl,
    record {
      others = λ name absent. refl;
      own = λ name def v same measured given. elim given [ inl held ↦ held | inr (at, e) ↦ cc ];
    },
  )
  fill-Fills ctx live i ((other, def₀) ∷ sensors) d readings room =
      let (w, measured₀) = measure-ok def₀ d room in
      let (out, n, ran, fills) =
        fill-Fills ctx live (suc i) sensors d ((other, w) ∷ readings) room in
      (
        out,
        n,
        ground (arith, live i, measured₀, ran),
        record {
          others = λ name absent. elim (Bool-cases (str_eq other name)) [
            | inl same ↦
                let equal : other ≡ name = (eq_iff other name).0 same in
                absurd (absent def₀ (0, cc equal))
            | inr apart ↦
                fills.others name (λ def (at, e). absent def (suc at, e)) ∙ ground (arith, apart)
          ];
          own = λ name def v same measured given.
              let later : (def' : SensorDefinition) → IsEntry name def' sensors → def' ≡ def =
                λ def' (at, e). same def' (suc at, e) in
              elim (Bool-cases (str_eq other name)) [
                | inl here ↦
                    let equal : other ≡ name = (eq_iff other name).0 here in
                    let def_equal : def₀ ≡ def = same def₀ (0, cc equal) in
                    let value : w ≡ v = cc (measured₀, measured, def_equal) in
                    fills.own name def v later measured (inl (ground (arith, here, value)))
                | inr apart ↦ fills.own name def v later measured (elim given [
                  | inl held ↦ inl (ground (arith, apart, held))
                  | inr (zero, e) ↦ absurd (ground (arith, apart, e, (eq_iff other name).1))
                  | inr (suc at, e) ↦ inr (at, e)
                ])
              ];
        },
      )

  -- What a block's turn changes, by what its read answered.
  pub record Assigns (sensors : Registry) (answer : Result Slice) (before after : Readings fl)
      : Type 0 where
    pub others :
        (name : String)
        → ((def : SensorDefinition) → ¬ IsEntry name def sensors)
        → lookup name after ≡ lookup name before
    pub shown :
        (d : Slice) (name : String) (def : SensorDefinition)
        → answer ≡ ok d
        → IsEntry name def sensors
        → (v : SensorValue fl) × (measure tr fl def d ≡ ok v) × (lookup name after ≡ some v)
    pub left : (e : Text) (name : String) → answer ≡ err e → lookup name after ≡ lookup name before

  module _ (ctx : Context) (live : IsLive ctx) (ranged : IsRange ctx) (sensors : Registry)
      (single : IsSingle sensors) where
    pub fill-Assigns :
        (i : ℕ) (d : Slice) (readings : Readings fl)
        → IsRoomy d
        → (out : Readings fl) × (n : ℕ) × (fill fl tr ctx i (ctx.walk sensors) d readings
            ≡ ok (out, some n))
          × Assigns sensors (ok d) readings out
    fill-Assigns i d readings room =
        let (out, n, ran, fills) = fill-Fills ctx live i (ctx.walk sensors) d readings room in
        (
          out,
          n,
          ran,
          record {
            others = λ name absent.
                fills.others name (λ def entry. absent def ((ranged sensors name def).1 entry));
            shown = λ d' name def e entry.
                let (v, measured) = measure-ok def d room in
                let equal : d ≡ d' = cc in
                (
                  v,
                  cc (measured, equal),
                  fills.own name def v
                      (λ def' entry'.
                        single name def' def ((ranged sensors name def').1 entry') entry)
                      measured (inr ((ranged sensors name def).0 entry)),
                );
            left = λ e name failed. cc;
          },
        )

    pub fill_block-Assigns :
        (read : tr.State → Result Slice × tr.State) (i : ℕ) (readings : Readings fl) (s : tr.State)
        → Returns (read s)
        → (out : Readings fl) × (n : ℕ) × (fill_block fl tr ctx read sensors (readings, some i) s
            ≡ (ok (out, some n), (read s).1))
          × Assigns sensors (read s).0 readings out
    unfolding fill_block
    fill_block-Assigns read i readings s result = by_read (read s) refl result
      where
        by_read :
            (r : Result Slice × tr.State)
            → read s ≡ r
            → Returns r
            → (out : Readings fl) × (n : ℕ) × (fill_block fl tr ctx read sensors
                  (readings, some i)
                  s
                ≡ (ok (out, some n), (read s).1))
              × Assigns sensors (read s).0 readings out
        by_read (ok d, t) e (returned room) =
            let (out, n, ran, assigns) = fill-Assigns i d readings room in
            (
              out,
              n,
              ground (arith, e, ran),
              subst (λ r. Assigns sensors r.0 readings out) (sym e) assigns,
            )
        by_read (err m, t) e refused = (
          readings,
          i,
          ground (arith, e),
          record {
            others = λ name absent. refl;
            shown = λ d name def answered entry. absurd (ground (arith, e, answered));
            left = λ m name failed. refl;
          },
        )
        by_read (panic, t) e result = elim result [ ]
