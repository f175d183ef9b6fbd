-- ===== src/Api/Sensors.antt =====
-- handleListSensors and handleGetData. `rfc3339` is what time.Format writes.
use go_goodwe.Base.{ℕ, Bool, not, if◌then◌else◌, List, [], ◌∷◌, ◌++◌, String}
use text.Mathlib.Text.{◌==◌}
use go_goodwe.Base.Text.{Text, codes}
use go_goodwe.Base.Result.{ok, err, panic}
use go_goodwe.Et.Value.{Float64, Value}
use go_goodwe.Et.Inverter.{Transport, read_sensor}
use go_goodwe.Et.Registry.Names.{get_sensor_names_by_block}
use go_goodwe.Api.Response.{Response, json, json_error}

pub record SensorEntry : Type 0 where
  pub name : String
  pub category : String

abbrev pub entries : String → List String → List SensorEntry
entries category [] = []
entries category (name ∷ names) =
    record { name = name; category = category } ∷ entries category names

abbrev pub list_categories : List String → List SensorEntry
list_categories [] = []
list_categories (category ∷ categories) =
    entries category (get_sensor_names_by_block category) ++ list_categories categories

unfoldable pub handle_list_sensors : Response (List SensorEntry)
handle_list_sensors = json (list_categories ("Main Telemetry" ∷ "Battery" ∷ "Meter" ∷ "MPPT" ∷ []))

pub record LiveData (fl : Float64) : Type 0 where
  pub name : String
  pub value : Value fl
  pub unit : String
  pub timestamp : Text

module _ (fl : Float64) (tr : Transport) (rfc3339 : ℕ → Text) where
  unfoldable pub handle_get_data : Bool → ℕ → String → tr.State → Response (LiveData fl) × tr.State
  handle_get_data has_inverter now sensor s =
      if not has_inverter
      then (json_error 503 (codes "no inverter configured"), s)
      else if sensor == ""
      then (json_error 400 (codes "sensor name is required"), s)
      else let (r, t) = read_sensor tr fl sensor s in
        (
          elim r [
            | ok sv ↦ json (record {
              name = sv.name;
              value = sv.value;
              unit = sv.unit;
              timestamp = rfc3339 now;
            })
            | err e ↦ json_error 500 e
            | panic ↦ json_error 500 (codes "")
          ],
          t,
        )
