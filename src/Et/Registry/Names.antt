-- ===== src/Et/Registry/Names.antt =====
-- GetSensorNames and GetSensorNamesByBlock. The order in which a map is walked is lost to the sort.
use go_goodwe.Base.{Bool, if◌then◌else◌, List, [], ◌∷◌, ◌++◌, String}
use Prim.Native.String.{compare}
use text.Mathlib.Text.{◌==◌, is_le}
use go_goodwe.Et.Registry.Calculator.{Registry}
use go_goodwe.Et.Registry.Main.{registry}
use go_goodwe.Et.Registry.Blocks.{battery_registry, meter_registry, mppt_registry}
use go_goodwe.Et.Registry.Lookup.{Table, block_label, sensor_lookup}

-- `sort.Strings`
abbrev insert_string : String → List String → List String
insert_string new [] = new ∷ []
insert_string new (name ∷ names) =
    if is_le (compare new name) then new ∷ name ∷ names else name ∷ insert_string new names

unfoldable pub sort_strings : List String → List String
sort_strings [] = []
sort_strings (name ∷ names) = insert_string name (sort_strings names)

abbrev is_listed : String → List String → Bool
is_listed name [] = Bool.false
is_listed name (n ∷ names) = if n == name then Bool.true else is_listed name names

-- The names of one registry that are not seen yet, behind those that are.
unfoldable pub collect_names : Registry → List String → List String
collect_names [] names = names
collect_names ((name, def) ∷ sensors) names =
    if is_listed name names
    then collect_names sensors names
    else collect_names sensors (names ++ (name ∷ []))

unfoldable pub get_sensor_names : List String
unfolding sort_strings collect_names
get_sensor_names = sort_strings (
    collect_names mppt_registry
      (collect_names meter_registry (collect_names battery_registry (collect_names registry []))))

-- A group; a label without a sensor has no group, which is [] here.
unfoldable pub names_of_block : String → Table → List String
names_of_block label [] = []
names_of_block label ((name, sb) ∷ table) =
    if block_label sb.block == label
    then name ∷ names_of_block label table
    else names_of_block label table

unfoldable pub get_sensor_names_by_block : String → List String
unfolding sort_strings names_of_block
get_sensor_names_by_block label = sort_strings (names_of_block label sensor_lookup)
