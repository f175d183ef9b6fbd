-- ===== src/Daemon/Poll.antt =====
-- doPoll of pkg/daemon/daemon.go.
use go_goodwe.Base.{ℕ, List, [], ◌∷◌, String, Option, none, some, not, if◌then◌else◌, inl, inr}
use go_goodwe.Base.Text.{Text}
use go_goodwe.Base.Program.{Program, ◌>>=◌, ◌>>◌, pure}
use go_goodwe.Et.Value.{Float64, Value, float64, string, zero_time, date}
use go_goodwe.Et.Inverter.{SensorValue}
use go_goodwe.Analysis.Voltage.{run_voltage_analysis}
use go_goodwe.Daemon.World.{disconnected, World, Config, System, attempt, set_state}
use go_goodwe.Daemon.Connect.{close_connection}

-- What is stored of a value: the number, or the text.
unfoldable pub stored_value : (fl : Float64) → Value fl → Option (Option fl.F × Option Text)
stored_value fl (float64 x) = some (some x, none)
stored_value fl (string s) = some (none, some s)
stored_value fl zero_time = none
stored_value fl (date d) = none

module _ {fl : Float64} (w : World fl) (config : Config) where
  -- An error of storing one sample is logged only.
  unfoldable pub store_sensors : ℕ → List (String × SensorValue fl) → Program (System w) (Unit {0})
  unfolding stored_value
  store_sensors now [] = pure tt
  store_sensors now ((name, sv) ∷ sensors) = elim (stored_value fl sv.value) [
    | none ↦ store_sensors now sensors
    | some (number, words) ↦ do
      _ ← attempt w (w.insert_sample name sv.unit now number words)
      store_sensors now sensors
  ]

  unfoldable pub do_poll : Program (System w) (Unit {0})
  unfolding store_sensors close_connection
  do_poll = do
    read ← attempt w w.get_sensors
    elim read [
      | inr e ↦ do close_connection w config; set_state w disconnected (some e)
      | inl sensors ↦ λ (d, s).
          (if not config.has_store then pure tt else (do
            store_sensors (w.now s) sensors
            _ ← attempt w (run_voltage_analysis fl w.voltage w.now)
            pure tt))
            (d, s)
    ]
