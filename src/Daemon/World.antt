-- ===== src/Daemon/World.antt =====
-- The state of pkg/daemon/daemon.go and what it stands on: the inverter, the database, the clock.
use go_goodwe.Base.{ℕ, List, String, Option, Bool, ◌⊎◌, inl, inr}
use go_goodwe.Base.Text.{Text}
use go_goodwe.Base.Result.{ok, err, panic}
use go_goodwe.Base.Program.{Program}
use go_goodwe.Et.Value.{Float64}
use go_goodwe.Et.Inverter.{SensorValue}
use go_goodwe.Analysis.Voltage.{VoltageStore}

-- api.InverterConnState
pub data InverterConnState : Type 0 where
  disabled : InverterConnState
  disconnected : InverterConnState
  connecting : InverterConnState
  connected : InverterConnState
  failed : InverterConnState

-- goodwe.InverterInfo and db.InverterIdentity, as far as the daemon reads them.
pub record Identity : Type 0 where
  pub serial : Text
  pub model : Text
  pub firmware : Text
  pub dsp_version : Text
  pub arm_version : Text
  pub rated_power : ℕ

-- The inverter, the database, the network and the clock, over one state.
pub record World (fl : Float64) : Type 1 where
  pub voltage : VoltageStore fl
  -- goodwe.Inverter; the sensors come in the order in which the map is walked
  pub inverter_connect : Program voltage.State (Unit {0})
  pub inverter_close : Program voltage.State (Unit {0})
  pub get_info : Program voltage.State Identity
  pub get_sensors : Program voltage.State (List (String × SensorValue fl))
  -- discovery.Ping
  pub ping : Text → Program voltage.State Bool
  -- db.Store
  pub get_identity : Program voltage.State (Option Identity)
  pub set_identity : Identity → Program voltage.State (Unit {0})
  pub purge_bad_samples : ℕ → Program voltage.State (Unit {0})
  pub insert_sample :
      String → String → ℕ → Option fl.F → Option Text → Program voltage.State (Unit {0})
  pub aggregate_hourly : ℕ → Program voltage.State ℕ
  pub aggregate_daily : ℕ → Program voltage.State ℕ
  pub prune_samples : ℕ → ℕ → Program voltage.State ℕ
  pub prune_hourly : ℕ → ℕ → Program voltage.State ℕ
  -- time.Now, in nanoseconds
  pub now : voltage.State → ℕ
  -- strconv.Quote, the verb %q
  pub quote : Text → Text

-- The fields of Daemon that New sets. Times are in nanoseconds.
pub record Config : Type 0 where
  pub has_inverter : Bool
  pub has_store : Bool
  pub inverter_ip : Text
  pub poll_interval : ℕ
  pub aggregate_interval : ℕ
  pub retention_days : ℕ

-- The fields of Daemon behind its mutex.
pub record Daemon : Type 0 where
  pub conn_state : InverterConnState
  pub conn_err : Option Text
  pub verification_err : Option Text
  pub inverter_identity : Option Identity

abbrev pub is_connected : InverterConnState → Bool
is_connected connected = Bool.true
is_connected _ = Bool.false

module _ {fl : Float64} (w : World fl) where
  -- The daemon with the world.
  abbrev pub System : Type 0
  System = Daemon × w.voltage.State

  -- A call whose error the daemon looks at itself.
  abbrev pub attempt {ℓ} : {A : Type ℓ} → Program w.voltage.State A → Program System (A ⊎ Text)
  attempt m (d, s) =
      let (r, t) = m s in
      (elim r [ ok a ↦ ok (inl a) | err e ↦ ok (inr e) | panic ↦ panic ], (d, t))

  abbrev pub caught {ℓ} : {A : Type ℓ} → Program System A → Program System (A ⊎ Text)
  caught m x =
      let (r, y) = m x in (elim r [ ok a ↦ ok (inl a) | err e ↦ ok (inr e) | panic ↦ panic ], y)

  abbrev pub get_daemon : Program System Daemon
  get_daemon (d, s) = (ok d, (d, s))

  abbrev pub set_daemon : Daemon → Program System (Unit {0})
  set_daemon e (d, s) = (ok tt, (e, s))

  abbrev pub fail {ℓ} : {A : Type ℓ} → Text → Program System A
  fail e x = (err e, x)

  unfoldable pub set_state : InverterConnState → Option Text → Program System (Unit {0})
  set_state state e (d, s) = (ok tt, (record d { conn_state = state; conn_err = e }, s))
