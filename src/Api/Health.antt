-- ===== src/Api/Health.antt =====
-- handleHealth and handleInfo. The daemon's status is read from its fields, which InverterState,
-- ConnError and VerificationError of pkg/daemon/daemon.go return; `none` stands for a handler
-- without a daemon. `rfc3339` is what time.Format writes.
pub mod Reported
use go_goodwe.Base.{ℕ, Bool, true, false, not, if◌then◌else◌, Option, none, some}
use go_goodwe.Base.Text.{Text, codes}
use go_goodwe.Base.Result.{Result, ok, err, panic}
use go_goodwe.Base.Program.{Program}
use go_goodwe.Daemon.World.{
  Identity, Daemon, InverterConnState, disabled, disconnected, connecting, connected, failed,
}
use go_goodwe.Api.Response.{Response, json, json_error}

pub record InverterState : Type 0 where
  pub is_connected : Bool
  pub error : Text

pub record HealthResponse : Type 0 where
  pub status : Text
  pub timestamp : Text
  pub inverter : Option InverterState

abbrev pub down : Text → InverterState
down e = record { is_connected = false; error = e }

abbrev pub up : InverterState
up = record { is_connected = true; error = codes "" }

abbrev pub failure : Daemon → Text
failure d = elim d.conn_err [ none ↦ codes "inverter connection failed" | some e ↦ e ]

abbrev pub daemon_health : Daemon → Text × InverterState
daemon_health d = elim d.conn_state [
  | disabled ↦ (codes "ok", down (codes ""))
  | disconnected ↦ (codes "degraded", down (codes "disconnected, will retry"))
  | connecting ↦ (codes "degraded", down (codes "connecting to inverter..."))
  | connected ↦ (elim d.verification_err [
    | none ↦ (codes "ok", up)
    | some e ↦ (codes "degraded", down e)
  ])
  | failed ↦ (codes "degraded", down (failure d))
]

unfoldable pub handle_health : (ℕ → Text) → Option Daemon → Bool → ℕ → Response HealthResponse
handle_health rfc3339 daemon has_inverter now = json (record {
  status = elim daemon [ none ↦ codes "ok" | some d ↦ (daemon_health d).0 ];
  timestamp = rfc3339 now;
  inverter = elim daemon [
    | none ↦ (if has_inverter then some up else none)
    | some d ↦ some (daemon_health d).1
  ];
})

pub record InverterInfo : Type 0 where
  pub identity : Identity
  pub inverter_ip : Text
  pub daemon_version : Text
  pub last_poll : Option Text
  pub error : Text

-- The calls of the handler on the database and the inverter.
pub record InfoCalls (S : Type 0) : Type 0 where
  pub get_identity : Program S (Option Identity)
  pub last_sample_time : Program S (Option ℕ)
  pub get_info : Program S Identity

-- The message with which an unconnected daemon refuses a live read.
unfoldable pub refusal : Daemon → Option Text
refusal d = elim d.conn_state [
  | disabled ↦ some (codes "no inverter configured")
  | disconnected ↦ some (codes "disconnected, will retry")
  | connecting ↦ some (codes "connecting to inverter...")
  | failed ↦ some (failure d)
  | connected ↦ none
]

abbrev pub refusal_of : Option Daemon → Option Text
refusal_of none = none
refusal_of (some d) = refusal d

abbrev pub message_of : Option Text → Text
message_of none = codes ""
message_of (some e) = e

module _ {S : Type 0} (calls : InfoCalls S) (rfc3339 : ℕ → Text) (ip version : Text)
    (daemon : Option Daemon) where
  abbrev pub last_poll : Result (Option ℕ) → Option Text
  last_poll (ok (some at)) = some (rfc3339 at)
  last_poll _ = none

  unfoldable pub live_info : S → Response InverterInfo × S
  live_info s = elim (refusal_of daemon) [
    | some message ↦ (json_error 503 message, s)
    | none ↦
        let (read, t) = calls.get_info s in
        (
          elim read [
            | ok info ↦ json (record {
              identity = info;
              inverter_ip = ip;
              daemon_version = version;
              last_poll = none;
              error = elim daemon [ none ↦ codes "" | some d ↦ message_of d.verification_err ];
            })
            | err e ↦ json_error 500 (codes "failed to get inverter info")
            | panic ↦ json_error 500 (codes "failed to get inverter info")
          ],
          t,
        )
  ]

  -- The stored identity, or else a live read.
  unfoldable pub stored_info : S → Response InverterInfo × S
  unfolding live_info
  stored_info s =
      let (stored, t) = calls.get_identity s in
      elim stored [
        | ok (some identity) ↦
            let (last, u) = calls.last_sample_time t in
            (
              json (record {
                identity = identity;
                inverter_ip = ip;
                daemon_version = version;
                last_poll = last_poll last;
                error = elim daemon [
                  | none ↦ codes ""
                  | some d ↦ (elim d.verification_err [ some e ↦ e | none ↦ message_of d.conn_err ])
                ];
              }),
              u,
            )
        | ok none ↦ live_info t
        | err e ↦ live_info t
        | panic ↦ live_info t
      ]

  unfoldable pub handle_info : Bool → Bool → S → Response InverterInfo × S
  unfolding stored_info
  handle_info has_inverter has_store s =
      if not has_inverter
      then (json_error 503 (codes "no inverter configured"), s)
      else if has_store
      then stored_info s
      else live_info s
