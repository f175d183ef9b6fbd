-- ===== src/Discovery/Discover.antt =====
-- probe, Ping and Discover.
pub mod Found
use go_goodwe.Base.{ℕ, ◌++◌, Option, none, some, Bool, true, false, not, if◌then◌else◌}
use go_goodwe.Base.Text.{Text, codes, equal_text}
use go_goodwe.Base.Result.{Result, ok, err, panic}
use go_goodwe.Base.Program.{Program, ◌>>=◌, pure}
use go_goodwe.Discovery.Probe.{ProbeResult, parse_probe_response}
use go_goodwe.Discovery.Model.{is_et_model}

-- A UDP socket of package net; `none` is the nil error. `quote` is the verb %q.
pub record Udp : Type 1 where
  pub World : Type 0
  pub Conn : Type 0
  pub dial : Text → ℕ → Program World Conn
  pub set_deadline : Conn → World → Option Text × World
  pub write : Conn → Text → World → Option Text × World
  -- at most 1024 bytes
  pub read : Conn → Program World Text
  pub close : Conn → World → Option Text × World
  pub quote : Text → Text

-- What NewDTLSTransport and NewTCPTransport are given.
pub data TransportConfig : Type 0 where
  dtls : Text → ℕ → TransportConfig
  tcp : Text → ℕ → TransportConfig

-- An ETInverter that was not connected yet.
pub record Inverter : Type 0 where
  pub serial : Text
  pub transport : TransportConfig

module _ (udp : Udp) where
  open udp use {World, Conn}

  -- The conversation over an open socket.
  unfoldable pub ask : Conn → Program World Text
  ask c s =
      let (_, s₁) = udp.set_deadline c s in
      let (e, s₂) = udp.write c (codes "WIFIKIT-214028-READ") s₁ in
      elim e [
        | some m ↦ (err (codes "failed to write probe: " ++ m), s₂)
        | none ↦
            let (r, s₃) = udp.read c s₂ in
            (
              elim r [
                | ok response ↦ ok response
                | err m ↦ err (codes "failed to read probe response: " ++ m)
                | panic ↦ panic
              ],
              s₃,
            )
      ]

  -- The socket is closed whatever happened; an error of closing it is only logged.
  unfoldable pub probe : Text → Program World Text
  unfolding ask
  probe ip s =
      let (r, s₁) = udp.dial ip 48899 s in
      elim r [
        | ok c ↦ let (answer, s₂) = ask c s₁ in (answer, (udp.close c s₂).1)
        | err m ↦ (err (codes "failed to dial UDP: " ++ m), s₁)
        | panic ↦ (panic, s₁)
      ]

  unfoldable pub ping : Text → Program World Bool
  unfolding probe
  ping ip s =
      let (r, t) = probe ip s in (elim r [ ok _ ↦ ok true | err _ ↦ ok false | panic ↦ panic ], t)

  abbrev pub unsupported : Text → Text → Text
  unsupported serial why = codes "unsupported inverter: serial=" ++ (serial ++ (codes ": " ++ why))

  unfoldable pub choose_transport : Text → ProbeResult → Result Inverter
  choose_transport ip pr =
      if not (is_et_model pr.serial)
      then err (unsupported pr.serial (codes "not a recognized ET series inverter"))
      else (if equal_text pr.transport (codes "dtls")
          then ok (record { serial = pr.serial; transport = dtls ip pr.dtls_port })
          else (if equal_text pr.transport (codes "tcp")
              then ok (record { serial = pr.serial; transport = tcp ip 502 })
              else err
                  (unsupported pr.serial (codes "unknown transport " ++ udp.quote pr.transport))))

  unfoldable pub discover : Text → Program World Inverter
  unfolding probe choose_transport
  discover ip s =
      let (r, t) = probe ip s in
      (
        elim r [
          | ok resp ↦ elim (parse_probe_response resp) [
            | ok pr ↦ choose_transport ip pr
            | err e ↦ err (codes "discovery failed: " ++ e)
            | panic ↦ panic
          ]
          | err e ↦ err (codes "discovery failed: " ++ e)
          | panic ↦ panic
        ],
        t,
      )
