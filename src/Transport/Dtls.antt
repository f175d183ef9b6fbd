-- ===== src/Transport/Dtls.antt =====
-- dtlsTransport of et/dtls_transport.go: Modbus RTU frames over DTLS.
pub mod EndToEnd
use go_goodwe.Base.{ℕ, List, none}
use go_goodwe.Base.Text.{codes}
use go_goodwe.Base.Result.{Result}
use go_goodwe.Modbus.Rtu.{rtu_request, parse_modbus_bulk_response}
use go_goodwe.Transport.Network.{Network, Shared, M, ◌>>=◌, ◌>>◌, lift, checked, called}
use go_goodwe.Transport.Session
use go_goodwe.Transport.Session.{Wire}

module _ (net : Network) where
  unfoldable pub do_read : net.Conn → ℕ → ℕ → M net (List ℕ)
  do_read c start_reg quantity = do
    checked (codes "set write deadline: ") (net.set_write_deadline c)
    checked (codes "modbus write error: ") (net.write c (rtu_request start_reg quantity))
    checked (codes "set read deadline: ") (net.set_read_deadline c)
    response ← called (codes "modbus read error: ") (net.read c)
    lift (parse_modbus_bulk_response response)

  unfoldable pub dial : M net net.Conn
  dial = do
    checked (codes "failed to resolve UDP address: ") net.resolve
    called (codes "dtls dial failed: ") net.dial

  abbrev pub wire : Wire net
  wire = record { dial = dial; do_read = do_read }

  -- A new transport has no connection.
  unfoldable pub new_transport : net.World → Shared net
  new_transport w = record { conn = none; tx_id = 0; world = w }

  unfoldable pub connect : M net (Unit {0})
  connect = Session.connect net wire

  unfoldable pub close : M net (Unit {0})
  close = Session.close net

  unfoldable pub read_registers :
      (Shared net → Shared net) → (Shared net → Shared net) → ℕ → ℕ → M net (List ℕ)
  read_registers = Session.read_registers net wire
