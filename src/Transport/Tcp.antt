-- ===== src/Transport/Tcp.antt =====
-- tcpTransport of et/tcp_transport.go: Modbus TCP frames, numbered by transaction.
pub mod EndToEnd
use go_goodwe.Base.{ℕ, List, none}
use go_goodwe.Base.Text.{codes}
use go_goodwe.Base.Result.{Result}
use go_goodwe.Modbus.Tcp.{build_request, parse_modbus_tcp_response}
use go_goodwe.Transport.Network.{Network, Shared, M, ◌>>=◌, ◌>>◌, lift, checked, called}
use go_goodwe.Transport.Session
use go_goodwe.Transport.Session.{Wire}

module _ (net : Network) where
  unfoldable pub do_read : net.Conn → ℕ → ℕ → M net (List ℕ)
  do_read c start_reg quantity s =
      let (next, request) = build_request s.tx_id start_reg quantity in
      (do
        checked (codes "set write deadline: ") (net.set_write_deadline c)
        checked (codes "modbus write error: ") (net.write c request)
        checked (codes "set read deadline: ") (net.set_read_deadline c)
        response ← called (codes "modbus read error: ") (net.read c)
        lift (parse_modbus_tcp_response response))
        (record s { tx_id = next })

  unfoldable pub dial : M net net.Conn
  dial = called (codes "tcp dial failed: ") net.dial

  abbrev pub wire : Wire net
  wire = record { dial = dial; do_read = do_read }

  -- A new transport has no connection, and its transaction number is 1.
  unfoldable pub new_transport : net.World → Shared net
  new_transport w = record { conn = none; tx_id = 1; world = w }

  unfoldable pub connect : M net (Unit {0})
  connect = Session.connect net wire

  unfoldable pub close : M net (Unit {0})
  close = Session.close net

  unfoldable pub read_registers :
      (Shared net → Shared net) → (Shared net → Shared net) → ℕ → ℕ → M net (List ℕ)
  read_registers = Session.read_registers net wire
