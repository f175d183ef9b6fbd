-- ===== src/Transport/Tcp/EndToEnd.antt =====
-- A register read over TCP from the caller to the peer and back.
use go_goodwe.Base.{ℕ, ◌<◌, ◌++◌, ◌∷◌, List, some, length, ◌≡◌, ◌≢◌, refl, ap, arith, ◌∙◌}
use go_goodwe.Base.Result.{Result, ok, err, panic}
use go_goodwe.Modbus.Tcp.{build_request, parse_modbus_tcp_response}
use go_goodwe.Modbus.Tcp.Frame.{parse-data, parse_tcp-not_panic}
use go_goodwe.Transport.Network.{Network, Shared, Answers, IsQuiet}
use go_goodwe.Transport.Tcp
use go_goodwe.Transport.Tcp.{do_read, dial}
use go_goodwe.Transport.Session.Laws.{read_registers_answered, read_registers-not_panic}

module _ (net : Network) where
  do_read-answers :
      (c : net.Conn) (start_reg quantity : ℕ) (response : List ℕ) (s : Shared net)
      (after : net.World)
      → Answers net c (build_request s.tx_id start_reg quantity).1 response s.world after
      → do_read net c start_reg quantity s ≡ (
        parse_modbus_tcp_response response,
        record s { tx_id = (build_request s.tx_id start_reg quantity).0; world = after },
      )
  unfolding do_read
  do_read-answers c start_reg quantity response s after a = ground arith

  -- Over a live connection whose peer answers the request with register data behind any header of
  -- seven bytes, ReadRegisters returns that data, keeps the connection and takes the next
  -- transaction number, whatever other goroutines would do.
  pub tcp_read_registers_data :
      (first_gap second_gap : Shared net → Shared net) (start_reg quantity : ℕ)
      (header bytes rest : List ℕ) (c : net.Conn) (s : Shared net) (after : net.World)
      → s.conn ≡ some c
      → length header ≡ 7
      → length bytes < 256
      → Answers net c
          (build_request s.tx_id start_reg quantity).1
          (header ++ (0x03 ∷ length bytes ∷ (bytes ++ rest)))
          s.world
          after
      → Tcp.read_registers net first_gap second_gap start_reg quantity s ≡ (
        ok bytes,
        record s { tx_id = (build_request s.tx_id start_reg quantity).0; world = after },
      )
  unfolding Tcp.read_registers
  tcp_read_registers_data first_gap second_gap start_reg quantity header bytes rest c s after live
        seven hl a =
      read_registers_answered net (Tcp.wire net) first_gap second_gap start_reg quantity s live (
        do_read-answers c start_reg quantity (header ++ (0x03 ∷ length bytes ∷ (bytes ++ rest))) s
          after a
        ∙ ap
            (λ r.
              (r, record s { tx_id = (build_request s.tx_id start_reg quantity).0; world = after }))
            (parse-data header seven bytes rest hl))

  do_read-not_panic :
      IsQuiet net
      → (c : net.Conn) (start_reg quantity : ℕ) (s : Shared net)
      → (do_read net c start_reg quantity s).0 ≢ panic
  unfolding do_read
  do_read-not_panic q c start_reg quantity s = by_read (net.read c w₃) refl
    where
      w₁ : net.World
      w₁ = (net.set_write_deadline c s.world).1

      w₂ : net.World
      w₂ = (net.write c (build_request s.tx_id start_reg quantity).1 w₁).1

      w₃ : net.World
      w₃ = (net.set_read_deadline c w₂).1

      by_read :
          (r : Result (List ℕ) × net.World)
          → net.read c w₃ ≡ r
          → (do_read net c start_reg quantity s).0 ≢ panic
      by_read (ok response, w) e = ground (arith, e, parse_tcp-not_panic response)
      by_read (err m, w) e = ground (arith, e)
      by_read (panic, w) e = ground (arith, q.read_returns c w₃, e)

  dial-not_panic : IsQuiet net → (s : Shared net) → (dial net s).0 ≢ panic
  unfolding dial
  dial-not_panic q s = ground (arith, q.dial_returns s.world)

  -- On a network whose calls return, no read panics while no other goroutine takes the new
  -- connection away between Connect and the second attempt.
  pub tcp_read_registers-not_panic :
      IsQuiet net
      → (first_gap second_gap : Shared net → Shared net)
      → ((u : Shared net) (c : net.Conn)
          → u.conn ≡ some c
          → (d : net.Conn) × ((second_gap u).conn ≡ some d))
      → (start_reg quantity : ℕ) (s : Shared net)
      → (Tcp.read_registers net first_gap second_gap start_reg quantity s).0 ≢ panic
  unfolding Tcp.read_registers
  tcp_read_registers-not_panic q =
      read_registers-not_panic net (Tcp.wire net) (dial-not_panic q) (do_read-not_panic q)
