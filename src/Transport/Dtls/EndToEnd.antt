-- ===== src/Transport/Dtls/EndToEnd.antt =====
-- A register read over DTLS from the caller to the peer and back.
use go_goodwe.Base.{ℕ, ◌<◌, ◌≤◌, List, some, length, All, ◌≡◌, ◌≢◌, refl, ap, arith, ◌∙◌}
use go_goodwe.Base.Result.{Result, ok, err, panic}
use go_goodwe.Modbus.Crc.Detect.{IsByte}
use go_goodwe.Modbus.Message.{exception_message}
use go_goodwe.Modbus.Rtu.{rtu_request, parse_modbus_bulk_response}
use go_goodwe.Modbus.Rtu.Frame.{
  framed, data_body, exception_body, parse-data_body, parse-exception_body, parse-not_panic,
}
use go_goodwe.Transport.Network.{Network, Shared, Answers, IsQuiet}
use go_goodwe.Transport.Dtls
use go_goodwe.Transport.Dtls.{do_read, dial}
use go_goodwe.Transport.Session.Laws.{
  read_registers_answered, read_registers_exception, read_registers-not_panic,
}

module _ (net : Network) where
  do_read-answers :
      (c : net.Conn) (start_reg quantity : ℕ) (response : List ℕ) (s : Shared net)
      (after : net.World)
      → Answers net c (rtu_request start_reg quantity) response s.world after
      → do_read net c start_reg quantity s
        ≡ (parse_modbus_bulk_response response, record s { world = after })
  unfolding do_read
  do_read-answers c start_reg quantity response s after a = ground arith

  -- Over a live connection whose peer answers the request with register data, ReadRegisters returns
  -- that data and keeps the connection, whatever other goroutines would do.
  pub read_registers_data :
      (first_gap second_gap : Shared net → Shared net) (start_reg quantity slave : ℕ)
      (bytes : List ℕ) (c : net.Conn) (s : Shared net) (after : net.World)
      → s.conn ≡ some c
      → IsByte slave
      → All IsByte bytes
      → length bytes < 256
      → Answers net c
          (rtu_request start_reg quantity)
          (framed (data_body slave bytes))
          s.world
          after
      → Dtls.read_registers net first_gap second_gap start_reg quantity s
        ≡ (ok bytes, record s { world = after })
  unfolding Dtls.read_registers
  read_registers_data first_gap second_gap start_reg quantity slave bytes c s after live hs hb hl
        a =
      read_registers_answered net (Dtls.wire net) first_gap second_gap start_reg quantity s live (
        do_read-answers c start_reg quantity (framed (data_body slave bytes)) s after a
        ∙ ap (λ r. (r, record s { world = after })) (parse-data_body slave bytes hs hb hl))

  -- If the peer answers with an exception, its function and code reach the caller in the error.
  pub read_registers_refused :
      (first_gap second_gap : Shared net → Shared net) (start_reg quantity slave func_code code : ℕ)
      (c : net.Conn) (s : Shared net) (after : net.World)
      → s.conn ≡ some c
      → IsByte slave
      → IsByte func_code
      → IsByte code
      → 128 ≤ func_code
      → Answers net c
          (rtu_request start_reg quantity)
          (framed (exception_body slave func_code code))
          s.world
          after
      → Dtls.read_registers net first_gap second_gap start_reg quantity s
        ≡ (err (exception_message func_code code), record s { world = after })
  unfolding Dtls.read_registers
  read_registers_refused first_gap second_gap start_reg quantity slave func_code code c s after live
        hs hf hc h a =
      read_registers_exception net (Dtls.wire net) first_gap second_gap start_reg quantity s
        func_code code live
        (do_read-answers c start_reg quantity (framed (exception_body slave func_code code)) s after
            a
          ∙ ap (λ r. (r, record s { world = after }))
              (parse-exception_body slave func_code code hs hf hc h))

  do_read-not_panic :
      IsQuiet net
      → (c : net.Conn) (start_reg quantity : ℕ) (s : Shared net)
      → (do_read net c start_reg quantity s).0 ≢ panic
  unfolding do_read
  do_read-not_panic q c start_reg quantity s = by_read (net.read c w₃) refl
    where
      w₁ : net.World
      w₁ = (net.set_write_deadline c s.world).1

      w₂ : net.World
      w₂ = (net.write c (rtu_request start_reg quantity) w₁).1

      w₃ : net.World
      w₃ = (net.set_read_deadline c w₂).1

      by_read :
          (r : Result (List ℕ) × net.World)
          → net.read c w₃ ≡ r
          → (do_read net c start_reg quantity s).0 ≢ panic
      by_read (ok response, w) e = ground (arith, e, parse-not_panic response)
      by_read (err m, w) e = ground (arith, e)
      by_read (panic, w) e = ground (arith, q.read_returns c w₃, e)

  dial-not_panic : IsQuiet net → (s : Shared net) → (dial net s).0 ≢ panic
  unfolding dial
  dial-not_panic q s = ground (arith, q.dial_returns (net.resolve s.world).1)

  -- On a network whose calls return, no read panics while no other goroutine takes the new
  -- connection away between Connect and the second attempt.
  pub dtls_read_registers-not_panic :
      IsQuiet net
      → (first_gap second_gap : Shared net → Shared net)
      → ((u : Shared net) (c : net.Conn)
          → u.conn ≡ some c
          → (d : net.Conn) × ((second_gap u).conn ≡ some d))
      → (start_reg quantity : ℕ) (s : Shared net)
      → (Dtls.read_registers net first_gap second_gap start_reg quantity s).0 ≢ panic
  unfolding Dtls.read_registers
  dtls_read_registers-not_panic q =
      read_registers-not_panic net (Dtls.wire net) (dial-not_panic q) (do_read-not_panic q)
