-- ===== src/Modbus/Tcp.antt =====
-- Modbus TCP framing: buildRequest and parseModbusTCPResponse of et/tcp_transport.go.
pub mod Frame
use go_goodwe.Base.{ℕ, ◌+◌, ◌%◌, ltb, ◌==◌, if◌then◌else◌, length, bit_and, List, [], ◌∷◌, ◌++◌}
use go_goodwe.Base.Result.{Result, ok, err, ◌>>=◌, index, slice}
use go_goodwe.Modbus.Message.{exception_message, tcp_short_message, incomplete_message}
use go_goodwe.Modbus.Rtu.{big_endian}

-- The transaction number is increased first, in 16 bits; the new number is returned with the frame.
unfoldable pub build_request : ℕ → ℕ → ℕ → ℕ × List ℕ
build_request tx_id start_reg quantity =
    let next = (tx_id + 1) % 65536 in
    (
      next,
      big_endian next
          ++ (big_endian 0
              ++ (big_endian 6 ++ (0xF7 ∷ 0x03 ∷ (big_endian start_reg ++ big_endian quantity)))),
    )

-- What stands behind the seven bytes of the MBAP header.
unfoldable pub parse_pdu : List ℕ → Result (List ℕ)
parse_pdu bytes = do
  func_code ← index bytes 7
  byte_count ← index bytes 8
  if bit_and func_code 0x80 == 0
      then (if ltb (length bytes) (9 + byte_count)
          then err (incomplete_message (9 + byte_count) (length bytes))
          else slice bytes 9 (9 + byte_count))
      else err (exception_message func_code byte_count)

unfoldable pub parse_modbus_tcp_response : List ℕ → Result (List ℕ)
parse_modbus_tcp_response bytes =
    if ltb (length bytes) 9 then err (tcp_short_message (length bytes)) else parse_pdu bytes
