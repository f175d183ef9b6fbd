-- ===== src/Modbus/Rtu.antt =====
-- Modbus RTU framing as the DTLS transport uses it: the request that doRead builds and
-- parseModbusBulkResponse of et/dtls_transport.go.
pub mod Frame
use go_goodwe.Base.{
  ℕ, ◌+◌, ◌-◌, ◌*◌, ◌/◌, ◌%◌, ltb, ◌==◌, if◌then◌else◌, length, bit_and, List, [], ◌∷◌, ◌++◌,
}
use go_goodwe.Base.Result.{Result, ok, err, ◌>>=◌, index, slice}
use go_goodwe.Modbus.Crc.{calculate_crc16}
use go_goodwe.Modbus.Message.{exception_message, crc_message, rtu_short_message, incomplete_message}

-- `binary.BigEndian.PutUint16` and `binary.LittleEndian.PutUint16`
abbrev pub big_endian : ℕ → List ℕ
big_endian w = (w / 256 % 256) ∷ (w % 256) ∷ []

abbrev pub little_endian : ℕ → List ℕ
little_endian w = (w % 256) ∷ (w / 256 % 256) ∷ []

-- Slave 247, function 3, first register, quantity, checksum.
unfoldable pub rtu_request : ℕ → ℕ → List ℕ
rtu_request start_reg quantity =
    let body = 0xF7 ∷ 0x03 ∷ (big_endian start_reg ++ big_endian quantity) in
    body ++ little_endian (calculate_crc16 body)

-- The part of parseModbusBulkResponse behind the checksum.
unfoldable pub parse_body : List ℕ → Result (List ℕ)
parse_body bytes = do
  func_code ← index bytes 3
  byte_count ← index bytes 4
  if bit_and func_code 0x80 == 0
      then (if ltb (length bytes) (5 + byte_count + 2)
          then err (incomplete_message (5 + byte_count + 2) (length bytes))
          else slice bytes 5 (5 + byte_count))
      else err (exception_message func_code byte_count)

-- The checksum covers what lies between the fixed header and the checksum itself.
unfoldable pub check_crc : List ℕ → Result (List ℕ)
check_crc bytes = do
  lo ← index bytes (length bytes - 2)
  hi ← index bytes (length bytes - 1)
  body ← slice bytes 2 (length bytes - 2)
  if (lo + 256 * hi) == calculate_crc16 body
      then parse_body bytes
      else err (crc_message (lo + 256 * hi) (calculate_crc16 body))

unfoldable pub parse_modbus_bulk_response : List ℕ → Result (List ℕ)
parse_modbus_bulk_response bytes =
    if ltb (length bytes) 7 then err (rtu_short_message (length bytes)) else check_crc bytes
