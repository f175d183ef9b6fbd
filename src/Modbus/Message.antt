-- ===== src/Modbus/Message.antt =====
-- The error messages of the Modbus layer, and the two tests that the program makes on them:
-- isIllegalDataAddress of et/et.go and isConnClosed of et/dtls_transport.go.
pub mod Exception
use go_goodwe.Base.{ℕ, ◌++◌, Bool, ◌||◌}
use go_goodwe.Base.Text.{Text, codes, contains, hex2, hex4, decimal}

-- "modbus error response: function 0x%02X, exception 0x%02X"
abbrev pub exception_message : ℕ → ℕ → Text
exception_message func_code exception_code =
    codes "modbus error response: function 0x"
    ++ (hex2 func_code ++ (codes ", exception 0x" ++ hex2 exception_code))

-- "modbus CRC mismatch: expected %04X, got %04X"
unfoldable pub crc_message : ℕ → ℕ → Text
crc_message expected actual =
    codes "modbus CRC mismatch: expected " ++ (hex4 expected ++ (codes ", got " ++ hex4 actual))

-- "modbus response too short: %d bytes" and "modbus TCP response too short: %d bytes"
unfoldable pub rtu_short_message : ℕ → Text
rtu_short_message n = codes "modbus response too short: " ++ (decimal n ++ codes " bytes")

unfoldable pub tcp_short_message : ℕ → Text
tcp_short_message n = codes "modbus TCP response too short: " ++ (decimal n ++ codes " bytes")

-- "incomplete modbus data: expected %d bytes, got %d"
unfoldable pub incomplete_message : ℕ → ℕ → Text
incomplete_message expected got =
    codes "incomplete modbus data: expected "
    ++ (decimal expected ++ (codes " bytes, got " ++ decimal got))

unfoldable pub is_illegal_data_address : Text → Bool
is_illegal_data_address message = contains message (codes "exception 0x02")

unfoldable pub is_conn_closed : Text → Bool
is_conn_closed message =
    contains message (codes "conn is closed")
    || contains message (codes "connection refused")
    || contains message (codes "broken pipe")
    || contains message (codes "reset by peer")
