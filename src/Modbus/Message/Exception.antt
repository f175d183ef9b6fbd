-- ===== src/Modbus/Message/Exception.antt =====
-- The program recognises an exception by its text: which exceptions it takes for which.
use go_goodwe.Base.{ℕ, ◌∙◌, ◌/◌, ◌%◌, ◌<◌, ◌≡◌, ◌==◌, ◌++◌, ◌∷◌, [], Bool, false, ◌&&◌, ◌||◌, arith}
use go_goodwe.Base.Text.{Text, codes, contains, hex_digit}
use go_goodwe.Modbus.Message.{exception_message, is_illegal_data_address, is_conn_closed}

two_digits :
    (a b c d : ℕ)
    → contains
        (codes "modbus error response: function 0x"
          ++ (a ∷ b ∷ (codes ", exception 0x" ++ (c ∷ d ∷ []))))
        (codes "exception 0x02")
      ≡ ((c == b'0') && (d == b'2'))
two_digits a b c d = ground arith

code_digits :
    (code : ℕ)
    → code < 256
    → ((hex_digit (code / 16) == b'0') && (hex_digit (code % 16) == b'2')) ≡ (code == 2)
code_digits code h = ground arith

-- An exception response with a one-byte code is taken for ILLEGAL_DATA_ADDRESS exactly when the
-- code is 2, whatever the function code.
pub is_illegal_data_address_iff :
    (func_code code : ℕ)
    → code < 256
    → is_illegal_data_address (exception_message func_code code) ≡ (code == 2)
unfolding is_illegal_data_address
is_illegal_data_address_iff func_code code h =
    two_digits (hex_digit (func_code / 16)) (hex_digit (func_code % 16)) (hex_digit (code / 16))
      (hex_digit (code % 16))
    ∙ code_digits code h

-- The message with its four digits open.
abbrev with_digits : ℕ → ℕ → ℕ → ℕ → Text
with_digits a b c d =
    codes "modbus error response: function 0x" ++ (a ∷ b ∷ (codes ", exception 0x" ++ (c ∷ d ∷ [])))

no_conn_is_closed : (a b c d : ℕ) → contains (with_digits a b c d) (codes "conn is closed") ≡ false
no_conn_is_closed a b c d = ground arith

no_connection_refused :
    (a b c d : ℕ) → contains (with_digits a b c d) (codes "connection refused") ≡ false
no_connection_refused a b c d = ground arith

no_broken_pipe : (a b c d : ℕ) → contains (with_digits a b c d) (codes "broken pipe") ≡ false
no_broken_pipe a b c d = ground arith

no_reset_by_peer : (a b c d : ℕ) → contains (with_digits a b c d) (codes "reset by peer") ≡ false
no_reset_by_peer a b c d = ground arith

none_of_four :
    {p q r s : Bool} → p ≡ false → q ≡ false → r ≡ false → s ≡ false → (p || q || r || s) ≡ false
none_of_four hp hq hr hs = ground arith

-- No exception response is taken for a closed connection.
pub exception-not_conn_closed :
    (func_code code : ℕ) → is_conn_closed (exception_message func_code code) ≡ false
unfolding is_conn_closed
exception-not_conn_closed func_code code =
    let a = hex_digit (func_code / 16) in
    let b = hex_digit (func_code % 16) in
    let c = hex_digit (code / 16) in
    let d = hex_digit (code % 16) in
    none_of_four (no_conn_is_closed a b c d) (no_connection_refused a b c d)
      (no_broken_pipe a b c d) (no_reset_by_peer a b c d)
