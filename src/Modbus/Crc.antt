-- ===== src/Modbus/Crc.antt =====
-- calculateCRC16 of et/dtls_transport.go.
pub mod Detect
use go_goodwe.Base.{ℕ, zero, suc, ◌/◌, ◌==◌, if◌then◌else◌, bit_and, bit_xor, List, [], ◌∷◌}

-- One round of the inner loop: shift right, and subtract the polynomial if a one fell out.
unfoldable pub crc_bit : ℕ → ℕ
crc_bit crc = if bit_and crc 0x0001 == 0 then crc / 2 else bit_xor (crc / 2) 0xA001

unfoldable pub crc_bits : ℕ → ℕ → ℕ
crc_bits zero crc = crc
crc_bits (suc n) crc = crc_bits n (crc_bit crc)

unfoldable pub crc_byte : ℕ → ℕ → ℕ
crc_byte crc b = crc_bits 8 (bit_xor crc b)

unfoldable pub crc_from : ℕ → List ℕ → ℕ
crc_from crc [] = crc
crc_from crc (b ∷ bs) = crc_from (crc_byte crc b) bs

unfoldable pub calculate_crc16 : List ℕ → ℕ
calculate_crc16 bs = crc_from 0xFFFF bs
