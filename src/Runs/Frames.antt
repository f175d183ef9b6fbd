-- ===== src/Runs/Frames.antt =====
-- Runs of the Modbus framing.
use go_goodwe.Base.{
  ℕ, ◌≡◌, ◌%◌, ◌+◌, ◌-◌, ◌≤◌, refl, arith, List, [], ◌∷◌, ◌++◌, some, length, get_elem?, take, drop,
}
use go_goodwe.Base.Result.{ok, err}
use go_goodwe.Modbus.Crc.{calculate_crc16, crc_from, crc_byte, crc_bits, crc_bit}
use go_goodwe.Modbus.Message.{crc_message}
use go_goodwe.Modbus.Rtu.{little_endian, parse_modbus_bulk_response}
use go_goodwe.Modbus.Rtu.Frame.{
  framed, data_body, ChecksumHolds, parse-data_body, parse_corrupted, parse_sound,
}
use go_goodwe.Modbus.Tcp.{build_request}
use go_goodwe.Modbus.Tcp.Frame.{word_at, build_request_fields}

-- The checksum of the standard test string "123456789" is 0x4B37.
crc_of_nine_digits :
    calculate_crc16 (b'1' ∷ b'2' ∷ b'3' ∷ b'4' ∷ b'5' ∷ b'6' ∷ b'7' ∷ b'8' ∷ b'9' ∷ []) ≡ 0x4B37
unfolding calculate_crc16 crc_from crc_byte crc_bits crc_bit
crc_of_nine_digits = refl

abbrev two_registers : List ℕ
two_registers = 0x12 ∷ 0x34 ∷ 0x56 ∷ 0x78 ∷ []

parse-data_body_example :
    parse_modbus_bulk_response (framed (data_body 0xF7 two_registers)) ≡ ok two_registers
parse-data_body_example =
    parse-data_body 0xF7 two_registers (omega arith)
      (omega arith, (omega arith, (omega arith, (omega arith, tt)))) (omega arith)

parse_corrupted_example :
    parse_modbus_bulk_response (
      0xAA
      ∷ 0x55
      ∷ ((0xF7 ∷ 3 ∷ 2 ∷ 9 ∷ 5 ∷ [])
          ++ little_endian (calculate_crc16 (0xF7 ∷ 3 ∷ 2 ∷ 4 ∷ 5 ∷ []))))
    ≡ err (
        crc_message
          (calculate_crc16 (0xF7 ∷ 3 ∷ 2 ∷ 4 ∷ 5 ∷ []))
          (calculate_crc16 (0xF7 ∷ 3 ∷ 2 ∷ 9 ∷ 5 ∷ [])))
parse_corrupted_example =
    parse_corrupted (0xF7 ∷ 3 ∷ 2 ∷ []) (5 ∷ []) 4 9 (omega arith, (omega arith, (omega arith, tt)))
      (omega arith) (omega arith) (omega arith, tt) (omega arith) (omega arith)

parse_sound_example :
    ChecksumHolds (framed (data_body 0xF7 two_registers))
    × (get_elem? (framed (data_body 0xF7 two_registers)) 4 ≡ some 4)
    × (4 + 7 ≤ length (framed (data_body 0xF7 two_registers)))
    × (two_registers ≡ take 4 (drop 5 (framed (data_body 0xF7 two_registers))))
parse_sound_example =
    parse_sound (framed (data_body 0xF7 two_registers)) two_registers parse-data_body_example

build_request_fields_example :
    let (next, frame) = build_request 65535 35100 125 in
    (next ≡ (65535 + 1) % 65536)
    × (length frame ≡ 12)
    × (word_at frame 0 ≡ some next)
    × (word_at frame 2 ≡ some 0)
    × (word_at frame 4 ≡ some (length frame - 6))
    × (get_elem? frame 6 ≡ some 0xF7)
    × (get_elem? frame 7 ≡ some 0x03)
    × (word_at frame 8 ≡ some 35100)
    × (word_at frame 10 ≡ some 125)
build_request_fields_example = build_request_fields 65535 35100 125 (omega arith) (omega arith)

abbrev mbap : List ℕ
mbap = 0 ∷ 2 ∷ 0 ∷ 0 ∷ 0 ∷ 7 ∷ 0xF7 ∷ []
