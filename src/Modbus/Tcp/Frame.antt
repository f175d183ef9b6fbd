-- ===== src/Modbus/Tcp/Frame.antt =====
-- Modbus TCP responses and requests on the wire.
use go_goodwe.Base.{
  ℕ, suc, ◌+◌, ◌-◌, ◌%◌, ◌*◌, ◌≤◌, ◌<◌, length, List, [], ◌∷◌, ◌++◌, ◌≡◌, ◌≢◌, refl, arith,
}
use go_goodwe.Base.{
  get_elem?, Option, none, some, length-append, get_elem?-some, get_elem?-append_middle,
  get_elem?-append_second,
}
use go_goodwe.Base.Bits.{top_bit}
use go_goodwe.Base.Result.{ok, err, panic, slice, slice_middle}
use mathlib.Core.List.{append_assoc}
use go_goodwe.Modbus.Crc.Detect.{IsByte}
use go_goodwe.Modbus.Tcp.{build_request, parse_pdu, parse_modbus_tcp_response}
use go_goodwe.Modbus.Message.{exception_message}

length-build_request :
    (tx start_reg quantity : ℕ) → length (build_request tx start_reg quantity).1 ≡ 12
unfolding build_request
length-build_request tx start_reg quantity = refl

-- A big-endian number of two bytes, read back.
abbrev pub word_at : List ℕ → ℕ → Option ℕ
word_at bytes i = elim (get_elem? bytes i) [
  | none ↦ none
  | some hi ↦ elim (get_elem? bytes (suc i)) [ none ↦ none | some lo ↦ some (hi * 256 + lo) ]
]

-- A request is twelve bytes: the new transaction number, which is the old one plus one in 16 bits,
-- protocol 0, the length of what follows it, unit 247, function 3, and the register and quantity
-- that were asked for.
pub build_request_fields :
    (tx start_reg quantity : ℕ)
    → start_reg < 65536
    → quantity < 65536
    → let (next, frame) = build_request tx start_reg quantity in
      (next ≡ (tx + 1) % 65536)
      × (length frame ≡ 12)
      × (word_at frame 0 ≡ some next)
      × (word_at frame 2 ≡ some 0)
      × (word_at frame 4 ≡ some (length frame - 6))
      × (get_elem? frame 6 ≡ some 0xF7)
      × (get_elem? frame 7 ≡ some 0x03)
      × (word_at frame 8 ≡ some start_reg)
      × (word_at frame 10 ≡ some quantity)
unfolding build_request
build_request_fields tx start_reg quantity hs hq =
    (refl, refl, ground arith, refl, refl, refl, refl, ground arith, ground arith)

module _ (header : List ℕ) (seven : length header ≡ 7) where
  at_seven : (rest : List ℕ) (f c : ℕ) → get_elem? (header ++ f ∷ c ∷ rest) 7 ≡ some f
  at_seven rest f c = rw (← seven) (get_elem?-append_middle header (c ∷ rest) f)

  at_eight : (rest : List ℕ) (f c : ℕ) → get_elem? (header ++ f ∷ c ∷ rest) 8 ≡ some c
  at_eight rest f c =
      let eight : 8 ≡ suc (length header) = omega arith in
      rw eight (get_elem?-append_second header rest f c)

  behind :
      (bytes rest : List ℕ)
      → slice (header ++ (0x03 ∷ length bytes ∷ (bytes ++ rest))) 9 (9 + length bytes) ≡ ok bytes
  behind bytes rest =
      let front = header ++ 0x03 ∷ length bytes ∷ [] in
      let size : length front ≡ 9 =
        omega (arith, length-append header (0x03 ∷ length bytes ∷ [])) in
      rw (← append_assoc header (0x03 ∷ length bytes ∷ []) (bytes ++ rest))
        (slice_middle front bytes rest 9 (9 + length bytes) (omega arith) (omega arith))

  -- Behind any seven bytes of header, register data of at most 255 bytes is parsed to exactly that
  -- data, whatever follows it: neither the transaction number nor the length of the header is read.
  pub parse-data :
      (bytes rest : List ℕ)
      → length bytes < 256
      → parse_modbus_tcp_response (header ++ (0x03 ∷ length bytes ∷ (bytes ++ rest))) ≡ ok bytes
  unfolding parse_modbus_tcp_response parse_pdu
  parse-data bytes rest h = ground (
    arith,
    length-append header (0x03 ∷ length bytes ∷ (bytes ++ rest)),
    length-append bytes rest,
    at_seven (bytes ++ rest) 0x03 (length bytes),
    at_eight (bytes ++ rest) 0x03 (length bytes),
    behind bytes rest,
  )

  -- An exception response is parsed to the error that names its function and its code.
  pub parse-exception :
      (func_code code : ℕ) (rest : List ℕ)
      → IsByte func_code
      → 128 ≤ func_code
      → parse_modbus_tcp_response (header ++ (func_code ∷ code ∷ rest))
        ≡ err (exception_message func_code code)
  unfolding parse_modbus_tcp_response parse_pdu
  parse-exception func_code code rest hf h = ground (
    arith,
    length-append header (func_code ∷ code ∷ rest),
    at_seven rest func_code code,
    at_eight rest func_code code,
    top_bit func_code hf,
  )

parse_pdu-not_panic : (bytes : List ℕ) → 9 ≤ length bytes → parse_pdu bytes ≢ panic
unfolding parse_pdu
parse_pdu-not_panic bytes h =
    let (func_code, at_func) = get_elem?-some bytes 7 (omega arith) in
    let (count, at_count) = get_elem?-some bytes 8 (omega arith) in
    ground (arith, at_func, at_count)

-- Whatever the peer sends, parsing it indexes no byte out of range.
pub parse_tcp-not_panic : (bytes : List ℕ) → parse_modbus_tcp_response bytes ≢ panic
unfolding parse_modbus_tcp_response
parse_tcp-not_panic bytes = ground (arith, parse_pdu-not_panic bytes)
