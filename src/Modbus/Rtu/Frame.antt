-- ===== src/Modbus/Rtu/Frame.antt =====
-- Responses on the wire and what the parser makes of them.
use go_goodwe.Base.{
  ℕ, suc, ◌+◌, ◌-◌, ◌/◌, ◌%◌, ◌*◌, ◌≤◌, ◌<◌, length, List, [], ◌∷◌, ◌++◌, ◌≡◌, ◌≢◌, All, All-append,
  Option-cases, length-take, length-drop, arith,
}
use go_goodwe.Base.{
  get_elem?, take, drop, some, ltb, true, ◌==◌, refl, length-append, get_elem?-append_middle,
  get_elem?-append_second, if◌then◌else◌, ◌∙◌, get_elem?-some, Bool-cases, inl, inr, ltb_false→le,
}
use go_goodwe.Base.Bits.{top_bit}
use go_goodwe.Base.Result.{ok, err, panic, slice, slice_middle, slice_ok}
use go_goodwe.Modbus.Crc.{calculate_crc16}
use go_goodwe.Modbus.Crc.Detect.{IsByte, IsWord, calculate_crc16-IsWord, calculate_crc16_detects}
use go_goodwe.Modbus.Rtu.{little_endian, check_crc, parse_body, parse_modbus_bulk_response}
use go_goodwe.Modbus.Message.{crc_message, exception_message}

-- A response: a fixed header, the checked body and its checksum, low byte first.
abbrev pub framed : List ℕ → List ℕ
framed body = 0xAA ∷ 0x55 ∷ (body ++ little_endian (calculate_crc16 body))

-- A body that carries register data, and one that reports an exception.
abbrev pub data_body : ℕ → List ℕ → List ℕ
data_body slave bytes = slave ∷ 0x03 ∷ length bytes ∷ bytes

abbrev pub exception_body : ℕ → ℕ → ℕ → List ℕ
exception_body slave func_code code = slave ∷ func_code ∷ code ∷ []

-- A body followed by any two bytes in place of its checksum.
abbrev pub framed_as : List ℕ → ℕ → ℕ → List ℕ
framed_as body lo hi = 0xAA ∷ 0x55 ∷ (body ++ (lo ∷ hi ∷ []))

length-framed_as :
    (body : List ℕ) (lo hi : ℕ)
    → length (framed_as body lo hi) ≡ suc (suc (suc (suc (length body))))
length-framed_as body lo hi = omega (arith, length-append body (lo ∷ hi ∷ []))

checked_part :
    (body : List ℕ) (lo hi : ℕ) → slice (framed_as body lo hi) 2 (suc (suc (length body))) ≡ ok body
checked_part body lo hi =
    slice_middle (0xAA ∷ 0x55 ∷ []) body (lo ∷ hi ∷ []) 2 (suc (suc (length body))) refl
      (omega arith)

check_crc-framed_as :
    (body : List ℕ) (lo hi : ℕ)
    → check_crc (framed_as body lo hi) ≡ (
        if (lo + 256 * hi) == calculate_crc16 body
        then parse_body (framed_as body lo hi)
        else err (crc_message (lo + 256 * hi) (calculate_crc16 body)))
unfolding check_crc
check_crc-framed_as body lo hi =
    let low : length (framed_as body lo hi) - 2 ≡ suc (suc (length body)) =
      omega (arith, length-framed_as body lo hi) in
    let high : length (framed_as body lo hi) - 1 ≡ suc (suc (suc (length body))) =
      omega (arith, length-framed_as body lo hi) in
    rw low (
      rw high (
        rw (get_elem?-append_middle body (hi ∷ []) lo)
          (rw (get_elem?-append_second body [] lo hi) (rw (checked_part body lo hi) refl))))

word_bytes : (w : ℕ) → IsWord w → w % 256 + 256 * (w / 256 % 256) ≡ w
word_bytes w h = omega arith

word_test : (w : ℕ) → IsWord w → ((w % 256 + 256 * (w / 256 % 256)) == w) ≡ true
word_test w h = ground arith

-- A body with its own checksum passes to the part behind the check.
check_crc-framed :
    (body : List ℕ) → All IsByte body → check_crc (framed body) ≡ parse_body (framed body)
check_crc-framed body h =
    check_crc-framed_as body _ _
    ∙ rw (word_test (calculate_crc16 body) (calculate_crc16-IsWord body h))

long_enough :
    (body : List ℕ) (lo hi : ℕ)
    → 3 ≤ length body
    → parse_modbus_bulk_response (framed_as body lo hi) ≡ check_crc (framed_as body lo hi)
unfolding parse_modbus_bulk_response
long_enough body lo hi h = ground (arith, length-framed_as body lo hi)

data_part :
    (slave : ℕ) (bytes : List ℕ) (crc : ℕ)
    → parse_body (0xAA ∷ 0x55 ∷ (data_body slave bytes ++ little_endian crc)) ≡ ok bytes
unfolding parse_body
data_part slave bytes crc =
    let whole = 0xAA ∷ 0x55 ∷ (data_body slave bytes ++ little_endian crc) in
    let size : length whole ≡ length bytes + 7 =
      omega (arith, length-append bytes (little_endian crc)) in
    ground (
      arith,
      size,
      slice_middle (0xAA ∷ 0x55 ∷ slave ∷ 0x03 ∷ length bytes ∷ []) bytes (little_endian crc) 5
          (5 + length bytes) refl refl,
    )

-- A response that carries register data is parsed to exactly that data: at most 255 bytes, for any
-- slave address.
pub parse-data_body :
    (slave : ℕ) (bytes : List ℕ)
    → IsByte slave
    → All IsByte bytes
    → length bytes < 256
    → parse_modbus_bulk_response (framed (data_body slave bytes)) ≡ ok bytes
parse-data_body slave bytes hs hb hl =
    long_enough (data_body slave bytes) _ _ (omega arith)
    ∙ check_crc-framed (data_body slave bytes) (hs, (omega arith, (hl, hb)))
    ∙ data_part slave bytes (calculate_crc16 (data_body slave bytes))

-- A response that reports an exception is parsed to the error that names its function and code.
pub parse-exception_body :
    (slave func_code code : ℕ)
    → IsByte slave
    → IsByte func_code
    → IsByte code
    → 128 ≤ func_code
    → parse_modbus_bulk_response (framed (exception_body slave func_code code))
      ≡ err (exception_message func_code code)
unfolding parse_body
parse-exception_body slave func_code code hs hf hc h =
    long_enough (exception_body slave func_code code) _ _ (omega arith)
    ∙ check_crc-framed (exception_body slave func_code code) (hs, (hf, (hc, tt)))
    ∙ ground (arith, top_bit func_code hf)

parse_body-not_panic : (bytes : List ℕ) → 7 ≤ length bytes → parse_body bytes ≢ panic
unfolding parse_body
parse_body-not_panic bytes h =
    let (func_code, at_three) = get_elem?-some bytes 3 (omega arith) in
    let (count, at_four) = get_elem?-some bytes 4 (omega arith) in ground (arith, at_three, at_four)

check_crc-not_panic : (bytes : List ℕ) → 7 ≤ length bytes → check_crc bytes ≢ panic
unfolding check_crc
check_crc-not_panic bytes h =
    let (lo, at_lo) = get_elem?-some bytes (length bytes - 2) (omega arith) in
    let (hi, at_hi) = get_elem?-some bytes (length bytes - 1) (omega arith) in
    ground (arith, at_lo, at_hi, parse_body-not_panic bytes h)

-- Whatever the peer sends, parsing it indexes no byte out of range.
pub parse-not_panic : (bytes : List ℕ) → parse_modbus_bulk_response bytes ≢ panic
unfolding parse_modbus_bulk_response
parse-not_panic bytes = ground (arith, check_crc-not_panic bytes)

-- A response in which exactly one byte of the checked body differs from what was sent is refused as
-- a checksum mismatch, whichever byte it is.
pub parse_corrupted :
    (xs ys : List ℕ) (b c : ℕ)
    → All IsByte xs
    → IsByte b
    → IsByte c
    → All IsByte ys
    → 3 ≤ length (xs ++ c ∷ ys)
    → b ≢ c
    → parse_modbus_bulk_response
        (0xAA ∷ 0x55 ∷ ((xs ++ c ∷ ys) ++ little_endian (calculate_crc16 (xs ++ b ∷ ys))))
      ≡ err (crc_message (calculate_crc16 (xs ++ b ∷ ys)) (calculate_crc16 (xs ++ c ∷ ys)))
parse_corrupted xs ys b c hx hb hc hy h ne =
    let sent = calculate_crc16 (xs ++ b ∷ ys) in
    let word =
      word_bytes sent
        (calculate_crc16-IsWord (xs ++ b ∷ ys) (All-append IsByte xs (b ∷ ys) hx (hb, hy))) in
    let apart = calculate_crc16_detects b c xs ys hx hb hc hy ne in
    long_enough (xs ++ c ∷ ys) _ _ h
    ∙ check_crc-framed_as (xs ++ c ∷ ys) _ _
    ∙ rw word (ground (arith, apart))

parse_body_sound :
    (bytes d : List ℕ)
    → parse_body bytes ≡ ok d
    → (get_elem? bytes 4 ≡ some (length d))
      × (length d + 7 ≤ length bytes)
      × (d ≡ take (length d) (drop 5 bytes))
unfolding parse_body
parse_body_sound bytes d e = elim (Option-cases (get_elem? bytes 3)) [
  | inl none_at_three ↦ ground (arith, none_at_three)
  | inr (func_code, at_three) ↦ elim (Option-cases (get_elem? bytes 4)) [
    | inl none_at_four ↦ ground (arith, at_three, none_at_four)
    | inr (count, at_four) ↦
        let size = length-take (5 + count - 5) (drop 5 bytes) in
        ground (arith, at_three, at_four, size, length-drop 5 bytes)
  ]
]

-- The last two bytes are the checksum of what lies between them and the fixed header.
pub record ChecksumHolds (bytes : List ℕ) : Type 0 where
  pub lo : ℕ
  pub hi : ℕ
  pub at_lo : get_elem? bytes (length bytes - 2) ≡ some lo
  pub at_hi : get_elem? bytes (length bytes - 1) ≡ some hi
  pub matches : lo + 256 * hi ≡ calculate_crc16 (take (length bytes - 2 - 2) (drop 2 bytes))

check_crc_sound :
    (bytes d : List ℕ)
    → 7 ≤ length bytes
    → check_crc bytes ≡ ok d
    → (parse_body bytes ≡ ok d) × ChecksumHolds bytes
unfolding check_crc
check_crc_sound bytes d h e =
    let (lo, at_lo) = get_elem?-some bytes (length bytes - 2) (omega arith) in
    let (hi, at_hi) = get_elem?-some bytes (length bytes - 1) (omega arith) in
    let body = slice_ok bytes 2 (length bytes - 2) (omega arith) (omega arith) in
    (
      ground (arith, at_lo, at_hi, body),
      record {
        lo = lo;
        hi = hi;
        at_lo = at_lo;
        at_hi = at_hi;
        matches = ground (arith, at_lo, at_hi, body);
      },
    )

-- A response is accepted only if its checksum holds; the result has the length that its fifth byte
-- names, and is the bytes behind that one, with room for the checksum left.
pub parse_sound :
    (bytes d : List ℕ)
    → parse_modbus_bulk_response bytes ≡ ok d
    → ChecksumHolds bytes
      × (get_elem? bytes 4 ≡ some (length d))
      × (length d + 7 ≤ length bytes)
      × (d ≡ take (length d) (drop 5 bytes))
unfolding parse_modbus_bulk_response
parse_sound bytes d e = elim (Bool-cases (ltb (length bytes) 7)) [
  | inl short ↦ ground (arith, short)
  | inr long ↦
      let checked : check_crc bytes ≡ ok d = ground (arith, long) in
      let (body, sums) = check_crc_sound bytes d (omega (arith, ltb_false→le _ _ long)) checked in
      let (at_four, room, same) = parse_body_sound bytes d body in (sums, at_four, room, same)
]
