-- ===== src/Modbus/Crc/Detect.antt =====
-- What the checksum detects: every change of one byte.
use go_goodwe.Base.{ℕ, zero, suc, ◌+◌, ◌*◌, ◌<◌, ◌==◌, leb, if◌then◌else◌}
use go_goodwe.Base.{
  bit_xor, List, [], ◌∷◌, ◌++◌, All, ◌≡◌, ◌≢◌, refl, sym, ap, ◌∙◌, arith, ltb, ◌&&◌, true, Bool,
}
use go_goodwe.Base.Bits.{passes, passes_at, bit_xor_self, bit_xor-cancel_left, bit_xor-lt}
use go_goodwe.Modbus.Crc.{crc_bit, crc_bits, crc_byte, crc_from, calculate_crc16}

abbrev pub IsByte : ℕ → Type 0
IsByte b = b < 256

abbrev pub IsWord : ℕ → Type 0
IsWord w = w < 65536

-- The round run backwards: the polynomial has the top bit set, so that bit says which branch it took.
undo_bit : ℕ → ℕ
undo_bit crc = if leb 0x8000 crc then bit_xor crc 0xA001 * 2 + 1 else crc * 2

bit_round_trip : ℕ → Bool
bit_round_trip w = undo_bit (crc_bit w) == w && ltb (crc_bit w) 65536

bit_table : passes bit_round_trip 65536 ≡ true
unfolding passes bit_round_trip undo_bit crc_bit
bit_table = refl

undo-crc_bit : (w : ℕ) → IsWord w → (undo_bit (crc_bit w) ≡ w) × IsWord (crc_bit w)
undo-crc_bit w h = split (passes_at bit_round_trip 65536 w h bit_table)
  where
    split : bit_round_trip w ≡ true → (undo_bit (crc_bit w) ≡ w) × IsWord (crc_bit w)
    split e = unfold bit_round_trip in (ground arith, ground arith)

crc_bits-IsWord : (n w : ℕ) → IsWord w → IsWord (crc_bits n w)
unfolding crc_bits
crc_bits-IsWord zero w h = h
crc_bits-IsWord (suc n) w h = crc_bits-IsWord n (crc_bit w) (undo-crc_bit w h).1

crc_bits-injective : (n v w : ℕ) → IsWord v → IsWord w → crc_bits n v ≡ crc_bits n w → v ≡ w
unfolding crc_bits
crc_bits-injective zero v w hv hw e = e
crc_bits-injective (suc n) v w hv hw e =
    let (back_v, small_v) = undo-crc_bit v hv in
    let (back_w, small_w) = undo-crc_bit w hw in
    sym back_v ∙ ap undo_bit (crc_bits-injective n _ _ small_v small_w e) ∙ back_w

byte_mixed : (s b : ℕ) → IsWord s → IsByte b → IsWord (bit_xor s b)
byte_mixed s b hs hb = bit_xor-lt 16 s b hs (omega arith)

pub crc_byte-IsWord : (s b : ℕ) → IsWord s → IsByte b → IsWord (crc_byte s b)
unfolding crc_byte
crc_byte-IsWord s b hs hb = crc_bits-IsWord 8 _ (byte_mixed s b hs hb)

pub crc_from-IsWord : (s : ℕ) (bs : List ℕ) → IsWord s → All IsByte bs → IsWord (crc_from s bs)
unfolding crc_from
crc_from-IsWord s [] hs h = hs
crc_from-IsWord s (b ∷ bs) hs (hb, hbs) =
    crc_from-IsWord (crc_byte s b) bs (crc_byte-IsWord s b hs hb) hbs

-- Two states that differ still differ after the same byte.
crc_byte-injective :
    (s t b : ℕ) → IsWord s → IsWord t → IsByte b → crc_byte s b ≡ crc_byte t b → s ≡ t
unfolding crc_byte
crc_byte-injective s t b hs ht hb e =
    sym (bit_xor_self s b)
    ∙ ap (λ (x : ℕ). bit_xor x b)
        (crc_bits-injective 8 _ _ (byte_mixed s b hs hb) (byte_mixed t b ht hb) e)
    ∙ bit_xor_self t b

crc_from-injective :
    (s t : ℕ) (bs : List ℕ)
    → IsWord s
    → IsWord t
    → All IsByte bs
    → crc_from s bs ≡ crc_from t bs
    → s ≡ t
unfolding crc_from
crc_from-injective s t [] hs ht h e = e
crc_from-injective s t (b ∷ bs) hs ht (hb, hbs) e = crc_byte-injective s t b hs ht hb (
    crc_from-injective (crc_byte s b) (crc_byte t b) bs (crc_byte-IsWord s b hs hb)
      (crc_byte-IsWord t b ht hb) hbs e)

-- Two bytes that differ leave states that differ.
crc_byte-byte_injective :
    (s b c : ℕ) → IsWord s → IsByte b → IsByte c → crc_byte s b ≡ crc_byte s c → b ≡ c
unfolding crc_byte
crc_byte-byte_injective s b c hs hb hc e =
    xor_cancel (crc_bits-injective 8 _ _ (byte_mixed s b hs hb) (byte_mixed s c hs hc) e)
  where
    xor_cancel : bit_xor s b ≡ bit_xor s c → b ≡ c
    xor_cancel f = bit_xor-cancel_left s b c f

crc_from_corrupted :
    (s b c : ℕ) (xs ys : List ℕ)
    → IsWord s
    → All IsByte xs
    → IsByte b
    → IsByte c
    → All IsByte ys
    → crc_from s (xs ++ b ∷ ys) ≡ crc_from s (xs ++ c ∷ ys)
    → b ≡ c
unfolding crc_from
crc_from_corrupted s b c [] ys hs hx hb hc hy e =
    crc_byte-byte_injective s b c hs hb hc
      (crc_from-injective _ _ ys (crc_byte-IsWord s b hs hb) (crc_byte-IsWord s c hs hc) hy e)
crc_from_corrupted s b c (x ∷ xs) ys hs (hx, hxs) hb hc hy e =
    crc_from_corrupted (crc_byte s x) b c xs ys (crc_byte-IsWord s x hs hx) hxs hb hc hy e

-- Two byte sequences that differ in exactly one byte have different checksums.
pub calculate_crc16_detects :
    (b c : ℕ) (xs ys : List ℕ)
    → All IsByte xs
    → IsByte b
    → IsByte c
    → All IsByte ys
    → b ≢ c
    → calculate_crc16 (xs ++ b ∷ ys) ≢ calculate_crc16 (xs ++ c ∷ ys)
unfolding calculate_crc16
calculate_crc16_detects b c xs ys hx hb hc hy ne e =
    ne (crc_from_corrupted 0xFFFF b c xs ys (omega arith) hx hb hc hy e)

-- The checksum of a byte sequence is a 16-bit word.
pub calculate_crc16-IsWord : (bs : List ℕ) → All IsByte bs → IsWord (calculate_crc16 bs)
unfolding calculate_crc16
calculate_crc16-IsWord bs h = crc_from-IsWord 0xFFFF bs (omega arith) h
