-- ===== src/Discovery/Probe/Answer.antt =====
-- The answer of a dongle with a DTLS port.
use go_goodwe.Base.{
  ℕ, ◌<◌, ◌^◌, ◌==◌, Bool, false, List, [], ◌∷◌, ◌++◌, some, ◌≡◌, refl, arith, Bool-cases, lt→ltb,
  inl, inr,
}
use go_goodwe.Base.Text.{Text, codes, decimal, contains, any_byte}
use go_goodwe.Base.Text.Decimal.{decimal-ne-nil, digits_prefix-decimal, value_from-decimal}
use go_goodwe.Base.Result.{ok}
use go_goodwe.Discovery.Probe.{split, extract_serial, find_port, atoi_digits, parse_probe_response}

-- "dongle@sn,dtls_port:<port>,<serial>"
abbrev pub dongle_answer : ℕ → Text → Text
dongle_answer port serial = codes "dongle@sn,dtls_port:" ++ (decimal port ++ b',' ∷ serial)

abbrev pub has_comma : Text → Bool
has_comma s = any_byte (λ c. c == b',') s

split_single : (s : Text) → has_comma s ≡ false → split b',' s ≡ s ∷ []
unfolding split
split_single [] h = refl
split_single (c ∷ s) h = ground (arith, split_single s)

-- A text with a comma has two parts or more, and what stands behind its last comma is the last.
split_last :
    (front s : Text)
    → has_comma s ≡ false
    → (p q : Text) × (ps : List Text) × (split b',' (front ++ b',' ∷ s) ≡ p ∷ q ∷ ps)
      × (extract_serial (q ∷ ps) ≡ s)
unfolding split extract_serial
split_last [] s h = ([], s, [], rw (split_single s h), refl)
split_last (c ∷ front) s h =
    let (p, q, ps, parts, found) = split_last front s h in
    elim (Bool-cases (c == b',')) [
      | inl comma ↦ ([], p, q ∷ ps, ground (arith, comma, parts), found)
      | inr other ↦ (c ∷ p, q, ps, ground (arith, other, parts), found)
    ]

serial_last :
    (front s : Text) → has_comma s ≡ false → extract_serial (split b',' (front ++ b',' ∷ s)) ≡ s
unfolding extract_serial
serial_last front s h = let (p, q, ps, parts, found) = split_last front s h in rw parts found

find_port_answer :
    (port : ℕ) (serial : Text) → find_port (dongle_answer port serial) ≡ some (decimal port)
unfolding find_port
find_port_answer port serial =
    ground (arith, digits_prefix-decimal port b',' serial refl, decimal-ne-nil port)

-- The answer of a dongle with a DTLS port is parsed to that port, which an int holds, and to the
-- serial number that it was written with, if that has no comma and the dongle is not busy.
pub parse_probe_response_dtls :
    (port : ℕ) (serial : Text)
    → port < 2 ^ 63
    → has_comma serial ≡ false
    → contains (dongle_answer port serial) (codes "@busy") ≡ false
    → parse_probe_response (dongle_answer port serial)
      ≡ ok (record { serial = serial; transport = codes "dtls"; dtls_port = port })
unfolding parse_probe_response atoi_digits
parse_probe_response_dtls port serial small plain idle =
    let behind = serial_last (codes "dongle@sn,dtls_port:" ++ decimal port) serial plain in
    rw (
      idle,
      find_port_answer port serial,
      value_from-decimal port,
      lt→ltb port (2 ^ 63) small,
      behind,
    )
