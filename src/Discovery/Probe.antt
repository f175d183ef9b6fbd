-- ===== src/Discovery/Probe.antt =====
-- parseProbeResponse and extractSerial.
pub mod Answer
use go_goodwe.Base.{
  ℕ, suc, ◌-◌, ◌^◌, ltb, ◌==◌, ◌&&◌, not, Bool, if◌then◌else◌, List, [], ◌∷◌, ◌++◌, drop, Option,
  none, some,
}
use go_goodwe.Base.Text.{Text, codes, starts_with, contains, is_empty}
use go_goodwe.Base.Text.Decimal.{digits_prefix, value_from}
use go_goodwe.Base.Result.{Result, ok, err, ◌>>=◌}

pub record ProbeResult : Type 0 where
  pub serial : Text
  pub transport : Text
  pub dtls_port : ℕ

-- `strings.Split`
unfoldable pub split : ℕ → Text → List Text
split sep [] = [] ∷ []
split sep (c ∷ s) = elim (c == sep) [
  | Bool.true ↦ [] ∷ split sep s
  | Bool.false ↦ elim (split sep s) [ [] ↦ (c ∷ []) ∷ [] | p ∷ ps ↦ (c ∷ p) ∷ ps ]
]

-- The last part.
unfoldable pub extract_serial : List Text → Text
extract_serial [] = []
extract_serial (p ∷ []) = p
extract_serial (p ∷ q ∷ parts) = extract_serial (q ∷ parts)

abbrev pub port_label : Text
port_label = codes "dtls_port:"

-- The group of the leftmost match of `dtls_port:(\d+)`.
unfoldable pub find_port : Text → Option Text
find_port [] = none
find_port (c ∷ s) =
    let later = find_port s in
    let digits = digits_prefix (drop 10 (c ∷ s)) in
    if starts_with (c ∷ s) port_label && not (is_empty digits) then some digits else later

-- `strconv.Atoi` of digits: an int has 64 bits.
unfoldable pub atoi_digits : Text → Result ℕ
atoi_digits digits =
    if ltb (value_from 0 digits) (2 ^ 63)
    then ok (value_from 0 digits)
    else err (codes "strconv.Atoi: parsing \"" ++ (digits ++ codes "\": value out of range"))

unfoldable pub tcp_result : Text → Text → Result ProbeResult
tcp_result resp serial =
    if is_empty serial
    then err (codes "could not extract serial from response: " ++ resp)
    else ok (record { serial = serial; transport = codes "tcp"; dtls_port = 0 })

unfoldable pub parse_probe_response : Text → Result ProbeResult
unfolding tcp_result
parse_probe_response resp =
    if contains resp (codes "@busy")
    then err (codes "inverter busy, try again later: " ++ resp)
    else elim (find_port resp) [
      | none ↦ tcp_result resp (extract_serial (split b',' resp))
      | some digits ↦ elim (atoi_digits digits) [
        | ok port ↦ ok (record {
          serial = extract_serial (split b',' resp);
          transport = codes "dtls";
          dtls_port = port;
        })
        | err e ↦ err (codes "invalid dtls_port: " ++ e)
        | Result.panic ↦ Result.panic
      ]
    ]
