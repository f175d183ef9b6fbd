-- ===== src/Discovery/Discover/Found.antt =====
-- From the dongle's answer to the inverter.
use go_goodwe.Base.{ℕ, ◌<◌, ◌^◌, true, false, none, ◌≡◌, refl, arith, Bool-cases, inl, inr}
use go_goodwe.Base.Text.{Text, codes, contains}
use go_goodwe.Base.Result.{Result, ok, err, panic}
use go_goodwe.Discovery.Probe.{ProbeResult, parse_probe_response}
use go_goodwe.Discovery.Probe.Answer.{dongle_answer, has_comma, parse_probe_response_dtls}
use go_goodwe.Discovery.Model.{is_et_model}
use go_goodwe.Discovery.Discover.{Udp, Inverter, dtls, ask, probe, choose_transport, discover}

-- A dongle that takes the probe over a socket and answers it; the socket is closed behind it.
pub record Responds (udp : Udp) (ip answer : Text) (before after : udp.World) : Type 0 where
  pub c : udp.Conn
  pub s₁ : udp.World
  pub s₂ : udp.World
  pub s₃ : udp.World
  pub dialled : udp.dial ip 48899 before ≡ (ok c, s₁)
  pub written : udp.write c (codes "WIFIKIT-214028-READ") (udp.set_deadline c s₁).1 ≡ (none, s₂)
  pub received : udp.read c s₂ ≡ (ok answer, s₃)
  pub closed : (udp.close c s₃).1 ≡ after

module _ (udp : Udp) (ip : Text) where
  probe-answer :
      (answer : Text) (before after : udp.World)
      → Responds udp ip answer before after
      → probe udp ip before ≡ (ok answer, after)
  unfolding probe ask
  probe-answer answer before after r = ground arith

  -- A dongle of a known ET model that answers the probe with its DTLS port is discovered as the
  -- inverter with its serial number over DTLS to that port; no socket is left open.
  pub discover_dtls :
      (port : ℕ) (serial : Text) (before after : udp.World)
      → port < 2 ^ 63
      → has_comma serial ≡ false
      → contains (dongle_answer port serial) (codes "@busy") ≡ false
      → is_et_model serial ≡ true
      → Responds udp ip (dongle_answer port serial) before after
      → discover udp ip before ≡ (ok (record { serial = serial; transport = dtls ip port }), after)
  unfolding discover choose_transport
  discover_dtls port serial before after small plain idle known r = rw (
    probe-answer (dongle_answer port serial) before after r,
    parse_probe_response_dtls port serial small plain idle,
    known,
  )

  -- Whatever answers the probe, an inverter that is discovered has the serial number of a known ET
  -- model.
  pub discover-is_et_model :
      (s t : udp.World) (inv : Inverter)
      → discover udp ip s ≡ (ok inv, t)
      → is_et_model inv.serial ≡ true
  unfolding discover choose_transport
  discover-is_et_model s t inv found = by_probe (probe udp ip s) refl
    where
      by_parse :
          (answer : Text) (u : udp.World)
          → probe udp ip s ≡ (ok answer, u)
          → (r : Result ProbeResult) → parse_probe_response answer ≡ r
          → is_et_model inv.serial ≡ true
      by_parse answer u probed (ok pr) parsed = elim (Bool-cases (is_et_model pr.serial)) [
        | inl known ↦ ground (arith, probed, parsed, known, found)
        | inr other ↦ ground (arith, probed, parsed, other, found)
      ]
      by_parse answer u probed (err e) parsed = ground (arith, probed, parsed, found)
      by_parse answer u probed panic parsed = ground (arith, probed, parsed, found)

      by_probe : (r : Result Text × udp.World) → probe udp ip s ≡ r → is_et_model inv.serial ≡ true
      by_probe (ok answer, u) probed = by_parse answer u probed (parse_probe_response answer) refl
      by_probe (err e, u) probed = ground (arith, probed, found)
      by_probe (panic, u) probed = ground (arith, probed, found)
