-- ===== src/Runs/Reads.antt =====
-- Runs of the transports over a peer that replays prepared responses.
use go_goodwe.Base.{ℕ, ◌≡◌, ◌≢◌, refl, arith, List, [], ◌∷◌, ◌++◌, none, some}
use go_goodwe.Base.Result.{ok, err, panic}
use go_goodwe.Modbus.Message.{exception_message}
use go_goodwe.Modbus.Rtu.{rtu_request}
use go_goodwe.Modbus.Rtu.Frame.{framed, data_body, exception_body}
use go_goodwe.Modbus.Tcp.{build_request}
use go_goodwe.Transport.Network.{Shared, Answers, IsQuiet}
use go_goodwe.Transport.Session
use go_goodwe.Transport.Session.{connect, close, drop_stale}
use go_goodwe.Transport.Session.Laws.{missing, read_registers_closed_in_gap}
use go_goodwe.Transport.Dtls
use go_goodwe.Transport.Tcp
use go_goodwe.Transport.Dtls.EndToEnd.{
  read_registers_data, read_registers_refused, dtls_read_registers-not_panic,
}
use go_goodwe.Transport.Tcp.EndToEnd.{tcp_read_registers_data, tcp_read_registers-not_panic}
use go_goodwe.Runs.Setup.{replay, shared}

abbrev two_registers : List ℕ
two_registers = 0x12 ∷ 0x34 ∷ 0x56 ∷ 0x78 ∷ []

abbrev unmoved : Shared replay → Shared replay
unmoved s = s

abbrev answered :
    (request response : List ℕ) → Answers replay tt request response (response ∷ []) []
answered request response = record {
  w₁ = response ∷ [];
  w₂ = response ∷ [];
  w₃ = response ∷ [];
  may_write = refl;
  written = refl;
  may_read = refl;
  received = refl;
}

read_registers_data_example :
    Dtls.read_registers replay unmoved unmoved 35100 2
      (shared (some tt) (framed (data_body 0xF7 two_registers) ∷ []))
    ≡ (ok two_registers, shared (some tt) [])
read_registers_data_example =
    read_registers_data replay unmoved unmoved 35100 2 0xF7 two_registers tt
      (shared (some tt) (framed (data_body 0xF7 two_registers) ∷ [])) [] refl (omega arith)
      (omega arith, (omega arith, (omega arith, (omega arith, tt)))) (omega arith)
      (answered (rtu_request 35100 2) (framed (data_body 0xF7 two_registers)))

read_registers_refused_example :
    Dtls.read_registers replay unmoved unmoved 36000 125
      (shared (some tt) (framed (exception_body 0xF7 0x83 2) ∷ []))
    ≡ (err (exception_message 0x83 2), shared (some tt) [])
read_registers_refused_example =
    read_registers_refused replay unmoved unmoved 36000 125 0xF7 0x83 2 tt
      (shared (some tt) (framed (exception_body 0xF7 0x83 2) ∷ [])) [] refl (omega arith)
      (omega arith) (omega arith) (omega arith)
      (answered (rtu_request 36000 125) (framed (exception_body 0xF7 0x83 2)))

quiet : IsQuiet replay
quiet = record { read_returns = returns; dial_returns = λ w e. cc }
  where
    returns : (c : Unit {0}) (w : List (List ℕ)) → (replay.read c w).0 ≢ panic
    returns c [] e = cc
    returns c (r ∷ rs) e = cc

dtls_read_registers-not_panic_example :
    (Dtls.read_registers replay unmoved unmoved 35100 2 (shared none [])).0 ≢ panic
dtls_read_registers-not_panic_example =
    dtls_read_registers-not_panic replay quiet unmoved unmoved (λ u c live. (c, live)) 35100 2
      (shared none [])

tcp_read_registers_data_example :
    Tcp.read_registers replay unmoved unmoved 35100 2 (
      shared
        (some tt)
        (((0 ∷ 2 ∷ 0 ∷ 0 ∷ 0 ∷ 7 ∷ 0xF7 ∷ []) ++ (0x03 ∷ 4 ∷ (two_registers ++ []))) ∷ []))
    ≡ (ok two_registers, record { conn = some tt; tx_id = (build_request 1 35100 2).0; world = [] })
tcp_read_registers_data_example =
    tcp_read_registers_data replay unmoved unmoved 35100 2 (0 ∷ 2 ∷ 0 ∷ 0 ∷ 0 ∷ 7 ∷ 0xF7 ∷ [])
      two_registers [] tt
      (shared (some tt)
        (((0 ∷ 2 ∷ 0 ∷ 0 ∷ 0 ∷ 7 ∷ 0xF7 ∷ []) ++ (0x03 ∷ 4 ∷ (two_registers ++ []))) ∷ []))
      [] refl refl (omega arith)
      (answered (build_request 1 35100 2).1
        ((0 ∷ 2 ∷ 0 ∷ 0 ∷ 0 ∷ 7 ∷ 0xF7 ∷ []) ++ (0x03 ∷ 4 ∷ (two_registers ++ []))))

tcp_read_registers-not_panic_example :
    (Tcp.read_registers replay unmoved unmoved 35100 2 (shared none [])).0 ≢ panic
tcp_read_registers-not_panic_example =
    tcp_read_registers-not_panic replay quiet unmoved unmoved (λ u c live. (c, live)) 35100 2
      (shared none [])

dialled : connect replay (Dtls.wire replay) (shared none []) ≡ (ok tt, shared (some tt) [])
unfolding connect drop_stale Dtls.dial
dialled = refl

read_registers_closed_in_gap_example :
    (Session.read_registers replay
      (Dtls.wire replay)
      unmoved
      (λ u. (close replay u).1)
      35100
      2
      (shared none [])).0
    ≡ panic
read_registers_closed_in_gap_example =
    read_registers_closed_in_gap replay (Dtls.wire replay) unmoved 35100 2 (shared none [])
      (shared none []) (shared (some tt) []) (missing refl) dialled
