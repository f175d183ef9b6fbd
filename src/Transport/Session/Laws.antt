-- ===== src/Transport/Session/Laws.antt =====
-- What a caller of ReadRegisters may rely on, for any transport.
use go_goodwe.Base.{
  ℕ, List, Option, none, some, true, false, ◌≡◌, ◌≢◌, refl, arith, Option-cases, inl, inr,
}
use go_goodwe.Base.Text.{Text}
use go_goodwe.Base.Result.{Result, ok, err, panic}
use go_goodwe.Transport.Network.{Network, Shared}
use go_goodwe.Transport.Session.{
  Wire, close, drop_stale, connect, fast_path, reconnect, read_registers,
}
use go_goodwe.Modbus.Message.{is_conn_closed, exception_message}
use go_goodwe.Modbus.Message.Exception.{exception-not_conn_closed}

module _ (net : Network) (wire : Wire net) where
  module _ (first_gap second_gap : Shared net → Shared net) (start_reg quantity : ℕ)
      (s : Shared net) where
    -- On a live connection any answer but a closed connection's error is returned as it is, with
    -- the lock never given up and no reconnection.
    pub read_registers_live :
        {c : net.Conn} {e : Text} {t : Shared net}
        → s.conn ≡ some c
        → wire.do_read c start_reg quantity s ≡ (err e, t)
        → is_conn_closed e ≡ false
        → read_registers net wire first_gap second_gap start_reg quantity s ≡ (err e, t)
    unfolding read_registers
    read_registers_live live answer other = ground arith

    -- Such an answer is an exception response: the caller sees the inverter's exception itself.
    pub read_registers_exception :
        {c : net.Conn} {t : Shared net} (func_code code : ℕ)
        → s.conn ≡ some c
        → wire.do_read c start_reg quantity s ≡ (err (exception_message func_code code), t)
        → read_registers net wire first_gap second_gap start_reg quantity s
          ≡ (err (exception_message func_code code), t)
    read_registers_exception func_code code live answer =
        read_registers_live live answer (exception-not_conn_closed func_code code)

    pub read_registers_answered :
        {c : net.Conn} {d : List ℕ} {t : Shared net}
        → s.conn ≡ some c
        → wire.do_read c start_reg quantity s ≡ (ok d, t)
        → read_registers net wire first_gap second_gap start_reg quantity s ≡ (ok d, t)
    unfolding read_registers
    read_registers_answered live answer = ground arith

    -- Without a connection the read goes over the one that is dialled now.
    pub read_registers_reconnected :
        {d : net.Conn} {t : Shared net} {r : Result (List ℕ) × Shared net}
        → s.conn ≡ none
        → connect net wire (first_gap s) ≡ (ok tt, t)
        → (second_gap t).conn ≡ some d
        → wire.do_read d start_reg quantity (second_gap t) ≡ r
        → read_registers net wire first_gap second_gap start_reg quantity s ≡ r
    unfolding read_registers
    read_registers_reconnected gone dialled kept answer = ground arith

  connect-conn :
      (s t : Shared net) → connect net wire s ≡ (ok tt, t) → (c : net.Conn) × (t.conn ≡ some c)
  unfolding connect
  connect-conn s t e = elim-dial (wire.dial (drop_stale net s)) refl
    where
      elim-dial :
          (d : Result net.Conn × Shared net)
          → wire.dial (drop_stale net s) ≡ d
          → (c : net.Conn) × (t.conn ≡ some c)
      elim-dial (ok c, u) f = (c, ground (arith, f))
      elim-dial (err m, u) f = ground (arith, f)
      elim-dial (panic, u) f = ground (arith, f)

  -- A read that has to reconnect: there is no connection, or the first attempt finds it closed; with
  -- the state in which it then gives up the lock.
  pub data IsCutOff (start_reg quantity : ℕ) : Shared net → Shared net → Type 0 where
    missing : {s : Shared net} → s.conn ≡ none → IsCutOff start_reg quantity s s
    dead :
        {s u : Shared net} {c : net.Conn} {e : Text}
        → s.conn ≡ some c
        → wire.do_read c start_reg quantity s ≡ (err e, u)
        → is_conn_closed e ≡ true
        → IsCutOff start_reg quantity s (drop_stale net u)

  fast_path-cut_off :
      (start_reg quantity : ℕ) (s u : Shared net)
      → IsCutOff start_reg quantity s u
      → fast_path net wire start_reg quantity s ≡ (none, u)
  unfolding fast_path
  fast_path-cut_off start_reg quantity s u (missing gone) = ground (arith, gone)
  fast_path-cut_off start_reg quantity s u (dead live answer closed) =
      ground (arith, live, answer, closed)

  -- Another goroutine that closes the transport between Connect and the second attempt makes that
  -- attempt call a nil connection: a read that has to reconnect, since there is no connection or the
  -- first attempt found it closed, then panics, if it connects.
  pub read_registers_closed_in_gap :
      (first_gap : Shared net → Shared net) (start_reg quantity : ℕ) (s u t : Shared net)
      → IsCutOff start_reg quantity s u
      → connect net wire (first_gap u) ≡ (ok tt, t)
      → (read_registers net wire first_gap (λ u. (close net u).1) start_reg quantity s).0 ≡ panic
  unfolding read_registers close
  read_registers_closed_in_gap first_gap start_reg quantity s u t cut dialled =
      let (c, live) = connect-conn (first_gap u) t dialled in
      ground (arith, fast_path-cut_off start_reg quantity s u cut, live, dialled)

  connect-not_panic :
      ((u : Shared net) → (wire.dial u).0 ≢ panic)
      → (s : Shared net) → (connect net wire s).0 ≢ panic
  unfolding connect
  connect-not_panic safe_dial s = ground (arith, safe_dial (drop_stale net s))

  module _ (safe_dial : (u : Shared net) → (wire.dial u).0 ≢ panic)
      (safe_read : (c : net.Conn) (a q : ℕ) (u : Shared net)
        → (wire.do_read c a q u).0 ≢ panic) where
    fast_path-not_panic :
        (start_reg quantity : ℕ) (s : Shared net)
        → (fast_path net wire start_reg quantity s).0 ≢ some panic
    unfolding fast_path
    fast_path-not_panic start_reg quantity s = elim (Option-cases s.conn) [
      | inl gone ↦ ground (arith, gone)
      | inr (c, live) ↦ ground (arith, live, safe_read c start_reg quantity s)
    ]

    reconnect-not_panic :
        (first_gap second_gap : Shared net → Shared net)
        → ((u : Shared net) (c : net.Conn)
            → u.conn ≡ some c
            → (d : net.Conn) × ((second_gap u).conn ≡ some d))
        → (start_reg quantity : ℕ) (s : Shared net)
        → (reconnect net wire first_gap second_gap start_reg quantity s).0 ≢ panic
    unfolding reconnect
    reconnect-not_panic first_gap second_gap kept start_reg quantity s =
        by_connect (connect net wire (first_gap s)) refl
      where
        by_connect :
            (r : Result (Unit {0}) × Shared net)
            → connect net wire (first_gap s) ≡ r
            → (reconnect net wire first_gap second_gap start_reg quantity s).0 ≢ panic
        by_connect (ok tt, t) dialled =
            let (c, live) = connect-conn (first_gap s) t dialled in
            let (d, still) = kept t c live in
            ground (arith, dialled, still, safe_read d start_reg quantity (second_gap t))
        by_connect (err e, t) dialled = ground (arith, dialled)
        by_connect (panic, t) dialled =
            ground (arith, dialled, connect-not_panic safe_dial (first_gap s))

    -- Where dialling and doRead do not panic and no other goroutine takes the connection away
    -- between Connect and the second attempt, ReadRegisters does not panic.
    pub read_registers-not_panic :
        (first_gap second_gap : Shared net → Shared net)
        → ((u : Shared net) (c : net.Conn)
            → u.conn ≡ some c
            → (d : net.Conn) × ((second_gap u).conn ≡ some d))
        → (start_reg quantity : ℕ) (s : Shared net)
        → (read_registers net wire first_gap second_gap start_reg quantity s).0 ≢ panic
    unfolding read_registers
    read_registers-not_panic first_gap second_gap kept start_reg quantity s =
        by_first (fast_path net wire start_reg quantity s) refl
      where
        by_first :
            (r : Option (Result (List ℕ)) × Shared net)
            → fast_path net wire start_reg quantity s ≡ r
            → (read_registers net wire first_gap second_gap start_reg quantity s).0 ≢ panic
        by_first (some answer, t) first =
            ground (arith, first, fast_path-not_panic start_reg quantity s)
        by_first (none, t) first =
            ground
              (arith, first, reconnect-not_panic first_gap second_gap kept start_reg quantity t)
