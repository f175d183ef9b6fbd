-- ===== src/Daemon/Run/States.antt =====
-- The states that the loop passes through.
use go_goodwe.Base.{
  ℕ, List, [], ◌∷◌, String, Option, none, some, Bool, true, false, ◌≡◌, ◌≢◌, refl, subst, arith,
  Option-cases, inl, inr,
}
use go_goodwe.Base.Text.{Text}
use go_goodwe.Base.Result.{Result, ok, err, panic}
use go_goodwe.Et.Value.{Float64}
use go_goodwe.Et.Inverter.{SensorValue}
use go_goodwe.Daemon.World.{
  InverterConnState, disabled, disconnected, connecting, connected, failed, is_connected, World,
  Config, Daemon, System, set_state,
}
use go_goodwe.Daemon.Connect.{verify_identity, close_connection, identified, do_connect}
use go_goodwe.Daemon.Poll.{stored_value, store_sensors, do_poll}
use go_goodwe.Daemon.Run.{act, tick}

-- Between two firings of the timer the daemon is never in the middle of connecting, and where it
-- is connected no mismatch has been seen.
pub data IsSettled : Daemon → Type 0 where
  settled :
      {d : Daemon}
      → d.conn_state ≢ connecting
      → (d.conn_state ≡ connected → d.verification_err ≡ none)
      → IsSettled d

module _ {fl : Float64} (w : World fl) (config : Config) where
  identified-IsSettled : (x y : System w) → identified w config x ≡ (ok tt, y) → IsSettled y.0
  unfolding identified close_connection set_state
  identified-IsSettled x y ran = by_verified (verify_identity w config x) refl
    where
      by_verified :
          (r : Result (Unit {0}) × System w) → verify_identity w config x ≡ r → IsSettled y.0
      by_verified (ok tt, z) verified = elim (Option-cases (z.0).verification_err) [
        | inl none_seen ↦
            settled (ground (arith, verified, none_seen, ran))
              (ground (arith, verified, none_seen, ran))
        | inr (e, seen) ↦
            settled (ground (arith, verified, seen, ran)) (ground (arith, verified, seen, ran))
      ]
      by_verified (err e, z) verified =
          settled (ground (arith, verified, ran)) (ground (arith, verified, ran))
      by_verified (panic, z) verified = ground (arith, verified, ran)

  do_connect-IsSettled : (x y : System w) → do_connect w config x ≡ (ok tt, y) → IsSettled y.0
  unfolding do_connect set_state
  do_connect-IsSettled (d, s) y ran = by_answer (w.inverter_connect s) refl
    where
      start : System w
      start = (set_state w connecting none (d, s)).1

      by_answer :
          (r : Result (Unit {0}) × w.voltage.State) → w.inverter_connect s ≡ r → IsSettled y.0
      by_answer (ok tt, t) answer =
          identified-IsSettled (record d { conn_state = connecting; conn_err = none }, t) y
            (ground (arith, answer, ran))
      by_answer (err e, t) answer =
          settled (ground (arith, answer, ran)) (ground (arith, answer, ran))
      by_answer (panic, t) answer = ground (arith, answer, ran)

  store_sensors-daemon :
      (now : ℕ) (sensors : List (String × SensorValue fl)) (x : System w)
      → (store_sensors w config now sensors x).1.0 ≡ x.0
  unfolding store_sensors
  store_sensors-daemon now [] x = refl
  store_sensors-daemon now ((name, sv) ∷ sensors) (d, s) =
      elim (Option-cases (stored_value fl sv.value)) [
        | inl dropped ↦ ground (arith, dropped, store_sensors-daemon now sensors (d, s))
        | inr ((number, words), kept) ↦
            by_insert number words kept (λ x. store_sensors-daemon now sensors x)
              (w.insert_sample name sv.unit now number words s) refl
      ]
    where
      by_insert :
          (number : Option fl.F) (words : Option Text)
          → stored_value fl sv.value ≡ some (number, words)
          → ((x : System w) → (store_sensors w config now sensors x).1.0 ≡ x.0)
          → (r : Result (Unit {0}) × w.voltage.State)
          → w.insert_sample name sv.unit now number words s ≡ r
          → (store_sensors w config now ((name, sv) ∷ sensors) (d, s)).1.0 ≡ d
      by_insert number words kept rest (ok _, t) called = ground (arith, kept, called, rest (d, t))
      by_insert number words kept rest (err _, t) called = ground (arith, kept, called, rest (d, t))
      by_insert number words kept rest (panic, t) called = ground (arith, kept, called)

  do_poll-IsSettled :
      (x y : System w) → IsSettled x.0 → do_poll w config x ≡ (ok tt, y) → IsSettled y.0
  unfolding do_poll close_connection set_state
  do_poll-IsSettled (d, s) y before ran = by_read (w.get_sensors s) refl
    where
      by_read :
          (r : Result (List (String × SensorValue fl)) × w.voltage.State)
          → w.get_sensors s ≡ r
          → IsSettled y.0
      by_read (ok sensors, t) read =
          subst IsSettled (ground (arith, read, ran, store_sensors-daemon (w.now t) sensors (d, t)))
            before
      by_read (err e, t) read = settled (ground (arith, read, ran)) (ground (arith, read, ran))
      by_read (panic, t) read = ground (arith, read, ran)

  act-IsSettled : (x y : System w) → IsSettled x.0 → act w config x ≡ (ok tt, y) → IsSettled y.0
  unfolding act
  act-IsSettled (d, s) y before ran = by_state d.conn_state refl
    where
      unchanged : (d, s) ≡ y → IsSettled y.0
      unchanged e = subst (λ z. IsSettled z.0) e before

      by_poll :
          (z : System w) (b : Bool)
          → is_connected (z.0).conn_state ≡ b
          → d.conn_state ≡ disconnected
          → do_connect w config (d, s) ≡ (ok tt, z)
          → IsSettled z.0
          → IsSettled y.0
      by_poll z true live apart joined after =
          do_poll-IsSettled z y after (ground (arith, live, apart, joined, ran))
      by_poll z false dead apart joined after =
          let same : z ≡ y = ground (arith, dead, apart, joined, ran) in
          subst (λ t. IsSettled t.0) same after

      by_connect :
          (r : Result (Unit {0}) × System w)
          → do_connect w config (d, s) ≡ r
          → d.conn_state ≡ disconnected
          → IsSettled y.0
      by_connect (ok tt, z) joined apart =
          by_poll z (is_connected (z.0).conn_state) refl apart joined
            (do_connect-IsSettled (d, s) z joined)
      by_connect (err e, z) joined apart = ground (arith, joined, apart, ran)
      by_connect (panic, z) joined apart = ground (arith, joined, apart, ran)

      by_state : (c : InverterConnState) → d.conn_state ≡ c → IsSettled y.0
      by_state disconnected here = by_connect (do_connect w config (d, s)) refl here
      by_state connected here = do_poll-IsSettled (d, s) y before (ground (arith, here, ran))
      by_state disabled here = unchanged (ground (arith, here, ran))
      by_state connecting here = unchanged (ground (arith, here, ran))
      by_state failed here = unchanged (ground (arith, here, ran))

  -- Every firing of the timer that does not panic leaves the daemon settled if it was: it is not
  -- in the middle of connecting, and where it is connected no serial mismatch has been seen.
  pub tick-IsSettled :
      (backoff : ℕ) (next : Option (ℕ × ℕ)) (x y : System w)
      → IsSettled x.0
      → tick w config backoff x ≡ (ok next, y)
      → IsSettled y.0
  unfolding tick
  tick-IsSettled backoff next x y before ran = by_act (act w config x) refl
    where
      by_act : (r : Result (Unit {0}) × System w) → act w config x ≡ r → IsSettled y.0
      by_act (ok tt, z) acted =
          let same : z ≡ y = ground (arith, acted, ran) in
          subst (λ (t : System w). IsSettled t.0) same (act-IsSettled x z before acted)
      by_act (err e, z) acted = ground (arith, acted, ran)
      by_act (panic, z) acted = ground (arith, acted, ran)
