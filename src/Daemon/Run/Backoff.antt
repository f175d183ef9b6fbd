-- ===== src/Daemon/Run/Backoff.antt =====
-- The delays between attempts to connect while they keep failing.
use go_goodwe.Base.{
  ℕ, zero, suc, ◌*◌, ◌^◌, ◌≤◌, ◌<◌, ltb, ◌==◌, Bool-cases, inl, inr, none, some, true, false, List,
  [], ◌∷◌, length, get_elem?, ◌≡◌, ◌≢◌, refl, ap, ◌∙◌, arith, if◌then◌else◌,
}
use Prim.Native.Nat.{min}
use go_goodwe.Base.Text.{Text, is_empty}
use go_goodwe.Base.Result.{Result, ok, err, panic}
use go_goodwe.Et.Value.{Float64}
use go_goodwe.Daemon.World.{disconnected, World, Config, Daemon, System, set_state}
use go_goodwe.Daemon.Connect.{do_connect, close_connection}
use go_goodwe.Daemon.Aggregate.{do_startup_aggregation}
use go_goodwe.Daemon.Run.{schedule, backoff_initial, backoff_max, act, tick, ticks, run}

pow_pos : (n : ℕ) → 1 ≤ 2 ^ n
pow_pos zero = omega arith
pow_pos (suc n) = omega (arith, pow_pos n)

mul_le : (a b p : ℕ) → a ≤ b → a * p ≤ b * p
mul_le a b zero h = omega arith
mul_le a b (suc p) h = omega (arith, mul_le a b p h)

abbrev doubled : ℕ → ℕ
doubled backoff = if ltb backoff_max (backoff * 2) then backoff_max else backoff * 2

mul-pow_suc : (b n : ℕ) → b * 2 ^ suc n ≡ b * 2 * 2 ^ n
mul-pow_suc b n = by_mul (2 ^ n) (2 ^ suc n) (omega arith)
  where
    by_mul : (p q : ℕ) → q ≡ 2 * p → b * q ≡ b * 2 * p
    by_mul p q e = rw e (grind arith)

min-doubled : (b n : ℕ) → min (doubled b * 2 ^ n) backoff_max ≡ min (b * 2 ^ suc n) backoff_max
min-doubled b n = elim (Bool-cases (ltb backoff_max (b * 2))) [
  | inl over ↦
      let above : backoff_max ≤ b * 2 = ground (arith, over) in
      let capped : doubled b ≡ backoff_max = ground (arith, over) in
      rw capped
        (omega (arith, pow_pos n, mul-pow_suc b n, mul_le backoff_max (b * 2) (2 ^ n) above))
  | inr under ↦
      let twice : doubled b ≡ b * 2 = ground (arith, under) in
      rw twice (omega (arith, mul-pow_suc b n))
]

-- The delays of `n` failing attempts, from a given backoff.
abbrev doubling : ℕ → ℕ → List ℕ
doubling zero backoff = []
doubling (suc n) backoff = backoff ∷ doubling n (doubled backoff)

length-doubling : (n backoff : ℕ) → length (doubling n backoff) ≡ n
length-doubling zero backoff = refl
length-doubling (suc n) backoff = omega (arith, length-doubling n (doubled backoff))

get_elem?-doubling :
    (n k backoff : ℕ)
    → k < n
    → backoff ≤ backoff_max
    → get_elem? (doubling n backoff) k ≡ some (min (backoff * 2 ^ k) backoff_max)
get_elem?-doubling zero k backoff before h = absurd (omega (arith, before))
get_elem?-doubling (suc n) zero backoff before h = ap some (omega arith)
get_elem?-doubling (suc n) (suc k) backoff before h =
    get_elem?-doubling n k (doubled backoff) (omega arith) (ground arith)
    ∙ ap some (min-doubled backoff k)

module _ {fl : Float64} (w : World fl) (config : Config) where
  -- No attempt to connect succeeds, and pinging the inverter and closing the connection return.
  pub record IsUnreachable : Type 0 where
    pub refuses :
        (s : w.voltage.State)
        → (e : Text) × (t : w.voltage.State) × (w.inverter_connect s ≡ (err e, t))
    pub pings : (s : w.voltage.State) → (w.ping config.inverter_ip s).0 ≢ panic
    pub closes : (s : w.voltage.State) → (w.inverter_close s).0 ≢ panic

  module _ (unreachable : IsUnreachable) where
    -- A program that returns a value and leaves the daemon disconnected.
    abbrev Parts {ℓ} : {A : Type ℓ} → A → (System w → Result A × System w) → System w → Type ℓ
    Parts a m x =
        (d : Daemon) × (s : w.voltage.State) × (m x ≡ (ok a, (d, s)))
        × (d.conn_state ≡ disconnected)

    do_connect-Parts : (x : System w) → Parts tt (do_connect w config) x
    unfolding do_connect set_state
    do_connect-Parts (d, s) =
        let (e, t, called) = unreachable.refuses s in
        elim (Bool-cases (is_empty config.inverter_ip)) [
          | inl unnamed ↦ (
            record d { conn_state = disconnected; conn_err = some e },
            t,
            ground (arith, called, unnamed),
            refl,
          )
          | inr named ↦ (
            record d { conn_state = disconnected; conn_err = some e },
            (w.ping config.inverter_ip t).1,
            ground (arith, called, named, unreachable.pings t),
            refl,
          )
        ]

    tick-Parts :
        (backoff : ℕ) (d : Daemon) (s : w.voltage.State)
        → d.conn_state ≡ disconnected
        → Parts (some (backoff, doubled backoff)) (tick w config backoff) (d, s)
    unfolding tick act schedule
    tick-Parts backoff d s apart =
        let (e, t, ran, still) = do_connect-Parts (d, s) in
        (e, t, ground (arith, apart, ran, still), still)

    ticks-doubling :
        (n backoff : ℕ) (d : Daemon) (s : w.voltage.State)
        → d.conn_state ≡ disconnected
        → (y : System w) × (ticks w config n backoff (d, s) ≡ (ok (doubling n backoff), y))
    unfolding ticks close_connection
    ticks-doubling zero backoff d s apart =
        ((d, (w.inverter_close s).1), ground (arith, unreachable.closes s))
    ticks-doubling (suc n) backoff d s apart =
        let (e, t, ran, still) = tick-Parts backoff d s apart in
        let (y, rest) = ticks-doubling n (doubled backoff) e t still in
        (y, ground (arith, ran, rest))

    -- If no attempt to connect succeeds, pinging the inverter and closing the connection do not
    -- panic, and the aggregation at the start returns, a run of a daemon with an inverter and a poll
    -- interval returns after any number `n` of firings, and it sets as many delays: the first is
    -- five seconds, and each later one twice the one before but never more than five minutes.
    pub run_unreachable :
        (n : ℕ) (x y : System w)
        → config.has_inverter ≡ true
        → (config.poll_interval == 0) ≡ false
        → do_startup_aggregation w config x ≡ (ok tt, y)
        → (delays : List ℕ) × (z : System w) × (run w config n x ≡ (ok delays, z))
          × (length delays ≡ n)
          × ((k : ℕ)
              → k < n
              → get_elem? delays k ≡ some (min (5_000_000_000 * 2 ^ k) 300_000_000_000))
    unfolding run set_state
    run_unreachable n x (d, s) present polls started =
        let (z, ran) =
          ticks-doubling n backoff_initial (record d { conn_state = disconnected; conn_err = none })
            s refl in
        (
          doubling n backoff_initial,
          z,
          ground (arith, present, polls, started, ran),
          length-doubling n backoff_initial,
          λ k before. get_elem?-doubling n k backoff_initial before (omega arith),
        )
