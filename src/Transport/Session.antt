-- ===== src/Transport/Session.antt =====
-- Connect, Close and ReadRegisters. The two transports have the same text for them, but for how a
-- connection is dialled and for doRead, which are parameters here.
pub mod Laws
use go_goodwe.Base.{ℕ, List, Option, none, some, Bool, true, false}
use go_goodwe.Base.Text.{codes}
use go_goodwe.Base.Result.{Result, ok, err, panic}
use go_goodwe.Transport.Network.{Network, Shared, M, ◌>>=◌, pure, checked, called}
use go_goodwe.Modbus.Message.{is_conn_closed}
use go_goodwe.Base.{◌++◌, if◌then◌else◌, []}

-- How a transport dials, and one request and response over a connection.
pub record Wire (net : Network) : Type 0 where
  pub dial : M net net.Conn
  pub do_read : net.Conn → ℕ → ℕ → M net (List ℕ)

module _ (net : Network) where
  -- The connection is forgotten whatever its Close answers.
  unfoldable pub close : M net (Unit {0})
  close s = elim s.conn [
    | none ↦ (ok tt, s)
    | some c ↦ checked [] (net.close c) (record s { conn = none })
  ]

  -- "Close any stale connection first": its error is dropped.
  unfoldable pub drop_stale : Shared net → Shared net
  drop_stale s = elim s.conn [
    | none ↦ s
    | some c ↦ record s { conn = none; world = (net.close c s.world).1 }
  ]

  module _ (wire : Wire net) where
    unfoldable pub connect : M net (Unit {0})
    connect s = (do c ← wire.dial; λ t. (ok tt, record t { conn = some c })) (drop_stale s)

    -- The first attempt, under the lock. `none`: there is no connection, or it turned out to be
    -- closed, and it is gone.
    unfoldable pub fast_path : ℕ → ℕ → Shared net → Option (Result (List ℕ)) × Shared net
    fast_path start_reg quantity s = elim s.conn [
      | none ↦ (none, s)
      | some c ↦
          let (r, t) = wire.do_read c start_reg quantity s in
          elim r [
            | err e ↦ (if is_conn_closed e then (none, drop_stale t) else (some (err e), t))
            | ok bytes ↦ (some (ok bytes), t)
            | panic ↦ (some panic, t)
          ]
    ]

    -- The second attempt. A call on a nil connection panics.
    unfoldable pub retry : ℕ → ℕ → M net (List ℕ)
    retry start_reg quantity s = elim s.conn [
      | none ↦ (panic, s)
      | some c ↦ wire.do_read c start_reg quantity s
    ]

    -- The lock is given up before Connect takes it and again behind it. `first_gap` and
    -- `second_gap` are what other goroutines do with the transport meanwhile.
    module _ (first_gap second_gap : Shared net → Shared net) (start_reg quantity : ℕ) where
      unfoldable pub reconnect : M net (List ℕ)
      unfolding retry
      reconnect s =
          let (r, t) = connect (first_gap s) in
          elim r [
            | ok _ ↦ retry start_reg quantity (second_gap t)
            | err e ↦ (err (codes "reconnect failed: " ++ e), t)
            | panic ↦ (panic, t)
          ]

      unfoldable pub read_registers : M net (List ℕ)
      unfolding fast_path reconnect
      read_registers s =
          let (r, t) = fast_path start_reg quantity s in
          elim r [ some answer ↦ (answer, t) | none ↦ reconnect t ]
