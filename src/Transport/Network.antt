-- ===== src/Transport/Network.antt =====
-- What the transports take from package net and the DTLS library: the calls on a connection, each
-- with the state of the outside world passed through. No law is assumed of them here.
use go_goodwe.Base.{ℕ, List, Option, none, some, ◌++◌, ◌≡◌, ◌≢◌}
use go_goodwe.Base.Text.{Text}
use go_goodwe.Base.Result.{Result, ok, err, panic}

pub record Network : Type 1 where
  pub World : Type 0
  pub Conn : Type 0
  -- `net.ResolveUDPAddr`, `dtls.DialWithContext` and `net.DialTimeout`
  pub resolve : World → Option Text × World
  pub dial : World → Result Conn × World
  -- the methods of `net.Conn`; `none` is the nil error
  pub set_write_deadline : Conn → World → Option Text × World
  pub write : Conn → List ℕ → World → Option Text × World
  pub set_read_deadline : Conn → World → Option Text × World
  pub read : Conn → World → Result (List ℕ) × World
  pub close : Conn → World → Option Text × World

module _ (net : Network) where
  open net use {World, Conn}

  -- The fields of dtlsTransport and tcpTransport that change, and the world. `tx_id` is tcpTransport's.
  pub record Shared : Type 0 where
    pub conn : Option Conn
    pub tx_id : ℕ
    pub world : World

-- Code that runs with the transport's lock held, or between its locks.
abbrev pub M {ℓ} : Network → Type ℓ → Type ℓ
M net A = Shared net → Result A × Shared net

infixl 5 ◌>>=◌
abbrev pub ◌>>=◌ {ℓ κ} :
    {net : Network} {A : Type ℓ} {B : Type κ} → M net A → (A → M net B) → M net B
◌>>=◌ m f s =
    let (r, s') = m s in elim r [ ok a ↦ f a s' | err e ↦ (err e, s') | panic ↦ (panic, s') ]

abbrev pub pure {ℓ} : {net : Network} {A : Type ℓ} → A → M net A
pure a s = (ok a, s)

abbrev pub lift {ℓ} : {net : Network} {A : Type ℓ} → Result A → M net A
lift r s = (r, s)

-- A call on the connection whose error, if any, is returned behind a prefix.
abbrev pub checked :
    {net : Network} → Text → (net.World → Option Text × net.World) → M net (Unit {0})
checked prefix call s =
    let (e, w) = call s.world in
    (elim e [ none ↦ ok tt | some m ↦ err (prefix ++ m) ], record s { world = w })

abbrev pub called {ℓ} :
    {net : Network} {A : Type ℓ} → Text → (net.World → Result A × net.World) → M net A
called prefix call s =
    let (r, w) = call s.world in
    (elim r [ ok a ↦ ok a | err m ↦ err (prefix ++ m) | panic ↦ panic ], record s { world = w })

infixl 5 ◌>>◌
abbrev pub ◌>>◌ {ℓ} : {net : Network} {B : Type ℓ} → M net (Unit {0}) → M net B → M net B
m >> k = m >>= λ _. k

-- The peer takes one request over a connection and answers it: the four calls succeed, and the
-- world goes from `before` to `after`.
pub record Answers (net : Network) (c : net.Conn) (request response : List ℕ)
    (before after : net.World) : Type 0 where
  pub w₁ : net.World
  pub w₂ : net.World
  pub w₃ : net.World
  pub may_write : net.set_write_deadline c before ≡ (none, w₁)
  pub written : net.write c request w₁ ≡ (none, w₂)
  pub may_read : net.set_read_deadline c w₂ ≡ (none, w₃)
  pub received : net.read c w₃ ≡ (ok response, after)

-- `net.Conn.Read` and the dialling functions return errors; they do not panic.
pub record IsQuiet (net : Network) : Type 0 where
  pub read_returns : (c : net.Conn) (w : net.World) → (net.read c w).0 ≢ panic
  pub dial_returns : (w : net.World) → (net.dial w).0 ≢ panic
