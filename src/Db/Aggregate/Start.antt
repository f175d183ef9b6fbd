-- ===== src/Db/Aggregate/Start.antt =====
-- Where the loop over the buckets starts, told by division.
use go_goodwe.Base.{
  ℕ, ◌+◌, ◌*◌, ◌/◌, ltb, Bool-cases, if◌then◌else◌, Option, none, some, inl, inr, ◌≡◌, ap, ◌∙◌,
  arith,
}
use Prim.Native.Nat.{max}
use go_goodwe.Db.Aggregate.{hour, day, truncate, first_bucket}

latest_hour :
    (a since floor : ℕ)
    → (let start = truncate hour (if ltb a since then since else a) in
        if ltb start (truncate hour floor) then truncate hour floor else start)
      ≡ max (max a since) floor / 3_600_000_000_000 * 3_600_000_000_000
latest_hour a since floor = elim (Bool-cases (ltb a since)) [
  | inl later ↦ elim (Bool-cases (ltb (truncate hour since) (truncate hour floor))) [
    | inl up ↦ ground (arith, later, up)
    | inr kept ↦ ground (arith, later, kept)
  ]
  | inr first ↦ elim (Bool-cases (ltb (truncate hour a) (truncate hour floor))) [
    | inl up ↦ ground (arith, first, up)
    | inr kept ↦ ground (arith, first, kept)
  ]
]

pub first_hour :
    (since floor last : ℕ) (cursor : Option ℕ)
    → elim cursor [ none ↦ 0 | some at ↦ at ] ≡ last
    → first_bucket hour since cursor (some floor)
      ≡ max (max (last + 3_600_000_000_000) since) floor / 3_600_000_000_000 * 3_600_000_000_000
first_hour since floor last cursor e =
    latest_hour ((elim cursor [ none ↦ 0 | some at ↦ at ]) + 3_600_000_000_000) since floor
    ∙ ap
        (λ k. max (max (k + 3_600_000_000_000) since) floor / 3_600_000_000_000 * 3_600_000_000_000)
        e

latest_day :
    (a since floor : ℕ)
    → (let start = truncate day (if ltb a since then since else a) in
        if ltb start (truncate day floor) then truncate day floor else start)
      ≡ max (max a since) floor / 86_400_000_000_000 * 86_400_000_000_000
latest_day a since floor = elim (Bool-cases (ltb a since)) [
  | inl later ↦ elim (Bool-cases (ltb (truncate day since) (truncate day floor))) [
    | inl up ↦ ground (arith, later, up)
    | inr kept ↦ ground (arith, later, kept)
  ]
  | inr first ↦ elim (Bool-cases (ltb (truncate day a) (truncate day floor))) [
    | inl up ↦ ground (arith, first, up)
    | inr kept ↦ ground (arith, first, kept)
  ]
]

pub first_day :
    (since floor last : ℕ) (cursor : Option ℕ)
    → elim cursor [ none ↦ 0 | some at ↦ at ] ≡ last
    → first_bucket day since cursor (some floor)
      ≡ max (max (last + 86_400_000_000_000) since) floor / 86_400_000_000_000 * 86_400_000_000_000
first_day since floor last cursor e =
    latest_day ((elim cursor [ none ↦ 0 | some at ↦ at ]) + 86_400_000_000_000) since floor
    ∙ ap
        (λ k.
          max (max (k + 86_400_000_000_000) since) floor / 86_400_000_000_000 * 86_400_000_000_000)
        e
