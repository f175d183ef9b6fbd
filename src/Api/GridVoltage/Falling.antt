-- ===== src/Api/GridVoltage/Falling.antt =====
-- Events with falling numbers, cut into pages.
use go_goodwe.Base.{
  ℕ, zero, suc, ◌≤◌, ◌<◌, ltb, lt→ltb, Bool, true, false, Bool-cases, List, [], ◌∷◌, ◌++◌, take,
  drop, length, All, All-append, take-All, reverse-All, if◌then◌else◌, inl, inr, ◌≡◌, refl, ap, sym,
  subst, ◌∙◌, arith,
}
use mathlib.Core.List.{reverse, reverse-cons, append-nil}
use go_goodwe.Et.Value.{Float64}
use go_goodwe.Db.Tables.{VoltageEvent, keep}
use go_goodwe.Db.Keep.{keep-All}
use go_goodwe.Api.GridVoltage.{next_cursor}

module _ {fl : Float64} where
  abbrev pub IsRising : List (VoltageEvent fl) → Type 0
  IsRising [] = Unit {0}
  IsRising (event ∷ events) = All (λ e. event.id < e.id) events × IsRising events

  abbrev pub IsFalling : List (VoltageEvent fl) → Type 0
  IsFalling [] = Unit {0}
  IsFalling (event ∷ events) = All (λ e. e.id < event.id) events × IsFalling events

  abbrev pub is_before : ℕ → VoltageEvent fl → Bool
  is_before b event = ltb event.id b

  append-Falling :
      (xs : List (VoltageEvent fl)) (x : VoltageEvent fl)
      → IsFalling xs
      → All (λ e. x.id < e.id) xs
      → IsFalling (xs ++ (x ∷ []))
  append-Falling [] x down above = (tt, tt)
  append-Falling (y ∷ xs) x (h, hs) (a, later) =
      (All-append (λ e. e.id < y.id) xs (x ∷ []) h (a, tt), append-Falling xs x hs later)

  pub reverse-Falling :
      (events : List (VoltageEvent fl)) → IsRising events → IsFalling (reverse events)
  reverse-Falling [] h = tt
  reverse-Falling (event ∷ events) (h, hs) =
      subst (λ s. IsFalling s) (sym (reverse-cons event events))
        (append-Falling (reverse events) event (reverse-Falling events hs)
          (reverse-All (λ e. event.id < e.id) events h))

  keep-append :
      (p : VoltageEvent fl → Bool) (xs ys : List (VoltageEvent fl))
      → keep p (xs ++ ys) ≡ keep p xs ++ keep p ys
  keep-append p [] ys = refl
  keep-append p (x ∷ xs) ys = elim (Bool-cases (p x)) [
    | inl held ↦ ground (arith, held, keep-append p xs ys)
    | inr dropped ↦ ground (arith, dropped, keep-append p xs ys)
  ]

  pub reverse-keep :
      (p : VoltageEvent fl → Bool) (xs : List (VoltageEvent fl))
      → reverse (keep p xs) ≡ keep p (reverse xs)
  reverse-keep p [] = refl
  reverse-keep p (x ∷ xs) =
      let turned = ap (keep p) (reverse-cons x xs) ∙ keep-append p (reverse xs) (x ∷ []) in
      elim (Bool-cases (p x)) [
        | inl held ↦ ground (arith, held, turned, reverse-cons x (keep p xs), reverse-keep p xs)
        | inr dropped ↦
            ground (arith, dropped, turned, append-nil (keep p (reverse xs)), reverse-keep p xs)
      ]

  pub keep-Falling :
      (p : VoltageEvent fl → Bool) (xs : List (VoltageEvent fl))
      → IsFalling xs
      → IsFalling (keep p xs)
  keep-Falling p [] h = tt
  keep-Falling p (x ∷ xs) (h, hs) =
      by_test (p x) (keep-All (λ e. e.id < x.id) p xs h) (keep-Falling p xs hs)
    where
      by_test :
          (b : Bool)
          → All (λ e. e.id < x.id) (keep p xs)
          → IsFalling (keep p xs)
          → IsFalling (if b then x ∷ keep p xs else keep p xs)
      by_test true below down = (below, down)
      by_test false below down = down

  -- A bound of all events is one of the last.
  next_cursor-upper :
      (b : ℕ) (event : VoltageEvent fl) (events : List (VoltageEvent fl))
      → All (λ e. e.id < b) (event ∷ events)
      → next_cursor (event ∷ events) < b
  next_cursor-upper b event [] (h, hs) = h
  next_cursor-upper b event (second ∷ events) (h, hs) = next_cursor-upper b second events hs

  next_cursor-lower :
      (event : VoltageEvent fl) (events : List (VoltageEvent fl))
      → All (λ e. 0 < e.id) (event ∷ events)
      → 0 < next_cursor (event ∷ events)
  next_cursor-lower event [] (h, hs) = h
  next_cursor-lower event (second ∷ events) (h, hs) = next_cursor-lower second events hs

  pub next_cursor-take_upper :
      (n b : ℕ) (events : List (VoltageEvent fl))
      → suc n ≤ length events
      → All (λ e. e.id < b) events
      → next_cursor (take (suc n) events) < b
  next_cursor-take_upper n b [] enough h = absurd (omega arith)
  next_cursor-take_upper n b (event ∷ events) enough h =
      next_cursor-upper b event (take n events)
        (take-All (λ e. e.id < b) (suc n) (event ∷ events) h)

  pub next_cursor-take_lower :
      (n : ℕ) (events : List (VoltageEvent fl))
      → suc n ≤ length events
      → All (λ e. 0 < e.id) events
      → 0 < next_cursor (take (suc n) events)
  next_cursor-take_lower n [] enough h = absurd (omega arith)
  next_cursor-take_lower n (event ∷ events) enough h =
      next_cursor-lower event (take n events) (take-All (λ e. 0 < e.id) (suc n) (event ∷ events) h)

  before_all :
      (b : ℕ) (events : List (VoltageEvent fl))
      → All (λ e. e.id < b) events
      → keep (is_before b) events ≡ events
  before_all b [] h = refl
  before_all b (event ∷ events) (h, hs) =
      ground (arith, lt→ltb event.id b h, before_all b events hs)

  -- The events before a page's last one are those behind the page.
  pub keep-next_cursor :
      (n : ℕ) (events : List (VoltageEvent fl))
      → IsFalling events
      → suc n ≤ length events
      → keep (is_before (next_cursor (take (suc n) events))) events ≡ drop (suc n) events
  keep-next_cursor n [] h enough = absurd (omega arith)
  keep-next_cursor zero (event ∷ events) (h, hs) enough =
      let self : ltb event.id event.id ≡ false = ground arith in
      ground (arith, self, before_all event.id events h)
  keep-next_cursor (suc n) (event ∷ []) (h, hs) enough = absurd (omega arith)
  keep-next_cursor (suc n) (event ∷ second ∷ events) (h, hs) enough =
      let x = next_cursor (take (suc n) (second ∷ events)) in
      let below : x < event.id =
        next_cursor-upper event.id second (take n events)
          (take-All (λ e. e.id < event.id) (suc n) (second ∷ events) h) in
      let beyond : is_before x event ≡ false = ground (arith, below) in
      let rest = keep-next_cursor n (second ∷ events) hs (omega arith) in
      ground (arith, beyond, rest)
