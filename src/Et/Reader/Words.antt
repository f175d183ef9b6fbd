-- ===== src/Et/Reader/Words.antt =====
-- A block as the list of its registers, and what the byte readers see of it.
use go_goodwe.Base.{
  ℕ, zero, suc, ◌+◌, ◌*◌, ◌/◌, ◌%◌, ◌^◌, ◌≤◌, ◌<◌, ltb, if◌then◌else◌, length, get_elem?,
  get_elem?-append_left, ◌++◌,
}
use go_goodwe.Base.{
  List, [], ◌∷◌, ◌≡◌, refl, ap, ◌∙◌, arith, Option, none, some, Option-cases, inl, inr,
}
use go_goodwe.Base.Result.{Result, ok, ◌>>=◌, index, of_option}
use go_goodwe.Et.Reader.{be16, be32, be64, read_uint32}

-- Each register is two bytes, high byte first.
unfoldable pub bytes_of : List ℕ → List ℕ
bytes_of [] = []
bytes_of (w ∷ ws) = w / 256 ∷ w % 256 ∷ bytes_of ws

abbrev pub maybe {ℓ κ} : {A : Type ℓ} {B : Type κ} → B → (A → B) → Option A → B
maybe d f none = d
maybe d f (some a) = f a

-- The numbers that one, two and four registers from `i` on hold.
abbrev pub register : List ℕ → ℕ → Option ℕ
register ws i = get_elem? ws i

abbrev pub register_pair : List ℕ → ℕ → Option ℕ
register_pair ws i =
    maybe none (λ hi. maybe none (λ lo. some (hi * 2 ^ 16 + lo)) (register ws (i + 1)))
      (register ws i)

abbrev pub register_quad : List ℕ → ℕ → Option ℕ
register_quad ws i =
    maybe none (λ hi. maybe none (λ lo. some (hi * 2 ^ 32 + lo)) (register_pair ws (i + 2)))
      (register_pair ws i)

pub length-bytes_of : (ws : List ℕ) → length (bytes_of ws) ≡ 2 * length ws
unfolding bytes_of
length-bytes_of [] = omega arith
length-bytes_of (w ∷ ws) = omega (arith, length-bytes_of ws)

high_of :
    (ws : List ℕ) (i : ℕ)
    → get_elem? (bytes_of ws) (i * 2) ≡ maybe none (λ w. some (w / 256)) (get_elem? ws i)
unfolding bytes_of
high_of [] i = refl
high_of (w ∷ ws) zero = refl
high_of (w ∷ ws) (suc i) =
    let e : suc i * 2 ≡ suc (suc (i * 2)) = omega arith in rw e (high_of ws i)

low_of :
    (ws : List ℕ) (i : ℕ)
    → get_elem? (bytes_of ws) (i * 2 + 1) ≡ maybe none (λ w. some (w % 256)) (get_elem? ws i)
unfolding bytes_of
low_of [] i = refl
low_of (w ∷ ws) zero = refl
low_of (w ∷ ws) (suc i) =
    let e : suc i * 2 + 1 ≡ suc (suc (i * 2 + 1)) = omega arith in rw e (low_of ws i)

-- An index that has a register is in range, and the other way round.
pub register-lt : (ws : List ℕ) (i w : ℕ) → get_elem? ws i ≡ some w → i < length ws
register-lt [] i w e = cc
register-lt (x ∷ ws) zero w e = omega arith
register-lt (x ∷ ws) (suc i) w e = omega (arith, register-lt ws i w e)

pub register-ge : (ws : List ℕ) (i : ℕ) → get_elem? ws i ≡ none → length ws ≤ i
register-ge [] i e = omega arith
register-ge (x ∷ ws) zero e = cc
register-ge (x ∷ ws) (suc i) e = omega (arith, register-ge ws i e)

register_pair-lt : (ws : List ℕ) (i v : ℕ) → register_pair ws i ≡ some v → i + 1 < length ws
register_pair-lt ws i v e = elim (Option-cases (get_elem? ws (i + 1))) [
  | inl f ↦ elim (Option-cases (get_elem? ws i)) [
    | inl g ↦ ground (arith, f, g)
    | inr (w, g) ↦ ground (arith, f, g)
  ]
  | inr (w, f) ↦ register-lt ws (i + 1) w f
]

register_pair-ge : (ws : List ℕ) (i : ℕ) → register_pair ws i ≡ none → length ws ≤ i + 1
register_pair-ge ws i e = elim (Option-cases (get_elem? ws (i + 1))) [
  | inl f ↦ register-ge ws (i + 1) f
  | inr (w, f) ↦ elim (Option-cases (get_elem? ws i)) [
    | inl g ↦ omega (arith, register-ge ws i g)
    | inr (v, g) ↦ ground (arith, f, g)
  ]
]

register_quad-lt : (ws : List ℕ) (i v : ℕ) → register_quad ws i ≡ some v → i + 3 < length ws
register_quad-lt ws i v e = elim (Option-cases (register_pair ws (i + 2))) [
  | inl f ↦ elim (Option-cases (register_pair ws i)) [
    | inl g ↦ ground (arith, f, g)
    | inr (w, g) ↦ ground (arith, f, g)
  ]
  | inr (w, f) ↦ omega (arith, register_pair-lt ws (i + 2) w f)
]

register_quad-ge : (ws : List ℕ) (i : ℕ) → register_quad ws i ≡ none → length ws ≤ i + 3
register_quad-ge ws i e = elim (Option-cases (register_pair ws (i + 2))) [
  | inl f ↦ omega (arith, register_pair-ge ws (i + 2) f)
  | inr (w, f) ↦ elim (Option-cases (register_pair ws i)) [
    | inl g ↦ omega (arith, register_pair-ge ws i g)
    | inr (v, g) ↦ ground (arith, f, g)
  ]
]

pub be16_of : (ws : List ℕ) (i : ℕ) → be16 (bytes_of ws) (i * 2) ≡ of_option (register ws i)
unfolding be16
be16_of ws i = elim (Option-cases (get_elem? ws i)) [
  | inl e ↦ ground (arith, e, high_of ws i)
  | inr (w, e) ↦ ground (arith, e, high_of ws i, low_of ws i)
]

be32_of : (ws : List ℕ) (i : ℕ) → be32 (bytes_of ws) (i * 2) ≡ of_option (register_pair ws i)
unfolding be32
be32_of ws i =
    let e : i * 2 + 2 ≡ (i + 1) * 2 = omega arith in
    rw (e, be16_of ws i, be16_of ws (i + 1)) (ground arith)

be64_of : (ws : List ℕ) (i : ℕ) → be64 (bytes_of ws) (i * 2) ≡ of_option (register_quad ws i)
unfolding be64
be64_of ws i =
    let e : i * 2 + 4 ≡ (i + 2) * 2 = omega arith in
    rw (e, be32_of ws i, be32_of ws (i + 2)) (ground arith)

module _ {ℓ} {A : Type ℓ} (ws : List ℕ) (i : ℕ) (d : Result A) where
  -- A reader that falls back to `d` on a short block: at the bytes of one register, and at the
  -- numbers in one, two and four registers.
  pub at_high :
      (f : ℕ → Result A)
      → (if ltb (length (bytes_of ws)) (i * 2 + 2) then d else (index (bytes_of ws) (i * 2) >>= f))
        ≡ maybe d (λ w. f (w / 256)) (register ws i)
  at_high f = elim (Option-cases (get_elem? ws i)) [
    | inl e ↦ ground (arith, e, register-ge ws i e, length-bytes_of ws)
    | inr (w, e) ↦ ground (arith, e, register-lt ws i w e, length-bytes_of ws, high_of ws i)
  ]

  pub at_low :
      (f : ℕ → Result A)
      → (if ltb (length (bytes_of ws)) (i * 2 + 2)
          then d
          else (index (bytes_of ws) (i * 2 + 1) >>= f))
        ≡ maybe d (λ w. f (w % 256)) (register ws i)
  at_low f = elim (Option-cases (get_elem? ws i)) [
    | inl e ↦ ground (arith, e, register-ge ws i e, length-bytes_of ws)
    | inr (w, e) ↦ ground (arith, e, register-lt ws i w e, length-bytes_of ws, low_of ws i)
  ]

  pub at_register :
      (f : ℕ → Result A)
      → (if ltb (length (bytes_of ws)) (i * 2 + 2) then d else (be16 (bytes_of ws) (i * 2) >>= f))
        ≡ maybe d f (register ws i)
  at_register f = elim (Option-cases (get_elem? ws i)) [
    | inl e ↦ ground (arith, e, register-ge ws i e, length-bytes_of ws)
    | inr (w, e) ↦ ground (arith, e, register-lt ws i w e, length-bytes_of ws, be16_of ws i)
  ]

  pub at_pair :
      (f : ℕ → Result A)
      → (if ltb (length (bytes_of ws)) (i * 2 + 4) then d else (be32 (bytes_of ws) (i * 2) >>= f))
        ≡ maybe d f (register_pair ws i)
  at_pair f = elim (Option-cases (register_pair ws i)) [
    | inl e ↦ ground (arith, e, register_pair-ge ws i e, length-bytes_of ws)
    | inr (v, e) ↦ ground (arith, e, register_pair-lt ws i v e, length-bytes_of ws, be32_of ws i)
  ]

  pub at_quad :
      (f : ℕ → Result A)
      → (if ltb (length (bytes_of ws)) (i * 2 + 8) then d else (be64 (bytes_of ws) (i * 2) >>= f))
        ≡ maybe d f (register_quad ws i)
  at_quad f = elim (Option-cases (register_quad ws i)) [
    | inl e ↦ ground (arith, e, register_quad-ge ws i e, length-bytes_of ws)
    | inr (v, e) ↦ ground (arith, e, register_quad-lt ws i v e, length-bytes_of ws, be64_of ws i)
  ]

pub read_uint32_of :
    (ws : List ℕ) (i : ℕ) → read_uint32 (bytes_of ws) i ≡ ok (maybe 0 (λ v. v) (register_pair ws i))
unfolding read_uint32
read_uint32_of ws i = elim (Option-cases (register_pair ws i)) [
  | inl e ↦ ground (arith, e, register_pair-ge ws i e, length-bytes_of ws)
  | inr (v, e) ↦ ground (arith, e, register_pair-lt ws i v e, length-bytes_of ws, be32_of ws i)
]

-- The two bytes of register 40, read past the end of the block if need be.
pub be16_forty :
    (ws spare : List ℕ) (w : ℕ) → register ws 40 ≡ some w → be16 (bytes_of ws ++ spare) 80 ≡ ok w
unfolding be16
be16_forty ws spare w e = ground (
  arith,
  e,
  register-lt ws 40 w e,
  length-bytes_of ws,
  get_elem?-append_left (bytes_of ws) spare 80,
  get_elem?-append_left (bytes_of ws) spare 81,
  high_of ws 40,
  low_of ws 40,
)

-- Six bytes from a register on are the halves of three registers.
pub six_bytes :
    (ws : List ℕ) (i a b c : ℕ)
    → register ws i ≡ some a
    → register ws (i + 1) ≡ some b
    → register ws (i + 2) ≡ some c
    → let at = get_elem? (bytes_of ws) in
      (at (i * 2) ≡ some (a / 256))
      × (at (i * 2 + 1) ≡ some (a % 256))
      × (at (i * 2 + 2) ≡ some (b / 256))
      × (at (i * 2 + 3) ≡ some (b % 256))
      × (at (i * 2 + 4) ≡ some (c / 256))
      × (at (i * 2 + 5) ≡ some (c % 256))
six_bytes ws i a b c ha hb hc =
    let two : i * 2 + 2 ≡ (i + 1) * 2 = omega arith in
    let three : i * 2 + 3 ≡ (i + 1) * 2 + 1 = omega arith in
    let four : i * 2 + 4 ≡ (i + 2) * 2 = omega arith in
    let five : i * 2 + 5 ≡ (i + 2) * 2 + 1 = omega arith in
    (
      high_of ws i ∙ ap (maybe none (λ w. some (w / 256))) ha,
      low_of ws i ∙ ap (maybe none (λ w. some (w % 256))) ha,
      rw two (high_of ws (i + 1) ∙ ap (maybe none (λ w. some (w / 256))) hb),
      rw three (low_of ws (i + 1) ∙ ap (maybe none (λ w. some (w % 256))) hb),
      rw four (high_of ws (i + 2) ∙ ap (maybe none (λ w. some (w / 256))) hc),
      rw five (low_of ws (i + 2) ∙ ap (maybe none (λ w. some (w % 256))) hc),
    )
