-- ===== src/Et/Inverter/Info/Answers.antt =====
-- GetInfo over any transport.
use go_goodwe.Base.{
  ℕ, ◌+◌, ◌≤◌, ltb, Bool-cases, inl, inr, Bool, true, false, ltb_false→le, List, length, ◌≡◌, ◌≢◌,
  refl, arith, not, ◌⊎◌, ◌∷◌, ◌++◌, All, length-append, take, drop, ◌-◌,
}
use go_goodwe.Base.Text.{Text}
use go_goodwe.Base.Result.{Result, ok, err, panic, slice_ok, slice_middle, is_ok}
use go_goodwe.Et.Reader.{be16}
use go_goodwe.Et.Registry.Calculator.Total.{be16_ok}
use go_goodwe.Et.Info.{decode_goodwe_string}
use go_goodwe.Et.Info.Texts.{IsVisible, decode_plain}
use go_goodwe.Et.Inverter.{Slice, Transport}
use go_goodwe.Et.Inverter.Info.{
  Info, field_text, model_name, firmware_text, dsp_version_text, arm_version_text, device_info,
  serial_only, get_info,
}

-- The read brought the 33 registers.
abbrev pub answered : Result Slice → Bool
answered (ok d) = not (ltb (length d.block) 66)
answered (err e) = false
answered panic = false

field_text-some :
    (block : List ℕ) (lo hi : ℕ)
    → lo ≤ hi
    → hi ≤ length block
    → (t : Text) × (field_text block lo hi ≡ ok t)
unfolding field_text
field_text-some block lo hi h k =
    (decode_goodwe_string (take (hi - lo) (drop lo block)), rw (slice_ok block lo hi h k))

be16-some : (block : List ℕ) (off : ℕ) → off + 2 ≤ length block → (w : ℕ) × (be16 block off ≡ ok w)
be16-some block off h = by_result (be16 block off) refl (be16_ok block off h)
  where
    by_result :
        (r : Result ℕ)
        → be16 block off ≡ r
        → is_ok (be16 block off) ≡ true
        → (w : ℕ) × (be16 block off ≡ ok w)
    by_result (ok w) e k = (w, e)
    by_result (err m) e k = cc
    by_result panic e k = cc

-- The fields of a block that is long enough: an info, with the serial number of its bytes 6 to 21.
device_info-some :
    (block : List ℕ)
    → 66 ≤ length block
    → (serial : Text) × (info : Info) × (field_text block 6 22 ≡ ok serial)
      × (device_info block ≡ ok info)
      × (info.serial_number ≡ serial)
unfolding device_info
device_info-some block h =
    let (serial, e₁) = field_text-some block 6 22 (omega arith) (omega arith) in
    let (model, e₂) = field_text-some block 22 32 (omega arith) (omega arith) in
    let (rated, e₃) = be16-some block 2 (omega arith) in
    let (firmware, e₄) = field_text-some block 42 54 (omega arith) (omega arith) in
    let (arm_firmware, e₅) = field_text-some block 54 66 (omega arith) (omega arith) in
    let (dsp1, e₆) = be16-some block 32 (omega arith) in
    let (dsp2, e₇) = be16-some block 34 (omega arith) in
    let (arm, e₈) = be16-some block 38 (omega arith) in
    (
      serial,
      record {
        serial_number = serial;
        model = model_name model rated;
        firmware = firmware_text firmware arm_firmware;
        rated_power = rated;
        dsp_version = dsp_version_text dsp1 dsp2 firmware;
        arm_version = arm_version_text arm arm_firmware;
      },
      e₁,
      rw (e₁, e₂, e₃, e₄, e₅, e₆, e₇, e₈),
      refl,
    )

serial_bytes :
    (front serial rest : List ℕ)
    → length front ≡ 6
    → length serial ≡ 16
    → field_text (front ++ (serial ++ rest)) 6 22 ≡ ok (decode_goodwe_string serial)
unfolding field_text
serial_bytes front serial rest hf hs =
    rw (slice_middle front serial rest 6 22 (omega arith) (omega arith))

module _ (tr : Transport) (serial : Text) (s t : tr.State) where
  -- GetInfo over a read that does not panic returns an info and no error; the info is the serial
  -- number alone, as the inverter was constructed with, unless the read brought 66 bytes or more.
  pub get_info_answers :
      (r : Result Slice)
      → tr.read_registers 35000 33 s ≡ (r, t)
      → r ≢ panic
      → (info : Info) × (get_info tr serial s ≡ (ok info, t))
        × ((answered r ≡ true) ⊎ (info ≡ serial_only serial))
  unfolding get_info
  get_info_answers (ok d) e safe = elim (Bool-cases (ltb (length d.block) 66)) [
    | inl short ↦ (serial_only serial, ground (arith, e, short), inr refl)
    | inr long ↦
        let (_, info, _, known, _) = device_info-some d.block (ltb_false→le _ _ long) in
        (info, ground (arith, e, long, known), inl (ground (arith, long)))
  ]
  get_info_answers (err m) e safe = (serial_only serial, ground (arith, e), inr refl)
  get_info_answers panic e safe = absurd (safe refl)

  -- An inverter whose registers hold a serial number of 16 visible characters reports it, whatever
  -- the other registers hold and whatever serial number it was constructed with.
  pub get_info_serial :
      (c : ℕ) (cs front rest spare : List ℕ)
      → length front ≡ 6
      → length (c ∷ cs) ≡ 16
      → 44 ≤ length rest
      → IsVisible c
      → All IsVisible cs
      → tr.read_registers 35000 33 s
        ≡ (ok (record { block = front ++ ((c ∷ cs) ++ rest); spare = spare }), t)
      → (info : Info) × (get_info tr serial s ≡ (ok info, t)) × (info.serial_number ≡ c ∷ cs)
  unfolding get_info
  get_info_serial c cs front rest spare hf hs hr v h e =
      let block = front ++ ((c ∷ cs) ++ rest) in
      let size : 66 ≤ length block =
        omega (arith, length-append front ((c ∷ cs) ++ rest), length-append (c ∷ cs) rest) in
      let (read, info, found, known, same) = device_info-some block size in
      (
        info,
        ground (arith, e, known),
        ground (
          arith,
          same,
          found,
          serial_bytes front (c ∷ cs) rest hf hs,
          decode_plain (c ∷ cs) (v, h),
        ),
      )
