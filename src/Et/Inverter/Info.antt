-- ===== src/Et/Inverter/Info.antt =====
-- GetInfo of et/et.go.
pub mod Answers
use go_goodwe.Base.{
  ℕ, ◌+◌, ◌*◌, ◌/◌, ltb, ◌==◌, ◌&&◌, ◌||◌, not, Bool, if◌then◌else◌, List, [], ◌∷◌, ◌++◌, length,
}
use go_goodwe.Base.Text.{Text, codes, decimal, is_empty}
use go_goodwe.Base.Result.{Result, ok, err, panic, ◌>>=◌, slice}
use go_goodwe.Et.Reader.{be16}
use go_goodwe.Et.Info.{decode_goodwe_string, split_n}
use go_goodwe.Et.Inverter.{Slice, Transport}

-- goodwe.Info
pub record Info : Type 0 where
  pub serial_number : Text
  pub model : Text
  pub firmware : Text
  pub rated_power : ℕ
  pub dsp_version : Text
  pub arm_version : Text

-- `data[lo:hi]`, decoded
unfoldable pub field_text : List ℕ → ℕ → ℕ → Result Text
field_text block lo hi = do bytes ← slice block lo hi; ok (decode_goodwe_string bytes)

-- A blank model is derived from the rated power.
unfoldable pub model_name : Text → ℕ → Text
model_name model rated_power =
    if is_empty model && ltb 0 rated_power && ltb 0 (rated_power / 1000)
    then codes "GW" ++ (decimal (rated_power / 1000) ++ codes "K-ET")
    else model

unfoldable pub firmware_text : Text → Text → Text
firmware_text firmware arm =
    if not (is_empty firmware) && not (is_empty arm)
    then firmware ++ arm
    else (if not (is_empty firmware) then firmware else arm)

-- `parts[1]`, if there are two parts or more.
abbrev pub second_part : List Text → Text
second_part [] = []
second_part (p ∷ []) = []
second_part (p ∷ q ∷ parts) = q

unfoldable pub dsp_version_text : ℕ → ℕ → Text → Text
dsp_version_text dsp1 dsp2 firmware =
    if ltb 0 dsp1 || ltb 0 dsp2
    then decimal dsp1 ++ (codes "." ++ decimal dsp2)
    else second_part (split_n b'-' 3 firmware)

unfoldable pub arm_version_text : ℕ → Text → Text
arm_version_text arm arm_firmware =
    if ltb 0 arm then decimal arm else second_part (split_n b'-' 3 arm_firmware)

-- The fields of the 33 device registers.
unfoldable pub device_info : List ℕ → Result Info
device_info block = do
  serial ← field_text block 6 22
  model ← field_text block 22 32
  rated_power ← be16 block 2
  firmware ← field_text block 42 54
  arm_firmware ← field_text block 54 66
  dsp1 ← be16 block 32
  dsp2 ← be16 block 34
  arm ← be16 block 38
  ok (record {
    serial_number = serial;
    model = model_name model rated_power;
    firmware = firmware_text firmware arm_firmware;
    rated_power = rated_power;
    dsp_version = dsp_version_text dsp1 dsp2 firmware;
    arm_version = arm_version_text arm arm_firmware;
  })

-- What is known without the device registers.
abbrev pub serial_only : Text → Info
serial_only serial = record {
  serial_number = serial;
  model = [];
  firmware = [];
  rated_power = 0;
  dsp_version = [];
  arm_version = [];
}

module _ (tr : Transport) where
  -- An error of the read is only logged.
  unfoldable pub get_info : Text → tr.State → Result Info × tr.State
  unfolding device_info
  get_info serial s =
      let (r, t) = tr.read_registers 35000 33 s in
      elim r [
        | ok d ↦
            ((if ltb (length d.block) 66 then ok (serial_only serial) else device_info d.block), t)
        | err e ↦ (ok (serial_only serial), t)
        | panic ↦ (panic, t)
      ]
