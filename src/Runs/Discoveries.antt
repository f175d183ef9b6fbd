-- ===== src/Runs/Discoveries.antt =====
-- The dongle's answer and the device registers.
use go_goodwe.Base.{ℕ, suc, ◌++◌, [], ◌∷◌, none, true, false, All, ◌⊎◌, ◌≡◌, ◌≢◌, refl, arith}
use go_goodwe.Base.Text.{Text, codes, decimal, contains}
use go_goodwe.Base.Result.{ok, err}
use go_goodwe.Et.Info.{decode_goodwe_string}
use go_goodwe.Et.Info.Texts.{IsVisible, decode_goodwe_string_visible}
use go_goodwe.Et.Inverter.{Transport}
use go_goodwe.Et.Inverter.Info.{Info, serial_only, get_info}
use go_goodwe.Et.Inverter.Info.Answers.{answered, get_info_answers, get_info_serial}
use go_goodwe.Discovery.Model.{tags, has_tag, is_et_model}
use go_goodwe.Discovery.Discover.{Udp, dtls, discover}
use go_goodwe.Discovery.Probe.Answer.{dongle_answer}
use go_goodwe.Discovery.Discover.Found.{Responds, discover_dtls}
use go_goodwe.Runs.Setup.{sevens, refusing}

abbrev serial : Text
serial = codes "9010KETU214W0099"

decode_goodwe_string_visible_example :
    (decode_goodwe_string (b'E' ∷ b'T' ∷ 32 ∷ 32 ∷ []) ≡ codes "ET")
    × (codes "ET" ≢ []
        → decode_goodwe_string (0 ∷ b'E' ∷ 0 ∷ b'T' ∷ 0 ∷ 0 ∷ 0 ∷ 0 ∷ []) ≡ codes "ET")
decode_goodwe_string_visible_example =
    decode_goodwe_string_visible (b'E' ∷ b'T' ∷ []) 2
      ((omega arith, omega arith), ((omega arith, omega arith), tt))

get_info_answers_example :
    (info : Info) × (get_info (refusing (codes "timeout")) serial 0 ≡ (ok info, 1))
    × ((answered (err (codes "timeout")) ≡ true) ⊎ (info ≡ serial_only serial))
get_info_answers_example =
    get_info_answers (refusing (codes "timeout")) serial 0 1 (err (codes "timeout")) refl (λ e. cc)

digits-IsVisible : All IsVisible (codes "010KETU214W0099")
digits-IsVisible = (
  (omega arith, omega arith),
  (
    (omega arith, omega arith),
    (
      (omega arith, omega arith),
      (
        (omega arith, omega arith),
        (
          (omega arith, omega arith),
          (
            (omega arith, omega arith),
            (
              (omega arith, omega arith),
              (
                (omega arith, omega arith),
                (
                  (omega arith, omega arith),
                  (
                    (omega arith, omega arith),
                    (
                      (omega arith, omega arith),
                      (
                        (omega arith, omega arith),
                        (
                          (omega arith, omega arith),
                          ((omega arith, omega arith), ((omega arith, omega arith), tt)),
                        ),
                      ),
                    ),
                  ),
                ),
              ),
            ),
          ),
        ),
      ),
    ),
  ),
)

-- An inverter whose device registers hold the serial number.
abbrev labelled : Transport
labelled = record {
  State = ℕ;
  connect = λ s. (ok tt, s);
  close = λ s. (ok tt, s);
  read_registers = λ start_reg quantity s.
      (ok (record { block = sevens 6 ++ (serial ++ sevens 44); spare = [] }), suc s);
}

get_info_serial_example :
    (info : Info) × (get_info labelled [] 0 ≡ (ok info, 1)) × (info.serial_number ≡ serial)
get_info_serial_example =
    get_info_serial labelled [] 0 1 b'9' (codes "010KETU214W0099") (sevens 6) (sevens 44) [] refl
      refl (omega arith) (omega arith, omega arith) digits-IsVisible refl

-- A socket from which the one answer is read.
abbrev dongle : Udp
dongle = record {
  World = ℕ;
  Conn = Unit {0};
  dial = λ ip port s. (ok tt, suc s);
  set_deadline = λ c s. (none, s);
  write = λ c text s. (none, suc s);
  read = λ c s. (ok (dongle_answer 8899 serial), suc s);
  close = λ c s. (none, suc s);
  quote = λ text. text;
}

answering : Responds dongle (codes "10.0.0.5") (dongle_answer 8899 serial) 0 4
answering = record {
  c = tt;
  s₁ = 1;
  s₂ = 2;
  s₃ = 3;
  dialled = refl;
  written = refl;
  received = refl;
  closed = refl;
}

not_busy : contains (dongle_answer 8899 serial) (codes "@busy") ≡ false
unfolding decimal
not_busy = refl

known : is_et_model serial ≡ true
unfolding is_et_model tags has_tag
known = refl

discover_dtls_example :
    discover dongle (codes "10.0.0.5") 0
    ≡ (ok (record { serial = serial; transport = dtls (codes "10.0.0.5") 8899 }), 4)
discover_dtls_example =
    discover_dtls dongle (codes "10.0.0.5") 8899 serial 0 4 (omega arith) refl not_busy known
      answering
