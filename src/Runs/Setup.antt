-- ===== src/Runs/Setup.antt =====
-- Concrete instances of what the model takes as parameters: whole numbers for float64, a peer that
-- replays prepared responses, and an inverter that answers every register with 7.
use go_goodwe.Base.{ℕ, zero, suc, ◌/◌, ◌^◌, List, [], ◌∷◌, Option, none, some}
use go_goodwe.Base.Int.{ℤ, pos, signed32, ◌+ℤ◌, ◌-ℤ◌, ◌*ℤ◌, ltb_ℤ}
use go_goodwe.Base.Result.{Result, ok, err}
use go_goodwe.Et.Value.{Float64}
use go_goodwe.Et.Reader.Words.{bytes_of}
use go_goodwe.Et.Inverter.{Transport}
use go_goodwe.Analysis.Voltage.{SampleRow, VoltageStore}
use go_goodwe.Transport.Network.{Network, Shared}

abbrev pub whole : Float64
whole = record {
  F = ℤ;
  of_ℤ = λ n. n;
  literal = λ m k. pos (m / 10 ^ k);
  mul = λ a b. a *ℤ b;
  div = λ a b. a;
  of_bits32 = signed32;
  add = λ a b. a +ℤ b;
  sub = λ a b. a -ℤ b;
  lt = ltb_ℤ;
}

abbrev read_next : List (List ℕ) → Result (List ℕ) × List (List ℕ)
read_next [] = (err [], [])
read_next (r ∷ rs) = (ok r, rs)

-- The world is the list of the responses to come.
abbrev pub replay : Network
replay = record {
  World = List (List ℕ);
  Conn = Unit {0};
  resolve = λ w. (none, w);
  dial = λ w. (ok tt, w);
  set_write_deadline = λ c w. (none, w);
  write = λ c bytes w. (none, w);
  set_read_deadline = λ c w. (none, w);
  read = λ c w. read_next w;
  close = λ c w. (none, w);
}

abbrev pub shared : Option (Unit {0}) → List (List ℕ) → Shared replay
shared conn world = record { conn = conn; tx_id = 1; world = world }

abbrev pub sevens : ℕ → List ℕ
sevens zero = []
sevens (suc n) = 7 ∷ sevens n

-- The state counts the reads.
abbrev pub steady : Transport
steady = record {
  State = ℕ;
  connect = λ s. (ok tt, s);
  close = λ s. (ok tt, s);
  read_registers = λ start_reg quantity s.
      (ok (record { block = bytes_of (sevens quantity); spare = [] }), suc s);
}

abbrev pub refusing : List ℕ → Transport
refusing message = record {
  State = ℕ;
  connect = λ s. (ok tt, s);
  close = λ s. (ok tt, s);
  read_registers = λ start_reg quantity s. (err message, suc s);
}

-- A database that counts the calls and has one row, of 300 V.
abbrev pub high : SampleRow whole
high = record { id = 5; value = some (pos 300); sampled_at = 60 }

abbrev pub counting : VoltageStore whole
counting = record {
  State = ℕ;
  get_cursor = λ s. (
    ok (record {
      last_processed_sample_id = 0;
      ongoing_l1 = none;
      ongoing_l2 = none;
      ongoing_l3 = none;
      last_run_at = 0;
    }),
    suc s,
  );
  save_cursor = λ c s. (ok tt, suc s);
  insert_event = λ sensor start low mean top s. (ok s, suc s);
  close_event = λ id end seconds s. (ok tt, suc s);
  update_event = λ id low mean top s. (ok tt, suc s);
  get_event = λ id s. (ok (some (some 0)), suc s);
  get_new_rows = λ sensor since s. (ok (high ∷ []), suc s);
}
