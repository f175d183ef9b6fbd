-- ===== src/Runs/Rows.antt =====
-- A database on which no statement fails: rows are ordered by insertion.
use go_goodwe.Base.{
  ℕ, ◌≤◌, leb, leb→le, Bool, true, false, Bool-cases, if◌then◌else◌, List, [], ◌∷◌, String, none,
  some, length, All, All-if, inl, inr, ◌≡◌, refl, arith,
}
use go_goodwe.Base.Int.{ℤ, pos}
use go_goodwe.Base.Text.{decimal}
use go_goodwe.Db.Tables.{StoredSample, Tables, Engine, keep}
use go_goodwe.Db.Samples.Newest.{IsDescending, IsNewestFirst}
use go_goodwe.Runs.Setup.{whole}

abbrev insert_newest : StoredSample whole → List (StoredSample whole) → List (StoredSample whole)
insert_newest new [] = new ∷ []
insert_newest new (row ∷ rows) =
    if leb row.sample.sampled_at new.sample.sampled_at
    then new ∷ row ∷ rows
    else row ∷ insert_newest new rows

abbrev newest_first : List (StoredSample whole) → List (StoredSample whole)
newest_first [] = []
newest_first (row ∷ rows) = insert_newest row (newest_first rows)

abbrev head_of : ℤ → List ℤ → ℤ
head_of d [] = d
head_of d (x ∷ xs) = x

abbrev pub sqlite : Engine whole
sqlite = record {
  fault = λ n. none;
  cancelled = λ n. none;
  newest_first = newest_first;
  average = head_of (pos 0);
  rfc3339 = decimal;
}

insert_newest-All :
    (P : StoredSample whole → Type 0) (new : StoredSample whole) (rows : List (StoredSample whole))
    → P new
    → All P rows
    → All P (insert_newest new rows)
insert_newest-All P new [] h hs = (h, tt)
insert_newest-All P new (row ∷ rows) h (r, rs) =
    All-if P (leb row.sample.sampled_at new.sample.sampled_at) (new ∷ row ∷ rows)
      (row ∷ insert_newest new rows) (h, (r, rs)) (r, insert_newest-All P new rows h rs)

lower_all :
    (m n : ℕ) (rows : List (StoredSample whole))
    → m ≤ n
    → All (λ r. r.sample.sampled_at ≤ m) rows
    → All (λ r. r.sample.sampled_at ≤ n) rows
lower_all m n [] h hs = tt
lower_all m n (row ∷ rows) h (r, rs) = (omega arith, lower_all m n rows h rs)

insert_newest-Descending :
    (new : StoredSample whole) (rows : List (StoredSample whole))
    → IsDescending rows
    → IsDescending (insert_newest new rows)
insert_newest-Descending new [] down = (tt, tt)
insert_newest-Descending new (row ∷ rows) (older, down) =
    by_test (leb row.sample.sampled_at new.sample.sampled_at) refl
      (insert_newest-Descending new rows down)
  where
    by_test :
        (b : Bool)
        → leb row.sample.sampled_at new.sample.sampled_at ≡ b
        → IsDescending (insert_newest new rows)
        → IsDescending (if b then new ∷ row ∷ rows else row ∷ insert_newest new rows)
    by_test true later rest = (
      (
        leb→le row.sample.sampled_at new.sample.sampled_at later,
        lower_all row.sample.sampled_at new.sample.sampled_at rows
            (leb→le row.sample.sampled_at new.sample.sampled_at later) older,
      ),
      (older, down),
    )
    by_test false earlier rest = (
      insert_newest-All (λ r. r.sample.sampled_at ≤ row.sample.sampled_at) new rows
          (ground (arith, earlier)) older,
      rest,
    )

newest_first-Descending : (rows : List (StoredSample whole)) → IsDescending (newest_first rows)
newest_first-Descending [] = tt
newest_first-Descending (row ∷ rows) =
    insert_newest-Descending row (newest_first rows) (newest_first-Descending rows)

keep-insert_newest :
    (p : StoredSample whole → Bool) (new : StoredSample whole) (rows : List (StoredSample whole))
    → length (keep p (insert_newest new rows)) ≡ length (keep p (new ∷ rows))
keep-insert_newest p new [] = refl
keep-insert_newest p new (row ∷ rows) =
    elim (Bool-cases (leb row.sample.sampled_at new.sample.sampled_at)) [
      | inl later ↦ ground (arith, later)
      | inr earlier ↦ ground (arith, earlier, keep-insert_newest p new rows)
    ]

keep-newest_first :
    (p : StoredSample whole → Bool) (rows : List (StoredSample whole))
    → length (keep p (newest_first rows)) ≡ length (keep p rows)
keep-newest_first p [] = refl
keep-newest_first p (row ∷ rows) =
    ground (arith, keep-insert_newest p row (newest_first rows), keep-newest_first p rows)

pub sqlite-IsNewestFirst : IsNewestFirst sqlite
sqlite-IsNewestFirst = record {
  descending = newest_first-Descending;
  same_rows = keep-newest_first;
}

abbrev stored : ℕ → String → ℕ → ℕ → StoredSample whole
stored id name volts at = record {
  id = id;
  sensor_name = name;
  sample = record { value = some (pos volts); value_text = none; unit = "V"; sampled_at = at };
}

-- Two readings of the first phase, the second in the second hour, and one of the second phase.
abbrev pub tables : Tables whole
tables = record {
  identities = [];
  samples =
      stored 1 "meter_voltage1" 300 20
      ∷ stored 2 "meter_voltage2" 230 25
      ∷ stored 3 "meter_voltage1" 310 3_600_000_000_040
      ∷ [];
  last_sample_id = 3;
  hourly = [];
  daily = [];
  cursor = record {
    last_processed_sample_id = 0;
    ongoing_l1 = none;
    ongoing_l2 = none;
    ongoing_l3 = none;
    last_run_at = 0;
  };
  events = [];
  last_event_id = 0;
  executed = 0;
}
