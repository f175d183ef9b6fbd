-- ===== src/Runs/Summaries.antt =====
-- Runs of the two aggregations on rows.
use go_goodwe.Base.{
  ℕ, ◌+◌, ◌*◌, ◌<◌, ◌≤◌, List, [], ◌∷◌, map, String, some, inl, length, ◌⊎◌, ◌≡◌, refl, arith,
}
use go_goodwe.Base.Int.{ℤ, pos}
use go_goodwe.Base.Picks.{Picks}
use go_goodwe.Base.Result.{ok}
use go_goodwe.Db.Tables.{AggregatedSample, Tables}
use go_goodwe.Db.Aggregate.{aggregate_hourly, aggregate_daily}
use go_goodwe.Db.Aggregate.Rows.{row_at}
use go_goodwe.Db.Aggregate.Summary.{IsOrdered}
use go_goodwe.Db.Aggregate.Taken.{IsReading, IsHourOfDay}
use go_goodwe.Db.Aggregate.Summarised.{
  Becomes, total, aggregate_hourly_summarises, aggregate_daily_summarises,
}
use go_goodwe.Runs.Setup.{whole}
use go_goodwe.Runs.Rows.{sqlite, tables}

-- The voltages are not negative.
abbrev IsVoltage : ℤ → Type 0
IsVoltage v = (n : ℕ) × (v ≡ pos n)

voltages-IsOrdered : IsOrdered whole IsVoltage
voltages-IsOrdered = record {
  asymmetric = λ a b (n, e) (m, f) less. ground (arith, e, f, less);
  not_less_trans =
      λ a b c (n, e) (m, f) (k, g) first second. ground (arith, e, f, g, first, second);
}

read : (n : ℕ) (v : ℤ) → some (pos n) ≡ some v → IsVoltage v
read n v e = (n, cc)

aggregate_hourly_summarises_example :
    (n : ℕ) × (u : Tables whole) × (aggregate_hourly sqlite 0 10_800_000_000_000 tables ≡ (ok n, u))
    × ((name : String) (i b : ℕ)
        → b ≡ 3_600_000_000_000 + i * 3_600_000_000_000
        → b + 3_600_000_000_000 ≤ 10_800_000_000_000
        → (vs : List ℤ) × Picks (IsReading name b) tables.samples vs
          × Becomes sqlite
              (λ n. refl)
              (λ n. refl)
              IsVoltage
              voltages-IsOrdered
              name
              b
              vs
              vs
              vs
              (length vs)
              (row_at name b tables.hourly)
              (row_at name b u.hourly))
    × ((name : String) (b : ℕ)
        → (b < 3_600_000_000_000) ⊎ (10_800_000_000_000 ≤ b)
        → row_at name b u.hourly ≡ row_at name b tables.hourly)
aggregate_hourly_summarises_example =
    aggregate_hourly_summarises sqlite (λ n. refl) (λ n. refl) IsVoltage voltages-IsOrdered 0
      10_800_000_000_000 20 0 tables (read 300, (read 230, (read 310, tt)))
      ((0, refl), (omega arith, (omega arith, (omega arith, tt)))) (inl (refl, refl))

abbrev with_hours : Tables whole
with_hours = record tables {
  hourly =
      record {
        sensor_name = "meter_voltage1";
        bucket_start = 90_000_000_000_000;
        value_min = pos 300;
        value_max = pos 310;
        value_avg = pos 305;
        sample_count = 2;
      }
      ∷ [];
}

aggregate_daily_summarises_example :
    (n : ℕ) × (u : Tables whole) × (aggregate_daily sqlite 0 259_200_000_000_000 with_hours
      ≡ (ok n, u))
    × ((name : String) (i b : ℕ)
        → b ≡ 86_400_000_000_000 + i * 86_400_000_000_000
        → b + 86_400_000_000_000 ≤ 259_200_000_000_000
        → (rows : List (AggregatedSample whole)) × Picks (IsHourOfDay name b) with_hours.hourly rows
          × Becomes sqlite
              (λ n. refl)
              (λ n. refl)
              IsVoltage
              voltages-IsOrdered
              name
              b
              (map (λ row. row.value_min) rows)
              (map (λ row. row.value_max) rows)
              (map (λ row. row.value_avg) rows)
              (total (map (λ row. row.sample_count) rows))
              (row_at name b with_hours.daily)
              (row_at name b u.daily))
    × ((name : String) (b : ℕ)
        → (b < 86_400_000_000_000) ⊎ (259_200_000_000_000 ≤ b)
        → row_at name b u.daily ≡ row_at name b with_hours.daily)
aggregate_daily_summarises_example =
    aggregate_daily_summarises sqlite (λ n. refl) (λ n. refl) IsVoltage voltages-IsOrdered 0
      259_200_000_000_000 90_000_000_000_000 0 with_hours (((300, refl), (310, refl)), tt)
      ((0, refl), (omega arith, tt)) (inl (refl, refl))
