-- ===== src/Db/Buckets.antt =====
-- The rows of the two aggregate tables, by their keys and in the order of `ORDER BY bucket_start`.
use go_goodwe.Base.{
  leb, ◌==◌, ◌&&◌, Bool, if◌then◌else◌, List, [], ◌∷◌, All, All-if, length, suc, Bool-cases, inl,
  inr, ◌≡◌, refl, arith,
}
use text.Mathlib.Text.{◌==◌ as str_eq}
use go_goodwe.Et.Value.{Float64}
use go_goodwe.Db.Tables.{AggregatedSample}

module _ {fl : Float64} where
  abbrev pub insert_by_bucket :
      AggregatedSample fl → List (AggregatedSample fl) → List (AggregatedSample fl)
  insert_by_bucket new [] = new ∷ []
  insert_by_bucket new (row ∷ rows) =
      if leb new.bucket_start row.bucket_start
      then new ∷ row ∷ rows
      else row ∷ insert_by_bucket new rows

  abbrev pub by_bucket : List (AggregatedSample fl) → List (AggregatedSample fl)
  by_bucket [] = []
  by_bucket (row ∷ rows) = insert_by_bucket row (by_bucket rows)

  -- The primary key (sensor_name, bucket_start).
  abbrev pub same_key : AggregatedSample fl → AggregatedSample fl → Bool
  same_key a b = str_eq a.sensor_name b.sensor_name && a.bucket_start == b.bucket_start

  length-insert_by_bucket :
      (new : AggregatedSample fl) (rows : List (AggregatedSample fl))
      → length (insert_by_bucket new rows) ≡ suc (length rows)
  length-insert_by_bucket new [] = refl
  length-insert_by_bucket new (row ∷ rows) =
      elim (Bool-cases (leb new.bucket_start row.bucket_start)) [
        | inl before ↦ ground (arith, before)
        | inr behind ↦ ground (arith, behind, length-insert_by_bucket new rows)
      ]

  pub length-by_bucket : (rows : List (AggregatedSample fl)) → length (by_bucket rows) ≡ length rows
  length-by_bucket [] = refl
  length-by_bucket (row ∷ rows) =
      omega (arith, length-insert_by_bucket row (by_bucket rows), length-by_bucket rows)

  module _ (P : AggregatedSample fl → Type 0) where
    insert_by_bucket-All :
        (new : AggregatedSample fl) (rows : List (AggregatedSample fl))
        → P new
        → All P rows
        → All P (insert_by_bucket new rows)
    insert_by_bucket-All new [] h hs = (h, tt)
    insert_by_bucket-All new (row ∷ rows) h (first, rest) =
        All-if P (leb new.bucket_start row.bucket_start) (new ∷ row ∷ rows)
          (row ∷ insert_by_bucket new rows) (h, (first, rest))
          (first, insert_by_bucket-All new rows h rest)

    pub by_bucket-All : (rows : List (AggregatedSample fl)) → All P rows → All P (by_bucket rows)
    by_bucket-All [] h = tt
    by_bucket-All (row ∷ rows) (h, hs) =
        insert_by_bucket-All row (by_bucket rows) h (by_bucket-All rows hs)
