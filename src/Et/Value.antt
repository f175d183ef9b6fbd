-- ===== src/Et/Value.antt =====
-- Sensor values. Go's float64 is a parameter of the model.
use go_goodwe.Base.{ℕ, Bool}
use go_goodwe.Base.Int.{ℤ}
use go_goodwe.Base.Text.{Text}

-- The float64 operations that the readers use: conversion of an integer, the literal
-- `m` * 10 ^ -`k`, product, quotient, and the float32 that a bit pattern stands for; and what the
-- voltage analysis and the API compute with them.
pub record Float64 : Type 1 where
  pub F : Type 0
  pub of_ℤ : ℤ → F
  pub literal : ℕ → ℕ → F
  pub mul : F → F → F
  pub div : F → F → F
  pub of_bits32 : ℕ → F
  -- sum, difference, and the test `<`
  pub add : F → F → F
  pub sub : F → F → F
  pub lt : F → F → Bool

-- The arguments that timestampReader passes to time.Date.
pub record DateArgs : Type 0 where
  pub year : ℕ
  pub month : ℕ
  pub day : ℕ
  pub hour : ℕ
  pub minute : ℕ
  pub second : ℕ

-- The dynamic types that `SensorValue.Value` takes.
pub data Value (fl : Float64) : Type 0 where
  float64 : fl.F → Value fl
  string : Text → Value fl
  zero_time : Value fl
  date : DateArgs → Value fl
