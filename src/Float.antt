-- ===== src/Float.antt =====
-- The floating point numbers of the status figures: `f64` with the operations that the program
-- uses, a parameter of every definition that computes with them.
use v9_worker.Base.{ℕ}

pub record F64 (F : Type 0) : Type 0 where
  -- `f64::from` of a u32, and `as f64` of a usize or a u64
  pub from_ℕ : ℕ → F
  -- `Duration::as_secs_f64`, of a duration in nanoseconds
  pub from_nanos : ℕ → F
  pub minus_one : F
  pub add : F → F → F
  pub sub : F → F → F
  pub div : F → F → F
