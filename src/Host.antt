-- ===== src/Host.antt =====
-- What the worker runs on, in one record: the calls of the operating system and of other crates,
-- the platform that it was compiled for, and the bound on the rounds of a loop.
use v9_worker.Base.{ℕ, Bool}
use v9_worker.Errors.{DebugFormat}
use v9_worker.Env.{Env}
use v9_worker.Docker.{Patterns}

pub record Host (W : Type 0) : Type 0 where
  pub env : Env W
  pub debug : DebugFormat
  pub patterns : Patterns
  -- `cfg!(target_os = "linux")`
  pub is_linux : Bool
  pub fuel : ℕ
