-- ===== src/Time.antt =====
-- `std::time`: an `Instant` and a `Duration` are numbers of nanoseconds.
use v9_worker.Base.{ℕ, ◌*◌, ◌/◌}

abbrev pub from_secs : ℕ → ℕ
from_secs n = n * 1_000_000_000

abbrev pub from_millis : ℕ → ℕ
from_millis n = n * 1_000_000

abbrev pub as_millis : ℕ → ℕ
as_millis d = d / 1_000_000
