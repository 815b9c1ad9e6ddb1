-- ===== src/Env.antt =====
-- What the worker asks of the operating system and of other crates, as one record of operations on
-- a world W, of which nothing is known. A file, a file descriptor and a process are opaque numbers.
use v9_worker.Base.{ℕ, ◌+◌, ◌≤◌, ◌<◌, ◌≡◌, Bool, Option, List, ◌++◌, Text, length, take}
use v9_worker.Exec.{Attempt, done}

-- `subprocess::Redirection`
pub data Redirection : Type 0 where
  pipe : Redirection
  file : ℕ → Redirection

-- `subprocess::PopenConfig`, with the fields that are set.
pub record PopenConfig : Type 0 where
  pub detached : Bool
  pub stdout : Redirection
  pub stderr : Redirection

-- `subprocess::CaptureData`
pub record Capture : Type 0 where
  pub exit_status : ℕ
  pub stdout : Text
  pub stderr : Text

-- `nix::unistd::read`: bytes, the error EAGAIN, or another error.
pub data ReadResult : Type 0 where
  bytes : Text → ReadResult
  again : ReadResult
  read_error : (message : Text) → ReadResult

pub data Direction : Type 0 where
  for_reading for_writing : Direction

pub record Env (W : Type 0) : Type 0 where
  -- `Instant::now`, and `thread::sleep` of a duration
  pub now : W → ℕ × W
  pub sleep : ℕ → W → W
  -- `TempDir::new`, its path; `NamedTempFile::new`
  pub temp_dir : W → Attempt Text × W
  pub temp_file : W → Attempt ℕ × W
  -- `sync_all`, `read_to_string` of the file's path, `try_clone`
  pub sync_all : ℕ → W → Attempt Unit × W
  pub read_to_string : ℕ → W → Attempt Text × W
  pub try_clone : ℕ → W → Attempt ℕ × W
  pub remove_file : Text → W → Attempt Unit × W
  -- `Path::canonicalize`, and `into_string` of an OS string, which is `none` if it is not UTF-8
  pub canonicalize : Text → W → Attempt Text × W
  pub is_unicode : Text → Bool
  -- `mkfifo`, and a file opened without blocking
  pub mkfifo : Text → W → Attempt Unit × W
  pub open_fifo : Direction → Text → W → Attempt ℕ × W
  -- `poll` on one descriptor with a timeout in milliseconds; `read` and `write`
  pub poll : ℕ → Direction → ℕ → W → Attempt Unit × W
  pub write : ℕ → Text → W → Attempt ℕ × W
  pub read : ℕ → ℕ → W → ReadResult × W
  -- `Popen::create`, `poll`, `terminate`, `detach`, `Exec::capture`
  pub spawn : List Text → PopenConfig → W → Attempt ℕ × W
  pub exit_status : ℕ → W → Option ℕ × W
  pub terminate : ℕ → W → Attempt Unit × W
  pub detach : ℕ → W → W
  pub capture : List Text → W → Attempt Capture × W
  pub success : ℕ → Bool
  -- `rand::random`, and whether a `try_lock` succeeds
  pub random_u64 : W → ℕ × W
  pub try_lock : W → Bool × W

-- The bytes that were written to, and read from, each descriptor since the start.
pub record Traffic : Type 0 where
  pub sent : ℕ → Text
  pub received : ℕ → Text

-- What POSIX and the standard library promise of the calls on pipes: the clock does not go back, a
-- sleep lasts as long as it should at least, and `read` and `write` alone move bytes.
pub record PipeLaws {W : Type 0} (env : Env W) : Type 0 where
  -- the time that the next reading of the clock is at least
  pub clock : W → ℕ
  pub traffic : W → Traffic
  pub now_law :
      (w : W)
      → (clock w ≤ (env.now w).0)
        × ((env.now w).0 ≤ clock (env.now w).1)
        × (traffic (env.now w).1 ≡ traffic w)
  pub sleep_law :
      (d : ℕ) (w : W)
      → (clock w + d ≤ clock (env.sleep d w)) × (traffic (env.sleep d w) ≡ traffic w)
  pub open_law :
      (d : Direction) (p : Text) (w : W)
      → (clock w ≤ clock (env.open_fifo d p w).1) × (traffic (env.open_fifo d p w).1 ≡ traffic w)
  pub poll_law :
      (fd : ℕ) (d : Direction) (ms : ℕ) (w : W)
      → (clock w ≤ clock (env.poll fd d ms w).1) × (traffic (env.poll fd d ms w).1 ≡ traffic w)
  -- `write` takes the first n bytes that it is given, one at least if there is any, or fails
  pub write_time : (fd : ℕ) (v : Text) (w : W) → clock w ≤ clock (env.write fd v w).1
  pub write_some :
      (fd : ℕ) (v : Text) (w : W) (n : ℕ) → (env.write fd v w).0 ≡ done n → 0 < length v → 0 < n
  pub write_law :
      (fd : ℕ) (v : Text) (w : W) (n : ℕ)
      → (env.write fd v w).0 ≡ done n
      → (n ≤ length v)
        × ((traffic (env.write fd v w).1).sent fd ≡ (traffic w).sent fd ++ take n v)
        × ((traffic (env.write fd v w).1).received ≡ (traffic w).received)
  pub read_time : (fd n : ℕ) (w : W) → clock w ≤ clock (env.read fd n w).1
  pub read_law :
      (fd n : ℕ) (w : W) (v : Text)
      → (env.read fd n w).0 ≡ bytes v
      → ((traffic (env.read fd n w).1).received fd ≡ (traffic w).received fd ++ v)
        × ((traffic (env.read fd n w).1).sent ≡ (traffic w).sent)
  pub again_law :
      (fd n : ℕ) (w : W) → (env.read fd n w).0 ≡ again → traffic (env.read fd n w).1 ≡ traffic w
