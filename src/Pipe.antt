-- ===== src/Pipe.antt =====
-- src/named_pipe.rs: the two fifos by which the worker talks with a component, a line for a request
-- and a line for its response. Each loop takes a bound on its rounds, `fuel`.
pub mod Ends
pub mod Lines
pub mod Sending
pub mod Receiving
pub mod Exchange
mod Tests
use v9_worker.Base.{
  ℕ, zero, suc, ◌+◌, ◌-◌, ◌^◌, Bool, true, false, ◌||◌, Option, none, some, [], ◌∷◌, ◌++◌, Text,
  codes, ltb, ◌==◌, if◌then◌else◌, length, drop,
}
use v9_worker.Time.{from_millis, as_millis}
use v9_worker.Utf8.{is_utf8}
use v9_worker.Errors.{
  DebugFormat, io, nix, integer_conversion, invalid_serialization, invalid_utf8,
  operation_timed_out, pipe_disconnected,
}
use v9_worker.Exec.{
  ok, out_of_fuel, Exec, pure, give, gets, raise, modify, zoom, Attempt, done, failed, attempt,
  ◌>>=◌, ◌>>◌,
}
use v9_worker.Env.{Env, ReadResult, bytes, again, read_error, Direction, for_reading, for_writing}

pub record NamedPipe : Type 0 where
  pub root_folder : Text
  pub component_input_fifo_path : Text
  pub component_output_fifo_path : Text
  pub component_input_fifo_file : Option ℕ
  pub component_output_fifo_file : Option ℕ

abbrev pub pipe_creation_timeout_ms : ℕ
pipe_creation_timeout_ms = 10000

abbrev pub pipe_io_timeout_ms : ℕ
pipe_io_timeout_ms = 10000

abbrev pub pipe_poll_interval_ms : ℕ
pipe_poll_interval_ms = 2

abbrev pub buf_size : ℕ
buf_size = 512

abbrev pub newline : ℕ
newline = 10

-- `v.contains(&b'\n')`
unfoldable pub has_newline : Text → Bool
has_newline [] = false
has_newline (b ∷ bs) = b == newline || has_newline bs

-- What the inner loop of `read` leaves: a line up to its newline, or the bytes so far.
pub data Scan : Type 0 where
  complete : Text → Scan
  partial : Text → Scan

-- The loop over the bytes of one `read`, with the bytes of earlier ones in `result`.
unfoldable pub scan_line : Text → Text → Scan
scan_line result [] = partial result
scan_line result (v ∷ vs) = elim (v == newline) [
  | true ↦ complete (result ++ v ∷ [])
  | false ↦ scan_line (result ++ v ∷ []) vs
]

-- `Path::join` of a directory and a name.
abbrev join : Text → Text → Text
join dir name = dir ++ codes "/" ++ name

module _ {W : Type 0} (env : Env W) (debug : DebugFormat) where
  unfoldable pub in_dir : Text → Exec W NamedPipe
  in_dir dir = do
    attempt nix (env.mkfifo (join dir (codes "IN")))
    attempt nix (env.mkfifo (join dir (codes "OUT")))
    pure (record {
      root_folder = dir;
      component_input_fifo_path = join dir (codes "IN");
      component_output_fifo_path = join dir (codes "OUT");
      component_input_fifo_file = none;
      component_output_fifo_file = none;
    })

  -- `NamedPipe::new`
  unfoldable pub new_pipe : Exec W NamedPipe
  new_pipe = do dir ← attempt io env.temp_dir; in_dir dir

  abbrev pub now : Exec W ℕ
  now w = let (t, w') = env.now w in (ok t, w')

  abbrev pub sleep : ℕ → Exec W Unit
  sleep d w = (ok tt, env.sleep d w)

  -- `Result::ok`
  abbrev pub to_option : {A : Type 0} → Attempt A → Option A
  to_option (done a) = some a
  to_option (failed message) = none

  pub try_open : Direction → Text → Exec W (Option ℕ)
  try_open direction path w =
      let (opened, w') = env.open_fifo direction path w in (ok (to_option opened), w')

  -- One of the two loops of `get_fds`: open a fifo, again and again until the deadline.
  pub open_loop : ℕ → Direction → Text → ℕ → Option ℕ → Exec W (Option ℕ)
  open_loop zero direction path deadline file = give out_of_fuel
  open_loop (suc fuel) direction path deadline (some file) = pure (some file)
  open_loop (suc fuel) direction path deadline none = do
    t ← now
    if ltb t deadline
        then (do
          opened ← try_open direction path
          sleep (from_millis pipe_poll_interval_ms)
          open_loop fuel direction path deadline opened)
        else pure none

  abbrev pub both : Option ℕ → Option ℕ → Exec (NamedPipe × W) (ℕ × ℕ)
  both (some c_in) (some c_out) = pure (c_in, c_out)
  both _ _ = raise (operation_timed_out (codes "fifo pipe opening"))

  -- On the files and the world under a pipe.
  unfoldable pub on_world : {A : Type 0} → Exec W A → Exec (NamedPipe × W) A
  on_world = zoom (λ s. s.1) (λ w s. (s.0, w))

  pub get_fds : ℕ → Exec (NamedPipe × W) (ℕ × ℕ)
  get_fds fuel = do
    p ← gets (λ s. s.0)
    start ← on_world now
    let deadline = start + from_millis pipe_creation_timeout_ms
    c_out ← on_world (
        open_loop fuel for_reading p.component_output_fifo_path deadline
          p.component_output_fifo_file)
    modify (λ s. (record (s.0) { component_output_fifo_file = c_out }, s.1))
    c_in ← on_world (
        open_loop fuel for_writing p.component_input_fifo_path deadline p.component_input_fifo_file)
    modify (λ s. (record (s.0) { component_input_fifo_file = c_in }, s.1))
    both c_in c_out

  -- `try_into` of a number of milliseconds, to the C type `int`.
  pub to_c_int : ℕ → Exec W ℕ
  to_c_int ms = if ltb ms (2 ^ 31) then pure ms else raise (integer_conversion debug.int_error)

  -- `poll` with the time that is left; a difference of instants is 0 at least.
  pub poll_until : ℕ → Direction → ℕ → Exec W Unit
  poll_until fd direction deadline = do
    t ← now
    ms ← to_c_int (as_millis (deadline - t))
    attempt nix (env.poll fd direction ms)

  -- The loop of `write`; its value is the last `write_idx`.
  pub write_loop : ℕ → ℕ → ℕ → Text → ℕ → Exec W ℕ
  write_loop zero fd deadline v write_idx = give out_of_fuel
  write_loop (suc fuel) fd deadline v write_idx =
      if ltb write_idx (length v)
      then (do
        t ← now
        if ltb t deadline
            then (do
              poll_until fd for_writing deadline
              written_bytes ← attempt nix (env.write fd (drop write_idx v))
              write_loop fuel fd deadline v (write_idx + written_bytes))
            else pure write_idx)
      else pure write_idx

  unfoldable pub write : ℕ → Text → Exec (NamedPipe × W) Unit
  write fuel v =
      if has_newline v then raise (invalid_serialization (codes "contains newline") v) else do
        fds ← get_fds fuel
        start ← on_world now
        write_idx ←
            on_world
              (write_loop fuel fds.0 (start + from_millis pipe_io_timeout_ms) (v ++ newline ∷ []) 0)
        if ltb write_idx (length (v ++ newline ∷ []))
            then raise (operation_timed_out (codes "pipe writing"))
            else pure tt

  pub read_some : ℕ → Exec W ReadResult
  read_some fd w = let (r, w') = env.read fd buf_size w in (ok r, w')

  pub scanned : (Text → Exec W Text) → Scan → Exec W Text
  scanned rest (complete line) = pure line
  scanned rest (partial result') = rest result'

  -- What a round of `read` does with the result of its `read`, where `rest` is the next round.
  pub received : (Text → Exec W Text) → Text → ReadResult → Exec W Text
  received rest result again = do sleep (from_millis pipe_poll_interval_ms); rest result
  received rest result (read_error message) = raise (nix message)
  received rest result (bytes []) = raise pipe_disconnected
  received rest result (bytes (b ∷ bs)) = scanned rest (scan_line result (b ∷ bs))

  -- The loop of `read`.
  pub read_loop : ℕ → ℕ → ℕ → Text → Exec W Text
  read_loop zero fd deadline result = give out_of_fuel
  read_loop (suc fuel) fd deadline result = do
    poll_until fd for_reading deadline
    t ← now
    if ltb deadline t
        then raise (operation_timed_out (codes "pipe reading"))
        else do r ← read_some fd; received (read_loop fuel fd deadline) result r

  unfoldable pub read : ℕ → Exec (NamedPipe × W) Text
  read fuel = do
    fds ← get_fds fuel
    start ← on_world now
    on_world (read_loop fuel fds.1 (start + from_millis pipe_io_timeout_ms) [])

  -- `String::from_utf8`
  unfoldable pub from_utf8 : {S : Type 0} → Text → Exec S Text
  from_utf8 v = if is_utf8 v then pure v else raise (invalid_utf8 (debug.utf8_error v))

  unfoldable pub query : ℕ → Text → Exec (NamedPipe × W) Text
  query fuel req = do write fuel req; read_bytes ← read fuel; from_utf8 read_bytes
