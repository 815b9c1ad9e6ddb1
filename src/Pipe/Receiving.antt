-- ===== src/Pipe/Receiving.antt =====
-- `read` of src/named_pipe.rs, with its loop over the results of the system call.
use v9_worker.Base.{
  ℕ, zero, suc, ◌+◌, ◌-◌, ◌≤◌, ◌<◌, ◌≡◌, refl, sym, ap, ◌∙◌, false, some, [], ◌∷◌, ◌++◌, append-nil,
  append_assoc, arith, ltb, Text,
}
use native.Mathlib.Nat.{le_refl}
use v9_worker.Pipe.{read_some, buf_size, pipe_poll_interval_ms, pipe_io_timeout_ms}
use v9_worker.Time.{from_millis}
use v9_worker.Errors.{DebugFormat}
use v9_worker.Exec.{ok, Exec}
use v9_worker.Base.{subst, length, length-append}
use v9_worker.Env.{for_writing}
use v9_worker.Pipe.Ends.{Opened}
use v9_worker.Pipe.{pipe_creation_timeout_ms}
use v9_worker.Exec.Runs.{
  Stop, panicked, exhausted, RunsTo, Runs-run, Runs-weaken, Runs-pure, Runs-raise, Runs-if,
  Runs-bind,
}
use v9_worker.Env.{Env, PipeLaws, Traffic, for_reading, ReadResult, again, bytes, read_error}
use v9_worker.Pipe.Ends.{now-Runs, sleep-Runs, poll_until-Runs, on_world-Runs, get_fds-Runs}
use v9_worker.Pipe.{
  buf_size, DebugFormat, Env, NamedPipe, has_newline, read_loop, read, received, scanned, Scan,
  complete, partial,
}
use v9_worker.Pipe.Lines.{IsLine, Scans, scan_line-Scans}

module _ {W : Type 0} (env : Env W) (debug : DebugFormat) (laws : PipeLaws env) where
  open laws use {clock, traffic}

  -- The bytes taken from `fd` after `base` are `result`, which holds no newline yet.
  abbrev Unfinished : ℕ → Text → Text → W → Type 0
  Unfinished fd base result w =
      (has_newline result ≡ false) × ((traffic w).received fd ≡ base ++ result)

  -- The bytes taken from `fd` after `base` begin with the line.
  abbrev pub Finished : ℕ → Text → Text → W → Type 0
  Finished fd base line w =
      IsLine line × (extra : Text) × ((traffic w).received fd ≡ base ++ (line ++ extra))

  module _ (fd : ℕ) (base : Text) (rest : Text → Exec W Text) (sent : ℕ → Text) where
    abbrev Goal : Text → W → Type 0
    Goal line w = Finished fd base line w × ((traffic w).sent ≡ sent)

    -- Since the time t, with so many bytes taken, time has passed or more bytes were taken.
    abbrev Later : ℕ → ℕ → W → Type 0
    Later t taken w =
        (t ≤ clock w)
        × (taken ≤ length ((traffic w).received fd))
        × (t + taken < clock w + length ((traffic w).received fd))

    scanned-Runs :
        {X : Stop → W → Type 0} (result taken : Text) (w : W) (r : Scan)
        → Scans result taken r
        → (traffic w).received fd ≡ base ++ (result ++ taken)
        → (traffic w).sent ≡ sent
        → ((result' : Text) → Unfinished fd base result' w → RunsTo X (rest result') w Goal)
        → RunsTo X (scanned env debug rest r) w Goal
    unfolding scanned
    scanned-Runs result taken w (complete line) (is_line, extra, e) h g k =
        Runs-pure _ _ _ ((is_line, extra, h ∙ ap (λ t. base ++ t) e), g)
    scanned-Runs result taken w (partial result') (e, none_yet) h g k =
        k result' (none_yet, h ∙ ap (λ t. base ++ t) (sym e))

    received-Runs :
        {X : Stop → W → Type 0} (t : ℕ) (result : Text) (w : W) (r : ReadResult)
        → (env.read fd buf_size w).0 ≡ r
        → t ≤ clock w
        → Unfinished fd base result w
        → (traffic w).sent ≡ sent
        → ((result' : Text) (w' : W)
            → Later t (length ((traffic w).received fd)) w'
            → Unfinished fd base result' w'
            → (traffic w').sent ≡ sent
            → RunsTo X (rest result') w' Goal)
        → RunsTo X (received env debug rest result r) (env.read fd buf_size w).1 Goal
    unfolding received
    received-Runs t result w again e h u g k =
        let l = laws.again_law fd buf_size w e in
        let later = laws.read_time fd buf_size w in
        Runs-bind _ _ _ _ _
          (sleep-Runs env debug laws (from_millis pipe_poll_interval_ms) t _ (omega arith))
          λ _ w2 q.
            let same = ap (λ (x : Traffic). length (x.received fd)) (q.1 ∙ l) in
            k result w2 (omega (arith, q.0), omega (arith, same), omega (arith, q.0, same))
              (u.0, ap (λ (x : Traffic). x.received fd) (q.1 ∙ l) ∙ u.1)
              (ap (λ (x : Traffic). x.sent) (q.1 ∙ l) ∙ g)
    received-Runs t result w (read_error message) e h u g k = Runs-raise _ _ _
    received-Runs t result w (bytes []) e h u g k = Runs-raise _ _ _
    received-Runs t result w (bytes (b ∷ bs)) e h u g k =
        let l = laws.read_law fd buf_size w (b ∷ bs) e in
        let later = laws.read_time fd buf_size w in
        let more = ap length l.0 ∙ length-append ((traffic w).received fd) (b ∷ bs) in
        scanned-Runs result (b ∷ bs) _ _ (scan_line-Scans result (b ∷ bs) u.0)
          (l.0 ∙ ap (λ s. s ++ b ∷ bs) u.1 ∙ append_assoc base result (b ∷ bs)) (l.1 ∙ g)
          (λ result' u'.
            k result' _ (omega arith, omega (arith, more), omega (arith, more)) u' (l.1 ∙ g))

  read_some_lem :
      (fd : ℕ) (w : W)
      → read_some env debug fd w ≡ (ok (env.read fd buf_size w).0, (env.read fd buf_size w).1)
  unfolding read_some
  read_some_lem fd w = refl

  -- The potential of the loop: its rounds, and the bytes taken, cover what is left until the deadline.
  read_loop-Runs :
      {X : Stop → W → Type 0} (fuel total spare fd deadline : ℕ) (base result : Text) (w : W)
      → ((w' : W) → total ≤ length ((traffic w').received fd) + spare → X exhausted w')
      → total + (deadline + 1 - clock w) ≤ fuel + (length ((traffic w).received fd) + spare)
      → Unfinished fd base result w
      → RunsTo X
          (read_loop env debug fuel fd deadline result)
          w
          (λ line w'. Finished fd base line w' × ((traffic w').sent ≡ (traffic w).sent))
  unfolding read_loop
  read_loop-Runs zero total spare fd deadline base result w given h u = record {
    ends = given w (omega (arith, h));
    post = λ a e. cc;
  }
  read_loop-Runs (suc fuel) total spare fd deadline base result w given h u =
      Runs-bind _ _ _ _ _
        (poll_until-Runs env debug laws fd for_reading deadline (clock w) w (le_refl _))
        λ _ w1 q. Runs-bind _ _ _ _ _ (now-Runs env debug laws w1) λ t w2 r.
          Runs-if (ltb deadline t) _ _ _ _ (λ _. Runs-raise _ _ _)
            λ (early : ltb deadline t ≡ false).
              let same = ap (λ (x : Traffic). length (x.received fd)) (r.1.1 ∙ q.1) in
              Runs-run _ _ _ _ (env.read fd buf_size w2).0 (env.read fd buf_size w2).1
                (read_some_lem fd w2)
                (received-Runs fd base (read_loop env debug fuel fd deadline) (traffic w).sent t
                  result w2 (env.read fd buf_size w2).0 refl r.1.0
                  (u.0, ap (λ (x : Traffic). x.received fd) (r.1.1 ∙ q.1) ∙ u.1)
                  (ap (λ (x : Traffic). x.sent) (r.1.1 ∙ q.1))
                  λ result' w3 later u' g.
                    Runs-weaken _ _ _ _ (λ line w4 v. (v.0, v.1 ∙ g))
                      (read_loop-Runs fuel total spare fd deadline base result' w3 given
                        (omega
                          (arith, h, q.0, r.0, same, later.0, later.1, later.2, not_past t early))
                        u'))
    where
      not_past : (t : ℕ) → ltb deadline t ≡ false → t ≤ deadline
      not_past t e = ground arith

  -- Where `read` may run out of rounds: at no less than as many bytes from the fifo OUT as rounds,
  -- beside the nanoseconds to the deadline.
  abbrev pub Drained : ℕ → W → Stop → NamedPipe × W → Type 0
  Drained fuel w panicked s = ⊥
  Drained fuel w exhausted s =
      (fd : ℕ) × (s.0.component_output_fifo_file ≡ some fd)
      × (fuel + length ((traffic w).received fd)
          ≤ length ((traffic s.1).received fd) + (from_millis pipe_io_timeout_ms + 1))

  -- `read` does not panic, and runs out of rounds only if it takes as many bytes. If it returns, it
  -- returns a text with one newline, at its end, and the bytes that it took from the fifo begin with
  -- that text; it drops the rest of them, and writes nothing. It keeps the fifos that are open.
  pub read-Runs :
      (fuel : ℕ) (p : NamedPipe) (w : W)
      → from_millis pipe_creation_timeout_ms < fuel
      → RunsTo
          (Drained fuel w)
          (read env debug fuel)
          (p, w)
          (λ line s.
            (fd : ℕ) × (s.0.component_output_fifo_file ≡ some fd)
            × Opened env debug laws for_writing p.component_input_fifo_path
                p.component_input_fifo_file s.0.component_input_fifo_file
            × Opened env debug laws for_reading p.component_output_fifo_path
                p.component_output_fifo_file s.0.component_output_fifo_file
            × Finished fd ((traffic w).received fd) line s.1
            × ((traffic s.1).sent ≡ (traffic w).sent))
  unfolding read has_newline
  read-Runs fuel p w h = Runs-bind _ _ _ _ _ (get_fds-Runs env debug laws fuel p w h) λ fds s1 q.
      Runs-bind _ _ _ _ _ (on_world-Runs env debug laws _ s1 _ (now-Runs env debug laws s1.1))
        λ start s2 r.
          let was = r.1.1.1 ∙ q.4 in
          let out = ap (λ (x : NamedPipe). x.component_output_fifo_file) r.0 ∙ q.1 in
          Runs-weaken _ _ _ _
            (λ line s3 u. (
              fds.1,
              ap (λ (x : NamedPipe). x.component_output_fifo_file) (u.0 ∙ r.0) ∙ q.1,
              subst
                  (λ (x : NamedPipe).
                    Opened env debug laws for_writing p.component_input_fifo_path
                      p.component_input_fifo_file x.component_input_fifo_file)
                  (sym (u.0 ∙ r.0)) q.2,
              subst
                  (λ (x : NamedPipe).
                    Opened env debug laws for_reading p.component_output_fifo_path
                      p.component_output_fifo_file x.component_output_fifo_file)
                  (sym (u.0 ∙ r.0)) q.3,
              u.1.0,
              u.1.1 ∙ ap (λ (x : Traffic). x.sent) was,
            ))
            (on_world-Runs env debug laws _ s2 _ (
              read_loop-Runs fuel (fuel + length ((traffic w).received fds.1))
                (from_millis pipe_io_timeout_ms + 1) fds.1 (start + from_millis pipe_io_timeout_ms)
                ((traffic w).received fds.1) [] s2.1 (λ w' e. (fds.1, out, e))
                (omega (arith, r.1.1.0, ap (λ (x : Traffic). length (x.received fds.1)) was))
                (refl, ap (λ (x : Traffic). x.received fds.1) was ∙ sym (append-nil _))))
