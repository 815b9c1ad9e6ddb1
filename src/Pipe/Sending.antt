-- ===== src/Pipe/Sending.antt =====
-- `write` of src/named_pipe.rs, with its loop over short writes.
use v9_worker.Base.{
  ℕ, zero, suc, ◌+◌, ◌≤◌, ◌<◌, ◌≡◌, refl, sym, ap, ◌∙◌, true, false, some, [], ◌∷◌, ◌++◌,
  append-nil, append_assoc, arith, ltb, ltb→lt, Text, length, take, drop,
}
use v9_worker.Base.{take-add, take_all}
use v9_worker.Time.{from_millis}
use v9_worker.Errors.{DebugFormat}
use v9_worker.Exec.{done}
use v9_worker.Base.{subst, length-append}
use v9_worker.Env.{for_reading}
use v9_worker.Pipe.Ends.{Opened}
use v9_worker.Pipe.{pipe_creation_timeout_ms}
use v9_worker.Exec.Runs.{
  Stop, RunsTo, Runs-weaken, Runs-pure, Runs-raise, Runs-if, Runs-attempt, Runs-bind,
}
use v9_worker.Env.{Env, PipeLaws, Traffic, for_writing}
use v9_worker.Pipe.Ends.{now-Runs, poll_until-Runs, on_world-Runs, get_fds-Runs}
use v9_worker.Base.{length-drop}
use v9_worker.Pipe.{
  pipe_io_timeout_ms, DebugFormat, Env, NamedPipe, newline, has_newline, write_loop, write,
}

module _ {W : Type 0} (env : Env W) (debug : DebugFormat) (laws : PipeLaws env) where
  open laws use {clock, traffic}

  -- The fifo `fd` has taken the first i bytes of `v` after `base`.
  abbrev Taken : ℕ → Text → Text → ℕ → W → Type 0
  Taken fd base v i w = (i ≤ length v) × ((traffic w).sent fd ≡ base ++ take i v)

  Taken-more :
      (fd : ℕ) (base v : Text) (i n : ℕ) (w : W)
      → Taken fd base v i w
      → (env.write fd (drop i v) w).0 ≡ done n
      → Taken fd base v (i + n) (env.write fd (drop i v) w).1
  Taken-more fd base v i n w h e =
      let l = laws.write_law fd (drop i v) w n e in
      (
        omega (arith, l.0, length-drop i v, h.0),
        l.1
            ∙ ap (λ t. t ++ take n (drop i v)) h.1
            ∙ append_assoc base (take i v) (take n (drop i v))
            ∙ ap (λ t. base ++ t) (sym (take-add i n v)),
      )

  write_loop-Runs :
      {X : Stop → W → Type 0} (fuel fd deadline : ℕ) (base v : Text) (i : ℕ) (w : W)
      → length v < fuel + i
      → Taken fd base v i w
      → RunsTo X
          (write_loop env debug fuel fd deadline v i)
          w
          (λ i' w'. Taken fd base v i' w' × ((traffic w').received ≡ (traffic w).received))
  unfolding write_loop
  write_loop-Runs zero fd deadline base v i w h k = absurd (omega (arith, k.0))
  write_loop-Runs (suc fuel) fd deadline base v i w h k =
      Runs-if (ltb i (length v)) _ _ _ _
        (λ (more : ltb i (length v) ≡ true).
          Runs-bind _ _ _ _ _ (now-Runs env debug laws w) λ t w1 q.
            Runs-if (ltb t deadline) _ _ _ _
              (λ (early : ltb t deadline ≡ true).
                Runs-bind _ _ _ _ _
                  (poll_until-Runs env debug laws fd for_writing deadline t w1 q.1.0)
                  λ _ w2 r.
                    Runs-bind _ _ _
                      (λ n w3.
                        Taken fd base v (i + n) w3
                        × (0 < n)
                        × ((traffic w3).received ≡ (traffic w).received))
                      _
                      (Runs-attempt _ _ _ _ λ n e. (
                        Taken-more fd base v i n w2 (still w w2 k (r.1 ∙ q.1.1)) e,
                        laws.write_some fd (drop i v) w2 n e
                            (omega (arith, length-drop i v, ltb→lt i (length v) more)),
                        (laws.write_law fd (drop i v) w2 n e).2
                            ∙ ap (λ (u : Traffic). u.received) (r.1 ∙ q.1.1),
                      ))
                      λ n w3 u.
                        Runs-weaken _ _ _ _ (λ i' w4 x. (x.0, x.1 ∙ u.2))
                          (write_loop-Runs fuel fd deadline base v (i + n) w3 (omega (arith, u.1))
                            u.0))
              (λ _. Runs-pure _ _ _ (still w w1 k q.1.1, ap (λ (u : Traffic). u.received) q.1.1)))
        (λ _. Runs-pure _ _ _ (k, refl))
    where
      still : (w w' : W) → Taken fd base v i w → traffic w' ≡ traffic w → Taken fd base v i w'
      still w w' k e = (k.0, ap (λ (u : Traffic). u.sent fd) e ∙ k.1)

  -- With more rounds than bytes, and than nanoseconds to the deadline of `get_fds`, `write` ends. If it returns, the request has no
  -- newline, the fifo has taken the request and a newline, and nothing was read.
  pub write-Runs :
      {X : Stop → NamedPipe × W → Type 0} (fuel : ℕ) (v : Text) (p : NamedPipe) (w : W)
      → from_millis pipe_creation_timeout_ms < fuel
      → length v + 1 < fuel
      → RunsTo X
          (write env debug fuel v)
          (p, w)
          (λ _ s.
            (has_newline v ≡ false)
            × (fd : ℕ) × (s.0.component_input_fifo_file ≡ some fd)
            × Opened env debug laws for_writing p.component_input_fifo_path
                p.component_input_fifo_file s.0.component_input_fifo_file
            × Opened env debug laws for_reading p.component_output_fifo_path
                p.component_output_fifo_file s.0.component_output_fifo_file
            × ((out : ℕ) × (s.0.component_output_fifo_file ≡ some out))
            × ((traffic s.1).sent fd ≡ (traffic w).sent fd ++ (v ++ newline ∷ []))
            × ((traffic s.1).received ≡ (traffic w).received))
  unfolding write
  write-Runs fuel v p w h long =
      Runs-if (has_newline v) _ _ _ _ (λ _. Runs-raise _ _ _)
        (λ clean. Runs-bind _ _ _ _ _ (get_fds-Runs env debug laws fuel p w h) λ fds s1 q.
          Runs-bind _ _ _ _ _ (on_world-Runs env debug laws _ s1 _ (now-Runs env debug laws s1.1))
            λ start s2 r.
              Runs-bind _ _ _ _ _
                (on_world-Runs env debug laws _ s2 _ (
                  write_loop-Runs fuel fds.0 (start + from_millis pipe_io_timeout_ms)
                    ((traffic w).sent fds.0) (v ++ newline ∷ []) 0 s2.1
                    (omega (arith, length-append v (newline ∷ [])))
                    (
                      omega arith,
                      ap (λ (u : Traffic). u.sent fds.0) (r.1.1.1 ∙ q.4) ∙ sym (append-nil _),
                    )))
                λ i s3 u.
                  Runs-if (ltb i (length (v ++ newline ∷ []))) _ _ _ _ (λ _. Runs-raise _ _ _)
                    λ all. Runs-pure _ _ _ (
                      clean,
                      fds.0,
                      ap (λ (x : NamedPipe). x.component_input_fifo_file) (u.0 ∙ r.0) ∙ q.0,
                      subst
                          (λ (x : NamedPipe).
                            Opened env debug laws for_writing p.component_input_fifo_path
                              p.component_input_fifo_file x.component_input_fifo_file)
                          (sym (u.0 ∙ r.0)) q.2,
                      subst
                          (λ (x : NamedPipe).
                            Opened env debug laws for_reading p.component_output_fifo_path
                              p.component_output_fifo_file x.component_output_fifo_file)
                          (sym (u.0 ∙ r.0)) q.3,
                      (
                        fds.1,
                        ap (λ (x : NamedPipe). x.component_output_fifo_file) (u.0 ∙ r.0) ∙ q.1,
                      ),
                      u.1.0.1
                          ∙ ap (λ t. (traffic w).sent fds.0 ++ t)
                              (take_all i (v ++ newline ∷ []) (ground arith)),
                      u.1.1 ∙ ap (λ (x : Traffic). x.received) (r.1.1.1 ∙ q.4),
                    ))
