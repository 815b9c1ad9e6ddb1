-- ===== src/Pipe/Exchange.antt =====
-- `query` of src/named_pipe.rs: a request line against a response line.
use v9_worker.Base.{ℕ, ◌+◌, ◌<◌, ◌≡◌, ap, subst, ◌∙◌, true, false, some, [], ◌∷◌, ◌++◌, arith, Text}
use v9_worker.Time.{from_millis}
use v9_worker.Errors.{DebugFormat}
use v9_worker.Exec.{Exec, ok}
use v9_worker.Base.{sym, Option, length}
use v9_worker.Env.{Direction, for_writing, for_reading}
use v9_worker.Pipe.Ends.{Opened}
use v9_worker.Pipe.Receiving.{Drained}
use v9_worker.Pipe.{pipe_creation_timeout_ms, read}
use v9_worker.Exec.Runs.{
  Stop, Stops-map, panicked, exhausted, RunsTo, Runs-pure, Runs-raise, Runs-if, Runs-bind,
}
use v9_worker.Env.{Env, PipeLaws}
use v9_worker.Pipe.{NamedPipe, newline, has_newline, query, from_utf8}
use v9_worker.Pipe.Sending.{write-Runs}
use v9_worker.Pipe.Receiving.{read-Runs, Finished}
use v9_worker.Utf8.{is_utf8}

module _ {W : Type 0} (env : Env W) (debug : DebugFormat) (laws : PipeLaws env) where
  open laws use {traffic}

  Opened-held :
      {direction : Direction} {path : Text} {before after : Option ℕ} (fd : ℕ)
      → before ≡ some fd
      → Opened env debug laws direction path before after
      → after ≡ before
  Opened-held fd e (Opened.kept held same is) = is ∙ sym same
  Opened-held fd e (Opened.made new w none_before by is) = cc
  Opened-held fd e (Opened.closed none_before is) = cc

  -- What an exchange does between two states of a pipe: the fifo IN takes the request and a newline,
  -- and the response is a line, the first of what the fifo OUT gave. A fifo that was not open before
  -- is opened at its path, IN for writing and OUT for reading.
  pub record Exchanged (req resp : Text) (s t : NamedPipe × W) : Type 0 where
    pub clean : has_newline req ≡ false
    pub in_fifo :
        Opened env debug laws for_writing s.0.component_input_fifo_path
          s.0.component_input_fifo_file t.0.component_input_fifo_file
    pub c_in : ℕ
    pub in_open : t.0.component_input_fifo_file ≡ some c_in
    pub sent : (traffic t.1).sent c_in ≡ (traffic s.1).sent c_in ++ (req ++ newline ∷ [])
    pub out_fifo :
        Opened env debug laws for_reading s.0.component_output_fifo_path
          s.0.component_output_fifo_file t.0.component_output_fifo_file
    pub c_out : ℕ
    pub out_open : t.0.component_output_fifo_file ≡ some c_out
    pub received : Finished env debug laws c_out ((traffic s.1).received c_out) resp t.1
    pub utf8 : is_utf8 resp ≡ true

  read-Drained :
      (fuel : ℕ) (w : W) (s : NamedPipe × W) {A : Type 0} (m : Exec (NamedPipe × W) A)
      (Q : A → NamedPipe × W → Type 0)
      → (traffic s.1).received ≡ (traffic w).received
      → RunsTo (Drained env debug laws fuel s.1) m s Q
      → RunsTo (Drained env debug laws fuel w) m s Q
  read-Drained fuel w s m Q e r = record {
    ends =
        Stops-map (Drained env debug laws fuel s.1) (Drained env debug laws fuel w) (m s).0 _ _
          drained r.ends;
    post = r.post;
  }
    where
      drained :
          (k : Stop)
          → Drained env debug laws fuel s.1 k (m s).1
          → Drained env debug laws fuel w k (m s).1
      drained panicked h = h
      drained exhausted (fd, out, more) =
          (fd, out, omega (arith, more, ap (λ (f : ℕ → Text). length (f fd)) e))

  query-Runs :
      (fuel : ℕ) (req : Text) (p : NamedPipe) (w : W)
      → from_millis pipe_creation_timeout_ms < fuel
      → length req + 1 < fuel
      → RunsTo
          (Drained env debug laws fuel w)
          (query env debug fuel req)
          (p, w)
          (λ resp s. Exchanged req resp (p, w) s)
  unfolding query from_utf8
  query-Runs fuel req p w h long =
      Runs-bind _ _ _ _ _ (write-Runs env debug laws fuel req p w h long) λ _ s1 q.
        Runs-bind _ _ _ _ _
          (read-Drained fuel w s1 (read env debug fuel) _ q.7
            (read-Runs env debug laws fuel s1.0 s1.1 h))
          λ line s2 r.
            let kept_in = Opened-held q.1 q.2 r.2 in
            let kept_out = Opened-held q.5.0 q.5.1 r.3 in
            Runs-if (is_utf8 line) _ _ _ _
              (λ valid. Runs-pure _ _ _ (record {
                clean = q.0;
                in_fifo =
                    subst
                      (Opened env debug laws for_writing p.component_input_fifo_path
                        p.component_input_fifo_file)
                      (sym kept_in) q.3;
                c_in = q.1;
                in_open = kept_in ∙ q.2;
                sent = ap (λ (f : ℕ → Text). f q.1) r.5 ∙ q.6;
                out_fifo =
                    subst
                      (Opened env debug laws for_reading p.component_output_fifo_path
                        p.component_output_fifo_file)
                      (sym kept_out) q.4;
                c_out = r.0;
                out_open = r.1;
                received =
                    subst (λ (f : ℕ → Text). Finished env debug laws r.0 (f r.0) line s2.1) q.7 r.4;
                utf8 = valid;
              }))
              (λ _. Runs-raise _ _ _)

  module _ (fuel : ℕ) (enough : from_millis pipe_creation_timeout_ms < fuel) (req : Text)
      (longer : length req + 1 < fuel) where
    -- If `query` returns a response, the request has no newline and the fifo IN was sent just the
    -- request and a newline; the response is UTF-8 with one newline, at its end, and is the first
    -- line of what the fifo OUT gave, of which `query` drops what comes behind it. Each fifo is the
    -- file that was open, or one that was opened at its path, IN for writing and OUT for reading.
    pub query-Exchanged :
        (resp : Text) (p : NamedPipe) (w : W)
        → (query env debug fuel req (p, w)).0 ≡ ok resp
        → Exchanged req resp (p, w) (query env debug fuel req (p, w)).1
    query-Exchanged resp p w e = (query-Runs fuel req p w enough longer).post resp e
