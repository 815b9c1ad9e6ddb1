-- ===== src/Pipe/Ends.antt =====
-- What the loops of src/named_pipe.rs share: opening a fifo, and waiting for one.
use v9_worker.Base.{
  ℕ, zero, suc, ◌+◌, ◌-◌, ◌^◌, ◌≤◌, ◌<◌, ◌≡◌, refl, ◌∙◌, ap, true, Option, none, some, Text, arith,
  ltb→lt, ltb,
}
use v9_worker.Time.{from_millis}
use v9_worker.Errors.{DebugFormat}
use v9_worker.Exec.{pure, Exec}
use v9_worker.Exec.{Attempt, done, failed}
use v9_worker.Base.{sym, subst}
use v9_worker.Pipe.{to_option}
use v9_worker.Exec.Runs.{
  Stop, RunsTo, Stops-map, Runs-run, Runs-ok, Runs-weaken, Runs-pure, Runs-raise, Runs-if,
  Runs-attempt, Runs-bind,
}
use v9_worker.Env.{Env, PipeLaws, Direction, for_writing, for_reading}
use v9_worker.Pipe.{
  both, pipe_creation_timeout_ms, pipe_poll_interval_ms, on_world, NamedPipe, open_loop, get_fds,
  poll_until, to_c_int, now, sleep, try_open,
}

module _ {W : Type 0} (env : Env W) (debug : DebugFormat) (laws : PipeLaws env) where
  open laws use {clock, traffic}

  -- What a loop of `get_fds` makes of the file that it has: it keeps it, or opens it if it can.
  pub data Opened (direction : Direction) (path : Text) (before after : Option ℕ) : Type 0 where
    kept : (fd : ℕ) → before ≡ some fd → after ≡ some fd → Opened direction path before after
    made :
        (fd : ℕ) (w : W)
        → before ≡ none
        → (env.open_fifo direction path w).0 ≡ done fd
        → after ≡ some fd
        → Opened direction path before after
    closed : before ≡ none → after ≡ none → Opened direction path before after

  -- Time has passed since `t`, and no byte was moved since `w`.
  abbrev pub Quiet : ℕ → W → W → Type 0
  Quiet t w w' = (t ≤ clock w') × (traffic w' ≡ traffic w)

  pub now-Runs :
      {X : Stop → W → Type 0} (w : W)
      → RunsTo X (now env debug) w (λ t w'. (clock w ≤ t) × Quiet t w w')
  now-Runs w = Runs-ok _ w _ _ _ refl (let l = laws.now_law w in (l.0, (l.1, l.2)))

  pub sleep-Runs :
      {X : Stop → W → Type 0} (d t : ℕ) (w : W)
      → t ≤ clock w
      → RunsTo X (sleep env debug d) w (λ _ w'. Quiet (t + d) w w')
  sleep-Runs d t w h =
      Runs-ok _ w _ _ _ refl (omega (arith, laws.sleep_law d w), (laws.sleep_law d w).1)

  to_option-done : (r : Attempt ℕ) (fd : ℕ) → to_option env debug r ≡ some fd → r ≡ done fd
  to_option-done (done a) fd e = cc
  to_option-done (failed message) fd e = cc

  try_open-Runs :
      {X : Stop → W → Type 0} (direction : Direction) (path : Text) (t : ℕ) (w : W)
      → t ≤ clock w
      → RunsTo X
          (try_open env debug direction path)
          w
          (λ f w'. (f ≡ to_option env debug (env.open_fifo direction path w).0) × Quiet t w w')
  unfolding try_open
  try_open-Runs direction path t w h =
      Runs-ok _ w _ _ _ refl
        (refl, (omega (arith, laws.open_law direction path w), (laws.open_law direction path w).1))

  to_c_int-Runs :
      {X : Stop → W → Type 0} (ms : ℕ) (w : W) (Q : W → Type 0)
      → Q w
      → RunsTo X (to_c_int env debug ms) w (λ _ w'. Q w')
  unfolding to_c_int
  to_c_int-Runs ms w Q h =
      Runs-if (ltb ms (2 ^ 31)) (pure ms) _ _ _ (λ _. Runs-pure ms w (λ _ w'. Q w') h)
        (λ _. Runs-raise _ _ _)

  pub poll_until-Runs :
      {X : Stop → W → Type 0} (fd : ℕ) (direction : Direction) (deadline t : ℕ) (w : W)
      → t ≤ clock w
      → RunsTo X (poll_until env debug fd direction deadline) w (λ _ w'. Quiet t w w')
  unfolding poll_until
  poll_until-Runs fd direction deadline t w h =
      Runs-bind _ _ _ (λ _ w1. Quiet t w w1) _
        (Runs-weaken _ _ _ _ (λ s w1 q. (omega arith, q.1.1)) (now-Runs w))
        λ s w1 p.
          Runs-bind _ _ _ (λ _ w2. Quiet t w w2) _ (to_c_int-Runs _ w1 (Quiet t w) p)
            λ ms w2 q. Runs-attempt _ _ _ _ λ _ _. (
              omega (arith, laws.poll_law fd direction ms w2),
              (laws.poll_law fd direction ms w2).1 ∙ q.1,
            )

  pub open_loop-Runs :
      {X : Stop → W → Type 0} (fuel : ℕ) (direction : Direction) (path : Text) (deadline t : ℕ)
      (file : Option ℕ) (w : W)
      → t ≤ clock w
      → deadline - clock w < fuel
      → RunsTo X
          (open_loop env debug fuel direction path deadline file)
          w
          (λ f w'. Opened direction path file f × Quiet t w w')
  unfolding open_loop
  open_loop-Runs zero direction path deadline t file w p h = absurd (omega arith)
  open_loop-Runs (suc fuel) direction path deadline t (some file) w p h =
      Runs-pure _ _ _ (Opened.kept file refl refl, (p, refl))
  open_loop-Runs (suc fuel) direction path deadline t none w p h =
      Runs-bind _ _ _ _ _ (now-Runs w) λ s w1 q.
        Runs-if _ _ _ _ _
          (λ (early : ltb s deadline ≡ true).
            Runs-bind _ _ _ _ _ (try_open-Runs direction path s w1 q.1.0) λ opened w2 r.
              Runs-bind _ _ _ _ _ (sleep-Runs (from_millis pipe_poll_interval_ms) s w2 r.1.0)
                λ _ w3 u.
                  Runs-weaken _ _ _ _
                    (λ f w4 v. (
                      found f opened w1 r.0 v.0,
                      (omega (arith, v.1.0), v.1.1 ∙ u.1 ∙ r.1.1 ∙ q.1.1),
                    ))
                    (open_loop-Runs fuel direction path deadline
                      (s + from_millis pipe_poll_interval_ms) opened w3 u.0
                      (omega (arith, ltb→lt s deadline early))))
          (λ _. Runs-pure _ _ _ (Opened.closed refl refl, (omega arith, q.1.1)))
    where
      found :
          (f opened : Option ℕ) (w' : W)
          → (opened ≡ to_option env debug (env.open_fifo direction path w').0)
          → Opened direction path opened f
          → Opened direction path none f
      found f opened w' e (Opened.kept fd same is) =
          Opened.made fd w' refl (to_option-done _ fd (sym e ∙ same)) is
      found f opened w' e (Opened.made fd at none_before by is) = Opened.made fd at refl by is
      found f opened w' e (Opened.closed none_before is) = Opened.closed refl is

  pub on_world-Runs :
      {X : Stop → NamedPipe × W → Type 0} {A : Type 0} (m : Exec W A) (s : NamedPipe × W)
      (Q : A → W → Type 0)
      → RunsTo (λ k w. X k (s.0, w)) m s.1 Q
      → RunsTo X (on_world env debug m) s (λ a t. (t.0 ≡ s.0) × Q a t.1)
  unfolding on_world
  on_world-Runs {X = X} m s Q r = record {
    ends = Stops-map (λ k w. X k (s.0, w)) X (m s.1).0 _ _ (λ k e. e) r.ends;
    post = λ a e. (refl, r.post a e);
  }

  both-Runs :
      {X : Stop → NamedPipe × W → Type 0} (c_in c_out : Option ℕ) (s : NamedPipe × W)
      → RunsTo X
          (both env debug c_in c_out)
          s
          (λ fds t. (c_in ≡ some fds.0) × (c_out ≡ some fds.1) × (t ≡ s))
  both-Runs (some i) (some o) s = Runs-pure _ _ _ (refl, refl, refl)
  both-Runs none o s = Runs-raise _ _ _
  both-Runs (some i) none s = Runs-raise _ _ _

  -- With more rounds than nanoseconds to the deadline, `get_fds` ends, and if it returns, its
  -- descriptors are those that the pipe then holds open, of the fifo IN and the fifo OUT.
  pub get_fds-Runs :
      {X : Stop → NamedPipe × W → Type 0} (fuel : ℕ) (p : NamedPipe) (w : W)
      → from_millis pipe_creation_timeout_ms < fuel
      → RunsTo X
          (get_fds env debug fuel)
          (p, w)
          (λ fds s.
            (s.0.component_input_fifo_file ≡ some fds.0)
            × (s.0.component_output_fifo_file ≡ some fds.1)
            × Opened for_writing p.component_input_fifo_path p.component_input_fifo_file
                s.0.component_input_fifo_file
            × Opened for_reading p.component_output_fifo_path p.component_output_fifo_file
                s.0.component_output_fifo_file
            × (traffic s.1 ≡ traffic w))
  unfolding get_fds
  get_fds-Runs fuel p w h = Runs-run _ _ _ _ _ _ refl (
      Runs-bind _ _ _ _ _ (on_world-Runs _ (p, w) _ (now-Runs w)) λ start s1 q1.
        Runs-bind _ _ _ _ _
          (on_world-Runs _ s1 _ (
            open_loop-Runs fuel for_reading p.component_output_fifo_path
              (start + from_millis pipe_creation_timeout_ms) start p.component_output_fifo_file s1.1
              q1.1.1.0 (omega arith)))
          λ c_out s2 q2. Runs-run _ _ _ _ _ _ refl (
            Runs-bind _ _ _ _ _
              (on_world-Runs _ (record (s2.0) { component_output_fifo_file = c_out }, s2.1) _
                (open_loop-Runs fuel for_writing p.component_input_fifo_path
                  (start + from_millis pipe_creation_timeout_ms) start p.component_input_fifo_file
                  s2.1 q2.1.1.0 (omega arith)))
              λ c_in s3 q3. Runs-run _ _ _ _ _ _ refl (
                Runs-weaken _ _ _ _
                  (λ fds t r. (
                    ap (λ (u : NamedPipe × W). u.0.component_input_fifo_file) r.2 ∙ r.0,
                    ap (λ (u : NamedPipe × W). u.0.component_output_fifo_file) r.2
                        ∙ ap (λ (q : NamedPipe). q.component_output_fifo_file) q3.0
                        ∙ r.1,
                    subst
                        (Opened for_writing p.component_input_fifo_path p.component_input_fifo_file)
                        (sym (ap (λ (u : NamedPipe × W). u.0.component_input_fifo_file) r.2))
                        q3.1.0,
                    subst
                        (Opened for_reading p.component_output_fifo_path
                          p.component_output_fifo_file)
                        (sym (
                          ap (λ (u : NamedPipe × W). u.0.component_output_fifo_file) r.2
                          ∙ ap (λ (q : NamedPipe). q.component_output_fifo_file) q3.0))
                        q2.1.0,
                    ap (λ (u : NamedPipe × W). traffic u.1) r.2 ∙ q3.1.1.1 ∙ q2.1.1.1 ∙ q1.1.1.1,
                  ))
                  (both-Runs c_in c_out
                    (record (s3.0) { component_input_fifo_file = c_in }, s3.1)))))
