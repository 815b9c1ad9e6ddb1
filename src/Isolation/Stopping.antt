-- ===== src/Isolation/Stopping.antt =====
-- The processes behind a handle (src/component/isolation.rs), and how they are stopped.
use v9_worker.Base.{Option, ℕ, ◌≡◌, refl, List, [], ◌∷◌, none, some}
use v9_worker.Exec.{Attempt, done, failed}
use v9_worker.Host.{Host}
use v9_worker.Isolation.{drop_process, Handle, drop_handle}
use v9_worker.Docker.{drop_container, terminate_or_detach}

-- The processes that a handle owns, a helper before the container that it works in.
abbrev pub processes : Handle → List ℕ
processes (Handle.piped subprocess pipe) = subprocess ∷ []
processes (Handle.containerized container none) = container.docker_run_process ∷ []
processes (Handle.containerized container (some helper)) =
    helper ∷ container.docker_run_process ∷ []

abbrev pub processes_of : Option Handle → List ℕ
processes_of none = []
processes_of (some handle) = processes handle

module _ {W : Type 0} (host : Host W) where
  open host use {env, debug}

  -- The world after the answer to a call of `terminate`: a process that did not terminate is
  -- detached.
  abbrev pub detached_unless : ℕ → Attempt Unit × W → W
  detached_unless process (done _, w) = w
  detached_unless process (failed message, w) = env.detach process w

  -- The world after `terminate` of each process in turn.
  abbrev pub stopped : List ℕ → W → W
  stopped [] w = w
  stopped (process ∷ rest) w = stopped rest (detached_unless process (env.terminate process w))

  terminate_or_detach_lem :
      (process : ℕ) (w : W)
      → terminate_or_detach env debug process w ≡ detached_unless process (env.terminate process w)
  unfolding terminate_or_detach
  terminate_or_detach_lem process w = by_answer (env.terminate process w)
    where
      by_answer :
          (r : Attempt Unit × W)
          → (elim r.0 [ done _ ↦ r.1 | failed _ ↦ env.detach process r.1 ])
            ≡ detached_unless process r
      by_answer (done u, w') = refl
      by_answer (failed message, w') = refl

  -- A handle that is dropped stops each of its processes.
  pub drop_handle-processes :
      (handle : Handle) (w : W) → drop_handle host handle w ≡ stopped (processes handle) w
  unfolding drop_handle drop_container
  drop_handle-processes (Handle.piped subprocess pipe) w = terminate_or_detach_lem subprocess w
  drop_handle-processes (Handle.containerized container none) w =
      terminate_or_detach_lem container.docker_run_process w
  drop_handle-processes (Handle.containerized container (some helper)) w =
      rw (terminate_or_detach_lem helper w) (terminate_or_detach_lem container.docker_run_process _)

  pub drop_process-processes :
      (running : Option Handle) (w : W)
      → drop_process host running w ≡ stopped (processes_of running) w
  unfolding drop_process
  drop_process-processes none w = refl
  drop_process-processes (some handle) w = drop_handle-processes handle w
