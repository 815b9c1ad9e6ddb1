-- ===== src/Isolation.antt =====
-- src/component/isolation.rs: the process of a component, started when it is first called, dropped
-- when a call fails or when it is not used. A trait object is a data type with a constructor for
-- each of its types.
pub mod Lifecycle
pub mod Stopping
use v9_worker.Base.{
  ℕ, ◌+◌, ◌-◌, ◌*◌, ◌/◌, Option, none, some, [], ◌∷◌, ◌++◌, ltb, if◌then◌else◌, Text, codes,
}
use v9_worker.Time.{from_secs}
use v9_worker.Exec.{
  pure, raise, zoom, ok, err, panic, out_of_fuel, Outcome, Exec, attempt, ◌>>=◌, ◌>>◌,
}
use v9_worker.Errors.{unsupported_platform, subprocess_terminated, subprocess_start}
use v9_worker.Host.{Host}
use v9_worker.Model.{
  ActivateRequest, ExecutionMethod, containerized_script, docker_archive, python_unsafe,
}
use v9_worker.Pipe.{NamedPipe, new_pipe, query}
use v9_worker.Statics.{Statics, on_world, on_failure}
use v9_worker.Logs.{LogPolicy, LogTracker, create_associated_policy, get_popen_config}
use v9_worker.Docker.{
  V9Container, canonicalize, start, load_docker_image, copy_directory_in, exec_async,
  terminate_or_detach, drop_container,
}
use v9_worker.Docker.Idle.{code_folder, get_idle_container}

-- `EXPIRY_DURATION`
abbrev pub expiry_duration : ℕ
expiry_duration = from_secs (60 * 10)

-- `Box<dyn ProcessIsolationController>`
pub data Controller : Type 0 where
  script : (executable_file : Text) → Controller
  archive : (docker_image_tag : Text) → Controller
  python : (executable_file : Text) → Controller

-- `Box<dyn IsolatedProcessHandle>`
pub data Handle : Type 0 where
  piped : (subprocess : ℕ) (pipe : NamedPipe) → Handle
  containerized : (container : V9Container) (helper_subproccess : Option ℕ) → Handle

pub record IsolatedProcessWrapper : Type 0 where
  pub isolation_controller : Controller
  pub process_handle : Option Handle
  pub last_accessed : ℕ

module _ {W : Type 0} (host : Host W) where
  open host use {env, debug, patterns, is_linux, fuel}

  -- The `new` of each controller.
  unfoldable pub new_controller : ExecutionMethod → Text → Exec W Controller
  new_controller containerized_script executable_file =
      if is_linux
      then pure (script executable_file)
      else raise (unsupported_platform (codes "must be linux!"))
  new_controller docker_archive executable_file =
      if is_linux
      then (do tag ← load_docker_image env debug patterns executable_file; pure (archive tag))
      else raise (unsupported_platform (codes "must be linux!"))
  new_controller python_unsafe executable_file = pure (python executable_file)

  abbrev now : Exec W ℕ
  now w = let (t, w') = env.now w in (ok t, w')

  -- `IsolatedProcessWrapper::new`
  unfoldable pub new_wrapper : ActivateRequest → Exec W IsolatedProcessWrapper
  new_wrapper ar = do
    controller ← new_controller ar.execution_method ar.executable_file
    t ← now
    pure (record { isolation_controller = controller; process_handle = none; last_accessed = t })

  -- What a containerized script needs of its container.
  unfoldable pub prepare_script : Text → LogPolicy → V9Container → Exec W ℕ
  prepare_script executable_file log_policy container = do
    copy_directory_in env debug container executable_file code_folder
    c_in ← canonicalize env debug container.named_pipe.component_input_fifo_path
    c_out ← canonicalize env debug container.named_pipe.component_output_fifo_path
    exec_async env debug container
        (codes "sh" ∷ (code_folder ++ (codes "/" ++ codes "start.sh")) ∷ c_in ∷ c_out ∷ [])
        log_policy

  -- `boot_process` of each controller. Clock readings that are only logged are left out.
  unfoldable pub boot_process : Controller → LogPolicy → Exec (Statics V9Container W) Handle
  boot_process (python executable_file) log_policy = on_world (do
    pipe ← new_pipe env debug
    c_in ← canonicalize env debug pipe.component_input_fifo_path
    c_out ← canonicalize env debug pipe.component_output_fifo_path
    config ← get_popen_config env log_policy
    subprocess ←
        attempt subprocess_start
          (env.spawn (codes "python3" ∷ codes "-u" ∷ executable_file ∷ c_in ∷ c_out ∷ []) config)
    pure (piped subprocess pipe))
  boot_process (archive docker_image_tag) log_policy = on_world (do
    pipe ← new_pipe env debug
    c_in ← canonicalize env debug pipe.component_input_fifo_path
    c_out ← canonicalize env debug pipe.component_output_fifo_path
    container ← start env debug patterns pipe docker_image_tag (c_in ∷ c_out ∷ []) log_policy
    pure (containerized container none))
  boot_process (script executable_file) log_policy = do
    container ← get_idle_container env debug patterns
    subprocess ← on_world (
        on_failure (drop_container env debug container)
          (prepare_script executable_file log_policy container))
    pure (containerized container (some subprocess))

  -- A query, unless the process has terminated.
  unfoldable pub query_live : ℕ → Text → Exec (NamedPipe × W) Text
  query_live process req (pipe, w) =
      let (exited, w') = env.exit_status process w in
      elim exited [
        | some status ↦ (err (subprocess_terminated status), (pipe, w'))
        | none ↦ query env debug fuel req (pipe, w')
      ]

  -- `IsolatedProcessHandle::query_process`
  unfoldable pub query_handle : Text → Exec (Handle × W) Text
  query_handle req (piped subprocess pipe, w) =
      let (r, (pipe', w')) = query_live subprocess req (pipe, w) in
      (r, (piped subprocess pipe', w'))
  query_handle req (containerized c helper, w) =
      let (r, (pipe', w')) = query_live c.docker_run_process req (c.named_pipe, w) in
      (r, (containerized (record c { named_pipe = pipe' }) helper, w'))

  -- The `Drop` of the two handles; the container of the second is dropped after it.
  unfoldable pub drop_handle : Handle → W → W
  drop_handle (piped subprocess pipe) w = terminate_or_detach env debug subprocess w
  drop_handle (containerized c none) w = drop_container env debug c w
  drop_handle (containerized c (some helper)) w =
      drop_container env debug c (terminate_or_detach env debug helper w)

  unfoldable pub drop_process : Option Handle → W → W
  drop_process none w = w
  drop_process (some handle) w = drop_handle handle w

  -- A process for a call: the one there is, or a new one, with a log of its own.
  unfoldable pub ensure_process :
      Option Handle → Controller → Exec (LogTracker × Statics V9Container W) Handle
  ensure_process (some handle) controller = pure handle
  ensure_process none controller = do
    policy ← (λ s.
        let (o, u) = create_associated_policy env s.0 s.1 in
        elim o [
          | ok made ↦ (ok made.1, (made.0, u))
          | err e ↦ (err e, (s.0, u))
          | panic ↦ (panic, (s.0, u))
          | out_of_fuel ↦ (out_of_fuel, (s.0, u))
        ])
    zoom (λ s. s.1) (λ u s. (s.0, u)) (boot_process controller policy)

  abbrev pub Called : Type 0
  Called = IsolatedProcessWrapper × LogTracker × Statics V9Container W

  -- After the query of a handle, which is dropped if the query failed.
  pub answered :
      IsolatedProcessWrapper
      → LogTracker
      → Statics V9Container W
      → Outcome Text × (Handle × W)
      → Outcome Text × Called
  answered wrapper tracker s (err e, (handle, w)) = (
    err e,
    (record wrapper { process_handle = none }, tracker, record s { world = drop_handle handle w }),
  )
  answered wrapper tracker s (resp, (handle, w)) =
      (resp, (record wrapper { process_handle = some handle }, tracker, record s { world = w }))

  -- The query, once it was seen to that there is a process.
  pub query_booted :
      Text
      → IsolatedProcessWrapper
      → Outcome Handle
      → LogTracker × Statics V9Container W
      → Outcome Text × Called
  query_booted req wrapper (ok handle) (tracker, s) =
      answered wrapper tracker s (query_handle req (handle, s.world))
  query_booted req wrapper (err e) (tracker, s) = (err e, (wrapper, tracker, s))
  query_booted req wrapper panic (tracker, s) = (panic, (wrapper, tracker, s))
  query_booted req wrapper out_of_fuel (tracker, s) = (out_of_fuel, (wrapper, tracker, s))

  -- `IsolatedProcessWrapper::query_process`, with the tracker of the component's log.
  unfoldable pub query_process : Text → Exec Called Text
  query_process req (wrapper, tracker, s) =
      let (t, w) = env.now s.world in
      let (o, rest) =
        ensure_process wrapper.process_handle wrapper.isolation_controller
          (tracker, record s { world = w }) in
      query_booted req (record wrapper { last_accessed = t }) o rest

  -- `IsolatedProcessWrapper::heartbeat`
  unfoldable pub heartbeat : IsolatedProcessWrapper → W → IsolatedProcessWrapper × W
  heartbeat wrapper w = elim wrapper.process_handle [
    | none ↦ (wrapper, w)
    | some handle ↦
        let (t, w') = env.now w in
        if ltb expiry_duration (t - wrapper.last_accessed)
        then (record wrapper { process_handle = none }, drop_handle handle w')
        else (wrapper, w')
  ]
