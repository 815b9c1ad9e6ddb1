-- ===== src/Docker.antt =====
-- src/docker/mod.rs: containers, by calls of the docker command. A container's pipe and the process
-- of `docker run` are its fields; dropping it terminates that process.
pub mod Idle
pub mod Calls
use v9_worker.Base.{ℕ, ◌+◌, ◌-◌, ◌/◌, Option, List, [], ◌∷◌, ◌++◌, ◌==◌, if◌then◌else◌, Text, codes}
use v9_worker.Errors.{DebugFormat, io}
use v9_worker.Exec.{
  or_raise, pure, give, raise, modify, ok, Exec, Attempt, done, failed, attempt, from_attempt,
  ◌>>=◌, ◌>>◌,
}
use v9_worker.Env.{Env}
use v9_worker.Errors.{docker, subprocess_start, os_string_conversion, regex}
use v9_worker.Pipe.{NamedPipe, from_utf8}
use v9_worker.Logs.{LogPolicy, get_popen_config}

pub record V9Container : Type 0 where
  pub named_pipe : NamedPipe
  pub docker_container_name : Text
  pub docker_run_process : ℕ

-- `res.replace(":", "_")`
unfoldable pub replace_colon : Text → Text
replace_colon [] = []
replace_colon (c ∷ cs) = (if c == b':' then b'_' else c) ∷ replace_colon cs

-- The regular expression "Loaded image( ID)?: (?P<tag>.*)\n" and its first match in a text, of the
-- crate `regex`; and the digits of a u64.
pub record Patterns : Type 0 where
  pub loaded_image : Attempt (Text → Option Text)
  pub digits : ℕ → Text

module _ {W : Type 0} (env : Env W) (debug : DebugFormat) where
  -- `canonicalize` of src/fs_utils.rs
  unfoldable pub canonicalize : Text → Exec W Text
  canonicalize p = do
    c ← attempt io (env.canonicalize p)
    if env.is_unicode c then pure c else raise (os_string_conversion c)

  unfoldable pub call_docker_sync : List Text → Exec W (ℕ × Text × Text)
  call_docker_sync argv = do
    docker_res ← attempt subprocess_start (env.capture (codes "docker" ∷ argv))
    stdout ← from_utf8 env debug docker_res.stdout
    stderr ← from_utf8 env debug docker_res.stderr
    if env.success docker_res.exit_status
        then pure (docker_res.exit_status, stdout, stderr)
        else raise (docker docker_res.exit_status stdout stderr)

  -- A new process is detached at once: nobody waits for it when it is dropped.
  unfoldable pub call_docker_async : List Text → LogPolicy → Exec W ℕ
  call_docker_async docker_args log_policy = do
    config ← get_popen_config env log_policy
    docker_subprocess ← attempt subprocess_start (env.spawn (codes "docker" ∷ docker_args) config)
    modify (env.detach docker_subprocess)
    pure docker_subprocess

  module _ (patterns : Patterns) where
    unfoldable pub container_name : Text → Exec W Text
    container_name image w =
        let (id, w') = env.random_u64 w in
        (ok (replace_colon (codes "v9_" ++ (image ++ (codes "_" ++ patterns.digits id)))), w')

    -- The arguments of `docker run`.
    unfoldable pub run_args : Text → Text → Text → Text → List Text → List Text
    run_args name c_in c_out image image_arguments =
        codes "run"
        ∷ codes "--name"
        ∷ name
        ∷ codes "-v"
        ∷ (c_in ++ (codes ":" ++ c_in))
        ∷ codes "-v"
        ∷ (c_out ++ (codes ":" ++ c_out))
        ∷ image
        ∷ image_arguments

    -- `V9Container::start`
    unfoldable pub start : NamedPipe → Text → List Text → LogPolicy → Exec W V9Container
    start pipe image image_arguments log_policy = do
      name ← container_name image
      c_in ← canonicalize pipe.component_input_fifo_path
      c_out ← canonicalize pipe.component_output_fifo_path
      docker_subprocess ←
          call_docker_async (run_args name c_in c_out image image_arguments) log_policy
      pure (record {
        named_pipe = pipe;
        docker_container_name = name;
        docker_run_process = docker_subprocess;
      })

    unfoldable pub load_docker_image : Text → Exec W Text
    load_docker_image archive_file = do
      (status, stdout, stderr) ←
          call_docker_sync (codes "load" ∷ codes "-q" ∷ codes "-i" ∷ archive_file ∷ [])
      first_match ← give (from_attempt regex patterns.loaded_image)
      tag ← or_raise (first_match stdout) (docker status stdout stderr)
      -- a failure to remove the file is only logged
      modify (λ w. (env.remove_file archive_file w).1)
      pure tag

  unfoldable pub exec_sync : V9Container → List Text → Exec W (ℕ × Text × Text)
  exec_sync c command = call_docker_sync (codes "exec" ∷ c.docker_container_name ∷ command)

  unfoldable pub exec_async : V9Container → List Text → LogPolicy → Exec W ℕ
  exec_async c command log_policy =
      call_docker_async (codes "exec" ∷ c.docker_container_name ∷ command) log_policy

  unfoldable pub copy_directory_in : V9Container → Text → Text → Exec W Unit
  copy_directory_in c source_dir target_dir = do
    call_docker_sync (
        codes "cp"
        ∷ (source_dir ++ codes "/.")
        ∷ (c.docker_container_name ++ (codes ":" ++ target_dir))
        ∷ [])
    pure tt

  -- A process that does not terminate is detached, so that nobody hangs waiting for it.
  unfoldable pub terminate_or_detach : ℕ → W → W
  terminate_or_detach process w =
      let (r, w') = env.terminate process w in
      elim r [ done _ ↦ w' | failed _ ↦ env.detach process w' ]

  -- `Drop for V9Container`
  unfoldable pub drop_container : V9Container → W → W
  drop_container c = terminate_or_detach c.docker_run_process
