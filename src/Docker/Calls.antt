-- ===== src/Docker/Calls.antt =====
-- The calls of the docker command (src/docker/mod.rs).
use v9_worker.Base.{refl, List, Text}
use v9_worker.Errors.{DebugFormat}
use v9_worker.Exec.{pure, raise}
use v9_worker.Exec.Runs.{
  Completes, Runs-run, Runs-pure, Runs-raise, Runs-if, Runs-attempt, Runs-bind,
}
use v9_worker.Env.{Env}
use v9_worker.Exec.Runs.{Completes, Runs-result, Runs-or_raise}
use v9_worker.Pipe.{from_utf8}
use v9_worker.Docker.{Patterns, call_docker_sync, load_docker_image}
use v9_worker.Utf8.{is_utf8}
use v9_worker.Errors.{docker, invalid_utf8}

module _ {W : Type 0} (env : Env W) (debug : DebugFormat) where
  from_utf8-Runs : (v : Text) (w : W) → Completes (from_utf8 env debug v) w (λ _ _. Unit)
  unfolding from_utf8
  from_utf8-Runs v w =
      Runs-if (is_utf8 v) (pure v) (raise (invalid_utf8 (debug.utf8_error v))) _ _
        (λ _. Runs-pure _ _ _ tt) (λ _. Runs-raise _ _ _)

  call_docker_sync-Runs :
      (argv : List Text) (w : W) → Completes (call_docker_sync env debug argv) w (λ _ _. Unit)
  unfolding call_docker_sync
  call_docker_sync-Runs argv w =
      Runs-bind _ _ _ (λ _ _. Unit) _ (Runs-attempt _ _ _ _ (λ _ _. tt))
        λ out w1 _. Runs-bind _ _ _ _ _ (from_utf8-Runs _ w1) λ a w2 _.
          Runs-bind _ _ _ _ _ (from_utf8-Runs _ w2) λ b w3 _.
            Runs-if (env.success out.exit_status) (pure (out.exit_status, a, b))
              (raise (docker out.exit_status a b)) _ _ (λ _. Runs-pure _ _ _ tt)
              (λ _. Runs-raise _ _ _)

  pub load_docker_image-Runs :
      (patterns : Patterns) (archive_file : Text) (w : W)
      → Completes (load_docker_image env debug patterns archive_file) w (λ _ _. Unit)
  unfolding load_docker_image
  load_docker_image-Runs patterns archive_file w =
      Runs-bind _ _ _ _ _ (call_docker_sync-Runs _ w) λ loaded w1 _.
        Runs-bind _ _ _ _ _ (Runs-result _ _ w1) λ first_match w2 _.
          Runs-bind _ _ _ _ _ (Runs-or_raise _ _ w2)
            λ tag w3 _. Runs-run _ _ _ _ _ _ refl (Runs-pure _ _ _ tt)
