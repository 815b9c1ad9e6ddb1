-- ===== src/Logs.antt =====
-- src/component/logs.rs: where the output of a component goes, and the number that tells one log
-- from the next. The counter is an atomic u64, which wraps around.
use v9_worker.Base.{ℕ, ◌+◌, ◌%◌, ◌^◌, true, Option, none, some, Text}
use v9_worker.Errors.{io}
use v9_worker.Statics.{Statics, on_world}
use v9_worker.Exec.{pure, ok, Outcome, Exec, attempt, ◌>>=◌, ◌>>◌}
use v9_worker.Env.{Env}
use v9_worker.Env.{PopenConfig, file, pipe}

pub data LogPolicy : Type 0 where
  to_file : ℕ → LogPolicy
  ignore : LogPolicy

pub record LogTracker : Type 0 where
  pub dedup_number : ℕ
  pub policy_handle : LogPolicy

-- `DEDUP_COUNTER.fetch_add(1)`
unfoldable pub fetch_add : {C W : Type 0} → Exec (Statics C W) ℕ
fetch_add s = (ok s.dedup_counter, record s { dedup_counter = (s.dedup_counter + 1) % 2 ^ 64 })

-- `LogTracker::new`
unfoldable pub new_tracker : {C W : Type 0} → Exec (Statics C W) LogTracker
new_tracker = do n ← fetch_add; pure (record { dedup_number = n; policy_handle = ignore })

module _ {W : Type 0} (env : Env W) where
  -- The old policy is counted only for a log message, which is left out.
  unfoldable pub create_associated_policy :
      {C : Type 0} → LogTracker → Exec (Statics C W) (LogTracker × LogPolicy)
  create_associated_policy tracker = do
    backing_file ← on_world (attempt io env.temp_file)
    n ← fetch_add
    pure (record { dedup_number = n; policy_handle = to_file backing_file }, to_file backing_file)

  -- `LogPolicy::get_contents`
  unfoldable pub policy_contents : LogPolicy → Exec W (Option Text)
  policy_contents (to_file f) = do
    attempt io (env.sync_all f)
    logs ← attempt io (env.read_to_string f)
    pure (some logs)
  policy_contents ignore = pure none

  -- `LogTracker::get_contents`; a failure is part of the value.
  unfoldable pub get_contents : LogTracker → W → (ℕ × Outcome (Option Text)) × W
  get_contents tracker w =
      let (contents, w') = policy_contents tracker.policy_handle w in
      ((tracker.dedup_number, contents), w')

  unfoldable pub get_popen_config : LogPolicy → Exec W PopenConfig
  get_popen_config (to_file f) = do
    out ← attempt io (env.try_clone f)
    errors ← attempt io (env.try_clone f)
    pure (record { detached = true; stdout = file out; stderr = file errors })
  get_popen_config ignore = pure (record { detached = true; stdout = pipe; stderr = pipe })
