-- ===== src/Component/Active/Laws.antt =====
-- What activation and deactivation do to the active components (src/component/mod.rs).
use v9_worker.Base.{◌≡◌, refl, Option, none, some, if◌then◌else◌, Text}
use v9_worker.Errors.{WorkerErrorKind, to_string}
use v9_worker.Exec.{◌>>=◌, err, panic, out_of_fuel, failed, ok, Outcome, done}
use v9_worker.Exec.Runs.{
  Completes, Stops, Stops-map, Runs-run, Runs-pure, Runs-raise, Runs-if, Runs-bind,
}
use v9_worker.Docker.Calls.{load_docker_image-Runs}
use v9_worker.Host.{Host}
use v9_worker.Model.{
  ComponentPath, ExecutionMethod, ActivateRequest, ActivationStatus, DeactivateRequest,
  DeactivationStatus, path_eq,
}
use v9_worker.Statics.{on_world}
use v9_worker.Logs.{LogPolicy, new_tracker, fetch_add}
use v9_worker.Isolation.Stopping.{stopped, processes_of, drop_process-processes}
use v9_worker.Base.{ap, ◌∙◌}
use v9_worker.Isolation.{new_wrapper, new_controller}
use v9_worker.Platform.{Platform}
use v9_worker.Stats.{default_tracker}
use v9_worker.Component.{
  ◌>>=◌, IsolatedProcessWrapper, ComponentHandle, ComponentManager, Shared, find,
}
use v9_worker.Component.Active.{
  failed, ActivateResponse, DeactivateResponse, Attempt, added, activate_found, deactivate_found,
  new_handle, handle_from, activate, activate_read, deactivate,
}
use v9_worker.Component.Table.{find-without, find-append_new}

module _ {W : Type 0} (host : Host W) where
  open host use {env, debug, patterns, is_linux}

  new_controller-Runs :
      (method : ExecutionMethod) (executable_file : Text) (w : W)
      → Completes (new_controller host method executable_file) w (λ _ _. Unit)
  unfolding new_controller
  new_controller-Runs ExecutionMethod.containerized_script executable_file w =
      Runs-if is_linux _ _ _ _ (λ _. Runs-pure _ _ _ tt) (λ _. Runs-raise _ _ _)
  new_controller-Runs ExecutionMethod.docker_archive executable_file w =
      Runs-if is_linux _ _ _ _
        (λ _.
          Runs-bind _ _ _ _ _ (load_docker_image-Runs env debug patterns executable_file w)
            λ _ _ _. Runs-pure _ _ _ tt)
        (λ _. Runs-raise _ _ _)
  new_controller-Runs ExecutionMethod.python_unsafe executable_file w = Runs-pure _ _ _ tt

  pub new_wrapper-Runs :
      (request : ActivateRequest) (w : W)
      → Completes (new_wrapper host request) w (λ wrapper _. wrapper.process_handle ≡ none)
  unfolding new_wrapper
  new_wrapper-Runs request w =
      Runs-bind _ _ _ _ _ (new_controller-Runs request.execution_method request.executable_file w)
        λ controller w1 _. Runs-run _ _ _ _ _ _ refl (Runs-pure _ _ _ refl)

-- A component that was just activated by a request: no process, no log, no calls, color grey.
pub record IsFresh (request : ActivateRequest) (handle : ComponentHandle) : Type 0 where
  pub id : handle.id ≡ request.id
  pub no_process : handle.component_process_wrapper.process_handle ≡ none
  pub no_log : handle.log_tracker.policy_handle ≡ LogPolicy.ignore
  pub no_calls : handle.stat_tracker ≡ default_tracker

module _ {F W : Type 0} (platform : Platform F W) where
  open platform use {host}

  -- What `new_handle` makes of the outcome of `IsolatedProcessWrapper::new`.
  abbrev Made : ActivateRequest → Outcome IsolatedProcessWrapper → Outcome ComponentHandle → Type 0
  Made request (ok wrapper) (ok handle) =
      IsFresh request handle × (wrapper ≡ handle.component_process_wrapper)
  Made request (err e) (err shown) = e ≡ shown
  Made request _ _ = ⊥

  handle_from-Made :
      (request : ActivateRequest) (o : Outcome IsolatedProcessWrapper) (u : Shared W)
      → Stops {S = Shared W} (λ _ _. ⊥) o u
      → ((wrapper : IsolatedProcessWrapper) → o ≡ ok wrapper → wrapper.process_handle ≡ none)
      → Made request o (handle_from platform request (o, u)).0
  unfolding handle_from new_tracker fetch_add ◌>>=◌
  handle_from-Made request (ok wrapper) u e h =
      (record { id = refl; no_process = h wrapper refl; no_log = refl; no_calls = refl }, refl)
  handle_from-Made request (err k) u e h = refl
  handle_from-Made request panic u e h = e
  handle_from-Made request out_of_fuel u e h = e

  new_handle-Made :
      (request : ActivateRequest) (s : Shared W)
      → Made request (new_wrapper host request s.world).0 (new_handle platform request s).0
  unfolding new_handle on_world
  new_handle-Made request s =
      let r = new_wrapper-Runs host request s.world in
      handle_from-Made request (new_wrapper host request s.world).0 _
        (Stops-map (λ _ _. ⊥) (λ _ _. ⊥) (new_wrapper host request s.world).0
          (new_wrapper host request s.world).1 (on_world (new_wrapper host request) s).1 (λ _ e. e)
          r.ends)
        r.post

  -- What became of an activation, by its answer.
  pub data Activated (request : Attempt ActivateRequest) (before : ComponentManager × Shared W)
      (resp : ActivateResponse) (after : ComponentManager × Shared W) : Type 0 where
    unread :
        (message : Text)
        → request ≡ failed message
        → resp ≡ record { result = ActivationStatus.invalid_request; dbg_message = message }
        → after ≡ before
        → Activated request before resp after
    already :
        (r : ActivateRequest) (handle : ComponentHandle)
        → request ≡ done r
        → find r.id.path before.0.active_components ≡ some handle
        → resp.result ≡ ActivationStatus.already_running
        → after ≡ before
        → Activated request before resp after
    not_started :
        (r : ActivateRequest) (e : WorkerErrorKind)
        → request ≡ done r
        → find r.id.path before.0.active_components ≡ none
        → (new_wrapper host r before.1.world).0 ≡ err e
        → resp ≡ record {
          result = ActivationStatus.failed_to_start;
          dbg_message = to_string host.debug e;
        }
        → after.0 ≡ before.0
        → Activated request before resp after
    started :
        (r : ActivateRequest) (handle : ComponentHandle)
        → request ≡ done r
        → find r.id.path before.0.active_components ≡ none
        → (new_wrapper host r before.1.world).0 ≡ ok handle.component_process_wrapper
        → IsFresh r handle
        → resp.result ≡ ActivationStatus.activation_successful
        → ((path : ComponentPath)
            → find path after.0.active_components ≡ (
                if path_eq r.id.path path
                then some handle
                else find path before.0.active_components))
        → Activated request before resp after

  -- An answer, and what became of it.
  abbrev pub Answered :
      Attempt ActivateRequest
      → ComponentManager × Shared W
      → Outcome ActivateResponse × (ComponentManager × Shared W)
      → Type 0
  Answered request before (o, after) =
      (resp : ActivateResponse) × (o ≡ ok resp) × Activated request before resp after

  added-Answered :
      (request : ActivateRequest) (manager : ComponentManager) (s : Shared W)
      (o : Outcome IsolatedProcessWrapper) (r : Outcome ComponentHandle) (u : Shared W)
      → find request.id.path manager.active_components ≡ none
      → (new_wrapper host request s.world).0 ≡ o
      → Made request o r
      → Answered (done request) (manager, s) (added platform request manager (r, u))
  unfolding added
  added-Answered request manager s (ok wrapper) (ok handle) u absent e (fresh, same) = (
    _,
    refl,
    Activated.started request handle refl absent (e ∙ ap ok same) fresh refl
        (λ path. find-append_new path request.id.path handle manager.active_components absent),
  )
  added-Answered request manager s (err k) (err shown) u absent e same =
      (_, refl, Activated.not_started request shown refl absent (e ∙ ap err same) refl refl)
  added-Answered request manager s (ok wrapper) (err shown) u absent e h = absurd h
  added-Answered request manager s (ok wrapper) panic u absent e h = absurd h
  added-Answered request manager s (ok wrapper) out_of_fuel u absent e h = absurd h
  added-Answered request manager s (err k) (ok handle) u absent e h = absurd h
  added-Answered request manager s (err k) panic u absent e h = absurd h
  added-Answered request manager s (err k) out_of_fuel u absent e h = absurd h
  added-Answered request manager s panic r u absent e h = absurd h
  added-Answered request manager s out_of_fuel r u absent e h = absurd h

  activate_found-Answered :
      (found : Option ComponentHandle) (request : ActivateRequest) (manager : ComponentManager)
      (s : Shared W)
      → find request.id.path manager.active_components ≡ found
      → Answered (done request) (manager, s) (activate_found platform found request (manager, s))
  unfolding activate_found
  activate_found-Answered (some handle) request manager s e =
      (_, refl, Activated.already request handle refl e refl refl)
  activate_found-Answered none request manager s e =
      added-Answered request manager s _ _ _ e refl (new_handle-Made request s)

  -- An activation always answers, and the answer says what became of it. A request that was not read
  -- gives its message back and changes nothing, and neither does one for an active component. Else
  -- the start failed, with the error that the answer shows, and the components are as before; or the
  -- path has a fresh component, with the requested id and no process, and every other path has what
  -- it had.
  pub activate-Activated :
      (request : Attempt ActivateRequest) (manager : ComponentManager) (s : Shared W)
      → Answered request (manager, s) (activate platform request (manager, s))
  unfolding activate activate_read
  activate-Activated (failed message) manager s = (_, refl, Activated.unread message refl refl refl)
  activate-Activated (done request) manager s =
      activate_found-Answered (find request.id.path manager.active_components) request manager s
        refl

  -- What became of a deactivation, by its answer.
  pub data Deactivated (request : Attempt DeactivateRequest) (before : ComponentManager × Shared W)
      (resp : DeactivateResponse) (after : ComponentManager × Shared W) : Type 0 where
    unread :
        (message : Text)
        → request ≡ failed message
        → resp ≡ record { result = DeactivationStatus.invalid_request; dbg_message = message }
        → after ≡ before
        → Deactivated request before resp after
    not_found :
        (r : DeactivateRequest)
        → request ≡ done r
        → find r.id.path before.0.active_components ≡ none
        → resp.result ≡ DeactivationStatus.component_not_found
        → after ≡ before
        → Deactivated request before resp after
    removed :
        (r : DeactivateRequest) (handle : ComponentHandle)
        → request ≡ done r
        → find r.id.path before.0.active_components ≡ some handle
        → resp.result ≡ DeactivationStatus.deactivation_successful
        → ((path : ComponentPath)
            → find path after.0.active_components
              ≡ (if path_eq r.id.path path then none else find path before.0.active_components))
        → after.1.world
          ≡ stopped host
              (processes_of handle.component_process_wrapper.process_handle)
              before.1.world
        → Deactivated request before resp after

  deactivate_found-Deactivated :
      (found : Option ComponentHandle) (request : DeactivateRequest) (manager : ComponentManager)
      (s : Shared W)
      → find request.id.path manager.active_components ≡ found
      → let (resp, after) = deactivate_found platform found request (manager, s) in
        Deactivated (done request) (manager, s) resp after
  unfolding deactivate_found
  deactivate_found-Deactivated none request manager s e =
      Deactivated.not_found request refl e refl refl
  deactivate_found-Deactivated (some handle) request manager s e =
      Deactivated.removed request handle refl e refl
        (λ path. find-without path request.id.path manager.active_components)
        (drop_process-processes host handle.component_process_wrapper.process_handle s.world)

  -- The answer to a deactivation says what became of it. A request that was not read gives its
  -- message back and changes nothing, and neither does one for a path without a component. Else the
  -- component's processes are stopped, its path has no component, and every other path has what it had.
  pub deactivate-Deactivated :
      (request : Attempt DeactivateRequest) (manager : ComponentManager) (s : Shared W)
      → let (resp, after) = deactivate platform request (manager, s) in
        Deactivated request (manager, s) resp after
  unfolding deactivate
  deactivate-Deactivated (failed message) manager s = Deactivated.unread message refl refl refl
  deactivate-Deactivated (done request) manager s =
      deactivate_found-Deactivated (find request.id.path manager.active_components) request manager
        s refl
