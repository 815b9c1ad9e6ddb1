-- ===== src/Component/Active.antt =====
-- Activation, deactivation and the heartbeat of a `ComponentManager` (src/component/mod.rs).
pub mod Laws
pub mod Beats
use v9_worker.Base.{◌+◌, not, Option, none, some, List, [], ◌∷◌, ◌++◌, if◌then◌else◌, codes}
use v9_worker.Exec.{
  give, pure, ok, err, panic, out_of_fuel, Outcome, Exec, Attempt, done, failed, ◌>>=◌, ◌>>◌,
}
use mathlib.Core.Option
use v9_worker.Model.{
  ComponentPath, ActivateRequest, ActivateResponse, ActivationStatus, DeactivateRequest,
  DeactivateResponse, DeactivationStatus,
}
use v9_worker.Errors.{to_string}
use v9_worker.Statics.{on_world}
use v9_worker.Logs.{new_tracker}
use v9_worker.Isolation.{new_wrapper, drop_process}
use v9_worker.Isolation
use v9_worker.Platform.{Platform}
use v9_worker.Stats.{default_tracker}
use v9_worker.Component.{
  IsolatedProcessWrapper, ComponentHandle, ComponentManager, Shared, find, without,
}

module _ {F W : Type 0} (platform : Platform F W) where
  open platform use {host, http, f64, codec, system}
  open host use {env, debug}

  -- The handle of a component after `IsolatedProcessWrapper::new`.
  unfoldable pub handle_from :
      ActivateRequest
      → Outcome IsolatedProcessWrapper × Shared W
      → Outcome ComponentHandle × Shared W
  handle_from request (o, u) =
      (do
        wrapper ← give o
        tracker ← new_tracker
        pure (record {
          id = request.id;
          component_process_wrapper = wrapper;
          log_tracker = tracker;
          stat_tracker = default_tracker;
        }))
        u

  unfoldable pub new_handle : ActivateRequest → Exec (Shared W) ComponentHandle
  new_handle request s = handle_from request (on_world (new_wrapper host request) s)

  -- `activate` after `IsolatedProcessWrapper::new`.
  unfoldable pub added :
      ActivateRequest
      → ComponentManager
      → Outcome ComponentHandle × Shared W
      → Outcome ActivateResponse × (ComponentManager × Shared W)
  added request manager (ok handle, u) = (
    ok (record {
      result = ActivationStatus.activation_successful;
      dbg_message = codes "successfully activated";
    }),
    (record { active_components = manager.active_components ++ (request.id.path, handle) ∷ [] }, u),
  )
  added request manager (err e, u) = (
    ok (record { result = ActivationStatus.failed_to_start; dbg_message = to_string debug e }),
    (manager, u),
  )
  added request manager (panic, u) = (panic, (manager, u))
  added request manager (out_of_fuel, u) = (out_of_fuel, (manager, u))

  -- `activate`, for a request that was read, with the component that the table has at its path.
  unfoldable pub activate_found :
      Option ComponentHandle → ActivateRequest → Exec (ComponentManager × Shared W) ActivateResponse
  activate_found (some handle) request s = (
    ok (record {
      result = ActivationStatus.already_running;
      dbg_message = codes "already running, redundant request!!";
    }),
    s,
  )
  activate_found none request (manager, s) = added request manager (new_handle request s)

  unfoldable pub activate_read :
      ActivateRequest → Exec (ComponentManager × Shared W) ActivateResponse
  activate_read request (manager, s) =
      activate_found (find request.id.path manager.active_components) request (manager, s)

  unfoldable pub activate :
      Attempt ActivateRequest → Exec (ComponentManager × Shared W) ActivateResponse
  activate (failed message) =
      pure (record { result = ActivationStatus.invalid_request; dbg_message = message })
  activate (done request) = activate_read request

  -- `deactivate`, for a request that was read, with the component that the table has at its path.
  -- The removed component is dropped, and its process with it.
  unfoldable pub deactivate_found :
      Option ComponentHandle
      → DeactivateRequest
      → ComponentManager × Shared W
      → DeactivateResponse × (ComponentManager × Shared W)
  deactivate_found none request s = (
    record {
      result = DeactivationStatus.component_not_found;
      dbg_message = codes "deactivation failed, since the component was not activated";
    },
    s,
  )
  deactivate_found (some handle) request (manager, s) = (
    record {
      result = DeactivationStatus.deactivation_successful;
      dbg_message = codes "deactivation succesful";
    },
    (
      record { active_components = without request.id.path manager.active_components },
      record s {
        world = drop_process host handle.component_process_wrapper.process_handle s.world;
      },
    ),
  )

  unfoldable pub deactivate :
      Attempt DeactivateRequest
      → ComponentManager × Shared W
      → DeactivateResponse × (ComponentManager × Shared W)
  deactivate (failed message) s =
      (record { result = DeactivationStatus.invalid_request; dbg_message = message }, s)
  deactivate (done request) (manager, s) =
      deactivate_found (find request.id.path manager.active_components) request (manager, s)

  -- `ComponentManager::heartbeat`: a component whose lock is taken is left alone.
  unfoldable pub heartbeats :
      List (ComponentPath × ComponentHandle) → W → List (ComponentPath × ComponentHandle) × W
  heartbeats [] w = ([], w)
  heartbeats ((path, handle) ∷ rest) w =
      let (free, w1) = env.try_lock w in
      let (wrapper, w2) =
        (if free
          then Isolation.heartbeat host handle.component_process_wrapper w1
          else (handle.component_process_wrapper, w1)) in
      let (rest', w3) = heartbeats rest w2 in
      ((path, record handle { component_process_wrapper = wrapper }) ∷ rest', w3)
