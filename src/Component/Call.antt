-- ===== src/Component/Call.antt =====
-- A call of one component (src/component/mod.rs).
pub mod Laws
use v9_worker.Base.{
  ℕ, ◌-◌, ◌^◌, Option, none, some, List, [], ◌∷◌, ltb, if◌then◌else◌, Text, length,
}
use v9_worker.Time.{as_millis}
use v9_worker.Exec.{pure, give, raise, modify, unwrap, zoom, ok, Exec, from_attempt, ◌>>=◌, ◌>>◌}
use mathlib.Core.Option
use v9_worker.Model.{ComponentRequest, ComponentResponse}
use v9_worker.Errors.{integer_conversion, internal_json_handling}
use v9_worker.Http.{Method, Response, method_name, build}
use v9_worker.Isolation.{query_process}
use v9_worker.Isolation
use v9_worker.Pipe.{from_utf8}
use v9_worker.Platform.{Platform}
use v9_worker.Stats.{add_stat_event}
use v9_worker.Component.{ComponentHandle, Shared, join_slash}

module _ {F W : Type 0} (platform : Platform F W) where
  open platform use {host, http, f64, codec, system}
  open host use {env, debug}

  abbrev now : Exec W ℕ
  now w = let (t, w') = env.now w in (ok t, w')

  -- `try_into` of a larger integer to one of so many bits.
  unfoldable pub try_into : {S : Type 0} → ℕ → ℕ → Exec S ℕ
  try_into bits n = if ltb n (2 ^ bits) then pure n else raise (integer_conversion debug.int_error)

  -- On the world, and on the process and the log of a component.
  unfoldable pub in_world : {A : Type 0} → Exec W A → Exec (ComponentHandle × Shared W) A
  in_world = zoom (λ s. s.1.world) (λ w s. (s.0, record (s.1) { world = w }))

  unfoldable pub call_process : Text → Exec (ComponentHandle × Shared W) Text
  call_process req =
      zoom (λ s. (s.0.component_process_wrapper, s.0.log_tracker, s.1))
        (λ t s. (record (s.0) { component_process_wrapper = t.0; log_tracker = t.1 }, t.2))
        (query_process host req)

  -- The text of an error that the component reports, unless there is none or it is empty.
  abbrev pub reported : Option Text → Option Text
  reported none = none
  reported (some []) = none
  reported (some (c ∷ cs)) = some (c ∷ cs)

  -- The answer to a response with no error, and its entry in the statistics.
  unfoldable pub answer : ℕ → ℕ → Text → Exec (ComponentHandle × Shared W) Response
  answer started resp_code resp_body = do
    resp ← unwrap (build http resp_code resp_body)
    t ← in_world now
    duration_ms ← try_into 32 (as_millis (t - started))
    response_bytes ← try_into 32 (length resp_body)
    pushed ← in_world now
    popped ← in_world now
    modify (λ s. (
      record (s.0) {
        stat_tracker = add_stat_event pushed popped duration_ms response_bytes s.0.stat_tracker;
      },
      s.1,
    ))
    pure resp

  -- The answer by the error that the component reports, if it does; it is no event then.
  unfoldable pub answer_or : Option Text → ℕ → ℕ → Text → Exec (ComponentHandle × Shared W) Response
  answer_or (some m) started resp_code resp_body = unwrap (build http resp_code m)
  answer_or none started resp_code resp_body = answer started resp_code resp_body

  -- What becomes of a response that was read.
  unfoldable pub respond : ℕ → ComponentResponse → Exec (ComponentHandle × Shared W) Response
  respond started response = do
    resp_code ← try_into 16 response.http_response_code
    answer_or (reported response.error_message) started resp_code response.response_body

  unfoldable pub handle_component_call :
      Text → Method → List Text → Text → Text → Exec (ComponentHandle × Shared W) Response
  handle_component_call component_method http_verb additional_path_components query body = do
    started ← in_world now
    let request : ComponentRequest = record {
      called_function = component_method;
      http_method = method_name http_verb;
      path = join_slash additional_path_components;
      request_arguments = query;
      request_body = body;
    }
    serialized_request ←
        give (from_attempt internal_json_handling (codec.write_component_request request))
    encoded_response ← call_process (codec.percent_encode serialized_request)
    serialized_response ← from_utf8 env debug (codec.percent_decode encoded_response)
    response ←
        give
          (from_attempt internal_json_handling (codec.read_component_response serialized_response))
    respond started response
