-- ===== src/Component/Call/Laws.antt =====
-- What becomes of a component's response (`handle_component_call` of src/component/mod.rs).
use v9_worker.Base.{◌-◌, ℕ, ◌<◌, ◌^◌, ◌≡◌, ◌↔◌, false, some, none, arith, Option, Text}
use v9_worker.Exec.{panic, ◌>>=◌}
use v9_worker.Platform.{Platform}
use v9_worker.Model.{ComponentResponse}
use v9_worker.Time.{as_millis}
use v9_worker.Exec.{Outcome, ok}
use v9_worker.Stats.Popping.{Pushed}
use v9_worker.Stats.{StatEvent}
use v9_worker.Http.{Response}
use v9_worker.Base.{length}
use v9_worker.Component.{ComponentHandle, Shared}
use v9_worker.Component.Call.{respond, answer_or, answer, try_into, in_world, reported}

module _ {F W : Type 0} (platform : Platform F W) where
  open platform use {http, host}

  answer_or-panic_iff :
      (message : Option Text) (started resp_code : ℕ) (resp_body : Text)
      (s : ComponentHandle × Shared W)
      → ((answer_or platform message started resp_code resp_body s).0 ≡ panic)
        ↔ (http.is_status resp_code ≡ false)
  unfolding answer_or answer try_into in_world ◌>>=◌
  answer_or-panic_iff (some m) started resp_code resp_body s = ground arith
  answer_or-panic_iff none started resp_code resp_body s = ground arith

  -- A response makes the worker panic exactly if its code fits in 16 bits and is no HTTP status.
  pub respond-panic_iff :
      (started : ℕ) (response : ComponentResponse) (handle : ComponentHandle) (s : Shared W)
      → ((respond platform started response (handle, s)).0 ≡ panic) ↔ (
          (response.http_response_code < 2 ^ 16)
          × (http.is_status response.http_response_code ≡ false))
  unfolding respond try_into ◌>>=◌
  respond-panic_iff started response handle s = ground (
    arith,
    answer_or-panic_iff (reported platform response.error_message) started
        response.http_response_code response.response_body (handle, s),
  )

  -- The three readings of the clock at the end of a call, of its duration, of the event, and of what
  -- is too old.
  abbrev pub finish : W → ℕ × W
  finish w = host.env.now w

  abbrev pub pushing : W → ℕ × W
  pushing w = host.env.now (finish w).1

  abbrev pub popping : W → ℕ × W
  popping w = host.env.now (pushing w).1

  -- The event of a call that began at `started`.
  abbrev pub event_of : ℕ → Text → W → StatEvent
  event_of started resp_body w = record {
    at = (pushing w).0;
    duration_ms = as_millis ((finish w).0 - started);
    response_bytes = length resp_body;
  }

  -- The end of a call: an error that the component reports is the text of the response, and no
  -- event; any other response has the component's text, and its event is the last of the queue.
  pub data Responded (started : ℕ) (response : ComponentResponse) (before : ComponentHandle) (w : W)
      (resp : Response) (after : ComponentHandle) : Type 0 where
    error_shown :
        (m : Text)
        → reported platform response.error_message ≡ some m
        → resp ≡ record { status = response.http_response_code; body = m }
        → after ≡ before
        → Responded started response before w resp after
    counted :
        reported platform response.error_message ≡ none
        → resp ≡ record { status = response.http_response_code; body = response.response_body }
        → Pushed
            ((popping w).0 - before.stat_tracker.stat_window)
            before.stat_tracker.event_deque
            (event_of started response.response_body w)
            after.stat_tracker.event_deque
        → after ≡ record before {
          stat_tracker = record (before.stat_tracker) {
            event_deque = after.stat_tracker.event_deque;
          };
        }
        → Responded started response before w resp after

  -- A call that ends in a response.
  abbrev pub PassedOn :
      ℕ
      → ComponentResponse
      → ComponentHandle
      → W
      → Outcome Response × (ComponentHandle × Shared W)
      → Type 0
  PassedOn started response before w (o, (after, s')) =
      (resp : Response) × (o ≡ ok resp) × Responded started response before w resp after
