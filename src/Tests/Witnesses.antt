-- ===== src/Tests/Witnesses.antt =====
-- The theorems that have hypotheses or parameters, at concrete values.
use v9_worker.Component.Active.{heartbeats}
use v9_worker.Component.Active.Beats.{AllBeaten, heartbeats-AllBeaten}
use v9_worker.Utf8.{is_utf8}
use v9_worker.Isolation.{ensure_process}
use v9_worker.Isolation.Lifecycle.{Booted, Settled, query_process-Settled}
use v9_worker.Component.Active.Laws.{
  Answered, activate-Activated, Deactivated, deactivate-Deactivated,
}
use v9_worker.Handler.Entry.{AreTexts, entrypoint-worker_404, global_request_entrypoint}
use v9_worker.Base.{
  text_eq, ℕ, ◌≡◌, refl, ◌↔◌, inr, ◌+◌, ◌^◌, ◌<◌, ◌≤◌, List, [], ◌∷◌, map, none, some, arith, Text,
  codes, length, if◌then◌else◌, false,
}
use mathlib.Core.List.{flatten}
use v9_worker.Exec.{ok, err, panic, done, Attempt}
use v9_worker.Http.{Response, get}
use v9_worker.Errors.{path_not_found, into_response}
use v9_worker.Errors.Router.{into_response_lem, IsWorker404, IsPathNotFound}
use v9_worker.Stats.{
  StatEvent, default_tracker, default_stat_window, pop_old_events, calculate_latency_percentiles,
}
use v9_worker.Stats.Window.{Op, call, paint, run, history, recent, window-run}
use v9_worker.Stats.Shares.{Shares}
use v9_worker.Stats.Percentiles.{latencies, mean, percentiles-Shares}
use v9_worker.Docker.Idle.{container_cache_channel_size, cache_populator_count}
use v9_worker.Docker.Idle.Fleet
use v9_worker.Docker.{V9Container}
use v9_worker.Model.{path_eq, StatusColor, ComponentPath, ComponentResponse}
use v9_worker.Logs.{LogTracker, LogPolicy}
use v9_worker.Isolation.{IsolatedProcessWrapper, Controller, Handle, query_process}
use v9_worker.Component.{ComponentHandle, ComponentManager, new_manager, find}
use v9_worker.Component.Active.{activate, deactivate}
use v9_worker.Component.Call.{respond}
use v9_worker.Component.Call.Laws.{respond-panic_iff}
use v9_worker.Handler.{path_components, route_of, handle, split_slash}
use v9_worker.Handler.Colors.{ColorAfter, handle_call-ColorAfter}
use v9_worker.Handler.{handle_call}
use v9_worker.Handler.Routes.{IsNowhere, handle-not_found}
use v9_worker.Handler.Entry.{read_body, read_body_iff}
use v9_worker.Tests.World.{
  world_debug, world_http, world_http_laws, start, whole, world_host, world_platform, world_shared,
  activate_hello, deactivate_hello, hello, hello_id,
}

into_response_lem_example :
    (r : Response) × (into_response world_debug world_http (path_not_found (codes "sl/a")) ≡ some r)
    × (r.status ≡ 404)
    × (IsWorker404 r ↔ IsPathNotFound (path_not_found (codes "sl/a")))
into_response_lem_example =
    into_response_lem world_debug world_http world_http_laws (path_not_found (codes "sl/a"))

-- Two calls at 1 s and 200 s, and a color between them.
abbrev two_calls : List Op
two_calls =
    call 1000000000 1000000000 30 512
    ∷ paint StatusColor.green
    ∷ call 200000000000 200000000001 50 100
    ∷ []

window-run_example :
    (pop_old_events 400000000000 (run default_tracker two_calls)).event_deque
    ≡ recent default_stat_window 400000000000 (history two_calls)
window-run_example =
    window-run two_calls 400000000000
      (omega arith, omega arith, (omega arith, omega arith, omega arith))

abbrev three_events : List StatEvent
three_events =
    record { at = 1; duration_ms = 30; response_bytes = 1 }
    ∷ record { at = 2; duration_ms = 10; response_bytes = 1 }
    ∷ record { at = 3; duration_ms = 20; response_bytes = 1 }
    ∷ []

percentiles-Shares_example :
    (bs : List (List ℕ)) × Shares (latencies three_events) bs
    × (calculate_latency_percentiles whole three_events ≡ some (map (mean whole) bs))
percentiles-Shares_example = percentiles-Shares whole three_events (omega arith)

abbrev some_container : V9Container
some_container = record {
  named_pipe = record {
    root_folder = codes "/tmp/v9";
    component_input_fifo_path = codes "/tmp/v9/IN";
    component_output_fifo_path = codes "/tmp/v9/OUT";
    component_input_fifo_file = none;
    component_output_fifo_file = none;
  };
  docker_container_name = codes "v9_1";
  docker_run_process = 2;
}

-- The first thread has sent a container, and the second holds one.
abbrev one_sent : Fleet.Fleet
one_sent = record {
  channel = some_container ∷ [];
  populators = Fleet.creating ∷ Fleet.sending some_container ∷ [];
}

one_sent-Reach : Fleet.Reach Fleet.new_fleet one_sent
one_sent-Reach =
    Fleet.next
      {t = record {
        channel = some_container ∷ [];
        populators = Fleet.creating ∷ Fleet.creating ∷ [];
      }}
      (Fleet.next
        {t = record {
          channel = [];
          populators = Fleet.sending some_container ∷ Fleet.creating ∷ [];
        }}
        (Fleet.next Fleet.start (Fleet.created some_container refl Fleet.here))
        (Fleet.sent some_container (omega arith) refl Fleet.here))
      (Fleet.created some_container refl (Fleet.there Fleet.here))

idle_bound_example :
    (length one_sent.channel ≤ container_cache_channel_size)
    × (length (Fleet.idle one_sent) ≤ container_cache_channel_size + cache_populator_count)
idle_bound_example = Fleet.idle_bound one_sent-Reach

abbrev idle_tracker : LogTracker
idle_tracker = record { dedup_number = 1; policy_handle = LogPolicy.ignore }

abbrev running : IsolatedProcessWrapper
running = record {
  isolation_controller = Controller.archive (codes "tag");
  process_handle = some (Handle.containerized some_container none);
  last_accessed = 1;
}

abbrev hello_handle : ComponentHandle
hello_handle = record {
  id = hello_id;
  component_process_wrapper = running;
  log_tracker = idle_tracker;
  stat_tracker = default_tracker;
}

abbrev one_active : ComponentManager
one_active = record { active_components = (hello, hello_handle) ∷ [] }

abbrev odd_response : ComponentResponse
odd_response = record { response_body = codes "x"; http_response_code = 99; error_message = none }

respond-panic_iff_example :
    ((respond world_platform 0 odd_response (hello_handle, world_shared)).0 ≡ panic)
    ↔ ((99 < 2 ^ 16) × (world_http.is_status 99 ≡ false))
respond-panic_iff_example =
    respond-panic_iff world_platform 0 odd_response hello_handle world_shared

stats-IsNowhere : IsNowhere one_active (path_components (codes "/meta/stats"))
unfolding path_components split_slash route_of text_eq
stats-IsNowhere = inr refl

handle-not_found_example :
    handle world_platform
      (λ _. codes "handle")
      get
      (codes "/meta/stats")
      []
      []
      (one_active, world_shared)
    ≡ (err (path_not_found (codes "meta/stats")), (one_active, world_shared))
handle-not_found_example =
    handle-not_found world_platform (λ _. codes "handle") get (codes "meta/stats") [] [] one_active
      world_shared stats-IsNowhere

-- The two bytes of one letter, in two chunks.
abbrev split_letter : List (Attempt Text)
split_letter = done (195 ∷ []) ∷ done (169 ∷ []) ∷ []

read_body_iff_example :
    (read_body world_platform (λ _. codes "handle") [] split_letter ≡ ok (195 ∷ 169 ∷ []))
    ↔ ((ts : List Text) × AreTexts split_letter ts × (195 ∷ 169 ∷ [] ≡ flatten ts))
read_body_iff_example =
    read_body_iff world_platform (λ _. codes "handle") (195 ∷ 169 ∷ []) split_letter

abbrev good_response : ComponentResponse
good_response = record {
  response_body = codes "hi";
  http_response_code = 200;
  error_message = none;
}

find-hello : find hello one_active.active_components ≡ some hello_handle
unfolding find path_eq text_eq
find-hello = refl

handle_call-ColorAfter_example :
    let (o, (manager', s')) =
      handle_call world_platform
        (λ _. codes "handle")
        get
        (codes "ann")
        (codes "hello")
        (codes "f")
        []
        []
        []
        (one_active, world_shared) in
    (handle' : ComponentHandle) × ColorAfter world_http world_http_laws o
      handle'.stat_tracker.current_color
    × ((path : ComponentPath)
        → find path manager'.active_components
          ≡ (if path_eq hello path then some handle' else find path one_active.active_components))
handle_call-ColorAfter_example =
    handle_call-ColorAfter world_platform (λ _. codes "handle") world_http_laws get (codes "ann")
      (codes "hello") (codes "f") [] [] [] one_active world_shared hello_handle find-hello

query_process-Settled_example :
    let boot =
      ensure_process world_host running.process_handle running.isolation_controller
        (idle_tracker, record world_shared { world = start }) in
    Booted world_host running.process_handle boot.0
    × Settled world_host
        (codes "hi")
        (record running { last_accessed = 5 })
        boot
        (query_process world_host (codes "hi") (running, idle_tracker, world_shared))
query_process-Settled_example =
    query_process-Settled world_host (codes "hi") running idle_tracker world_shared

heartbeats-AllBeaten_example :
    let (table', w') = heartbeats world_platform one_active.active_components start in
    AllBeaten world_platform one_active.active_components start table' w'
heartbeats-AllBeaten_example =
    heartbeats-AllBeaten world_platform one_active.active_components start

activate-Activated_example :
    Answered world_platform
      (done activate_hello)
      (new_manager, world_shared)
      (activate world_platform (done activate_hello) (new_manager, world_shared))
activate-Activated_example =
    activate-Activated world_platform (done activate_hello) new_manager world_shared

deactivate-Deactivated_example :
    let (resp, after) =
      deactivate world_platform (done deactivate_hello) (one_active, world_shared) in
    Deactivated world_platform (done deactivate_hello) (one_active, world_shared) resp after
deactivate-Deactivated_example =
    deactivate-Deactivated world_platform (done deactivate_hello) one_active world_shared

two_letters : AreTexts (done (codes "a") ∷ done (codes "b") ∷ []) (codes "a" ∷ codes "b" ∷ [])
unfolding is_utf8
two_letters = (refl, refl, (refl, refl, tt))

entrypoint-worker_404_example :
    global_request_entrypoint world_platform
      (λ _. codes "handle")
      (codes "panicked")
      get
      (codes "/meta/stats")
      none
      (done (codes "a") ∷ done (codes "b") ∷ [])
      (one_active, world_shared)
    ≡ (ok (record { status = 404; body = codes "v9: worker 404" }), (one_active, world_shared))
entrypoint-worker_404_example =
    entrypoint-worker_404 world_platform (λ _. codes "handle") (codes "panicked") get
      (codes "meta/stats") none (done (codes "a") ∷ done (codes "b") ∷ [])
      (codes "a" ∷ codes "b" ∷ []) one_active world_shared two_letters stats-IsNowhere
