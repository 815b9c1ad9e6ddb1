-- ===== src/Component/Figures.antt =====
-- What a `ComponentManager` reports: logs and the status (src/component/mod.rs). `show_handle` is the
-- `{:?}` of a component.
use v9_worker.Base.{
  ℕ, ◌+◌, Option, none, some, List, [], ◌∷◌, ◌++◌, ◌==◌, if◌then◌else◌, Text, codes,
}
use v9_worker.Exec.{ok, err, panic, Outcome, Exec, Attempt, done, failed}
use mathlib.Core.Option
use v9_worker.Model.{
  ComponentPath, ComponentLog, ComponentStatus, ComponentStats, LogResponse, StatusResponse,
}
use v9_worker.Errors.{to_string}
use v9_worker.Logs.{get_contents}
use v9_worker.Platform.{Platform}
use v9_worker.Stats.{get_component_stats}
use v9_worker.Component.{ComponentHandle, ComponentManager}

module _ {F W : Type 0} (platform : Platform F W) (show_handle : ComponentHandle → Text) where
  open platform use {host, http, f64, codec, system}
  open host use {env, debug}

  -- `get_component_log`, whose calls into other libraries give a value or an error.
  unfoldable pub log_of : ComponentHandle → ℕ → Outcome (Option Text) → ComponentLog
  log_of handle n (ok log) = record { id = handle.id; dedup_number = n; log = log; error = none }
  log_of handle n (err e) = record {
    id = handle.id;
    dedup_number = n;
    log = none;
    error = some (
        codes "Failure to get logs for component "
        ++ (show_handle handle ++ (codes ", err " ++ to_string debug e)));
  }
  log_of handle n _ = record { id = handle.id; dedup_number = n; log = none; error = none }

  unfoldable pub get_component_log : ComponentHandle → W → ComponentLog × W
  get_component_log handle w =
      let ((n, contents), w') = get_contents env handle.log_tracker w in
      (log_of handle n contents, w')

  unfoldable pub logs_from : List (ComponentPath × ComponentHandle) → W → List ComponentLog × W
  logs_from [] w = ([], w)
  logs_from ((path, handle) ∷ rest) w =
      let (log, w') = get_component_log handle w in
      let (logs, w'') = logs_from rest w' in (log ∷ logs, w'')

  unfoldable pub logs : ComponentManager → W → LogResponse × W
  logs manager w = let (l, w') = logs_from manager.active_components w in (record { logs = l }, w')

  -- `get_component_status`; `none` is a panic in the percentiles.
  unfoldable pub get_component_status :
      ComponentHandle → W → Option (ComponentStatus F) × (ComponentHandle × W)
  get_component_status handle w =
      let (t, w') = env.now w in
      let (stats, tracker) = get_component_stats f64 t handle.stat_tracker in
      (shown stats, (record handle { stat_tracker = tracker }, w'))
    where
      shown : Option (ComponentStats F) → Option (ComponentStatus F)
      shown none = none
      shown (some stats) = some (record { id = handle.id; component_stats = stats })

  -- A component's status before those of the components behind it; a panic ends the request there.
  unfoldable pub shown_before :
      Option (ComponentStatus F)
      → ComponentPath × ComponentHandle
      → List (ComponentPath × ComponentHandle) × W
      → Option (List (ComponentStatus F)) × (List (ComponentPath × ComponentHandle) × W)
      → Option (List (ComponentStatus F)) × (List (ComponentPath × ComponentHandle) × W)
  shown_before none entry (rest, w) below = (none, (entry ∷ rest, w))
  shown_before (some shown) entry (rest, w) (others, (rest', w')) =
      (Option.map (λ l. shown ∷ l) others, (entry ∷ rest', w'))

  -- The statuses of all components, each of which drops its old events.
  unfoldable pub statuses :
      List (ComponentPath × ComponentHandle)
      → W
      → Option (List (ComponentStatus F)) × (List (ComponentPath × ComponentHandle) × W)
  statuses [] w = (some [], ([], w))
  statuses ((path, handle) ∷ rest) w =
      let (status, (handle', w')) = get_component_status handle w in
      shown_before status (path, handle') (rest, w') (statuses rest w')

  -- `unwrap_or(-1.0)`
  unfoldable pub or_unknown : Attempt F → F
  or_unknown (done figure) = figure
  or_unknown (failed message) = f64.minus_one

  unfoldable pub memory_usage : Attempt (ℕ × ℕ) → F
  memory_usage (done (free, total)) =
      f64.sub (f64.from_ℕ 1) (f64.div (f64.from_ℕ free) (f64.from_ℕ total))
  memory_usage (failed message) = f64.minus_one

  -- The packets and the failed packets of all networks; one with no figures is left out.
  unfoldable pub count_packets : List Text → ℕ × ℕ → W → (ℕ × ℕ) × W
  count_packets [] counts w = (counts, w)
  count_packets (name ∷ names) (total, failed_packets) w =
      let (stats, w') = system.network_stats name w in
      elim stats [
        | failed message ↦ count_packets names (total, failed_packets) w'
        | done n ↦
            count_packets names
              (total + n.tx_packets + n.rx_packets, failed_packets + n.tx_errors + n.rx_errors) w'
      ]

  unfoldable pub network_usage : Attempt (ℕ × ℕ) → F
  network_usage (failed message) = f64.minus_one
  network_usage (done (total, failed_packets)) =
      if total == 0 then f64.minus_one else f64.div (f64.from_ℕ failed_packets) (f64.from_ℕ total)

  unfoldable pub packets_data : W → Attempt (ℕ × ℕ) × W
  packets_data w =
      let (networks, w') = system.networks w in
      elim networks [
        | failed message ↦ (failed message, w')
        | done names ↦ let (counts, w'') = count_packets names (0, 0) w' in (done counts, w'')
      ]

  unfoldable pub status : Exec (ComponentManager × W) (StatusResponse F)
  status (manager, w) =
      let (load, w1) = system.load_average w in
      let (memory, w2) = system.memory w1 in
      let (packets, w3) = packets_data w2 in
      let (components, (active, w4)) = statuses manager.active_components w3 in
      (
        elim components [
          | none ↦ panic
          | some l ↦ ok (record {
            cpu_usage = or_unknown (hundredth load);
            memory_usage = memory_usage memory;
            network_usage = network_usage packets;
            active_components = l;
          })
        ],
        (record { active_components = active }, w4),
      )
    where
      hundredth : Attempt F → Attempt F
      hundredth (done one) = done (f64.div one (f64.from_ℕ 100))
      hundredth (failed message) = failed message
