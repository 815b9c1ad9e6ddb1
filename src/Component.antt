-- ===== src/Component.antt =====
-- src/component/mod.rs: the components that are active, and one component behind its lock. The hash
-- map is an association list, the last activated component last; the order of `values` is unspecified in the
-- source.
pub mod Table
pub mod Active
pub mod Figures
pub mod Call
use v9_worker.Base.{◌+◌, ◌/◌, Option, none, some, List, [], ◌∷◌, ◌++◌, if◌then◌else◌, Text, codes}
use v9_worker.Exec.{◌>>=◌, ◌>>◌}
use v9_worker.Model.{ComponentPath, ComponentId, StatusColor, path_eq}
use mathlib.Core.Option
use v9_worker.Statics.{Statics}
use v9_worker.Logs.{LogTracker}
use v9_worker.Docker.{V9Container}
use v9_worker.Isolation.{IsolatedProcessWrapper}
use v9_worker.Isolation
use v9_worker.Stats.{StatTracker}
use v9_worker.Stats

pub record ComponentHandle : Type 0 where
  pub id : ComponentId
  pub component_process_wrapper : IsolatedProcessWrapper
  pub log_tracker : LogTracker
  pub stat_tracker : StatTracker

-- `ComponentManager`, without the handle of the system.
pub record ComponentManager : Type 0 where
  pub active_components : List (ComponentPath × ComponentHandle)

abbrev pub new_manager : ComponentManager
new_manager = record { active_components = [] }

-- What the hash map does: find a key, replace the value of a key, append a pair, remove a key.
unfoldable pub find :
    ComponentPath → List (ComponentPath × ComponentHandle) → Option ComponentHandle
find path [] = none
find path ((key, handle) ∷ rest) = if path_eq key path then some handle else find path rest

unfoldable pub put :
    ComponentPath
    → ComponentHandle
    → List (ComponentPath × ComponentHandle)
    → List (ComponentPath × ComponentHandle)
put path handle [] = []
put path handle ((key, old) ∷ rest) =
    if path_eq key path then (key, handle) ∷ rest else (key, old) ∷ put path handle rest

unfoldable pub without :
    ComponentPath → List (ComponentPath × ComponentHandle) → List (ComponentPath × ComponentHandle)
without path [] = []
without path ((key, handle) ∷ rest) =
    if path_eq key path then without path rest else (key, handle) ∷ without path rest

-- `lookup_component`
abbrev pub lookup_component : ComponentManager → ComponentPath → Option ComponentHandle
lookup_component manager path = find path manager.active_components

-- `join("/")`
unfoldable pub join_slash : List Text → Text
join_slash [] = []
join_slash (s ∷ []) = s
join_slash (s ∷ t ∷ rest) = s ++ (codes "/" ++ join_slash (t ∷ rest))

-- The statics and the world, which all components share.
abbrev pub Shared : Type 0 → Type 0
Shared W = Statics V9Container W

-- `set_color`
abbrev pub set_color : StatusColor → ComponentHandle → ComponentHandle
set_color color handle = record handle { stat_tracker = Stats.set_color color handle.stat_tracker }
