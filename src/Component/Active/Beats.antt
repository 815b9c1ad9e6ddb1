-- ===== src/Component/Active/Beats.antt =====
-- The heartbeat of the manager, over all components (src/component/mod.rs).
use v9_worker.Base.{◌≡◌, [], ◌∷◌, true, false, Bool-cases, inl, inr}
use v9_worker.Model.{ComponentPath}
use v9_worker.Platform.{Platform}
use v9_worker.Isolation.{IsolatedProcessWrapper}
use v9_worker.Isolation.Lifecycle.{Beaten, heartbeat-Beaten}
use v9_worker.Component.{ComponentHandle}
use v9_worker.Component.Table.{Table}
use v9_worker.Component.Active.{heartbeats}

module _ {F W : Type 0} (platform : Platform F W) where
  open platform use {host}
  open host use {env}

  -- What a heartbeat of the manager does to a table, from one world to another.
  pub data AllBeaten : Table → W → Table → W → Type 0 where
    none_left : {w : W} → AllBeaten [] w [] w
    locked :
        {path : ComponentPath} {handle : ComponentHandle} {rest rest' : Table} {w w' : W}
        → (env.try_lock w).0 ≡ false
        → AllBeaten rest (env.try_lock w).1 rest' w'
        → AllBeaten ((path, handle) ∷ rest) w ((path, handle) ∷ rest') w'
    beaten :
        {path : ComponentPath} {handle : ComponentHandle} {rest rest' : Table} {w w2 w' : W}
        (wrapper : IsolatedProcessWrapper)
        → (env.try_lock w).0 ≡ true
        → Beaten host handle.component_process_wrapper (env.try_lock w).1 wrapper w2
        → AllBeaten rest w2 rest' w'
        → AllBeaten
            ((path, handle) ∷ rest)
            w
            ((path, record handle { component_process_wrapper = wrapper }) ∷ rest')
            w'

  -- A heartbeat of the manager goes through all components. One that is in use by somebody else is
  -- left alone. The processes of any other are stopped exactly if there are any and the last access
  -- is more than ten minutes before the reading of the clock, and nothing else of it changes.
  pub heartbeats-AllBeaten :
      (table : Table) (w : W)
      → let (table', w') = heartbeats platform table w in AllBeaten table w table' w'
  unfolding heartbeats
  heartbeats-AllBeaten [] w = none_left
  heartbeats-AllBeaten ((path, handle) ∷ rest) w = elim (Bool-cases (env.try_lock w).0) [
    | inl free ↦ rw free (
        beaten _ free (heartbeat-Beaten host handle.component_process_wrapper (env.try_lock w).1)
          (heartbeats-AllBeaten rest _))
    | inr busy ↦ rw busy (locked busy (heartbeats-AllBeaten rest _))
  ]
