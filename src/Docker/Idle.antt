-- ===== src/Docker/Idle.antt =====
-- src/docker/idle_container_creator.rs: containers that are started ahead of time. Populator threads
-- fill a channel, and `get_idle_container` takes from it.
pub mod Fleet
use v9_worker.Base.{
  ℕ, ◌-◌, ◌/◌, Bool, true, false, Option, none, some, [], ◌∷◌, if◌then◌else◌, Text, codes,
}
use v9_worker.Time.{from_secs}
use v9_worker.Errors.{DebugFormat}
use v9_worker.Exec.{pure, modify, ok, Exec, ◌>>=◌, ◌>>◌}
use v9_worker.Env.{Env}
use v9_worker.Pipe.{new_pipe}
use v9_worker.Logs.{ignore}
use v9_worker.Statics.{Statics, on_world, on_failure}
use v9_worker.Docker.{V9Container, Patterns, start, exec_sync, drop_container}

abbrev pub code_folder : Text
code_folder = codes "/home/sl"

abbrev pub container_cache_channel_size : ℕ
container_cache_channel_size = 3

abbrev pub cache_populator_count : ℕ
cache_populator_count = 2

abbrev container_image_tag : Text
container_image_tag = codes "python:3.7-alpine"

abbrev sleep_time : Text
sleep_time = codes "1000000000"

module _ {W : Type 0} (env : Env W) (debug : DebugFormat) (patterns : Patterns) where
  -- The container is dropped if its folder cannot be made.
  unfoldable pub sync_create_container : Exec W V9Container
  sync_create_container = do
    pipe ← new_pipe env debug
    container ←
        start env debug patterns pipe container_image_tag (codes "sleep" ∷ sleep_time ∷ []) ignore
    modify (env.sleep (from_secs 1))
    on_failure (drop_container env debug container)
        (exec_sync env debug container (codes "mkdir" ∷ codes "-p" ∷ code_folder ∷ []))
    pure container

  -- The oldest container of the channel, if the lock is free and the channel holds one.
  unfoldable pub try_recv :
      Bool → Statics V9Container W → Option V9Container × Statics V9Container W
  try_recv false s = (none, s)
  try_recv true s = elim s.channel [
    | [] ↦ (none, s)
    | container ∷ rest ↦ (some container, record s { channel = rest })
  ]

  -- `IdleContainerCreator::get_idle_container`
  unfoldable pub get_idle_container : Exec (Statics V9Container W) V9Container
  get_idle_container s =
      let (free, w) = env.try_lock s.world in
      let (cached, s') = try_recv free (record s { world = w }) in
      elim cached [ some container ↦ (ok container, s') | none ↦ on_world sync_create_container s' ]
