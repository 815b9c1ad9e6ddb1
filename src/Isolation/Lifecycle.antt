-- ===== src/Isolation/Lifecycle.antt =====
-- When a component has a process (src/component/isolation.rs).
use v9_worker.Base.{
  ℕ, ◌+◌, ◌-◌, ◌≤◌, ◌<◌, ◌≡◌, refl, inl, inr, Option, none, some, arith, ltb, Bool-cases,
  Option-cases, Text,
}
use v9_worker.Errors.{WorkerErrorKind}
use v9_worker.Exec.{ok, err, panic, out_of_fuel, Outcome}
use v9_worker.Host.{Host}
use v9_worker.Statics.{Statics}
use v9_worker.Docker.{V9Container}
use v9_worker.Logs.{LogTracker}
use v9_worker.Isolation.Stopping.{processes, stopped, drop_handle-processes}
use v9_worker.Base.{ap, sym, subst, ◌∙◌}
use v9_worker.Isolation.{
  query_handle, Called, answered, query_booted, Controller, IsolatedProcessWrapper, Handle,
  query_process, ensure_process, heartbeat, expiry_duration,
}

-- Ten minutes, in nanoseconds.
abbrev pub ten_minutes : ℕ
ten_minutes = 600_000_000_000

module _ {W : Type 0} (host : Host W) where
  open host use {env}

  -- A method that came to neither a value nor an error.
  abbrev pub IsStuck : {A : Type 0} → Outcome A → Type 0
  IsStuck (ok a) = ⊥
  IsStuck (err e) = ⊥
  IsStuck _ = Unit

  -- The process for a call: the one there is, or a new one.
  abbrev pub Booted : Option Handle → Outcome Handle → Type 0
  Booted (some handle) o = o ≡ ok handle
  Booted none o = Unit

  -- What a call to a wrapper leaves, where `boot` is its process and what came with it.
  pub data Settled (req : Text) (accessed : IsolatedProcessWrapper)
      (boot : Outcome Handle × (LogTracker × Statics V9Container W))
      (r : Outcome Text × Called host) : Type 0 where
    not_booted :
        (e : WorkerErrorKind)
        → boot.0 ≡ err e
        → accessed.process_handle ≡ none
        → r ≡ (err e, (accessed, boot.1.0, boot.1.1))
        → Settled req accessed boot r
    replied :
        (handle kept : Handle) (resp : Text)
        → boot.0 ≡ ok handle
        → (query_handle host req (handle, boot.1.1.world)).0 ≡ ok resp
        → r.0 ≡ ok resp
        → r.1.0 ≡ record accessed { process_handle = some kept }
        → kept ≡ (query_handle host req (handle, boot.1.1.world)).1.0
        → processes kept ≡ processes handle
        → r.1.2.world ≡ (query_handle host req (handle, boot.1.1.world)).1.1
        → Settled req accessed boot r
    failed :
        (handle : Handle) (e : WorkerErrorKind)
        → boot.0 ≡ ok handle
        → (query_handle host req (handle, boot.1.1.world)).0 ≡ err e
        → r.0 ≡ err e
        → r.1.0 ≡ record accessed { process_handle = none }
        → r.1.2.world
          ≡ stopped host (processes handle) (query_handle host req (handle, boot.1.1.world)).1.1
        → Settled req accessed boot r
    no_process : IsStuck boot.0 → IsStuck r.0 → Settled req accessed boot r
    no_reply :
        (handle : Handle)
        → boot.0 ≡ ok handle
        → IsStuck (query_handle host req (handle, boot.1.1.world)).0
        → IsStuck r.0
        → Settled req accessed boot r

  -- A query does not change the processes of a handle.
  query_handle-processes :
      (req : Text) (handle : Handle) (w : W)
      → processes (query_handle host req (handle, w)).1.0 ≡ processes handle
  unfolding query_handle
  query_handle-processes req (Handle.piped subprocess pipe) w = refl
  query_handle-processes req (Handle.containerized container none) w = refl
  query_handle-processes req (Handle.containerized container (some helper)) w = refl

  answered-Settled :
      (req : Text) (accessed : IsolatedProcessWrapper) (handle : Handle) (tracker : LogTracker)
      (s : Statics V9Container W) (o : Outcome Text) (next : Handle × W)
      → query_handle host req (handle, s.world) ≡ (o, next)
      → processes next.0 ≡ processes handle
      → Settled req accessed (ok handle, (tracker, s)) (answered host accessed tracker s (o, next))
  unfolding answered
  answered-Settled req accessed handle tracker s (ok resp) (kept, w) e same =
      Settled.replied handle kept resp refl (ap (λ r. r.0) e) refl refl (ap (λ r. r.1.0) (sym e))
        same (ap (λ r. r.1.1) (sym e))
  answered-Settled req accessed handle tracker s (err k) (kept, w) e same =
      Settled.failed handle k refl (ap (λ r. r.0) e) refl refl (
        drop_handle-processes host kept w
        ∙ ap (λ l. stopped host l w) same
        ∙ ap (stopped host (processes handle)) (ap (λ r. r.1.1) (sym e)))
  answered-Settled req accessed handle tracker s panic (kept, w) e same =
      Settled.no_reply handle refl (subst IsStuck (ap (λ r. r.0) (sym e)) tt) tt
  answered-Settled req accessed handle tracker s out_of_fuel (kept, w) e same =
      Settled.no_reply handle refl (subst IsStuck (ap (λ r. r.0) (sym e)) tt) tt

  query_booted-Settled :
      (req : Text) (accessed : IsolatedProcessWrapper) (o : Outcome Handle)
      (u : LogTracker × Statics V9Container W)
      → ((e : WorkerErrorKind) → o ≡ err e → accessed.process_handle ≡ none)
      → Settled req accessed (o, u) (query_booted host req accessed o u)
  unfolding query_booted
  query_booted-Settled req accessed (ok handle) u h =
      answered-Settled req accessed handle u.0 u.1 (query_handle host req (handle, u.1.world)).0
        (query_handle host req (handle, u.1.world)).1 refl
        (query_handle-processes req handle u.1.world)
  query_booted-Settled req accessed (err e) u h = Settled.not_booted e refl (h e refl) refl
  query_booted-Settled req accessed panic u h = Settled.no_process tt tt
  query_booted-Settled req accessed out_of_fuel u h = Settled.no_process tt tt

  -- Only the start of a new process can fail.
  ensure_process-Booted :
      (running : Option Handle) (c : Controller) (u : LogTracker × Statics V9Container W)
      → Booted running (ensure_process host running c u).0
        × ((e : WorkerErrorKind) → (ensure_process host running c u).0 ≡ err e → running ≡ none)
  unfolding ensure_process
  ensure_process-Booted none c u = (tt, λ e h. refl)
  ensure_process-Booted (some handle) c u = (refl, λ e h. cc)

  -- A query counts as an access, and a process that there is is used for it. After a response the
  -- wrapper has the same processes, for the next query. After an error it has none, so that the next
  -- query starts afresh, and the processes that were asked have been stopped after the query; if the
  -- start of a process failed, there was none before. The outcome is the one of the start or of the
  -- query of the process, and it has neither response nor error only if one of these has none.
  pub query_process-Settled :
      (req : Text) (wrapper : IsolatedProcessWrapper) (tracker : LogTracker)
      (s : Statics V9Container W)
      → let (t, w) = env.now s.world in
        let boot =
          ensure_process host wrapper.process_handle wrapper.isolation_controller
            (tracker, record s { world = w }) in
        Booted wrapper.process_handle boot.0
        × Settled req
            (record wrapper { last_accessed = t })
            boot
            (query_process host req (wrapper, tracker, s))
  unfolding query_process
  query_process-Settled req wrapper tracker s =
      let b =
        ensure_process-Booted wrapper.process_handle wrapper.isolation_controller
          (tracker, record s { world = (env.now s.world).1 }) in
      (
        b.0,
        query_booted-Settled req (record wrapper { last_accessed = (env.now s.world).0 }) _ _ b.1,
      )

  -- What a heartbeat does to a wrapper, where t is the reading of the clock and w1 the world after it.
  pub data Beaten (wrapper : IsolatedProcessWrapper) (w : W) (wrapper' : IsolatedProcessWrapper)
      (w' : W) : Type 0 where
    idle :
        wrapper.process_handle ≡ none → wrapper' ≡ wrapper → w' ≡ w → Beaten wrapper w wrapper' w'
    expired :
        (handle : Handle)
        → wrapper.process_handle ≡ some handle
        → wrapper.last_accessed + ten_minutes < (env.now w).0
        → wrapper' ≡ record wrapper { process_handle = none }
        → w' ≡ stopped host (processes handle) (env.now w).1
        → Beaten wrapper w wrapper' w'
    in_use :
        (handle : Handle)
        → wrapper.process_handle ≡ some handle
        → (env.now w).0 ≤ wrapper.last_accessed + ten_minutes
        → wrapper' ≡ wrapper
        → w' ≡ (env.now w).1
        → Beaten wrapper w wrapper' w'

  -- A heartbeat stops the processes of a component exactly if there are any and the last access is
  -- more than ten minutes before the reading of the clock, and leaves everything else of it; without
  -- a process it does not even read the clock.
  pub heartbeat-Beaten :
      (wrapper : IsolatedProcessWrapper) (w : W)
      → let (wrapper', w') = heartbeat host wrapper w in Beaten wrapper w wrapper' w'
  unfolding heartbeat
  heartbeat-Beaten wrapper w = elim (Option-cases wrapper.process_handle) [
    | inl e ↦ Beaten.idle e (ground arith) (ground arith)
    | inr (handle, e) ↦
        elim (Bool-cases (ltb expiry_duration ((env.now w).0 - wrapper.last_accessed))) [
          | inl late ↦
              Beaten.expired handle e (ground arith) (ground arith)
                (ground (arith, drop_handle-processes host handle (env.now w).1))
          | inr early ↦ Beaten.in_use handle e (ground arith) (ground arith) (ground arith)
        ]
  ]
