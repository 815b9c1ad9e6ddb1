-- ===== src/Statics.antt =====
-- The statics of the program beside the world: DEDUP_COUNTER of src/component/logs.rs, and the
-- channel of GLOBAL_IDLE_CONTAINER_CREATOR in src/docker/idle_container_creator.rs, with what stands
-- in it of a type C.
use v9_worker.Base.{ℕ, List}
use v9_worker.Exec.{zoom, ok, Exec}

pub record Statics (C W : Type 0) : Type 0 where
  pub dedup_counter : ℕ
  pub channel : List C
  pub world : W

module _ {C W : Type 0} where
  -- On the world alone.
  unfoldable pub on_world : {A : Type 0} → Exec W A → Exec (Statics C W) A
  on_world = zoom (λ s. s.world) (λ w s. record s { world = w })

-- A value's destructor runs if the method that owns it fails.
unfoldable pub on_failure : {S A : Type 0} → (S → S) → Exec S A → Exec S A
on_failure clean m s = let (o, t) = m s in elim o [ ok a ↦ (ok a, t) | other ↦ (other, clean t) ]
