-- ===== src/Docker/Idle/Fleet.antt =====
-- The populator threads of src/docker/idle_container_creator.rs and whoever takes containers from
-- them, as steps in any order.
use v9_worker.Base.{
  suc, ◌+◌, ◌≤◌, ◌<◌, ◌≡◌, refl, ap, ◌∙◌, List, [], ◌∷◌, ◌++◌, arith, length, length-append,
}
use v9_worker.Docker.{V9Container}
use v9_worker.Docker.Idle.{container_cache_channel_size, cache_populator_count}

-- Where a populator thread stands in its loop: in `sync_create_container`, in `send`, which blocks
-- while the channel is full, or asleep after an error.
pub data Phase : Type 0 where
  creating : Phase
  sending : V9Container → Phase
  sleeping : Phase

pub record Fleet : Type 0 where
  pub channel : List V9Container
  pub populators : List Phase

-- One populator goes from one phase to another.
pub data Turns (p q : Phase) : List Phase → List Phase → Type 0 where
  here : {rest : List Phase} → Turns p q (p ∷ rest) (q ∷ rest)
  there : {other : Phase} {l m : List Phase} → Turns p q l m → Turns p q (other ∷ l) (other ∷ m)

-- A thread makes one turn of its loop, whatever its call of `sync_create_container` did, or a container
-- is taken.
pub data Move (s t : Fleet) : Type 0 where
  created :
      (c : V9Container)
      → t.channel ≡ s.channel
      → Turns creating (sending c) s.populators t.populators
      → Move s t
  create_failed :
      t.channel ≡ s.channel → Turns creating sleeping s.populators t.populators → Move s t
  woken : t.channel ≡ s.channel → Turns sleeping creating s.populators t.populators → Move s t
  sent :
      (c : V9Container)
      → length s.channel < container_cache_channel_size
      → t.channel ≡ s.channel ++ c ∷ []
      → Turns (sending c) creating s.populators t.populators
      → Move s t
  taken : (c : V9Container) → s.channel ≡ c ∷ t.channel → t.populators ≡ s.populators → Move s t

-- `IdleContainerCreator::new`
abbrev pub new_fleet : Fleet
new_fleet = record { channel = []; populators = creating ∷ creating ∷ [] }

pub data Reach (s : Fleet) : Fleet → Type 0 where
  start : Reach s s
  next : {t u : Fleet} → Reach s t → Move t u → Reach s u

-- The containers that wait to be sent.
abbrev pub held : List Phase → List V9Container
held [] = []
held (sending c ∷ ps) = c ∷ held ps
held (creating ∷ ps) = held ps
held (sleeping ∷ ps) = held ps

-- The idle containers: those in the channel, and those that a thread holds to send. One that is being
-- started, or that a failed start left behind, is not among them.
abbrev pub idle : Fleet → List V9Container
idle s = s.channel ++ held s.populators

length-held : (ps : List Phase) → length (held ps) ≤ length ps
length-held [] = omega arith
length-held (sending c ∷ ps) = omega (arith, length-held ps)
length-held (creating ∷ ps) = omega (arith, length-held ps)
length-held (sleeping ∷ ps) = omega (arith, length-held ps)

Turns-length : {p q : Phase} {l m : List Phase} → Turns p q l m → length m ≡ length l
Turns-length here = refl
Turns-length (there t) = ap suc (Turns-length t)

pub record IsBounded (s : Fleet) : Type 0 where
  pub in_channel : length s.channel ≤ container_cache_channel_size
  pub threads : length s.populators ≡ cache_populator_count

Move-IsBounded : {s t : Fleet} → Move s t → IsBounded s → IsBounded t
Move-IsBounded (created c e turn) b = record {
  in_channel = rw e b.in_channel;
  threads = Turns-length turn ∙ b.threads;
}
Move-IsBounded (create_failed e turn) b = record {
  in_channel = rw e b.in_channel;
  threads = Turns-length turn ∙ b.threads;
}
Move-IsBounded (woken e turn) b = record {
  in_channel = rw e b.in_channel;
  threads = Turns-length turn ∙ b.threads;
}
Move-IsBounded {s} (sent c room e turn) b = record {
  in_channel = rw (e, length-append s.channel (c ∷ [])) (omega arith);
  threads = Turns-length turn ∙ b.threads;
}
Move-IsBounded {t = t} (taken c e same) b = record {
  in_channel = omega (arith, ap length e, b.in_channel);
  threads = ap length same ∙ b.threads;
}

Reach-IsBounded : {t : Fleet} → Reach new_fleet t → IsBounded t
Reach-IsBounded start = record { in_channel = omega arith; threads = refl }
Reach-IsBounded (next r m) = Move-IsBounded m (Reach-IsBounded r)

-- However the threads and the takers take turns, there are never more than three containers in the
-- channel, nor more idle containers than the size of the channel and the number of threads together.
pub idle_bound :
    {t : Fleet}
    → Reach new_fleet t
    → (length t.channel ≤ container_cache_channel_size)
      × (length (idle t) ≤ container_cache_channel_size + cache_populator_count)
idle_bound {t} r =
    let b = Reach-IsBounded r in
    (
      b.in_channel,
      omega (
        arith,
        length-append t.channel (held t.populators),
        length-held t.populators,
        b.in_channel,
        b.threads,
      ),
    )
