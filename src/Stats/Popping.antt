-- ===== src/Stats/Popping.antt =====
-- What `pop_old_events` leaves of a queue to which an event was just pushed (src/component/stats.rs).
use v9_worker.Base.{
  ℕ, ◌≤◌, ◌<◌, ◌≡◌, refl, ap, List, [], ◌∷◌, ◌++◌, arith, ltb, ltb→lt, All, Bool-cases, inl, inr,
}
use v9_worker.Stats.{StatEvent, pop_front_while}

-- The events of `before` that are left after those of before `too_old`, which come first, and then
-- one more.
pub record Pushed (too_old : ℕ) (before : List StatEvent) (event : StatEvent)
    (after : List StatEvent) : Type 0 where
  pub stale : List StatEvent
  pub held : List StatEvent
  pub split : before ≡ stale ++ held
  pub old : All (λ e. e.at < too_old) stale
  pub queue : after ≡ held ++ event ∷ []

pub pop_front_while-Pushed :
    (too_old : ℕ) (before : List StatEvent) (event : StatEvent)
    → too_old ≤ event.at
    → Pushed too_old before event (pop_front_while too_old (before ++ event ∷ []))
unfolding pop_front_while
pop_front_while-Pushed too_old [] event h = record {
  stale = [];
  held = [];
  split = refl;
  old = tt;
  queue = ground arith;
}
pop_front_while-Pushed too_old (e ∷ rest) event h = elim (Bool-cases (ltb e.at too_old)) [
  | inl early ↦
      let q = pop_front_while-Pushed too_old rest event h in
      rw early (record {
        stale = e ∷ q.stale;
        held = q.held;
        split = ap (λ l. e ∷ l) q.split;
        old = (ltb→lt _ _ early, q.old);
        queue = q.queue;
      })
  | inr late ↦
      rw late (record { stale = []; held = e ∷ rest; split = refl; old = tt; queue = refl })
]
