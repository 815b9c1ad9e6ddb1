-- ===== src/Stats.antt =====
-- src/component/stats.rs: the calls of one component within a window of time, and the figures
-- that a status request shows. An instant is a number of nanoseconds; `f64` is a parameter.
pub mod Window
pub mod Popping
pub mod Sort
pub mod Buckets
pub mod Shares
pub mod Percentiles
use v9_worker.Base.{
  ℕ, zero, suc, ◌+◌, ◌-◌, ◌*◌, ◌/◌, ◌%◌, ◌^◌, min, Option, none, some, List, [], ◌∷◌, ◌++◌, map,
  ltb, leb, if◌then◌else◌, length, take, drop, is_empty,
}
use v9_worker.Model.{StatusColor, grey, ComponentStats}
use v9_worker.Float.{F64}
use v9_worker.Time.{from_secs}

-- `DEFAULT_STAT_WINDOW`
abbrev pub default_stat_window : ℕ
default_stat_window = from_secs (5 * 60)

pub record StatEvent : Type 0 where
  pub at : ℕ
  pub duration_ms : ℕ
  pub response_bytes : ℕ

-- The newest event is the last of the list.
pub record StatTracker : Type 0 where
  pub stat_window : ℕ
  pub current_color : StatusColor
  pub event_deque : List StatEvent

-- `StatTracker::default`
abbrev pub default_tracker : StatTracker
default_tracker = record {
  stat_window = default_stat_window;
  current_color = grey;
  event_deque = [];
}

-- The loop of `pop_old_events`.
pub pop_front_while : ℕ → List StatEvent → List StatEvent
pop_front_while too_old [] = []
pop_front_while too_old (e ∷ rest) =
    if ltb e.at too_old then pop_front_while too_old rest else e ∷ rest

-- An instant is never before 0, so a window longer than the time since 0 pops nothing.
pub pop_old_events : ℕ → StatTracker → StatTracker
pop_old_events now t = record t {
  event_deque = pop_front_while (now - t.stat_window) t.event_deque;
}

-- `pushed` and `popped` are the two readings of the clock.
unfoldable pub add_stat_event : ℕ → ℕ → ℕ → ℕ → StatTracker → StatTracker
unfolding pop_old_events pop_front_while
add_stat_event pushed popped duration_ms response_bytes t =
    pop_old_events popped (record t { event_deque = t.event_deque ++ event ∷ [] })
  where
    event : StatEvent
    event = record { at = pushed; duration_ms = duration_ms; response_bytes = response_bytes }

abbrev pub set_color : StatusColor → StatTracker → StatTracker
set_color color t = record t { current_color = color }

-- `PERCENTILE_BUCKETS`
abbrev pub percentile_buckets : ℕ
percentile_buckets = 10

pub insert_sorted : ℕ → List ℕ → List ℕ
insert_sorted x [] = x ∷ []
insert_sorted x (y ∷ ys) = if leb x y then x ∷ y ∷ ys else y ∷ insert_sorted x ys

-- `sort` of the standard library, on numbers.
pub sort : List ℕ → List ℕ
sort [] = []
sort (x ∷ xs) = insert_sorted x (sort xs)

-- `&xs[from..to]`; `none` is the panic of a range that is reversed or out of bounds.
pub slice : ℕ → ℕ → List ℕ → Option (List ℕ)
slice from to xs =
    if leb from to
    then (if leb to (length xs) then some (take (to - from) (drop from xs)) else none)
    else none

-- `starting_index` of the bucket i, of n latencies.
pub starting_index : ℕ → ℕ → ℕ
starting_index n i = i * (n / percentile_buckets) + min i (n % percentile_buckets)

-- `iter().sum()` of `u32`s; `none` is the panic of an overflow, in a build that checks for it.
pub sum_u32 : ℕ → List ℕ → Option ℕ
sum_u32 acc [] = some acc
sum_u32 acc (x ∷ xs) =
    let rest = sum_u32 (acc + x) xs in if ltb (acc + x) (2 ^ 32) then rest else none

module _ {F : Type 0} (f64 : F64 F) where
  open f64 use {from_ℕ as to_f64, add, div}

  -- One round on its slice: an average for `res`, or nothing for an empty slice. `none` is a panic.
  pub push_average : List ℕ → List F → Option (List F)
  push_average [] res = some res
  push_average (x ∷ xs) res = elim (sum_u32 0 (x ∷ xs)) [
    | none ↦ none
    | some total ↦ some (res ++ div (to_f64 total) (to_f64 (length (x ∷ xs))) ∷ [])
  ]

  -- The rounds i, i + 1, … of the loop, with the list `res` so far.
  pub percentiles_from : ℕ → ℕ → List ℕ → List F → Option (List F)
  percentiles_from zero i latencies res = some res
  percentiles_from (suc rounds) i latencies res =
      elim (slice (starting_index n i) (starting_index n (i + 1)) latencies) [
        | none ↦ none
        | some part ↦ elim (push_average part res) [
          | none ↦ none
          | some res' ↦ percentiles_from rounds (i + 1) latencies res'
        ]
      ]
    where
      n : ℕ
      n = length latencies

  unfoldable pub calculate_latency_percentiles : List StatEvent → Option (List F)
  unfolding percentiles_from push_average slice starting_index sum_u32 sort insert_sorted
  calculate_latency_percentiles entries =
      percentiles_from percentile_buckets 0 (sort (map (λ e. e.duration_ms) entries)) []

  -- `iter().sum::<f64>()`
  sum_f64 : F → List F → F
  sum_f64 acc [] = acc
  sum_f64 acc (x ∷ xs) = sum_f64 (add acc x) xs

  -- The figures of a tracker whose old events have been popped; `none` is a panic.
  stats_of : StatTracker → Option (ComponentStats F)
  unfolding calculate_latency_percentiles sum_f64
  stats_of t =
      if is_empty t.event_deque
      then some (figures (to_f64 0) (to_f64 0) [])
      else elim (calculate_latency_percentiles t.event_deque) [
        | none ↦ none
        | some percentiles ↦
            some
              (figures (average (λ e. e.response_bytes)) (average (λ e. e.duration_ms)) percentiles)
      ]
    where
      hits : F
      hits = to_f64 (length t.event_deque)

      average : (StatEvent → ℕ) → F
      average field = div (sum_f64 (to_f64 0) (map (λ e. to_f64 (field e)) t.event_deque)) hits

      figures : F → F → List F → ComponentStats F
      figures bytes latency percentiles = record {
        color = t.current_color;
        stat_window_seconds = f64.from_nanos t.stat_window;
        hits = hits;
        avg_response_bytes = bytes;
        avg_ms_latency = latency;
        ms_latency_percentiles = percentiles;
      }

  unfoldable pub get_component_stats : ℕ → StatTracker → Option (ComponentStats F) × StatTracker
  unfolding stats_of pop_old_events pop_front_while
  get_component_stats now t = let t' = pop_old_events now t in (stats_of t', t')
