-- ===== src/Stats/Window.antt =====
-- The window of a `StatTracker` (src/component/stats.rs): its queue against the history of calls.
use v9_worker.Base.{
  ℕ, ◌-◌, ◌≤◌, ◌≡◌, refl, sym, ap, ◌∙◌, List, [], ◌∷◌, ◌++◌, append-nil, append_assoc, arith, leb,
  select, select-append, All, All-append,
}
use v9_worker.Model.{StatusColor}
use v9_worker.Stats.{
  StatEvent, StatTracker, default_tracker, default_stat_window, pop_front_while, pop_old_events,
  add_stat_event, set_color,
}

-- What may happen to a tracker, with the readings of the clock: a call, a status request, a color.
pub data Op : Type 0 where
  call : (pushed popped duration_ms response_bytes : ℕ) → Op
  ask : (now : ℕ) → Op
  paint : StatusColor → Op

pub step : StatTracker → Op → StatTracker
step t (call pushed popped ms bytes) = add_stat_event pushed popped ms bytes t
step t (ask now) = pop_old_events now t
step t (paint color) = set_color color t

unfoldable pub run : StatTracker → List Op → StatTracker
unfolding step
run t [] = t
run t (op ∷ ops) = run (step t op) ops

-- The events of all calls, oldest first, whatever was dropped since.
abbrev pub history : List Op → List StatEvent
history [] = []
history (call pushed popped ms bytes ∷ ops) =
    record { at = pushed; duration_ms = ms; response_bytes = bytes } ∷ history ops
history (ask now ∷ ops) = history ops
history (paint color ∷ ops) = history ops

-- The clock does not go back: every reading lies between `start` and `finish`, in order.
abbrev pub Timed : ℕ → List Op → ℕ → Type 0
Timed start [] finish = start ≤ finish
Timed start (call pushed popped ms bytes ∷ ops) finish =
    (start ≤ pushed) × (pushed ≤ popped) × Timed popped ops finish
Timed start (ask now ∷ ops) finish = (start ≤ now) × Timed now ops finish
Timed start (paint color ∷ ops) finish = Timed start ops finish

-- The events that are at most `window` old.
abbrev pub recent : ℕ → ℕ → List StatEvent → List StatEvent
recent window now = select (λ e. leb (now - window) e.at)

abbrev IsOrdered : List StatEvent → Type 0
IsOrdered [] = Unit
IsOrdered (e ∷ rest) = All (λ x. e.at ≤ x.at) rest × IsOrdered rest

select-All : (c : ℕ) (l : List StatEvent) → All (λ e. c ≤ e.at) l → select (λ e. leb c e.at) l ≡ l
select-All c [] h = refl
select-All c (e ∷ rest) h = ground (arith, select-All c rest h.1)

All-weaken : (c d : ℕ) (l : List StatEvent) → c ≤ d → All (λ e. d ≤ e.at) l → All (λ e. c ≤ e.at) l
All-weaken c d [] h a = tt
All-weaken c d (e ∷ rest) h a = (omega arith, All-weaken c d rest h a.1)

-- Popping from the front removes exactly what is too old, since the queue is in order of time.
pop_front_while-select :
    (c t : ℕ) (l : List StatEvent)
    → c ≤ t
    → IsOrdered l
    → pop_front_while t (select (λ e. leb c e.at) l) ≡ select (λ e. leb t e.at) l
unfolding pop_front_while
pop_front_while-select c t [] h o = refl
pop_front_while-select c t (e ∷ rest) h o = ground (
  arith,
  pop_front_while-select c t rest h o.1,
  select-All c rest,
  select-All t rest,
  All-weaken t e.at rest,
  All-weaken c e.at rest,
)

IsOrdered-append :
    (l : List StatEvent) (e : StatEvent)
    → IsOrdered l
    → All (λ x. x.at ≤ e.at) l
    → IsOrdered (l ++ e ∷ [])
IsOrdered-append [] e o a = (tt, tt)
IsOrdered-append (x ∷ l) e o a =
    (All-append (λ y. x.at ≤ y.at) l (e ∷ []) o.0 (a.0, tt), IsOrdered-append l e o.1 a.1)

All-at_mono : (c d : ℕ) (l : List StatEvent) → c ≤ d → All (λ e. e.at ≤ c) l → All (λ e. e.at ≤ d) l
All-at_mono c d [] h a = tt
All-at_mono c d (e ∷ rest) h a = (omega arith, All-at_mono c d rest h a.1)

-- What the queue of `t` holds of the history `h` at a time `now`.
record Shows (t : StatTracker) (h : List StatEvent) (now : ℕ) : Type 0 where
  cutoff : ℕ
  held : t.event_deque ≡ select (λ e. leb cutoff e.at) h
  reached : cutoff ≤ now - t.stat_window
  ordered : IsOrdered h
  past : All (λ e. e.at ≤ now) h

pop-held :
    (t : StatTracker) (h : List StatEvent) (now later : ℕ)
    → now ≤ later
    → Shows t h now
    → (pop_old_events later t).event_deque ≡ recent t.stat_window later h
unfolding pop_old_events
pop-held t h now later le s =
    ap (pop_front_while (later - t.stat_window)) s.held
    ∙ pop_front_while-select s.cutoff (later - t.stat_window) h (omega (arith, s.reached)) s.ordered

pop-Shows :
    (t : StatTracker) (h : List StatEvent) (now later : ℕ)
    → now ≤ later
    → Shows t h now
    → Shows (pop_old_events later t) h later
unfolding pop_old_events
pop-Shows t h now later le s = record {
  cutoff = later - t.stat_window;
  held = pop-held t h now later le s;
  reached = omega arith;
  ordered = s.ordered;
  past = All-at_mono now later h le s.past;
}

push-Shows :
    (t : StatTracker) (h : List StatEvent) (now : ℕ) (e : StatEvent)
    → now ≤ e.at
    → Shows t h now
    → Shows (record t { event_deque = t.event_deque ++ e ∷ [] }) (h ++ e ∷ []) e.at
push-Shows t h now e le s = record {
  cutoff = s.cutoff;
  held =
      ap (λ l. l ++ e ∷ []) s.held
      ∙ ap (λ l. select (λ x. leb s.cutoff x.at) h ++ l)
          (sym (select-All s.cutoff (e ∷ []) (omega (arith, s.reached), tt)))
      ∙ sym (select-append (λ x. leb s.cutoff x.at) h (e ∷ []));
  reached = omega (arith, s.reached);
  ordered = IsOrdered-append h e s.ordered (All-at_mono now e.at h le s.past);
  past = All-append (λ x. x.at ≤ e.at) h (e ∷ []) (All-at_mono now e.at h le s.past) (omega arith);
}

stat_window-run : (t : StatTracker) (ops : List Op) → (run t ops).stat_window ≡ t.stat_window
unfolding run add_stat_event
stat_window-run t [] = refl
stat_window-run t (call pushed popped ms bytes ∷ ops) =
    stat_window-run (add_stat_event pushed popped ms bytes t) ops
stat_window-run t (ask now ∷ ops) = stat_window-run (pop_old_events now t) ops
stat_window-run t (paint color ∷ ops) = stat_window-run (set_color color t) ops

run-held :
    (ops : List Op) (t : StatTracker) (h : List StatEvent) (start finish : ℕ)
    → Timed start ops finish
    → Shows t h start
    → (pop_old_events finish (run t ops)).event_deque
      ≡ recent t.stat_window finish (h ++ history ops)
unfolding run add_stat_event pop_old_events
run-held [] t h start finish le s = rw append-nil (pop-held t h start finish le s)
run-held (call pushed popped ms bytes ∷ ops) t h start finish (le, le', timed) s =
    run-held ops _ (h ++ e ∷ []) popped finish timed
      (pop-Shows _ (h ++ e ∷ []) pushed popped le' (push-Shows t h start e le s))
    ∙ ap (recent t.stat_window finish) (append_assoc h (e ∷ []) (history ops))
  where
    e : StatEvent
    e = record { at = pushed; duration_ms = ms; response_bytes = bytes }
run-held (ask now ∷ ops) t h start finish (le, timed) s =
    run-held ops _ h now finish timed (pop-Shows t h start now le s)
run-held (paint color ∷ ops) t h start finish timed s =
    run-held ops (set_color color t) h start finish timed (record {
      cutoff = s.cutoff;
      held = s.held;
      reached = s.reached;
      ordered = s.ordered;
      past = s.past;
    })

-- Whatever calls, status requests and colors came before, in the order of the clock, a status
-- request at `finish` works on exactly the calls of the last five minutes, oldest first.
pub window-run :
    (ops : List Op) (finish : ℕ)
    → Timed 0 ops finish
    → (pop_old_events finish (run default_tracker ops)).event_deque
      ≡ recent default_stat_window finish (history ops)
window-run ops finish timed =
    run-held ops default_tracker [] 0 finish timed
      (record { cutoff = 0; held = refl; reached = omega arith; ordered = tt; past = tt })
