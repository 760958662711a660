-- ===== src/Events.antt =====
-- simulator/coresim/event.h and the event loop of simulator/coresim/main.cpp. Times are whole numbers of
-- a unit of which `grain` make 1e-15 seconds, the distance below which the comparator takes two
-- times for the same. The event queue is a `std::priority_queue`: an interface with what its
-- documentation promises. What an event does is a parameter, and so is its
-- destructor; the `cancelled` flag of an event object is read from the world by its `unique_id`.
pub mod Order
use ruf.Prelude.{
  ℕ, zero, suc, ◌+◌, ◌-◌, ◌*◌, Bool, true, false, not, ◌&&◌, List, [], ◌∷◌, Option, none, some, ltb,
  ◌==◌, if◌then◌else◌,
}
use ruf.Prelude.Faults.{◌>>=◌}
use ruf.StdQueue.{StdQueue}

pub record Event (A : Type 0) : Type 0 where
  pub unique_id : ℕ
  pub type : ℕ
  pub time : ℕ
  pub work : A

-- `fabs(a - b)`
abbrev pub distance : ℕ → ℕ → ℕ
distance a b = (a - b) + (b - a)

-- EventComparator: `a` comes after `b`.
unfoldable pub event_comp : {A : Type 0} (grain : ℕ) → Event A → Event A → Bool
event_comp grain a b =
    if ltb (distance a.time b.time) grain then ltb b.type a.type else ltb b.time a.time

-- `std::priority_queue<Event*, std::vector<Event*>, EventComparator>`
abbrev pub EventQueue : ℕ → Type 0 → Type 1
EventQueue grain A = StdQueue (event_comp {A = A} grain)

-- `start_time` is `none` before the first event, and `last_evt_type` when it is -1.
pub record Simulation {A : Type 0} (grain : ℕ) (W : Type 0) (events : EventQueue grain A)
    : Type 0 where
  pub current_time : ℕ
  pub start_time : Option ℕ
  pub event_queue : events.Carrier
  pub world : W
  pub last_evt_type : Option ℕ
  pub same_evt_count : ℕ

-- `same_evt_count > 100000` ends the run; events of type 9 do not count.
abbrev pub dead_loop : ℕ
dead_loop = 100_000

abbrev pub is_repeated : Option ℕ → ℕ → Bool
is_repeated none type = false
is_repeated (some last) type = (last == type) && not (last == 9)

-- 1.2 seconds, after which `print_max_min_fairness` ends the run by `assert(false)`.
abbrev pub fairness_time : ℕ → ℕ
fairness_time grain = 1_200_000_000_000_000 * grain

module _ {A : Type 0} (grain : ℕ) (events : EventQueue grain A) where
  -- `add_to_event_queue` for each event that `process_event` made, in order.
  unfoldable pub add_all : List (Event A) → events.Carrier → events.Carrier
  add_all [] q = q
  add_all (e ∷ es) q = add_all es (events.push e q)

module _ {A W : Type 0} (grain : ℕ) (events : EventQueue grain A) (cancelled : W → ℕ → Bool)
    (process_event : ℕ → Event A → W → Option (W × List (Event A))) (destroy : Event A → W → W)
    (print_max_min_fairness : Bool) where
  -- `current_time = ev->time` and the start of the clock.
  abbrev pub at_event :
      Event A → events.Carrier → Simulation grain W events → Simulation grain W events
  at_event ev rest s = record s {
    current_time = ev.time;
    start_time = elim s.start_time [ none ↦ some ev.time | some t ↦ some t ];
    event_queue = rest;
  }

  -- From `process_event` to the end of the loop's body; the flag says whether the loop goes on.
  unfoldable pub handle :
      Event A → Simulation grain W events → Option (Bool × Simulation grain W events)
  handle ev s = do
    (world, added) ← process_event ev.time ev s.world
    let same = if is_repeated s.last_evt_type ev.type then s.same_evt_count + 1 else 0
    let s' : Simulation grain W events = record s {
      event_queue = add_all grain events added s.event_queue;
      world = world;
      last_evt_type = some ev.type;
      same_evt_count = same;
    }
    (if ltb dead_loop same
        then some (false, s')
        else (if print_max_min_fairness && ltb (fairness_time grain) ev.time
            then none
            else some (true, record s' { world = destroy ev world })))

  -- The body of the loop after `top` and `pop`.
  unfoldable pub step_at :
      Event A
      → events.Carrier
      → Simulation grain W events
      → Option (Bool × Simulation grain W events)
  unfolding handle
  step_at ev rest s =
      if cancelled s.world ev.unique_id
      then some (true, record (at_event ev rest s) { world = destroy ev s.world })
      else handle ev (at_event ev rest s)

  -- One turn of `while (event_queue.size() > 0)`.
  unfoldable pub step : Simulation grain W events → Option (Bool × Simulation grain W events)
  unfolding step_at
  step s = elim (events.take s.event_queue) [
    | none ↦ some (false, s)
    | some (ev, rest) ↦ step_at ev rest s
  ]

  -- The loop of `run_scenario`, on fuel.
  unfoldable pub run_scenario : ℕ → Simulation grain W events → Option (Simulation grain W events)
  run_scenario zero s = none
  run_scenario (suc n) s = do
    (more, s') ← step s
    elim more [ true ↦ run_scenario n s' | false ↦ some s' ]
