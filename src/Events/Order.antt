-- ===== src/Events/Order.antt =====
-- simulator/coresim/main.cpp: simulated time does not run backwards.
use ruf.Prelude.{ℕ, ◌%◌, ◌≤◌, ◌≡◌, Bool, true, not, List, Option, none, some, ltb, ◌==◌, count}
use ruf.Events.{Event, EventQueue, Simulation, step}

-- An event of before a time.
abbrev pub is_before : {A : Type 0} → ℕ → Event A → Bool
is_before now e = ltb e.time now

-- An event whose time is a multiple of the spacing.
abbrev pub is_spaced : {A : Type 0} → ℕ → Event A → Bool
is_spaced spacing e = e.time % spacing == 0

module _ {A W : Type 0} (grain : ℕ) (events : EventQueue grain A) (cancelled : W → ℕ → Bool)
    (process_event : ℕ → Event A → W → Option (W × List (Event A))) (destroy : Event A → W → W)
    (fairness : Bool) (spacing : ℕ) where
  abbrev is_astray : Event A → Bool
  is_astray e = not (is_spaced spacing e)

  -- No event is pending from before the current time, and all are at multiples of the spacing.
  abbrev pub Timely : Simulation grain W events → Type 0
  Timely s =
      (count (is_before s.current_time) (events.contents s.event_queue) ≡ 0)
      × (count is_astray (events.contents s.event_queue) ≡ 0)

  -- What an event made, if it did not fail, at a time.
  abbrev Makes : ℕ → Option (W × List (Event A)) → Type 0
  Makes now none = Unit
  Makes now (some (w, added)) = (count (is_before now) added ≡ 0) × (count is_astray added ≡ 0)

  -- An event at a multiple of the spacing makes events at such times, none before its own.
  abbrev pub MakesFuture : Type 0
  MakesFuture =
      (ev : Event A) (w : W)
      → is_spaced spacing ev ≡ true
      → Makes ev.time (process_event ev.time ev w)

  -- Turns of the loop, one after the other.
  pub data Turns : Simulation grain W events → Simulation grain W events → Type 0 where
    stop : {s : Simulation grain W events} → Turns s s
    turn :
        {s s' s'' : Simulation grain W events}
        → (more : Bool)
        → step grain events cancelled process_event destroy fairness s ≡ some (more, s')
        → Turns s' s''
        → Turns s s''

  -- After a turn that began at `s`, if it did not fail.
  abbrev Kept : Simulation grain W events → Option (Bool × Simulation grain W events) → Type 0
  Kept s none = Unit
  Kept s (some (more, s')) = Timely s' × (s.current_time ≤ s'.current_time)
