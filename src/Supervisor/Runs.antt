-- ===== src/Supervisor/Runs.antt =====
-- cmd/supervisor.go: how many children there are, and how often one is started.
use postman_insights_agent.Prelude.{
  ℕ, ◌+◌, ◌≤◌, ◌<◌, ◌^◌, ◌≡◌, ◌≢◌, refl, ◌⊎◌, inr, none, some, List, [], ◌∷◌, arith, All,
}
use postman_insights_agent.Supervisor.{
  Supervisor, running, Event, stop, child_ended, spawn, start, step, run,
}

-- In the loop a child is alive and known by its pid, or a goroutine waits to start one.
abbrev Occupied : Supervisor → Type 0
Occupied s = elim s.phase [
  | running ↦
      (s.pid ≡ 0) × (s.live ≡ 0) × (s.spawning ≡ 1) ⊎ (s.pid ≢ 0) × (s.live ≡ 1) × (s.spawning ≡ 0)
  | _ ↦ Unit
]

pub record Inv (limit : ℕ) (s : Supervisor) : Type 0 where
  pub occupied : Occupied s
  pub alone : s.live + s.spawning ≤ 1
  pub capped :
      0 < limit → limit < 2 ^ 64 → (s.runs ≤ s.num_runs) × (s.num_runs + s.spawning ≤ limit)

-- The operating system gives no process the number 0.
abbrev pub ForksWell : Event → Type 0
ForksWell (spawn (some pid)) = pid ≢ 0
ForksWell _ = Unit

start-Inv : (limit pid : ℕ) → pid ≢ 0 → Inv limit (start (some pid))
unfolding start
start-Inv limit pid h = record {
  occupied = inr (h, refl, refl);
  alone = omega arith;
  capped = λ l w. omega arith;
}

module _ (limit : ℕ) where
  step-Inv :
      (s : Supervisor) (event : Event)
      → ForksWell event
      → Inv limit s
      → Inv limit (step limit s event)
  unfolding step
  step-Inv s (stop sig killed waited) w v = ground arith
  step-Inv s (child_ended none) w v = ground arith
  step-Inv s (child_ended (some none)) w v = ground arith
  step-Inv s (child_ended (some (some code))) w v = ground arith
  step-Inv s (spawn none) w v = ground arith
  step-Inv s (spawn (some pid)) w v = ground arith

  run-Inv :
      (s : Supervisor) (events : List Event)
      → All ForksWell events
      → Inv limit s
      → Inv limit (run limit s events)
  unfolding run
  run-Inv s [] w v = v
  run-Inv s (event ∷ events) w v = run-Inv (step limit s event) events w.1 (step-Inv s event w.0 v)

  -- If the number of runs is limited (to one below 2^64) and the operating system gives no process the
  -- number 0, then in any history at most one child is alive at any time, and the children that were
  -- started, and those that goroutines wait to start, are at most the limit.
  pub run-start :
      (pid : ℕ) (events : List Event)
      → 0 < limit
      → limit < 2 ^ 64
      → pid ≢ 0
      → All ForksWell events
      → ((run limit (start (some pid)) events).live ≤ 1)
        × ((run limit (start (some pid)) events).runs
              + (run limit (start (some pid)) events).spawning
            ≤ limit)
  run-start pid events l b h w =
      let v = run-Inv (start (some pid)) events w (start-Inv limit pid h) in
      let c = v.capped l b in (omega arith, omega arith)
