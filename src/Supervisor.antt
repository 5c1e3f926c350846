-- ===== src/Supervisor.antt =====
-- cmd/supervisor.go: the process that restarts the agent inside a container. What the operating system
-- answers (fork, kill, wait) comes with the event that asks for it.
pub mod Runs
mod Tests
use postman_insights_agent.Prelude.{
  ℕ, ◌+◌, ◌-◌, ◌%◌, ◌^◌, ℤ, pos, negsuc, String, Bool, true, false, not, Option, none, some, List,
  [], ◌∷◌, ltb, leb, nat_beq, if◌then◌else◌, ◌&&◌,
}

-- What runSupervisor reads of the environment; `parse_uint` and `parse_int` are strconv's, with base
-- 10 and 64 bits, `parse_bool` is strconv.ParseBool.
pub record Settings : Type 0 where
  pub parse_bool : String → Option Bool
  pub parse_uint : String → Option ℕ
  pub parse_int : String → Option ℤ
  pub cli_docker : String
  pub child : String
  pub max_runs_text : String
  pub delay_text : String

is_true : Settings → String → Bool
is_true s text = elim (s.parse_bool text) [ some c ↦ c | none ↦ false ]

pub running_inside_docker : Settings → Bool
unfolding is_true
running_inside_docker s = is_true s s.cli_docker

pub is_child_process : Settings → Bool
unfolding is_true
is_child_process s = is_true s s.child

-- Whether runSupervisor goes on to supervise, or returns at once.
pub supervises : Settings → Bool
unfolding running_inside_docker is_child_process
supervises s = running_inside_docker s && not (is_child_process s)

-- 0 is no restriction.
pub max_runs : Settings → ℕ
max_runs s = elim (s.parse_uint s.max_runs_text) [ some n ↦ n | none ↦ 0 ]

-- In seconds.
pub delay : Settings → ℕ
delay s = elim (s.parse_int s.delay_text) [
  | none ↦ 1
  | some (pos n) ↦ if nat_beq n 0 then 1 else n
  | some (negsuc _) ↦ 1
]

pub data Signal : Type 0 where
  sigint sigterm sigchld : Signal

pub signal_number : Signal → ℕ
signal_number sigint = 2
signal_number sigterm = 15
signal_number sigchld = 17

-- The exit code of a process that was waited for; `none` is the -1 of one that a signal ended.
abbrev pub ExitCode : Type 0
ExitCode = Option ℕ

pub data Phase : Type 0 where
  -- in the loop
  running : Phase
  -- syscall.Exit
  exited : ℕ → Phase
  -- runSupervisor has returned an error
  failed : Phase

-- `live` are the children that were started and not waited for, `spawning` the goroutines that wait
-- to send on spawnSignal, `runs` how often runChild has forked.
pub record Supervisor : Type 0 where
  pub phase : Phase
  pub pid : ℕ
  pub num_runs : ℕ
  pub live : ℕ
  pub spawning : ℕ
  pub runs : ℕ

-- runChild: numRuns is a uint64, and is counted before the fork, which may fail. A pid is not 0.
pub run_child : Supervisor → Option ℕ → Supervisor
run_child s forked =
    let s' : Supervisor = record s { num_runs = (s.num_runs + 1) % 2 ^ 64 } in
    elim forked [
      | none ↦ record s' { phase = failed; pid = 0 }
      | some pid ↦ record s' { pid = pid; live = s'.live + 1; runs = s'.runs + 1 }
    ]

abbrev pub idle : Supervisor
idle = record { phase = running; pid = 0; num_runs = 0; live = 0; spawning = 0; runs = 0 }

-- runSupervisor up to its loop.
pub start : Option ℕ → Supervisor
unfolding run_child
start forked = run_child idle forked

-- What the loop receives: a signal to end, with whether kill succeeds and what the wait returns; the
-- signal of a child's end, with what the wait returns (`none` is an error); or the signal of the
-- goroutine that has waited, with the outcome of the fork.
pub data Event : Type 0 where
  stop : Signal → Bool → Bool → Event
  child_ended : Option ExitCode → Event
  spawn : Option ℕ → Event

-- SIGINT and SIGTERM.
on_stop : Signal → Bool → Bool → Supervisor → Supervisor
on_stop sig killed waited s =
    if nat_beq s.pid 0
    then record s { phase = exited (128 + signal_number sig) }
    else if not killed
    then record s { phase = failed }
    else if not waited
    then record s { phase = failed }
    else record s { phase = exited (128 + signal_number sig); live = s.live - 1 }

-- The child has ended by a signal, or with a code from 126 on.
retry : ℕ → Supervisor → Supervisor
retry limit s =
    let s' : Supervisor = record s { pid = 0 } in
    if nat_beq s.num_runs limit
    then record s' { phase = failed }
    else record s' { spawning = s.spawning + 1 }

-- SIGCHLD
on_child_ended : ℕ → Option ExitCode → Supervisor → Supervisor
unfolding retry
on_child_ended limit waited s = if nat_beq s.pid 0 then s else elim waited [
  | none ↦ record s { phase = failed }
  | some none ↦ retry limit (record s { live = s.live - 1 })
  | some (some code) ↦
      if ltb code 126
      then record s { phase = exited code; live = s.live - 1 }
      else retry limit (record s { live = s.live - 1 })
]

-- One round of the loop. A goroutine's signal comes only if there is such a goroutine.
dispatch : ℕ → Event → Supervisor → Supervisor
unfolding on_stop on_child_ended run_child
dispatch limit (stop sig killed waited) s = on_stop sig killed waited s
dispatch limit (child_ended waited) s = on_child_ended limit waited s
dispatch limit (spawn forked) s =
    if nat_beq s.spawning 0 then s else run_child (record s { spawning = s.spawning - 1 }) forked

pub step : ℕ → Supervisor → Event → Supervisor
unfolding dispatch
step limit s event = elim s.phase [ running ↦ dispatch limit event s | _ ↦ s ]

pub run : ℕ → Supervisor → List Event → Supervisor
run limit s [] = s
run limit s (event ∷ events) = run limit (step limit s event) events
