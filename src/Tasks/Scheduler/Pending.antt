-- ===== src/Tasks/Scheduler/Pending.antt =====
-- `run_pending`, `start` and `stop` of services/scheduler.py: the due tasks are run one after the
-- other, round after round. What the executor of a task comes to, and what others do to the
-- scheduler before that, are arguments, as are the readings of the clock.
use portex.Common.{ℕ, Bool, true, false, ◌||◌, none, some, List, [], ◌∷◌, if◌then◌else◌}
use portex.Tasks.Schedule.{ScheduledTask, Cron}
use portex.Tasks.Scheduler.{Scheduler, due_tasks, begin_task, end_task}
use portex.Tasks.Scheduler.Histories.{Action, perform_all}
pub mod Marked
pub mod Due

-- The await of an executor: what others do meanwhile, whether it ends without an exception, and
-- the clock after that.
pub record Run : Type 0 where
  pub meanwhile : List Action
  pub success : Bool
  pub now : ℕ
  pub now' : ℕ

-- `_execute_task`, and whether an exception leaves it.
unfoldable pub execute_task : Cron → Run → Scheduler → ℕ → Bool × Scheduler
execute_task croniter run s r = elim (begin_task s r) [
  | none ↦ (false, s)
  | some begun ↦
      end_task croniter (perform_all croniter run.meanwhile begun) r run.success run.now run.now'
]

-- The `for` loop of `run_pending`.
unfoldable pub run_tasks :
    Cron → (ℕ → Run) → Scheduler → List (ℕ × ScheduledTask) → Bool × Scheduler
run_tasks croniter runs s [] = (false, s)
run_tasks croniter runs s (x ∷ xs) =
    let executed = execute_task croniter (runs x.0) s x.0 in
    elim executed.0 [ true ↦ executed | false ↦ run_tasks croniter runs executed.1 xs ]

-- `run_pending`, and whether an exception leaves it.
unfoldable pub run_pending : Cron → (ℕ → Run) → Scheduler → ℕ → Bool × Scheduler
run_pending croniter runs s now = run_tasks croniter runs s (due_tasks s now)

-- One round of `start`, and when `stop` is called in it, if it is.
pub record Round : Type 0 where
  pub now : ℕ
  pub runs : ℕ → Run
  pub stopped_in_run : Bool
  pub stopped_asleep : Bool

pub data Polling : Type 0 where
  was_running : Polling
  still_running : Polling
  stopped : Polling
  left_by_exception : Polling

-- The `while` loop of `start` through some rounds; what it has come to, the scheduler, and the
-- flag `running`.
unfoldable pub poll : Cron → Scheduler → List Round → Polling × Scheduler × Bool
poll croniter s [] = (still_running, s, true)
poll croniter s (round ∷ rounds) =
    let pass = run_pending croniter round.runs s round.now in
    elim pass.0 [
      | true ↦ (left_by_exception, pass.1, false)
      | false ↦ elim (round.stopped_in_run || round.stopped_asleep) [
        | true ↦ (stopped, pass.1, false)
        | false ↦ poll croniter pass.1 rounds
      ]
    ]

-- `start`
unfoldable pub start_polling : Cron → Scheduler → Bool → List Round → Polling × Scheduler × Bool
start_polling croniter s running rounds =
    if running then (was_running, s, true) else poll croniter s rounds
