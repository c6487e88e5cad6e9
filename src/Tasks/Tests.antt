-- ===== src/Tasks/Tests.antt =====
-- The scheduler of services/scheduler.py at concrete tasks.
use portex.Common.{ℕ, ◌+◌, ◌≡◌, refl, true, false, ◌&&◌, none, some, [], ◌∷◌, arith}
use portex.Text.{codes, is_space}
use portex.Dict.{get}
use portex.Tasks.Schedule.{ScheduledTask, Cron, interval, active, parse_interval_seconds, run_after}
use portex.Clock.{second, interval_of}
use portex.Text.Integers.{parse_int, digit_of}
use portex.Tasks.Schedule.CatchUp.{Computed, compute_next_run-Computed}
use portex.Tasks.Scheduler.{Scheduler, due_tasks}
use portex.Tasks.Scheduler.Order.{holds_ref}
use portex.Common.{zero, suc, Bool, not, ◌==◌, inr, String}
use portex.Tasks.Scheduler.{is_running}
use portex.Tasks.Scheduler.Pending.{run_pending}
use portex.Tasks.Scheduler.Pending.Marked.{AllRepeat}
use portex.Tasks.Scheduler.Pending.Due.{quiet, run_pending_lem}
use portex.Tasks.Scheduler.Histories.{
  upsert, begin, end_with, perform_all, AreFiled, perform_all-AreFiled,
}

abbrev croniter : Cron
croniter = record { accepts = λ e. true; get_next = λ e start. some (start + second) }

abbrev task : ScheduledTask
task = record {
  id = "t1";
  group_folder = "home";
  chat_jid = "c1";
  prompt = "report";
  execution_mode = none;
  schedule_type = interval;
  schedule_value = some (codes " 2 ");
  next_run = some 3000000;
  status = active;
  created_at = 5;
}

value_is : parse_interval_seconds task.schedule_value ≡ some 2
unfolding parse_interval_seconds parse_int digit_of is_space
value_is = refl

-- Digits of another script, underscores, and intervals of a billion days and more.
numbers_are :
    (parse_int (codes "1_0") ≡ some 10)
    × (parse_int (0x663 ∷ []) ≡ some 3)
    × (parse_int (codes "1__0") ≡ none)
    × (interval_of 86400000000000 ≡ none)
    × (run_after croniter interval (some (codes "99999999999999")) 5 9 ≡ none)
unfolding parse_interval_seconds parse_int digit_of is_space interval_of run_after
numbers_are = (refl, refl, refl, refl, refl)

compute_next_run-Computed_example : Computed croniter task 2 8000000 8000001
compute_next_run-Computed_example =
    compute_next_run-Computed croniter task 2 8000000 8000001 refl value_is (omega arith)

abbrev empty : Scheduler
empty = record { objects = []; tasks = []; running_task_ids = [] }

empty-AreFiled : AreFiled croniter empty.objects empty.tasks
unfolding get
empty-AreFiled task_id r h = absurd (ground arith)

perform_all-AreFiled_example :
    AreFiled croniter
      (perform_all croniter
        (upsert task 5 ∷ begin 0 ∷ end_with 0 true 8000000 8000001 ∷ [])
        empty).objects
      (perform_all croniter
        (upsert task 5 ∷ begin 0 ∷ end_with 0 true 8000000 8000001 ∷ [])
        empty).tasks
perform_all-AreFiled_example =
    perform_all-AreFiled croniter (upsert task 5 ∷ begin 0 ∷ end_with 0 true 8000000 8000001 ∷ [])
      empty empty-AreFiled

-- Two tasks that are due, of which the second fails.
abbrev waiting : Scheduler
waiting = record {
  objects = task ∷ record task { id = "t2" } ∷ [];
  tasks = ("t1", 0) ∷ ("t2", 1) ∷ [];
  running_task_ids = [];
}

abbrev first_succeeds : ℕ → Bool
first_succeeds r = r == 0

waiting-AllRepeat : AllRepeat 8000001 waiting.objects
waiting-AllRepeat zero t at =
    inr (ground (arith, at), (2, ground (arith, at, value_is), omega arith))
waiting-AllRepeat (suc zero) t at =
    inr (ground (arith, at), (2, ground (arith, at, value_is), omega arith))
waiting-AllRepeat (suc (suc r)) t at = absurd (ground (arith, at))

run_pending_lem_example :
    ((run_pending croniter (quiet first_succeeds (λ r. 8000000) (λ r. 8000001)) waiting 8000000).0
      ≡ false)
    × ((id : String)
        → is_running
            (run_pending croniter
              (quiet first_succeeds (λ r. 8000000) (λ r. 8000001))
              waiting
              8000000).1
            id
          ≡ is_running waiting id)
    × ((r : ℕ)
        → holds_ref r (
            due_tasks
              (run_pending croniter
                (quiet first_succeeds (λ r. 8000000) (λ r. 8000001))
                waiting
                8000000).1
              8000000)
          ≡ (holds_ref r (due_tasks waiting 8000000) && not (first_succeeds r)))
run_pending_lem_example =
    run_pending_lem croniter first_succeeds (λ r. 8000000) (λ r. 8000001) 8000000 8000001
      (λ r. omega arith) (λ r. omega arith) waiting waiting-AllRepeat
