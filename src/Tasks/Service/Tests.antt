-- ===== src/Tasks/Service/Tests.antt =====
-- The log and the executions of services/task_service.py at concrete tasks.
use mathlib.Core.Bool.{Bool-set}
use mathlib.Core.List.{Perm, Pairwise, Pairwise-pair}
use mathlib.Core.List.Perm
use portex.Common.{◌+◌, ◌≡◌, refl, true, none, some, List, [], ◌∷◌, arith}
use portex.Clock.{Datetime, naive, ahead}
use portex.Text.{codes}
use portex.Clock.{second}
use portex.Tasks.Schedule.{Cron, once}
use portex.Tasks.Logs.{TaskRunLog, no_logs, new_log, list_logs}
use portex.Tasks.Logs.Newest.{
  is_newer, entry, perform_all as record_all, recorded, of_task, Newer, list_logs_lem,
}
use portex.Tasks.Service.{TaskService, TaskArguments, Times, returned, raised}
use portex.Tasks.Service.Completed.{
  Action, create, start, finish, perform_all, AreLogged, perform_all-AreLogged,
}

abbrev noon : Datetime
noon = record { wall = 500; zone = naive }

-- The same time as 400 on the clock of UTC.
abbrev abroad : Datetime
abroad = record { wall = 900; zone = ahead 500 }

abbrev at_noon : TaskRunLog
at_noon = new_log 1 "t1" noon 3 "success" (some "done") none

abbrev before : TaskRunLog
before = new_log 3 "t1" abroad 2 "error" none (some "gone")

pair-Perm : Perm (at_noon ∷ before ∷ []) (
    of_task "t1" (
      recorded
        (entry "t1" noon 3 "success" (some "done") none
          ∷ entry "t2" noon 1 "success" none none
          ∷ entry "t1" abroad 2 "error" none (some "gone")
          ∷ [])
        []))
unfolding recorded
pair-Perm = Perm.rfl

pair-Pairwise : Pairwise Newer (at_noon ∷ before ∷ [])
pair-Pairwise = (Pairwise-pair (λ a b. Bool-set (is_newer a b) true)).1 refl

list_logs_lem_example :
    list_logs
      (record_all
        (entry "t1" noon 3 "success" (some "done") none
          ∷ entry "t2" noon 1 "success" none none
          ∷ entry "t1" abroad 2 "error" none (some "gone")
          ∷ [])
        no_logs)
      "t1"
      1
    ≡ at_noon ∷ []
list_logs_lem_example =
    list_logs_lem
      (entry "t1" noon 3 "success" (some "done") none
        ∷ entry "t2" noon 1 "success" none none
        ∷ entry "t1" abroad 2 "error" none (some "gone")
        ∷ [])
      "t1" 1 (at_noon ∷ before ∷ []) pair-Perm pair-Pairwise

abbrev croniter : Cron
croniter = record { accepts = λ e. true; get_next = λ e start. some (start + second) }

abbrev once_only : TaskArguments
once_only = record {
  group_folder = "home";
  chat_jid = "c1";
  prompt = "report";
  schedule_type = once;
  execution_mode = some "host";
  schedule_value = some (codes " ");
  next_run = some abroad;
}

abbrev times : Times
times = record { run_at = noon; started_at = 10; ended_at = 5010; now = 600; now' = 600 }

abbrev new_service : TaskService
new_service = record {
  scheduler = record { objects = []; tasks = []; running_task_ids = [] };
  task_log_service = no_logs;
}

new_service-AreLogged : AreLogged new_service.scheduler.objects new_service.task_log_service
new_service-AreLogged r task at done = absurd (ground (arith, at))

abbrev history : List Action
history =
    create once_only "0a" 300 300
    ∷ start 0
    ∷ finish 0 (raised "gone") times
    ∷ start 0
    ∷ finish 0 (returned (some "ok")) times
    ∷ []

perform_all-AreLogged_example :
    AreLogged
      (perform_all croniter history new_service).scheduler.objects
      (perform_all croniter history new_service).task_log_service
perform_all-AreLogged_example =
    perform_all-AreLogged croniter history new_service new_service-AreLogged
