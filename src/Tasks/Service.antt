-- ===== src/Tasks/Service.antt =====
-- `TaskService` of services/task_service.py: tasks that the scheduler runs through the coordinator,
-- with an entry in the log for each execution. `perf_counter` counts microseconds here; random ids
-- and the clock are arguments.
use Prim.Native.String.{◌++◌ as str_append}
use text.Mathlib.Text.{◌==◌ as str_eq}
use portex.Common.{
  ℕ, ◌-◌, ◌/◌, Bool, true, false, ◌||◌, Option, none, some, List, [], ◌∷◌, String, get_elem?,
  if◌then◌else◌, ◌>>=◌,
}
use portex.Clock.{Datetime, in_utc}
use portex.Text.{Text, strip, is_empty}
use portex.Execution.Requests.{
  ExecutionRequest, ExecutionHandle, ExecutionResult, ExecutionStatus, queued, running, completed,
  failed, cancelled, timeout, scheduled,
}
use portex.Execution.Coordinator.{Coordinator}
use portex.Execution.Coordinator.Steps.{submit_execution}
use portex.Tasks.Schedule.{ScheduledTask, ScheduleType, Cron, active, is_once}
use portex.Tasks.Scheduler.{Scheduler, upsert_task, remove_task, list_tasks, begin_task, end_task}
use portex.Tasks.Logs.{TaskLogService, TaskRunLog, new_log, push_log, list_logs, reset_logs}
pub mod Successes
pub mod Completed
mod Tests

pub record TaskService : Type 0 where
  pub scheduler : Scheduler
  pub task_log_service : TaskLogService

-- What `create_task` is called with.
pub record TaskArguments : Type 0 where
  pub group_folder : String
  pub chat_jid : String
  pub prompt : String
  pub schedule_type : ScheduleType
  pub execution_mode : Option String
  pub schedule_value : Option Text
  pub next_run : Option Datetime

abbrev non_empty_text : Text → Option Text
non_empty_text t = if is_empty t then none else some t

-- `_normalize_schedule_value`; the outer `none` is the `ValueError`.
unfoldable pub normalize_schedule_value : ScheduleType → Option Text → Option (Option Text)
normalize_schedule_value schedule_type none = some none
normalize_schedule_value schedule_type (some value) =
    if is_once schedule_type
    then (if is_empty (strip value) then some none else none)
    else some (non_empty_text (strip value))

-- `_normalize_datetime`
abbrev pub normalize_datetime : Option Datetime → Option ℕ
normalize_datetime none = none
normalize_datetime (some d) = some (in_utc d.wall d.zone)

abbrev is_mode : String → Bool
is_mode mode = str_eq mode "openai" || str_eq mode "host" || str_eq mode "container"

-- `_normalize_execution_mode`; the outer `none` is the `ValueError`.
unfoldable pub normalize_execution_mode : Option String → Option (Option String)
normalize_execution_mode none = some none
normalize_execution_mode (some mode) = if is_mode mode then some (some mode) else none

abbrev pub with_scheduler : TaskService → Scheduler → TaskService
with_scheduler s scheduler = record s { scheduler = scheduler }

abbrev pub new_task : TaskArguments → String → ℕ → Option Text → Option String → ScheduledTask
new_task a digits created_at value mode = record {
  id = str_append "task-" digits;
  group_folder = a.group_folder;
  chat_jid = a.chat_jid;
  prompt = a.prompt;
  execution_mode = mode;
  schedule_type = a.schedule_type;
  schedule_value = value;
  next_run = normalize_datetime a.next_run;
  status = active;
  created_at = created_at;
}

-- `create_task`; `none` is an exception, after which nothing has changed. `digits` are those of
-- the new id.
unfoldable pub create_task :
    Cron → TaskService → TaskArguments → String → ℕ → ℕ → Option TaskService
create_task croniter s a digits created_at now = do
  value ← normalize_schedule_value a.schedule_type a.schedule_value
  mode ← normalize_execution_mode a.execution_mode
  scheduler ← upsert_task croniter s.scheduler (new_task a digits created_at value mode) now
  some (with_scheduler s scheduler)

abbrev task_with_id : String → List (ℕ × ScheduledTask) → Option ScheduledTask
task_with_id task_id [] = none
task_with_id task_id (x ∷ xs) =
    let rest = task_with_id task_id xs in if str_eq x.1.id task_id then some x.1 else rest

-- `get_task`
unfoldable pub get_task : TaskService → String → Option ScheduledTask
get_task s task_id = task_with_id task_id (list_tasks s.scheduler)

-- `delete_task`
abbrev pub delete_task : TaskService → String → Bool × TaskService
delete_task s task_id =
    let removed = remove_task s.scheduler task_id in (removed.0, with_scheduler s removed.1)

-- `TaskService.list_logs`
abbrev pub list_task_logs : TaskService → String → ℕ → List TaskRunLog
list_task_logs s task_id limit = list_logs s.task_log_service task_id limit

-- `reset`. An execution that goes on in the old scheduler is not followed.
abbrev pub reset : TaskService → TaskService
reset s = record {
  scheduler = record { objects = []; tasks = []; running_task_ids = [] };
  task_log_service = reset_logs s.task_log_service;
}

-- The request of `_execute_via_coordinator`.
abbrev pub task_request : ScheduledTask → String → ExecutionRequest
task_request task digits = record {
  group_folder = task.group_folder;
  chat_jid = task.chat_jid;
  user_id = "scheduled-task";
  prompt = task.prompt;
  source = scheduled;
  slot_id = "main";
  requested_mode = task.execution_mode;
  timeout_ms = none;
  fresh_session = false;
  request_id = some (str_append task.id (str_append "-" digits));
  request_metadata = none;
}

-- `_execute_via_coordinator` up to its await of the run.
unfoldable pub submit_task :
    Coordinator → ScheduledTask → String → String → ℕ → ExecutionHandle × Coordinator
submit_task c task digits fresh now = submit_execution c (task_request task digits) fresh now

-- What the await of the executor comes to: the text of what it returns, if that is not `None`, or
-- the text of a `TaskExecutionTimeoutError` or of another exception.
pub data TaskOutcome : Type 0 where
  returned : Option String → TaskOutcome
  timed_out : String → TaskOutcome
  raised : String → TaskOutcome

-- `result.error or default`
abbrev or_text : Option String → String → String
or_text none default = default
or_text (some error) default = if str_eq error "" then default else error

abbrev coerced : ExecutionStatus → Option String → Option String → TaskOutcome
coerced completed final_output error = returned final_output
coerced timeout final_output error = timed_out (or_text error "execution timed out")
coerced cancelled final_output error = raised (or_text error "cancelled")
coerced failed final_output error = raised (or_text error "execution failed")
coerced queued final_output error = raised (or_text error "execution failed")
coerced running final_output error = raised (or_text error "execution failed")

-- `_coerce_execution_result`
unfoldable pub coerce_execution_result : ExecutionResult → TaskOutcome
coerce_execution_result result = coerced result.status result.final_output result.error

abbrev pub is_returned : TaskOutcome → Bool
is_returned (returned _) = true
is_returned _ = false

abbrev log_status : TaskOutcome → String
log_status (returned _) = "success"
log_status (timed_out _) = "timeout"
log_status (raised _) = "error"

abbrev result_of : TaskOutcome → Option String
result_of (returned result) = result
result_of _ = none

abbrev error_of : TaskOutcome → Option String
error_of (returned _) = none
error_of (timed_out error) = some error
error_of (raised error) = some error

-- `_duration_ms`
abbrev pub duration_ms : ℕ → ℕ → ℕ
duration_ms started_at ended_at = (ended_at - started_at) / 1000

-- The times of an execution: `run_at`, the two readings of `perf_counter`, and those of the clock
-- of the scheduler.
pub record Times : Type 0 where
  pub run_at : Datetime
  pub started_at : ℕ
  pub ended_at : ℕ
  pub now : ℕ
  pub now' : ℕ

abbrev pub execution_log : TaskLogService → String → TaskOutcome → Times → TaskRunLog
execution_log s task_id outcome t =
    new_log s.next_id task_id t.run_at (duration_ms t.started_at t.ended_at) (log_status outcome)
      (result_of outcome) (error_of outcome)

-- The entry that `_execute_task` of the service makes when its executor has come to an end.
unfoldable pub log_execution : TaskLogService → String → TaskOutcome → Times → TaskLogService
log_execution s task_id outcome t = push_log s (execution_log s task_id outcome t)

-- `_execute_task` of the scheduler up to the await of the executor; `none` is its early return.
abbrev pub start_task_run : TaskService → ℕ → Option TaskService
start_task_run s r = elim (begin_task s.scheduler r) [
  | none ↦ none
  | some scheduler ↦ some (with_scheduler s scheduler)
]

-- The rest: the entry in the log, then the scheduler's end, and whether an exception leaves it.
unfoldable pub finish_task_run : Cron → TaskService → ℕ → TaskOutcome → Times → Bool × TaskService
finish_task_run croniter s r outcome t = elim (get_elem? s.scheduler.objects r) [
  | none ↦ (false, s)
  | some task ↦
      let ended = end_task croniter s.scheduler r (is_returned outcome) t.now t.now' in
      (
        ended.0,
        record {
          scheduler = ended.1;
          task_log_service = log_execution s.task_log_service task.id outcome t;
        },
      )
]
