-- ===== src/Tasks/Logs.antt =====
-- `TaskLogService` of services/task_log_service.py: what is kept of the executions of tasks.
use text.Mathlib.Text.{◌==◌ as str_eq}
use portex.Common.{
  ℕ, suc, ◌≡◌, refl, ap, ◌∙◌, Bool, true, false, if◌then◌else◌, Option, none, some, List, [], ◌∷◌,
  ◌++◌, String, take,
}
use portex.Clock.{Datetime, in_utc}
use portex.Dict.{Dict, get, put, get-put}
use portex.Sort.{Column, desc, row_le, sort_rows}
pub mod Newest

pub record TaskRunLog : Type 0 where
  pub id : ℕ
  pub task_id : String
  pub run_at : ℕ
  pub duration_ms : ℕ
  pub status : String
  pub result : Option String
  pub error : Option String

pub record TaskLogService : Type 0 where
  pub next_id : ℕ
  pub logs_by_task_id : Dict (List TaskRunLog)

abbrev pub no_logs : TaskLogService
no_logs = record { next_id = 1; logs_by_task_id = [] }

abbrev pub or_no_logs : Option (List TaskRunLog) → List TaskRunLog
or_no_logs none = []
or_no_logs (some logs) = logs

-- `_logs_by_task_id.get(task_id, [])`
abbrev pub logs_of : TaskLogService → String → List TaskRunLog
logs_of s task_id = or_no_logs (get s.logs_by_task_id task_id)

abbrev pub push_log : TaskLogService → TaskRunLog → TaskLogService
push_log s log = record {
  next_id = suc s.next_id;
  logs_by_task_id = put s.logs_by_task_id log.task_id (logs_of s log.task_id ++ log ∷ []);
}

abbrev pub new_log : ℕ → String → Datetime → ℕ → String → Option String → Option String → TaskRunLog
new_log id task_id run_at duration_ms status result error = record {
  id = id;
  task_id = task_id;
  run_at = in_utc run_at.wall run_at.zone;
  duration_ms = duration_ms;
  status = status;
  result = result;
  error = error;
}

-- `record_log`, on the fields of the entry but its id.
unfoldable pub record_log :
    TaskLogService
    → String
    → Datetime
    → ℕ
    → String
    → Option String
    → Option String
    → TaskLogService × TaskRunLog
record_log s task_id run_at duration_ms status result error =
    let log : TaskRunLog = new_log s.next_id task_id run_at duration_ms status result error in
    (push_log s log, log)

-- The key `(log.run_at, log.id)`, with the largest first.
abbrev pub log_key : List (Column TaskRunLog)
log_key = desc (λ log. log.run_at) ∷ desc (λ log. log.id) ∷ []

-- `list_logs`, with a limit that is not negative.
unfoldable pub list_logs : TaskLogService → String → ℕ → List TaskRunLog
list_logs s task_id limit = take limit (sort_rows (row_le log_key) (logs_of s task_id))

-- `reset`
abbrev pub reset_logs : TaskLogService → TaskLogService
reset_logs s = no_logs

if_logs :
    (same : Bool) (new : List TaskRunLog) (old : Option (List TaskRunLog))
    → or_no_logs (if same then some new else old) ≡ (if same then new else or_no_logs old)
if_logs true new old = refl
if_logs false new old = refl

pub logs_of-push_log :
    (s : TaskLogService) (log : TaskRunLog) (task_id : String)
    → logs_of (push_log s log) task_id ≡ (
        if str_eq log.task_id task_id then logs_of s log.task_id ++ log ∷ [] else logs_of s task_id)
logs_of-push_log s log task_id =
    let new : List TaskRunLog = logs_of s log.task_id ++ log ∷ [] in
    ap or_no_logs (get-put s.logs_by_task_id log.task_id task_id new)
    ∙ if_logs (str_eq log.task_id task_id) new (get s.logs_by_task_id task_id)
