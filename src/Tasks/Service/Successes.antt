-- ===== src/Tasks/Service/Successes.antt =====
-- The entries of runs that came to a result in the log of services/task_service.py.
use text.Mathlib.Text.{◌==◌ as str_eq}
use text.Mathlib.TextEquality.{eq_iff}
use portex.Common.{
  ◌≡◌, refl, ap, ◌∙◌, Bool, true, false, ◌||◌, List, [], ◌∷◌, ◌++◌, String, arith, if◌then◌else◌,
}
use portex.Tasks.Logs.{TaskRunLog, TaskLogService, logs_of, push_log, logs_of-push_log}
use portex.Tasks.Service.{
  TaskOutcome, returned, timed_out, raised, is_returned, Times, log_execution, execution_log,
}

-- Whether there is an entry of a run that came to a result.
abbrev pub has_success : List TaskRunLog → Bool
has_success [] = false
has_success (log ∷ l) = str_eq log.status "success" || has_success l

has_success-append :
    (l m : List TaskRunLog) → has_success (l ++ m) ≡ (has_success l || has_success m)
has_success-append [] m = refl
has_success-append (log ∷ l) m = ground (arith, has_success-append l m)

if_success :
    (same : Bool) (old own : List TaskRunLog) (log : TaskRunLog)
    → (same ≡ true → has_success own ≡ true)
    → has_success old ≡ true
    → has_success (if same then own ++ log ∷ [] else old) ≡ true
if_success true old own log h k = ground (arith, has_success-append own (log ∷ []), h refl)
if_success false old own log h k = k

push_log-has_success :
    (logs : TaskLogService) (log : TaskRunLog) (other : String)
    → has_success (logs_of logs other) ≡ true
    → has_success (logs_of (push_log logs log) other) ≡ true
push_log-has_success logs log other h =
    ap has_success (logs_of-push_log logs log other)
    ∙ if_success (str_eq log.task_id other) (logs_of logs other) (logs_of logs log.task_id) log
        (λ same. ap (λ id. has_success (logs_of logs id)) ((eq_iff log.task_id other).0 same) ∙ h) h

execution_log-success :
    (logs : TaskLogService) (task_id : String) (outcome : TaskOutcome) (t : Times)
    → is_returned outcome ≡ true
    → str_eq (execution_log logs task_id outcome t).status "success" ≡ true
execution_log-success logs task_id (returned result) t h = refl
execution_log-success logs task_id (timed_out error) t h = absurd (ground (arith, h))
execution_log-success logs task_id (raised error) t h = absurd (ground (arith, h))

-- An execution that ends leaves the entries that are there.
pub log_execution-has_success :
    (logs : TaskLogService) (task_id other : String) (outcome : TaskOutcome) (t : Times)
    → has_success (logs_of logs other) ≡ true
    → has_success (logs_of (log_execution logs task_id outcome t) other) ≡ true
unfolding log_execution
log_execution-has_success logs task_id other outcome t h =
    push_log-has_success logs (execution_log logs task_id outcome t) other h

pub log_execution-returned :
    (logs : TaskLogService) (task_id : String) (outcome : TaskOutcome) (t : Times)
    → is_returned outcome ≡ true
    → has_success (logs_of (log_execution logs task_id outcome t) task_id) ≡ true
unfolding log_execution
log_execution-returned logs task_id outcome t h =
    ap has_success (logs_of-push_log logs (execution_log logs task_id outcome t) task_id)
    ∙ ground (
      arith,
      eq_iff task_id task_id,
      has_success-append (logs_of logs task_id) (execution_log logs task_id outcome t ∷ []),
      execution_log-success logs task_id outcome t h,
    )
