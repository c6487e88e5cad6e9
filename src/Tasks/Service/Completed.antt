-- ===== src/Tasks/Service/Completed.antt =====
-- What the log of services/task_service.py says of the tasks that are completed.
use portex.Common.{
  ℕ, ◌≡◌, refl, sym, ap, ◌∙◌, Bool, true, false, not, ◌&&◌, ◌||◌, Option, none, some, List, [], ◌∷◌,
  ◌++◌, String, length, get_elem?, set, get_elem?-set, get_elem?-push, get_elem?-lt, ◌==◌, ltb,
  arith, Bool-cases, Option-cases, inl, inr,
}
use portex.Dict.{is_some}
use portex.Tasks.Schedule.{
  ScheduledTask, TaskStatus, completed, Cron, validate_task, initialize_next_run, first_run,
  mark_task_after_success, is_active,
}
use portex.Tasks.Scheduler.{Scheduler, upsert_task, remove_task, begin_task, end_task, is_running}
use portex.Tasks.Scheduler.Ready.{id-mark_task_after_success}
use portex.Tasks.Logs.{TaskLogService, logs_of}
use portex.Tasks.Service.{
  TaskService, TaskArguments, TaskOutcome, is_returned, Times, new_task, normalize_schedule_value,
  normalize_execution_mode, create_task, delete_task, start_task_run, finish_task_run,
  log_execution, reset, with_scheduler,
}
use portex.Tasks.Service.Successes.{has_success, log_execution-has_success, log_execution-returned}

-- A call of the service, or the start or the end of an execution, whose result comes from the
-- executor.
pub data Action : Type 0 where
  create : TaskArguments → String → ℕ → ℕ → Action
  delete : String → Action
  start : ℕ → Action
  finish : ℕ → TaskOutcome → Times → Action
  restart : Action

abbrev or_same : Option TaskService → TaskService → TaskService
or_same none s = s
or_same (some s') s = s'

unfoldable pub perform : Cron → Action → TaskService → TaskService
perform croniter (create a digits created_at now) s =
    or_same (create_task croniter s a digits created_at now) s
perform croniter (delete task_id) s = (delete_task s task_id).1
perform croniter (start r) s = or_same (start_task_run s r) s
perform croniter (finish r outcome t) s = (finish_task_run croniter s r outcome t).1
perform croniter restart s = reset s

unfoldable pub perform_all : Cron → List Action → TaskService → TaskService
perform_all croniter [] s = s
perform_all croniter (a ∷ actions) s = perform_all croniter actions (perform croniter a s)

abbrev pub is_completed : TaskStatus → Bool
is_completed completed = true
is_completed _ = false

abbrev pub AreLogged : List ScheduledTask → TaskLogService → Type 0
AreLogged objects logs =
    (r : ℕ) (task : ScheduledTask)
    → get_elem? objects r ≡ some task
    → is_completed task.status ≡ true
    → has_success (logs_of logs task.id) ≡ true

status-initialize_next_run :
    (croniter : Cron) (task task' : ScheduledTask) (now : ℕ)
    → initialize_next_run croniter task now ≡ some task'
    → task'.status ≡ task.status
unfolding initialize_next_run
status-initialize_next_run croniter task task' now h =
    elim (Bool-cases (not (is_active task.status) || is_some task.next_run)) [
      | inl e ↦ ground (arith, h, e)
      | inr e ↦
          elim (Option-cases (first_run croniter task.schedule_type task.schedule_value now)) [
            | inl k ↦ absurd (ground (arith, h, e, k))
            | inr (none, k) ↦ ground (arith, h, e, k)
            | inr (some time, k) ↦ ground (arith, h, e, k)
          ]
    ]

pushed-AreLogged :
    (objects : List ScheduledTask) (task : ScheduledTask) (logs : TaskLogService)
    → is_completed task.status ≡ false
    → AreLogged objects logs
    → AreLogged (objects ++ task ∷ []) logs
pushed-AreLogged objects task logs new logged r other at done =
    elim (Bool-cases (r == length objects)) [
      | inl e ↦ absurd (
          ground
            (arith, get_elem?-push objects task r, at, done, new, e, get_elem?-lt objects r other))
      | inr e ↦ logged r other (ground (arith, get_elem?-push objects task r, at, e)) done
    ]

set-AreLogged :
    (objects : List ScheduledTask) (w : ℕ) (task : ScheduledTask) (logs : TaskLogService)
    → has_success (logs_of logs task.id) ≡ true
    → AreLogged objects logs
    → AreLogged (set objects w task) logs
set-AreLogged objects w task logs success logged r other at done =
    elim (Bool-cases (w == r && ltb w (length objects))) [
      | inl e ↦
          let same : task ≡ other = ground (arith, get_elem?-set objects w task r, at, e) in
          rw (sym same) success
      | inr e ↦ logged r other (ground (arith, get_elem?-set objects w task r, at, e)) done
    ]

end_task-AreLogged :
    (croniter : Cron) (s : Scheduler) (logs : TaskLogService) (r : ℕ) (task : ScheduledTask)
    (now now' : ℕ) (success : Bool)
    → get_elem? s.objects r ≡ some task
    → (success ≡ true → has_success (logs_of logs task.id) ≡ true)
    → AreLogged s.objects logs
    → AreLogged (end_task croniter s r success now now').1.objects logs
unfolding end_task
end_task-AreLogged croniter s logs r task now now' false e h logged = rw (e, end_task) logged
end_task-AreLogged croniter s logs r task now now' true e h logged =
    elim (Option-cases (mark_task_after_success croniter task now now')) [
      | inl m ↦ rw (e, m, end_task) logged
      | inr (task', m) ↦
          let same : task'.id ≡ task.id =
            id-mark_task_after_success croniter task task' now now' m in
          rw (e, m, end_task)
            (set-AreLogged s.objects r task' logs
              (ap (λ id. has_success (logs_of logs id)) same ∙ h refl) logged)
    ]

begin_task-objects : (s s' : Scheduler) (r : ℕ) → begin_task s r ≡ some s' → s'.objects ≡ s.objects
unfolding begin_task
begin_task-objects s s' r h = elim (Option-cases (get_elem? s.objects r)) [
  | inl e ↦ absurd (ground (arith, h, e))
  | inr (task, e) ↦ elim (Bool-cases (is_running s task.id)) [
    | inl b ↦ absurd (ground (arith, h, e, b))
    | inr b ↦ ground (arith, h, e, b)
  ]
]

module _ (croniter : Cron) (s : TaskService) where
  abbrev Holds : TaskService → Type 0
  Holds s' = AreLogged s'.scheduler.objects s'.task_log_service

  created :
      (task : ScheduledTask) (now : ℕ) (scheduler : Scheduler)
      → is_completed task.status ≡ false
      → upsert_task croniter s.scheduler task now ≡ some scheduler
      → Holds s
      → Holds (with_scheduler s scheduler)
  unfolding upsert_task
  created task now scheduler new e logged = elim (Bool-cases (validate_task croniter task)) [
    | inl v ↦ elim (Option-cases (initialize_next_run croniter task now)) [
      | inl k ↦ absurd (ground (arith, e, v, k))
      | inr (task', k) ↦
          let objects : scheduler.objects ≡ s.scheduler.objects ++ task' ∷ [] =
            ground (arith, e, v, k) in
          rw (objects) (
            pushed-AreLogged s.scheduler.objects task' s.task_log_service
              (ap is_completed (status-initialize_next_run croniter task task' now k) ∙ new) logged)
    ]
    | inr v ↦ absurd (ground (arith, e, v))
  ]

  module _ (logged : Holds s) where
    finished :
        (r : ℕ) (outcome : TaskOutcome) (t : Times)
        → Holds (finish_task_run croniter s r outcome t).1
    unfolding finish_task_run
    finished r outcome t = elim (Option-cases (get_elem? s.scheduler.objects r)) [
      | inl e ↦ rw (e, finish_task_run) logged
      | inr (task, e) ↦
          rw (e, finish_task_run)
            (end_task-AreLogged croniter s.scheduler
              (log_execution s.task_log_service task.id outcome t) r task t.now t.now'
              (is_returned outcome) e (log_execution-returned s.task_log_service task.id outcome t)
              (λ q other at done.
                log_execution-has_success s.task_log_service task.id other.id outcome t
                  (logged q other at done)))
    ]

    perform-AreLogged : (a : Action) → Holds (perform croniter a s)
    unfolding perform create_task remove_task
    perform-AreLogged (create a digits created_at now) =
        elim (Option-cases (normalize_schedule_value a.schedule_type a.schedule_value)) [
          | inl e ↦ rw (e, create_task) logged
          | inr (value, e) ↦ elim (Option-cases (normalize_execution_mode a.execution_mode)) [
            | inl k ↦ rw (e, k, create_task) logged
            | inr (mode, k) ↦
                let task = new_task a digits created_at value mode in
                elim (Option-cases (upsert_task croniter s.scheduler task now)) [
                  | inl u ↦ rw (e, k, u, create_task) logged
                  | inr (scheduler, u) ↦
                      rw (e, k, u, create_task) (created task now scheduler refl u logged)
                ]
          ]
        ]
    perform-AreLogged (delete task_id) = logged
    perform-AreLogged (start r) = elim (Option-cases (begin_task s.scheduler r)) [
      | inl e ↦ rw (e, perform, start_task_run) logged
      | inr (scheduler, e) ↦
          rw (e, perform, start_task_run) (rw (begin_task-objects s.scheduler scheduler r e) logged)
    ]
    perform-AreLogged (finish r outcome t) = finished r outcome t
    perform-AreLogged restart = λ r task at done. absurd (ground (arith, at))

-- From a service in which every completed task has the entry of a run with a result in its log,
-- such as a new one, any sequence of creations, deletions, starts and ends of executions and
-- resets leads to one where that holds.
pub perform_all-AreLogged :
    (croniter : Cron) (actions : List Action) (s : TaskService)
    → AreLogged s.scheduler.objects s.task_log_service
    → AreLogged
        (perform_all croniter actions s).scheduler.objects
        (perform_all croniter actions s).task_log_service
unfolding perform_all
perform_all-AreLogged croniter [] s logged = logged
perform_all-AreLogged croniter (a ∷ actions) s logged =
    perform_all-AreLogged croniter actions (perform croniter a s)
      (perform-AreLogged croniter s logged a)
