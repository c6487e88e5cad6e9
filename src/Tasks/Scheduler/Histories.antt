-- ===== src/Tasks/Scheduler/Histories.antt =====
-- What may happen to the scheduler of services/scheduler.py, in any order, and what stays true of
-- its tasks.
use text.Mathlib.Text.{◌==◌ as str_eq}
use text.Mathlib.TextEquality.{eq_iff}
use portex.Common.{
  ℕ, ◌≡◌, ap, ◌∙◌, Bool, true, false, Option, none, some, List, [], ◌∷◌, ◌++◌, String, length,
  get_elem?, set, get_elem?-set, get_elem?-push, get_elem?-lt, ◌==◌, arith, Option-cases,
  Bool-cases, inl, inr,
}
use portex.Dict.{Dict, get, put, pop, get-put, get-pop}
use portex.Tasks.Schedule.{
  ScheduledTask, Cron, validate_task, initialize_next_run, mark_task_after_success,
}
use portex.Tasks.Scheduler.{Scheduler, upsert_task, remove_task, is_running, begin_task, end_task}
use portex.Tasks.Scheduler.Ready.{
  IsReady, initialized, id-mark_task_after_success, mark_task_after_success-IsReady,
}

-- A step: a call, or the start or the end of an execution. Times come from the clock.
pub data Action : Type 0 where
  upsert : ScheduledTask → ℕ → Action
  remove : String → Action
  begin : ℕ → Action
  end_with : ℕ → Bool → ℕ → ℕ → Action

abbrev or_same : Option Scheduler → Scheduler → Scheduler
or_same none s = s
or_same (some s') s = s'

unfoldable pub perform : Cron → Action → Scheduler → Scheduler
perform croniter (upsert task now) s = or_same (upsert_task croniter s task now) s
perform croniter (remove task_id) s = (remove_task s task_id).1
perform croniter (begin r) s = or_same (begin_task s r) s
perform croniter (end_with r success now now') s = (end_task croniter s r success now now').1

unfoldable pub perform_all : Cron → List Action → Scheduler → Scheduler
perform_all croniter [] s = s
perform_all croniter (a ∷ actions) s = perform_all croniter actions (perform croniter a s)

-- What a reference in the dict of tasks stands for.
pub record Filed (croniter : Cron) (objects : List ScheduledTask) (task_id : String) (r : ℕ)
    : Type 0 where
  pub task : ScheduledTask
  pub at : get_elem? objects r ≡ some task
  pub id_is : task.id ≡ task_id
  pub ready : IsReady croniter task

abbrev pub AreFiled : Cron → List ScheduledTask → Dict ℕ → Type 0
AreFiled croniter objects tasks =
    (task_id : String) (r : ℕ) → get tasks task_id ≡ some r → Filed croniter objects task_id r

pushed-AreFiled :
    (croniter : Cron) (objects : List ScheduledTask) (tasks : Dict ℕ) (task : ScheduledTask)
    → IsReady croniter task
    → AreFiled croniter objects tasks
    → AreFiled croniter (objects ++ task ∷ []) (put tasks task.id (length objects))
pushed-AreFiled croniter objects tasks task ready filed task_id r h =
    elim (Bool-cases (str_eq task.id task_id)) [
      | inl e ↦ record {
        task = task;
        at =
            ground (
              arith,
              get_elem?-push objects task r,
              get-put tasks task.id task_id (length objects),
            );
        id_is = ground (arith, eq_iff task.id task_id);
        ready = ready;
      }
      | inr e ↦
          let f : Filed croniter objects task_id r =
            filed task_id r (ground (arith, get-put tasks task.id task_id (length objects))) in
          let at : get_elem? objects r ≡ some f.task = f.at in
          record {
            task = f.task;
            at = ground (arith, get_elem?-push objects task r, get_elem?-lt objects r f.task);
            id_is = f.id_is;
            ready = f.ready;
          }
    ]

popped-AreFiled :
    (croniter : Cron) (objects : List ScheduledTask) (tasks : Dict ℕ) (id : String)
    → AreFiled croniter objects tasks
    → AreFiled croniter objects (pop tasks id)
popped-AreFiled croniter objects tasks id filed task_id r h =
    filed task_id r (ground (arith, get-pop tasks id task_id))

set-AreFiled :
    (croniter : Cron) (objects : List ScheduledTask) (tasks : Dict ℕ) (w : ℕ)
    (task task' : ScheduledTask)
    → get_elem? objects w ≡ some task
    → (IsReady croniter task → IsReady croniter task')
    → task'.id ≡ task.id
    → AreFiled croniter objects tasks
    → AreFiled croniter (set objects w task') tasks
set-AreFiled croniter objects tasks w task task' here kept same filed task_id r h =
    let f : Filed croniter objects task_id r = filed task_id r h in
    let at : get_elem? objects r ≡ some f.task = f.at in
    elim (Bool-cases (w == r)) [
      | inl e ↦
          let equal : task ≡ f.task = ground arith in
          record {
            task = task';
            at = ground (arith, get_elem?-set objects w task' r, get_elem?-lt objects r f.task);
            id_is = same ∙ ap (λ t. t.id) equal ∙ f.id_is;
            ready = kept (rw (equal) f.ready);
          }
      | inr e ↦ record {
        task = f.task;
        at = ground (arith, get_elem?-set objects w task' r);
        id_is = f.id_is;
        ready = f.ready;
      }
    ]

module _ (croniter : Cron) (s : Scheduler) (filed : AreFiled croniter s.objects s.tasks) where
  perform-AreFiled :
      (a : Action) → AreFiled croniter (perform croniter a s).objects (perform croniter a s).tasks
  unfolding perform upsert_task remove_task begin_task end_task
  perform-AreFiled (upsert task now) = elim (Bool-cases (validate_task croniter task)) [
    | inl v ↦ elim (Option-cases (initialize_next_run croniter task now)) [
      | inl e ↦ rw (v, e, upsert_task) filed
      | inr (task', e) ↦
          rw (v, e, upsert_task)
            (pushed-AreFiled croniter s.objects s.tasks task'
              (initialized croniter task task' now v e) filed)
    ]
    | inr v ↦ rw (v, upsert_task) filed
  ]
  perform-AreFiled (remove task_id) = popped-AreFiled croniter s.objects s.tasks task_id filed
  perform-AreFiled (begin r) = elim (Option-cases (get_elem? s.objects r)) [
    | inl e ↦ rw (e, begin_task) filed
    | inr (task, e) ↦ elim (Bool-cases (is_running s task.id)) [
      | inl b ↦ rw (e, b, begin_task) filed
      | inr b ↦ rw (e, b, begin_task) filed
    ]
  ]
  perform-AreFiled (end_with r true now now') = elim (Option-cases (get_elem? s.objects r)) [
    | inl e ↦ rw (e, perform, end_task) filed
    | inr (task, e) ↦ elim (Option-cases (mark_task_after_success croniter task now now')) [
      | inl m ↦ rw (e, m, perform, end_task) filed
      | inr (task', m) ↦
          rw (e, m, perform, end_task)
            (set-AreFiled croniter s.objects s.tasks r task task' e
              (λ ready. mark_task_after_success-IsReady croniter task task' now now' ready m)
              (id-mark_task_after_success croniter task task' now now' m) filed)
    ]
  ]
  perform-AreFiled (end_with r false now now') = elim (Option-cases (get_elem? s.objects r)) [
    | inl e ↦ rw (e, perform, end_task) filed
    | inr (task, e) ↦ rw (e, perform, end_task) filed
  ]

-- From a scheduler whose tasks are filed under their ids, have accepted schedules, and have a next
-- run if they are active, every sequence of upserts, removals, and starts and ends of executions
-- leaves them so.
pub perform_all-AreFiled :
    (croniter : Cron) (actions : List Action) (s : Scheduler)
    → AreFiled croniter s.objects s.tasks
    → AreFiled croniter
        (perform_all croniter actions s).objects
        (perform_all croniter actions s).tasks
unfolding perform_all
perform_all-AreFiled croniter [] s filed = filed
perform_all-AreFiled croniter (a ∷ actions) s filed =
    perform_all-AreFiled croniter actions (perform croniter a s)
      (perform-AreFiled croniter s filed a)
