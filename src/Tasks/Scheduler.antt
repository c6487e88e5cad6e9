-- ===== src/Tasks/Scheduler.antt =====
-- `TaskScheduler` of services/scheduler.py: its tasks, and the steps that change them. A task is an
-- object that its dict and a running execution refer to, so tasks stand in a heap. The executor's
-- outcome, croniter and the clock are arguments.
use Prim.Native.Nat.{Ordering, compare}
use portex.Common.{
  str_le, ℕ, Bool, true, false, not, ◌&&◌, ◌||◌, Option, none, some, List, [], ◌∷◌, ◌++◌, String,
  length, get_elem?, set, keep_if, if◌then◌else◌,
}
use portex.Dict.{Dict, get, put, pop, values, is_some}
use portex.Tasks.Schedule.{
  ScheduledTask, Cron, validate_task, initialize_next_run, mark_task_after_success, is_due,
}
pub mod Order
pub mod Ready
pub mod Histories
pub mod Pending

pub record Scheduler : Type 0 where
  pub objects : List ScheduledTask
  pub tasks : Dict ℕ
  pub running_task_ids : Dict Bool

-- `upsert_task`; `none` is an exception, after which nothing has changed.
unfoldable pub upsert_task : Cron → Scheduler → ScheduledTask → ℕ → Option Scheduler
upsert_task croniter s task now =
    if validate_task croniter task
    then elim (initialize_next_run croniter task now) [
      | none ↦ none
      | some task' ↦ some (record s {
        objects = s.objects ++ task' ∷ [];
        tasks = put s.tasks task'.id (length s.objects);
      })
    ]
    else none

-- `remove_task`
unfoldable pub remove_task : Scheduler → String → Bool × Scheduler
remove_task s task_id = (is_some (get s.tasks task_id), record s { tasks = pop s.tasks task_id })

-- The order of the keys `(task.next_run or datetime.max, task.id)`; no time is as late as the
-- last one.
abbrev pub time_le : Option ℕ → Option ℕ → Bool → Bool
time_le none none tie = tie
time_le none (some y) tie = false
time_le (some x) none tie = true
time_le (some x) (some y) tie = elim (compare x y) [
  | Ordering.lt ↦ true
  | Ordering.eq ↦ tie
  | Ordering.gt ↦ false
]

unfoldable pub key_le : ScheduledTask → ScheduledTask → Bool
key_le a b = time_le a.next_run b.next_run (str_le a.id b.id)

-- `sorted` with that key, on tasks with their references.
unfoldable pub insert_task : ℕ × ScheduledTask → List (ℕ × ScheduledTask) → List (ℕ × ScheduledTask)
insert_task x [] = x ∷ []
insert_task x (y ∷ ys) =
    let rest = insert_task x ys in if key_le x.1 y.1 then x ∷ y ∷ ys else y ∷ rest

unfoldable pub sort_tasks : List (ℕ × ScheduledTask) → List (ℕ × ScheduledTask)
sort_tasks [] = []
sort_tasks (x ∷ xs) = insert_task x (sort_tasks xs)

abbrev pub objects_of : List ScheduledTask → List ℕ → List (ℕ × ScheduledTask)
objects_of objects [] = []
objects_of objects (r ∷ rs) = elim (get_elem? objects r) [
  | none ↦ objects_of objects rs
  | some task ↦ (r, task) ∷ objects_of objects rs
]

-- `list_tasks`
unfoldable pub list_tasks : Scheduler → List (ℕ × ScheduledTask)
list_tasks s = sort_tasks (objects_of s.objects (values s.tasks))

abbrev pub is_running : Scheduler → String → Bool
is_running s task_id = is_some (get s.running_task_ids task_id)

-- The due tasks of `run_pending`, in their order.
unfoldable pub due_tasks : Scheduler → ℕ → List (ℕ × ScheduledTask)
due_tasks s now = sort_tasks (
    keep_if (λ x. is_due x.1 now && not (is_running s x.1.id))
      (objects_of s.objects (values s.tasks)))

-- `_execute_task` up to the await of the executor; `none` is its early return.
unfoldable pub begin_task : Scheduler → ℕ → Option Scheduler
begin_task s r = elim (get_elem? s.objects r) [
  | none ↦ none
  | some task ↦
      if is_running s task.id
      then none
      else some (record s { running_task_ids = put s.running_task_ids task.id true })
]

-- The rest of `_execute_task`, with whether the executor came to an end without an exception. The
-- result says whether an exception leaves it.
unfoldable pub end_task : Cron → Scheduler → ℕ → Bool → ℕ → ℕ → Bool × Scheduler
end_task croniter s r success now now' = elim (get_elem? s.objects r) [
  | none ↦ (false, s)
  | some task ↦
      let discarded = record s { running_task_ids = pop s.running_task_ids task.id } in
      if success
      then elim (mark_task_after_success croniter task now now') [
        | none ↦ (true, discarded)
        | some task' ↦ (false, record discarded { objects = set s.objects r task' })
      ]
      else (false, discarded)
]
