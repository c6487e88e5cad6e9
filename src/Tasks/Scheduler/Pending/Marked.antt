-- ===== src/Tasks/Scheduler/Pending/Marked.antt =====
-- A task of services/scheduler.py that is marked after its run is not due, and other tasks are not
-- affected.
use text.Mathlib.TextEquality.{eq_iff}
use portex.Common.{
  ℕ, ◌+◌, ◌*◌, ◌≤◌, ◌≡◌, refl, ap, ◌∙◌, Bool, true, false, not, ◌&&◌, none, some, List, String,
  get_elem?, set, get_elem?-set, get_elem?-lt, length, ltb, ◌==◌, arith, Bool-cases, Option-cases,
  ◌⊎◌, inl, inr,
}
use mathlib.Core.Path.{subst}
use portex.Clock.{second, last_time}
use portex.Dict.{Dict, get, put, pop, get-put, get-pop, is_some}
use portex.Tasks.Schedule.{
  ScheduledTask, Cron, interval, once, parse_interval_seconds, mark_task_after_success, is_due,
  is_due, completed,
}
use portex.Tasks.Schedule.CatchUp.{
  compute_next_run-IsNextRun, parse_interval_seconds-lt, interval_marked, once_marked,
  mark_task_after_success-is_due,
}
use portex.Tasks.Scheduler.{Scheduler, is_running}
use portex.Tasks.Scheduler.Order.{waits_at}

-- A task for one run, or an interval task with a valid interval, which is a time when it is added
-- to the latest reading of the clock.
abbrev pub Repeats : ℕ → ScheduledTask → Type 0
Repeats latest task =
    (task.schedule_type ≡ once)
    ⊎ ((task.schedule_type ≡ interval)
        × ((seconds : ℕ) × (parse_interval_seconds task.schedule_value ≡ some seconds)
            × (latest + seconds * second ≤ last_time)))

abbrev pub AllRepeat : ℕ → List ScheduledTask → Type 0
AllRepeat latest objects =
    (r : ℕ) (task : ScheduledTask) → get_elem? objects r ≡ some task → Repeats latest task

pub marked :
    (croniter : Cron) (task : ScheduledTask) (latest now now' : ℕ)
    → now' ≤ latest
    → Repeats latest task
    → (task' : ScheduledTask) × (mark_task_after_success croniter task now now' ≡ some task')
      × Repeats latest task'
      × (is_due task' now' ≡ false)
marked croniter task latest now now' early (inl type) =
    let task' : ScheduledTask = record task { status = completed; next_run = none } in
    let marks : mark_task_after_success croniter task now now' ≡ some task' =
      once_marked croniter task now now' type in
    (
      task',
      marks,
      inl type,
      mark_task_after_success-is_due croniter task task' now now' (inr type) marks,
    )
marked croniter task latest now now' early (inr (type, (seconds, value, fits))) =
    let (next, computes, is) =
      compute_next_run-IsNextRun croniter task seconds now now' type value
        (parse_interval_seconds-lt task.schedule_value seconds value)
        (omega (arith, early, fits)) in
    let task' : ScheduledTask = record task { next_run = some next } in
    let marks : mark_task_after_success croniter task now now' ≡ some task' =
      interval_marked croniter task now now' next type computes in
    (
      task',
      marks,
      inr (type, (seconds, value, fits)),
      mark_task_after_success-is_due croniter task task' now now' (inl type) marks,
    )

pub not_due_before :
    (task : ScheduledTask) (now now' : ℕ)
    → now ≤ now'
    → is_due task now' ≡ false
    → is_due task now ≡ false
unfolding is_due
not_due_before task now now' h e = elim (Option-cases task.next_run) [
  | inl k ↦ rw (k) refl
  | inr (next, k) ↦ ground (arith, h, e, k)
]

pub waits_same :
    (s s' : Scheduler) (now q : ℕ)
    → get_elem? s'.objects q ≡ get_elem? s.objects q
    → ((id : String) → is_running s' id ≡ is_running s id)
    → waits_at s' now q ≡ waits_at s now q
waits_same s s' now q same running_same = elim (Option-cases (get_elem? s.objects q)) [
  | inl e ↦ rw (waits_at, same, e) refl
  | inr (task, e) ↦ rw (waits_at, same, e, running_same task.id) refl
]

pub popped_same :
    (d : Dict Bool) (id other : String)
    → is_some (get d id) ≡ false
    → is_some (get (pop (put d id true) id) other) ≡ is_some (get d other)
popped_same d id other h =
    ground (arith, get-pop (put d id true) id other, get-put d id other true, eq_iff id other, h)

-- A task that is marked is not due, and no other task is affected.
pub waits_set :
    (s s' : Scheduler) (now r : ℕ) (task task' : ScheduledTask)
    → get_elem? s.objects r ≡ some task
    → is_due task' now ≡ false
    → s'.objects ≡ set s.objects r task'
    → ((id : String) → is_running s' id ≡ is_running s id)
    → (q : ℕ) → waits_at s' now q ≡ (waits_at s now q && not (r == q && true))
waits_set s s' now r task task' at done objects running_same q = elim (Bool-cases (r == q)) [
  | inl e ↦
      let here : get_elem? s'.objects q ≡ some task' =
        ap (λ o. get_elem? o q) objects
        ∙ ground (arith, get_elem?-set s.objects r task' q, get_elem?-lt s.objects r task, at, e) in
      rw (waits_at, here, done, e) (ground arith)
  | inr e ↦
      let there : get_elem? s'.objects q ≡ get_elem? s.objects q =
        ap (λ o. get_elem? o q) objects ∙ ground (arith, get_elem?-set s.objects r task' q, e) in
      waits_same s s' now q there running_same ∙ ground (arith, e)
]

pub set-AllRepeat :
    (latest : ℕ) (objects : List ScheduledTask) (r : ℕ) (task : ScheduledTask)
    → Repeats latest task
    → AllRepeat latest objects
    → AllRepeat latest (set objects r task)
set-AllRepeat latest objects r task again repeat q other at =
    elim (Bool-cases (r == q && ltb r (length objects))) [
      | inl e ↦
          let same : task ≡ other = ground (arith, get_elem?-set objects r task q, at, e) in
          subst (Repeats latest) same again
      | inr e ↦ repeat q other (ground (arith, get_elem?-set objects r task q, at, e))
    ]
