-- ===== src/Tasks/Scheduler/Ready.antt =====
-- The tasks in the dict of services/scheduler.py can always be run.
use portex.Common.{
  ℕ, suc, ◌+◌, ◌-◌, ◌≡◌, refl, Bool, true, false, not, ◌&&◌, ◌||◌, Option, none, some, arith,
  Option-cases, Bool-cases, inl, inr,
}
use portex.Clock.{interval_of, add_interval}
use portex.Text.{Text}
use portex.Dict.{is_some}
use portex.Tasks.Schedule.{
  ScheduledTask, Cron, ScheduleType, cron, interval, once, unsupported, validate_task,
  accepts_schedule, first_run, run_after, initialize_next_run, compute_next_run, catch_up, or_now,
  mark_task_after_success, parse_interval_seconds, parse_cron_expression, is_active, is_once,
  completed,
}

-- A schedule of a supported type whose value is accepted.
abbrev pub has_schedule : Cron → ScheduleType → Option Text → Bool
has_schedule croniter interval value = is_some (parse_interval_seconds value)
has_schedule croniter cron value = elim (parse_cron_expression value) [
  | none ↦ false
  | some expression ↦ croniter.accepts expression
]
has_schedule croniter once value = true
has_schedule croniter (unsupported _) value = false

-- A task with an accepted schedule, which has a next run if it is active.
abbrev pub is_ready : Cron → ScheduledTask → Bool
is_ready croniter task =
    has_schedule croniter task.schedule_type task.schedule_value
    && (not (is_active task.status) || is_some task.next_run)

accepted_schedule :
    (croniter : Cron) (type : ScheduleType) (value : Option Text) (next_run : Option ℕ)
    → accepts_schedule croniter type value next_run ≡ true
    → has_schedule croniter type value ≡ true
unfolding accepts_schedule
accepted_schedule croniter interval value next_run h = h
accepted_schedule croniter cron value next_run h = h
accepted_schedule croniter once value next_run h = refl
accepted_schedule croniter (unsupported _) value next_run h = absurd (ground arith)

no_first_run :
    (croniter : Cron) (type : ScheduleType) (value : Option Text) (next_run : Option ℕ) (now : ℕ)
    → accepts_schedule croniter type value next_run ≡ true
    → first_run croniter type value now ≡ some none
    → is_some next_run ≡ true
unfolding accepts_schedule first_run
no_first_run croniter interval value next_run now h e =
    elim (Option-cases (parse_interval_seconds value)) [
      | inl x ↦ absurd (ground arith)
      | inr (n, x) ↦ elim (Option-cases (interval_of n)) [
        | inl y ↦ absurd (ground arith)
        | inr (step, y) ↦ elim (Option-cases (add_interval now step)) [
          | inl z ↦ absurd (ground arith)
          | inr (time, z) ↦ absurd (ground arith)
        ]
      ]
    ]
no_first_run croniter cron value next_run now h e =
    elim (Option-cases (parse_cron_expression value)) [
      | inl x ↦ absurd (ground arith)
      | inr (expression, x) ↦ elim (Option-cases (croniter.get_next expression now)) [
        | inl y ↦ absurd (ground arith)
        | inr (t, y) ↦ absurd (ground arith)
      ]
    ]
no_first_run croniter once value next_run now h e = h
no_first_run croniter (unsupported _) value next_run now h e = absurd (ground arith)

-- A task that is ready for its id.
abbrev pub IsReady : Cron → ScheduledTask → Type 0
IsReady croniter task = is_ready croniter task ≡ true

with_next_run :
    (croniter : Cron) (task : ScheduledTask) (time : ℕ)
    → has_schedule croniter task.schedule_type task.schedule_value ≡ true
    → IsReady croniter (record task { next_run = some time })
with_next_run croniter task time h = ground arith

pub initialized :
    (croniter : Cron) (task task' : ScheduledTask) (now : ℕ)
    → validate_task croniter task ≡ true
    → initialize_next_run croniter task now ≡ some task'
    → IsReady croniter task'
unfolding validate_task initialize_next_run
initialized croniter task task' now valid h =
    let schedule : has_schedule croniter task.schedule_type task.schedule_value ≡ true =
      accepted_schedule croniter task.schedule_type task.schedule_value task.next_run valid in
    elim (Bool-cases (not (is_active task.status) || is_some task.next_run)) [
      | inl g ↦ ground arith
      | inr g ↦
          elim (Option-cases (first_run croniter task.schedule_type task.schedule_value now)) [
            | inl e ↦ absurd (ground arith)
            | inr (none, e) ↦ absurd (
                ground (
                  arith,
                  no_first_run croniter task.schedule_type task.schedule_value task.next_run now
                      valid e,
                ))
            | inr (some time, e) ↦ ground (arith, with_next_run croniter task time schedule)
          ]
    ]

runs_after :
    (croniter : Cron) (type : ScheduleType) (value : Option Text) (anchor now : ℕ) (next : Option ℕ)
    → is_once type ≡ false
    → run_after croniter type value anchor now ≡ some next
    → is_some next ≡ true
unfolding run_after
runs_after croniter interval value anchor now next o h =
    elim (Option-cases (parse_interval_seconds value)) [
      | inl x ↦ absurd (ground arith)
      | inr (n, x) ↦ elim (Option-cases (interval_of n)) [
        | inl i ↦ absurd (ground arith)
        | inr (step, i) ↦ elim (Option-cases (catch_up (suc (now + 1 - anchor)) anchor step now)) [
          | inl y ↦ absurd (ground arith)
          | inr (none, y) ↦ absurd (ground arith)
          | inr (some t, y) ↦ ground arith
        ]
      ]
    ]
runs_after croniter cron value anchor now next o h =
    elim (Option-cases (parse_cron_expression value)) [
      | inl x ↦ absurd (ground arith)
      | inr (expression, x) ↦ elim (Option-cases (croniter.get_next expression anchor)) [
        | inl y ↦ absurd (ground arith)
        | inr (t, y) ↦ ground arith
      ]
    ]
runs_after croniter once value anchor now next o h = absurd (ground arith)
runs_after croniter (unsupported _) value anchor now next o h = absurd (ground arith)

with_next :
    (croniter : Cron) (task : ScheduledTask) (next : Option ℕ)
    → IsReady croniter task
    → is_some next ≡ true
    → IsReady croniter (record task { next_run = next })
with_next croniter task next ready h = ground arith

with_end :
    (croniter : Cron) (task : ScheduledTask)
    → IsReady croniter task
    → IsReady croniter (record task { status = completed; next_run = none })
with_end croniter task ready = ground arith

pub id-mark_task_after_success :
    (croniter : Cron) (task task' : ScheduledTask) (now now' : ℕ)
    → mark_task_after_success croniter task now now' ≡ some task'
    → task'.id ≡ task.id
unfolding mark_task_after_success
id-mark_task_after_success croniter task task' now now' h =
    elim (Bool-cases (is_once task.schedule_type)) [
      | inl o ↦ ground arith
      | inr o ↦ elim (Option-cases (compute_next_run croniter task now now')) [
        | inl e ↦ absurd (ground arith)
        | inr (next, e) ↦ ground arith
      ]
    ]

-- A run with success keeps a task ready.
pub mark_task_after_success-IsReady :
    (croniter : Cron) (task task' : ScheduledTask) (now now' : ℕ)
    → IsReady croniter task
    → mark_task_after_success croniter task now now' ≡ some task'
    → IsReady croniter task'
unfolding mark_task_after_success compute_next_run
mark_task_after_success-IsReady croniter task task' now now' ready h =
    elim (Bool-cases (is_once task.schedule_type)) [
      | inl o ↦ ground (arith, with_end croniter task ready)
      | inr o ↦ elim (Option-cases (compute_next_run croniter task now now')) [
        | inl e ↦ absurd (ground arith)
        | inr (next, e) ↦ ground (
          arith,
          with_next croniter task next ready,
          runs_after croniter task.schedule_type task.schedule_value (or_now task.next_run now) now'
              next o e,
        )
      ]
    ]
