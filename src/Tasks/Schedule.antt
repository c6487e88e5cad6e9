-- ===== src/Tasks/Schedule.antt =====
-- The rules of services/scheduler.py that look at one task: its interval or cron expression, its
-- next run, and whether it is due. The cron expressions are those of the package croniter.
use portex.Common.{
  ℕ, zero, suc, ◌+◌, ◌-◌, ◌*◌, Bool, true, false, not, ◌&&◌, ◌||◌, Option, none, some, List, [],
  ◌∷◌, String, ltb, leb, ◌==◌, if◌then◌else◌,
}
use portex.Dict.{is_some}
use portex.Text.Integers.{parse_int}
use portex.Clock.{interval_of, add_interval}
use portex.Text.{strip, Text, is_space, isspace, is_empty}
pub mod CatchUp

pub data ScheduleType : Type 0 where
  cron : ScheduleType
  interval : ScheduleType
  once : ScheduleType
  unsupported : Option String → ScheduleType

pub data TaskStatus : Type 0 where
  active : TaskStatus
  completed : TaskStatus
  other_status : String → TaskStatus

pub record ScheduledTask : Type 0 where
  pub id : String
  pub group_folder : String
  pub chat_jid : String
  pub prompt : String
  pub execution_mode : Option String
  pub schedule_type : ScheduleType
  pub schedule_value : Option Text
  pub next_run : Option ℕ
  pub status : TaskStatus
  pub created_at : ℕ

-- `croniter(expression, start)`, which may refuse an expression, and its `get_next`, which may
-- find no date.
pub record Cron : Type 0 where
  pub accepts : Text → Bool
  pub get_next : Text → ℕ → Option ℕ

-- `_parse_interval_seconds`; `none` is the `ValueError`.
unfoldable pub parse_interval_seconds : Option Text → Option ℕ
parse_interval_seconds none = none
parse_interval_seconds (some value) = elim (parse_int value) [
  | none ↦ none
  | some seconds ↦ if leb seconds 0 then none else some seconds
]

-- `_parse_cron_expression`; `none` is the `ValueError`.
unfoldable pub parse_cron_expression : Option Text → Option Text
parse_cron_expression none = none
parse_cron_expression (some value) = if is_empty (strip value) then none else some value

-- The checks of `_validate_task` on the three fields that they look at.
unfoldable pub accepts_schedule : Cron → ScheduleType → Option Text → Option ℕ → Bool
accepts_schedule croniter interval value next_run = is_some (parse_interval_seconds value)
accepts_schedule croniter cron value next_run = elim (parse_cron_expression value) [
  | none ↦ false
  | some expression ↦ croniter.accepts expression
]
accepts_schedule croniter once value next_run = is_some next_run
accepts_schedule croniter (unsupported _) value next_run = false

-- `_validate_task`: whether it raises nothing.
unfoldable pub validate_task : Cron → ScheduledTask → Bool
validate_task croniter task =
    accepts_schedule croniter task.schedule_type task.schedule_value task.next_run

abbrev pub is_active : TaskStatus → Bool
is_active active = true
is_active _ = false

-- The next run that `_initialize_next_run` sets, if it sets one; `none` is an exception.
unfoldable pub first_run : Cron → ScheduleType → Option Text → ℕ → Option (Option ℕ)
first_run croniter interval value now = elim (parse_interval_seconds value) [
  | none ↦ none
  | some seconds ↦ elim (interval_of seconds) [
    | none ↦ none
    | some step ↦ elim (add_interval now step) [ none ↦ none | some time ↦ some (some time) ]
  ]
]
first_run croniter cron value now = elim (parse_cron_expression value) [
  | none ↦ none
  | some expression ↦ elim (croniter.get_next expression now) [
    | none ↦ none
    | some next ↦ some (some next)
  ]
]
first_run croniter once value now = some none
first_run croniter (unsupported _) value now = some none

-- `_initialize_next_run`; `none` is an exception.
unfoldable pub initialize_next_run : Cron → ScheduledTask → ℕ → Option ScheduledTask
initialize_next_run croniter task now =
    if not (is_active task.status) || is_some task.next_run
    then some task
    else elim (first_run croniter task.schedule_type task.schedule_value now) [
      | none ↦ none
      | some next ↦ elim next [
        | none ↦ some task
        | some time ↦ some (record task { next_run = some time })
      ]
    ]

-- The `while` loop of `_compute_next_run`, on fuel; `none` means that the fuel ran out, and
-- `some none` is the `OverflowError` of the addition.
unfoldable pub catch_up : ℕ → ℕ → ℕ → ℕ → Option (Option ℕ)
catch_up zero next_run step now = none
catch_up (suc fuel) next_run step now =
    if leb next_run now
    then elim (add_interval next_run step) [
      | none ↦ some none
      | some later ↦ catch_up fuel later step now
    ]
    else some (some next_run)

abbrev pub or_now : Option ℕ → ℕ → ℕ
or_now none now = now
or_now (some time) now = time

-- `_compute_next_run` from its anchor on: an exception, or a time or `None`.
unfoldable pub run_after : Cron → ScheduleType → Option Text → ℕ → ℕ → Option (Option ℕ)
run_after croniter interval value anchor now = elim (parse_interval_seconds value) [
  | none ↦ none
  | some seconds ↦ elim (interval_of seconds) [
    | none ↦ none
    | some step ↦ elim (catch_up (suc (now + 1 - anchor)) anchor step now) [
      | none ↦ none
      | some none ↦ none
      | some (some next) ↦ some (some next)
    ]
  ]
]
run_after croniter cron value anchor now = elim (parse_cron_expression value) [
  | none ↦ none
  | some expression ↦ elim (croniter.get_next expression anchor) [
    | none ↦ none
    | some next ↦ some (some next)
  ]
]
run_after croniter once value anchor now = some none
run_after croniter (unsupported _) value anchor now = none

-- `_compute_next_run`. The clock is read at most twice; `now` is the first reading and `now'` the
-- last.
unfoldable pub compute_next_run : Cron → ScheduledTask → ℕ → ℕ → Option (Option ℕ)
compute_next_run croniter task now now' =
    run_after croniter task.schedule_type task.schedule_value (or_now task.next_run now) now'

abbrev pub is_once : ScheduleType → Bool
is_once once = true
is_once _ = false

-- `_mark_task_after_success`; `none` is an exception, which leaves the task as it was.
unfoldable pub mark_task_after_success : Cron → ScheduledTask → ℕ → ℕ → Option ScheduledTask
mark_task_after_success croniter task now now' =
    if is_once task.schedule_type
    then some (record task { status = completed; next_run = none })
    else elim (compute_next_run croniter task now now') [
      | none ↦ none
      | some next ↦ some (record task { next_run = next })
    ]

-- `_is_due`
unfoldable pub is_due : ScheduledTask → ℕ → Bool
is_due task now = elim task.next_run [
  | none ↦ false
  | some next ↦ is_active task.status && leb next now
]
