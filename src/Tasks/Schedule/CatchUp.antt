-- ===== src/Tasks/Schedule/CatchUp.antt =====
-- The next run of an interval task in services/scheduler.py: the loop ends, and where; and a task
-- that has run is not due.
use native.Mathlib.Nat.{suc-mul, zero-mul}
use portex.Common.{
  ℕ, zero, suc, ◌+◌, ◌-◌, ◌*◌, ◌≤◌, ◌<◌, ◌≡◌, refl, sym, ◌∙◌, ap, true, false, Option, none, some,
  leb, ltb, arith, Option-cases, Bool-cases, ◌⊎◌, inl, inr,
}
use portex.Clock.{second, last_time, interval_of, add_interval}
use portex.Text.{Text}
use portex.Text.Integers.{parse_int}
use portex.Tasks.Schedule.{
  ScheduledTask, Cron, interval, once, catch_up, run_after, compute_next_run,
  mark_task_after_success, is_due, parse_interval_seconds, or_now, is_once, completed,
}

-- The first time after `now` that is a whole number of steps after the anchor.
pub record IsNextRun (anchor step now next : ℕ) : Type 0 where
  pub times : ℕ
  pub on_grid : next ≡ anchor + times * step
  pub later : now < next
  pub first : times ≡ 0 ⊎ (next ≤ now + step)

-- What the loop comes to: a time, or the exception of an addition behind the last `datetime`.
data Ended (next step now : ℕ) (result : Option (Option ℕ)) : Type 0 where
  reached :
      (r : ℕ) → result ≡ some (some r) → IsNextRun next step now r → Ended next step now result
  overflows : result ≡ some none → last_time < now + step → Ended next step now result

catch_up_again :
    (fuel next step now : ℕ)
    → leb next now ≡ true
    → leb (next + step) last_time ≡ true
    → catch_up (suc fuel) next step now ≡ catch_up fuel (next + step) step now
unfolding catch_up add_interval
catch_up_again fuel next step now e fits = rw (e, fits, catch_up, add_interval) refl

catch_up_overflows :
    (fuel next step now : ℕ)
    → leb next now ≡ true
    → leb (next + step) last_time ≡ false
    → catch_up (suc fuel) next step now ≡ some none
unfolding catch_up add_interval
catch_up_overflows fuel next step now e over = rw (e, over, catch_up, add_interval) refl

catch_up_ends :
    (fuel next step now : ℕ)
    → leb next now ≡ false
    → catch_up (suc fuel) next step now ≡ some (some next)
unfolding catch_up
catch_up_ends fuel next step now e = rw (e, catch_up) refl

next_grid : (next step r times : ℕ) → r ≡ next + step + times * step → r ≡ next + suc times * step
next_grid next step r times h = omega (arith, suc-mul times step)

next_within :
    (next step now r times : ℕ)
    → leb next now ≡ true
    → r ≡ next + step + times * step
    → times ≡ 0 ⊎ (r ≤ now + step)
    → r ≤ now + step
next_within next step now r times e h (inl z) =
    let none_left : times * step ≡ 0 = ap (λ n. n * step) z ∙ zero-mul step in
    ground (arith, none_left)
next_within next step now r times e h (inr b) = b

less_fuel :
    (fuel next step now : ℕ)
    → 0 < step
    → leb next now ≡ true
    → now + 1 - next < suc fuel
    → now + 1 - (next + step) < fuel
less_fuel fuel next step now pos e enough = ground arith

one_more :
    (fuel next step now : ℕ)
    → leb next now ≡ true
    → leb (next + step) last_time ≡ true
    → Ended (next + step) step now (catch_up fuel (next + step) step now)
    → Ended next step now (catch_up (suc fuel) next step now)
one_more fuel next step now e fits (reached r ends is) =
    reached r (catch_up_again fuel next step now e fits ∙ ends) record {
      times = suc is.times;
      on_grid = next_grid next step r is.times is.on_grid;
      later = is.later;
      first = inr (next_within next step now r is.times e is.on_grid is.first);
    }
one_more fuel next step now e fits (overflows ends beyond) =
    overflows (catch_up_again fuel next step now e fits ∙ ends) beyond

catch_up-Ended :
    (fuel next step now : ℕ)
    → 0 < step
    → now + 1 - next < fuel
    → Ended next step now (catch_up fuel next step now)
catch_up-Ended zero next step now pos enough = absurd (omega arith)
catch_up-Ended (suc fuel) next step now pos enough = elim (Bool-cases (leb next now)) [
  | inl e ↦ elim (Bool-cases (leb (next + step) last_time)) [
    | inl fits ↦
        one_more fuel next step now e fits (
          catch_up-Ended fuel (next + step) step now pos
            (less_fuel fuel next step now pos e enough))
    | inr over ↦ overflows (catch_up_overflows fuel next step now e over) (ground (arith, e, over))
  ]
  | inr e ↦ reached next (catch_up_ends fuel next step now e) record {
    times = 0;
    on_grid = omega (arith, zero-mul step);
    later = ground arith;
    first = inl refl;
  }
]

abbrev pub loop : ScheduledTask → ℕ → ℕ → ℕ → Option (Option ℕ)
loop task step now now' =
    catch_up (suc (now' + 1 - or_now task.next_run now)) (or_now task.next_run now) step now'

-- What the next run of an interval task comes to: a time, or an exception where one interval after
-- the present lies behind the last `datetime`, since the interval is too long for a `timedelta` or
-- the loop ends in an addition.
pub data Computed (croniter : Cron) (task : ScheduledTask) (seconds now now' : ℕ) : Type 0 where
  computes :
      (r : ℕ)
      → compute_next_run croniter task now now' ≡ some (some r)
      → IsNextRun (or_now task.next_run now) (seconds * second) now' r
      → Computed croniter task seconds now now'
  raises :
      compute_next_run croniter task now now' ≡ none
      → (interval_of seconds ≡ none) ⊎ (loop task (seconds * second) now now' ≡ some none)
      → last_time < now' + seconds * second
      → Computed croniter task seconds now now'

module _ (croniter : Cron) (task : ScheduledTask) (seconds now now' : ℕ)
    (type : task.schedule_type ≡ interval)
    (value : parse_interval_seconds task.schedule_value ≡ some seconds) where
  looped :
      (result : Option (Option ℕ))
      → interval_of seconds ≡ some (seconds * second)
      → loop task (seconds * second) now now' ≡ result
      → compute_next_run croniter task now now'
        ≡ elim result [ none ↦ none | some none ↦ none | some (some r) ↦ some (some r) ]
  unfolding compute_next_run run_after
  looped none short ends = rw (type, compute_next_run, run_after, value, short, ends) refl
  looped (some none) short ends = rw (type, compute_next_run, run_after, value, short, ends) refl
  looped (some (some r)) short ends =
      rw (type, compute_next_run, run_after, value, short, ends) refl

  too_long : interval_of seconds ≡ none → compute_next_run croniter task now now' ≡ none
  unfolding compute_next_run run_after
  too_long e = rw (type, compute_next_run, run_after, value, e) refl

  ended :
      interval_of seconds ≡ some (seconds * second)
      → Ended
          (or_now task.next_run now)
          (seconds * second)
          now'
          (loop task (seconds * second) now now')
      → Computed croniter task seconds now now'
  ended short (reached r ends is) = computes r (looped (some (some r)) short ends) is
  ended short (overflows ends beyond) = raises (looped (some none) short ends) (inr ends) beyond

  -- For an interval task with a valid interval, the loop ends, and the next run is computed as the
  -- first time after the last reading of the clock that is a whole number of intervals, none
  -- included, after the previous run, or after the first reading if there was none; or an exception
  -- is raised, by `timedelta` or in the loop, and then the last reading plus one interval lies behind
  -- the last `datetime`.
  pub compute_next_run-Computed : 0 < seconds → Computed croniter task seconds now now'
  unfolding interval_of
  compute_next_run-Computed pos = elim (Bool-cases (ltb seconds 86400000000000)) [
    | inl short ↦ ended (rw (short, interval_of) refl) (
        catch_up-Ended (suc (now' + 1 - or_now task.next_run now)) (or_now task.next_run now)
          (seconds * second) now' (omega arith) (omega arith))
    | inr long ↦
        let none_is : interval_of seconds ≡ none = rw (long, interval_of) refl in
        raises (too_long none_is) (inl none_is) (ground (arith, long))
  ]

  -- Where one interval after the present is still a `datetime`, there is no exception.
  pub compute_next_run-IsNextRun :
      0 < seconds
      → now' + seconds * second ≤ last_time
      → (r : ℕ) × (compute_next_run croniter task now now' ≡ some (some r))
        × IsNextRun (or_now task.next_run now) (seconds * second) now' r
  compute_next_run-IsNextRun pos fits = elim (compute_next_run-Computed pos) [
    | computes r e is ↦ (r, e, is)
    | raises e cause beyond ↦ absurd (omega (arith, fits, beyond))
  ]

-- An interval that parses is positive.
pub parse_interval_seconds-lt :
    (value : Option Text) (seconds : ℕ) → parse_interval_seconds value ≡ some seconds → 0 < seconds
unfolding parse_interval_seconds
parse_interval_seconds-lt none seconds h = absurd (ground arith)
parse_interval_seconds-lt (some value) seconds h = elim (Option-cases (parse_int value)) [
  | inl e ↦ absurd (ground arith)
  | inr (n, e) ↦ ground arith
]

pub interval_marked :
    (croniter : Cron) (task : ScheduledTask) (now now' r : ℕ)
    → task.schedule_type ≡ interval
    → compute_next_run croniter task now now' ≡ some (some r)
    → mark_task_after_success croniter task now now' ≡ some (record task { next_run = some r })
unfolding mark_task_after_success
interval_marked croniter task now now' r type e =
    rw (ap is_once type, mark_task_after_success, e) refl

exception_marked :
    (croniter : Cron) (task : ScheduledTask) (now now' : ℕ)
    → task.schedule_type ≡ interval
    → compute_next_run croniter task now now' ≡ none
    → mark_task_after_success croniter task now now' ≡ none
unfolding mark_task_after_success
exception_marked croniter task now now' type e =
    rw (ap is_once type, mark_task_after_success, e) refl

interval_raised :
    (croniter : Cron) (task : ScheduledTask) (now now' : ℕ)
    → task.schedule_type ≡ interval
    → parse_interval_seconds task.schedule_value ≡ none
    → mark_task_after_success croniter task now now' ≡ none
unfolding compute_next_run run_after
interval_raised croniter task now now' type e =
    exception_marked croniter task now now' type (rw (type, compute_next_run, run_after, e) refl)

pub once_marked :
    (croniter : Cron) (task : ScheduledTask) (now now' : ℕ)
    → task.schedule_type ≡ once
    → mark_task_after_success croniter task now now'
      ≡ some (record task { status = completed; next_run = none })
unfolding mark_task_after_success
once_marked croniter task now now' type = rw (ap is_once type, mark_task_after_success) refl

no_next_run : (task : ScheduledTask) (now : ℕ) → task.next_run ≡ none → is_due task now ≡ false
unfolding is_due
no_next_run task now e = rw (e, is_due) refl

later_not_due :
    (task : ScheduledTask) (next now : ℕ)
    → task.next_run ≡ some next
    → now < next
    → is_due task now ≡ false
unfolding is_due
later_not_due task next now e h = rw (e, is_due) (ground arith)

-- An interval task or a task for one run that has run with success, without an exception, is not
-- due by the last reading of the clock.
pub mark_task_after_success-is_due :
    (croniter : Cron) (task task' : ScheduledTask) (now now' : ℕ)
    → (task.schedule_type ≡ interval) ⊎ (task.schedule_type ≡ once)
    → mark_task_after_success croniter task now now' ≡ some task'
    → is_due task' now' ≡ false
unfolding mark_task_after_success is_due
mark_task_after_success-is_due croniter task task' now now' (inl type) h =
    elim (Option-cases (parse_interval_seconds task.schedule_value)) [
      | inl e ↦ absurd (ground (arith, interval_raised croniter task now now' type e))
      | inr (seconds, e) ↦
          elim (compute_next_run-Computed croniter task seconds now now' type e
            (parse_interval_seconds-lt task.schedule_value seconds e)) [
              | computes r marks is ↦
                  let marked : some (record task { next_run = some r }) ≡ some task' =
                    sym (interval_marked croniter task now now' r type marks) ∙ h in
                  later_not_due task' r now' (ground (arith, marked)) is.later
              | raises marks cause beyond ↦
                  absurd (ground (arith, h, exception_marked croniter task now now' type marks))
            ]
    ]
mark_task_after_success-is_due croniter task task' now now' (inr type) h =
    let marked : some (record task { status = completed; next_run = none }) ≡ some task' =
      sym (once_marked croniter task now now' type) ∙ h in
    no_next_run task' now' (ground arith)
