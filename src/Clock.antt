-- ===== src/Clock.antt =====
-- Times: microseconds from the first `datetime` on the clock of UTC, or a `datetime` that has its own
-- distance from UTC; and intervals.
use portex.Common.{ℕ, ◌+◌, ◌-◌, ◌*◌, Option, none, some, ltb, leb, if◌then◌else◌}

-- A `datetime`: its wall clock in microseconds, and how far that is from UTC.
pub data Zone : Type 0 where
  naive : Zone
  ahead : ℕ → Zone
  behind : ℕ → Zone

pub record Datetime : Type 0 where
  pub wall : ℕ
  pub zone : Zone

-- `value.replace(tzinfo=timezone.utc)` of a naive time, and else `value.astimezone(timezone.utc)`.
abbrev pub in_utc : ℕ → Zone → ℕ
in_utc wall naive = wall
in_utc wall (ahead d) = wall - d
in_utc wall (behind d) = wall + d

-- `datetime.max`
abbrev pub last_time : ℕ
last_time = 315537897599999999

abbrev pub second : ℕ
second = 1000000

-- `timedelta(seconds=seconds)`; `none` is the `OverflowError` of a billion days.
unfoldable pub interval_of : ℕ → Option ℕ
interval_of seconds = if ltb seconds 86400000000000 then some (seconds * second) else none

-- `time + interval`; `none` is the `OverflowError` behind the last `datetime`.
unfoldable pub add_interval : ℕ → ℕ → Option ℕ
add_interval time step = if leb (time + step) last_time then some (time + step) else none
