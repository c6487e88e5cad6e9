-- ===== src/Terminal/Timeline/Filters.antt =====
-- The filter on the snapshots of a workspace in services/terminal_sessions.py.
use text.Mathlib.Text.{◌==◌ as str_eq}
use portex.Common.{
  ℕ, Bool, true, false, not, ◌&&◌, Option, none, some, List, String, ltb, if◌then◌else◌, keep_if,
}
use portex.Text.Strings.{str_strip, str_empty, str_starts_with}
use portex.Terminal.Sessions.{SessionStatus, created, attached, detached, closed, exited, Snapshot}
use portex.Clock.{Datetime, in_utc}
use portex.Terminal.Persistence.Files.{invalid_value, Fetched, done, failed}

-- `_normalize_snapshot_bound`
abbrev pub normalize_snapshot_bound : Option Datetime → Option ℕ
normalize_snapshot_bound none = none
normalize_snapshot_bound (some d) = some (in_utc d.wall d.zone)

-- What the methods take to filter by.
pub record Filter : Type 0 where
  pub status : Option SessionStatus
  pub owner_user_id : Option String
  pub session_id_prefix : Option String
  pub snapshot_from : Option Datetime
  pub snapshot_to : Option Datetime

abbrev pub status_eq : SessionStatus → SessionStatus → Bool
status_eq created created = true
status_eq attached attached = true
status_eq detached detached = true
status_eq closed closed = true
status_eq exited exited = true
status_eq _ _ = false

-- A text without its outer spaces; a blank one is none.
abbrev pub normalize_text : Option String → Option String
normalize_text none = none
normalize_text (some t) = if str_empty (str_strip t) then none else some (str_strip t)

-- A test that none passes.
abbrev pub passes {ℓ} : {A : Type ℓ} → Option A → (A → Bool) → Bool
passes none p = true
passes (some a) p = p a

abbrev pub bounds_cross : Option ℕ → Option ℕ → Bool
bounds_cross (some a) (some b) = ltb b a
bounds_cross _ _ = false

-- The tests of the loop of `_filter_history_snapshots`.
unfoldable pub is_selected : Filter → Snapshot → Bool
is_selected f snapshot =
    passes f.status (λ status. status_eq snapshot.info.status status)
    && passes (normalize_text f.owner_user_id) (λ owner. str_eq snapshot.info.owner_user_id owner)
    && passes (normalize_text f.session_id_prefix)
        (λ prefix. str_starts_with prefix snapshot.info.session_id)
    && passes (normalize_snapshot_bound f.snapshot_from) (λ t. not (ltb snapshot.snapshot_at t))
    && passes (normalize_snapshot_bound f.snapshot_to) (λ t. not (ltb t snapshot.snapshot_at))

unfoldable pub filter_history_snapshots : Filter → List Snapshot → Fetched (List Snapshot)
filter_history_snapshots f snapshots =
    if bounds_cross (normalize_snapshot_bound f.snapshot_from)
      (normalize_snapshot_bound f.snapshot_to)
    then failed invalid_value
    else done (keep_if (is_selected f) snapshots)
