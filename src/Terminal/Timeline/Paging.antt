-- ===== src/Terminal/Timeline/Paging.antt =====
-- The pages of a history, and the summaries of its snapshots, in services/terminal_sessions.py.
use portex.Common.{ℕ, ◌+◌, Bool, Option, none, some, List, length, zero, suc, ltb, slice}
use portex.Terminal.Sessions.{SessionRecord, Snapshot}

-- Python's `int`
pub data ℤ : Type 0 where
  pos : ℕ → ℤ
  negsuc : ℕ → ℤ

-- The guards `limit <= 0` and `offset < 0`.
abbrev pub checked_page : ℤ → ℤ → Option (ℕ × ℕ)
checked_page (pos zero) offset = none
checked_page (pos (suc limit)) (pos offset) = some (suc limit, offset)
checked_page (pos (suc limit)) (negsuc offset) = none
checked_page (negsuc limit) offset = none

pub record Page {ℓ} (A : Type ℓ) : Type ℓ where
  pub limit : ℕ
  pub offset : ℕ
  pub total : ℕ
  pub has_more : Bool
  pub items : List A

unfoldable pub page_of {ℓ} : {A : Type ℓ} → List A → ℕ → ℕ → Page A
page_of items limit offset = record {
  limit = limit;
  offset = offset;
  total = length items;
  has_more = ltb (offset + limit) (length items);
  items = slice items offset (offset + limit);
}

-- `TerminalSessionHistorySummary`
pub record Summary : Type 0 where
  pub info : SessionRecord
  pub snapshot_at : ℕ
  pub output_bytes : ℕ
  pub history_max_bytes : ℕ
  pub truncated : Bool

-- `_to_history_summary`
unfoldable pub to_history_summary : Snapshot → Summary
to_history_summary snapshot = record {
  info = snapshot.info;
  snapshot_at = snapshot.snapshot_at;
  output_bytes = snapshot.output_bytes;
  history_max_bytes = snapshot.history_max_bytes;
  truncated = snapshot.truncated;
}
