-- ===== src/Terminal/Timeline/Merging.antt =====
-- The snapshots of one workspace merged, in services/terminal_sessions.py: one for each session, the
-- latest first.
use portex.Common.{Bool, Option, none, some, List, [], ◌∷◌, ltb, if◌then◌else◌, map}
use portex.Dict.{Dict, get, put, values}
use portex.Sort.{asc, str_asc, row_le, sort_rows}
use portex.Terminal.Sessions.{Snapshot}
use portex.Terminal.Persistence.Files.{no_history, Fetched, done, failed}

-- The body of the loop of `_dedupe_timeline_snapshots`.
unfoldable pub keep_newest : Dict Snapshot → Snapshot → Dict Snapshot
keep_newest d snapshot = elim (get d snapshot.info.session_id) [
  | none ↦ put d snapshot.info.session_id snapshot
  | some existing ↦
      if ltb existing.snapshot_at snapshot.snapshot_at
      then put d snapshot.info.session_id snapshot
      else d
]

unfoldable pub keep_all_newest : Dict Snapshot → List Snapshot → Dict Snapshot
keep_all_newest d [] = d
keep_all_newest d (snapshot ∷ snapshots) = keep_all_newest (keep_newest d snapshot) snapshots

abbrev pub present : List (Option Snapshot) → List Snapshot
present [] = []
present (none ∷ rest) = present rest
present (some snapshot ∷ rest) = snapshot ∷ present rest

-- `_dedupe_timeline_snapshots`
unfoldable pub dedupe_timeline_snapshots :
    Option Snapshot → Option Snapshot → List Snapshot → List Snapshot
dedupe_timeline_snapshots in_memory latest archived =
    values (keep_all_newest [] (present (in_memory ∷ latest ∷ map some archived)))

-- The sort of the merged snapshots, with `reverse=True`: those of one key keep their order.
abbrev pub newest_first : Snapshot → Snapshot → Bool
newest_first a b = row_le (asc (λ s. s.snapshot_at) ∷ str_asc (λ s. s.info.session_id) ∷ []) b a

abbrev pub or_no_history {ℓ} : {A : Type ℓ} → List A → Fetched (List A)
or_no_history [] = failed no_history
or_no_history (x ∷ xs) = done (x ∷ xs)

unfoldable pub merge_timeline :
    Option Snapshot → Option Snapshot → List Snapshot → Fetched (List Snapshot)
merge_timeline in_memory latest archived =
    or_no_history (sort_rows newest_first (dedupe_timeline_snapshots in_memory latest archived))
