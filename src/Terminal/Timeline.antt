-- ===== src/Terminal/Timeline.antt =====
-- The history of a workspace in `TerminalSessionService` of services/terminal_sessions.py: the
-- snapshots in memory and on disk merged, filtered and cut into pages. What is read from disk is an
-- argument of the parts that only combine it.
pub mod Paging
pub mod Merging
pub mod Filters
pub mod Newest
pub mod Pages
pub mod Search
mod Tests
use text.Mathlib.Text.{◌==◌ as str_eq}
use portex.Common.{
  ℕ, ◌+◌, Bool, true, false, not, ◌&&◌, Option, none, some, List, [], ◌∷◌, ◌++◌, String, length,
  zero, suc, get_elem?, ◌||◌, ltb, if◌then◌else◌, slice, keep_if, map,
}
use portex.Dict.{Dict, get, put, values, has}
use portex.Text.{Text}
use portex.Text.Strings.{str_strip, str_empty, str_starts_with}
use portex.Sort.{asc, desc, str_asc, row_le, sort_rows}
use portex.Terminal.Sessions.{
  SessionStatus, created, attached, detached, closed, exited, SessionRecord, Service,
  ManagedSession, Snapshot, session_by_group, build_history_snapshot,
}
use portex.Clock.{Datetime, in_utc}
use portex.Terminal.Persistence.{Json, IsoFormat}
use portex.Terminal.Persistence.Files.{
  Root, HistoryError, no_history, invalid_value, Fetched, done, failed,
  load_persisted_history_snapshot, list_persisted_history_archived_snapshots,
  list_persisted_history_snapshots,
}
use portex.Terminal.Timeline.Merging.{
  keep_newest, keep_all_newest, present, dedupe_timeline_snapshots, newest_first, or_no_history,
  merge_timeline,
}
use portex.Terminal.Timeline.Filters.{
  normalize_snapshot_bound, Filter, status_eq, normalize_text, passes, bounds_cross, is_selected,
  filter_history_snapshots,
}
use portex.Terminal.Timeline.Paging.{ℤ, checked_page, Page, page_of, Summary, to_history_summary}

-- The snapshot of a workspace's session, if it has one.
abbrev pub in_memory_snapshot : Service → ℕ → String → Option Snapshot
in_memory_snapshot s now group_folder = elim (session_by_group s group_folder) [
  | none ↦ none
  | some (r, m) ↦ some (build_history_snapshot s m now)
]

abbrev pub and_then {ℓ κ} : {A : Type ℓ} {B : Type κ} → Fetched A → (A → Fetched B) → Fetched B
and_then (failed e) f = failed e
and_then (done a) f = f a

-- `get_history_snapshot_by_group`, in the merged snapshots.
unfoldable pub find_snapshot : List Snapshot → String → Fetched Snapshot
find_snapshot [] session_id = failed no_history
find_snapshot (snapshot ∷ rest) session_id =
    if str_eq snapshot.info.session_id session_id
    then done snapshot
    else find_snapshot rest session_id

-- What `list_latest_history_snapshots` and `list_history_summaries` share: they collect a view of each
-- snapshot by its folder, first of the sessions in memory, then of the snapshots on disk whose folder
-- has none, and sort the views. One time stands for each call of the clock.
module _ {A : Type 0} (view : Snapshot → A) where
  unfoldable pub put_managed : Service → ℕ → Dict A → List ℕ → Dict A
  put_managed s now d [] = d
  put_managed s now d (r ∷ rs) = elim (get_elem? s.objects r) [
    | none ↦ put_managed s now d rs
    | some m ↦
        put_managed s now
          (put d (build_history_snapshot s m now).info.group_folder
            (view (build_history_snapshot s m now)))
          rs
  ]

  unfoldable pub put_missing : Dict A → List Snapshot → Dict A
  put_missing d [] = d
  put_missing d (snapshot ∷ rest) =
      put_missing
        (if has d snapshot.info.group_folder
          then d
          else put d snapshot.info.group_folder (view snapshot))
        rest

  unfoldable pub latest_views : (A → SessionRecord) → Service → ℕ → List Snapshot → List A
  latest_views info_of s now persisted =
      sort_rows
        (row_le (
          str_asc (λ item. (info_of item).group_folder)
          ∷ str_asc (λ item. (info_of item).session_id)
          ∷ []))
        (values (put_missing (put_managed s now [] (values s.sessions_by_group)) persisted))

-- With the snapshots from disk.
unfoldable pub list_latest_history_snapshots : Service → ℕ → List Snapshot → List Snapshot
list_latest_history_snapshots = latest_views (λ snapshot. snapshot) (λ item. item.info)

unfoldable pub list_history_summaries : Service → ℕ → List Snapshot → List Summary
list_history_summaries = latest_views to_history_summary (λ item. item.info)

abbrev pub records_of : List ManagedSession → List ℕ → List SessionRecord
records_of objects [] = []
records_of objects (r ∷ rs) = elim (get_elem? objects r) [
  | none ↦ records_of objects rs
  | some m ↦ m.info ∷ records_of objects rs
]

-- `list_sessions`
unfoldable pub list_sessions : Service → List SessionRecord
list_sessions s =
    sort_rows
      (row_le (str_asc (λ info. info.group_folder) ∷ str_asc (λ info. info.session_id) ∷ []))
      (records_of s.objects (values s.sessions_by_group))

-- The normalized folders of `list_history_snapshot_archives_by_groups`: a set, sorted.
abbrev pub has_string : String → List String → Bool
has_string name [] = false
has_string name (x ∷ xs) = str_eq x name || has_string name xs

abbrev pub add_folder : String → List String → List String
add_folder name folders =
    if str_empty name || has_string name folders then folders else name ∷ folders

unfoldable pub folder_set : List String → List String
folder_set [] = []
folder_set (folder ∷ rest) = add_folder (str_strip folder) (folder_set rest)

unfoldable pub normalize_group_folders : List String → List String
normalize_group_folders folders =
    sort_rows (row_le (str_asc (λ name. name) ∷ [])) (folder_set folders)

abbrev pub or_missing : Option Snapshot → Fetched Snapshot
or_missing none = failed no_history
or_missing (some snapshot) = done snapshot

-- `if items`
abbrev pub with_items : String → List Snapshot → Dict (List Snapshot) → Dict (List Snapshot)
with_items group_folder [] rest = rest
with_items group_folder (x ∷ xs) rest = (group_folder, x ∷ xs) ∷ rest

-- `_load`: a workspace without snapshots has none to filter.
abbrev pub filtered_archive : Filter → Fetched (List Snapshot) → Fetched (List Snapshot)
filtered_archive f (done snapshots) = filter_history_snapshots f snapshots
filtered_archive f (failed no_history) = done []
filtered_archive f (failed e) = failed e

-- The methods that read the disk too.
module _ (iso : IsoFormat) (to_text : Json → Text) (resolved : String → Option String) where
  -- `_list_merged_history_snapshots_by_group`
  unfoldable pub list_merged_history_snapshots_by_group :
      Service → Root → ℕ → String → Fetched (List Snapshot)
  list_merged_history_snapshots_by_group s root now group_folder =
      and_then
        (load_persisted_history_snapshot iso to_text s.history_max_bytes resolved root group_folder)
        λ latest.
          and_then
            (list_persisted_history_archived_snapshots iso to_text s.history_max_bytes resolved root
              group_folder)
            λ archived. merge_timeline (in_memory_snapshot s now group_folder) latest archived

  -- `list_history_snapshots_by_group`
  unfoldable pub list_history_snapshots_by_group :
      Service → Root → ℕ → String → Filter → Fetched (List Snapshot)
  list_history_snapshots_by_group s root now group_folder f =
      and_then (list_merged_history_snapshots_by_group s root now group_folder)
        λ snapshots. and_then (filter_history_snapshots f snapshots) or_no_history

  -- `list_history_snapshot_page_by_group`
  unfoldable pub list_history_snapshot_page_by_group :
      Service → Root → ℕ → String → ℤ → ℤ → Filter → Fetched (Page Snapshot)
  list_history_snapshot_page_by_group s root now group_folder limit offset f =
      elim (checked_page limit offset) [
        | none ↦ failed invalid_value
        | some (limit', offset') ↦
            and_then (list_history_snapshots_by_group s root now group_folder f)
              λ filtered. done (page_of filtered limit' offset')
      ]

  -- `list_history_timeline_by_group`; its page leaves the total out.
  unfoldable pub list_history_timeline_by_group :
      Service → Root → ℕ → String → ℤ → ℤ → Filter → Fetched (Page Summary)
  list_history_timeline_by_group s root now group_folder limit offset f =
      elim (checked_page limit offset) [
        | none ↦ failed invalid_value
        | some (limit', offset') ↦
            and_then (list_history_snapshots_by_group s root now group_folder f)
              λ filtered. done (page_of (map to_history_summary filtered) limit' offset')
      ]

  -- `get_history_snapshot_by_group`
  unfoldable pub get_history_snapshot_by_group :
      Service → Root → ℕ → String → String → Fetched Snapshot
  get_history_snapshot_by_group s root now group_folder session_id =
      if str_empty (str_strip session_id)
      then failed no_history
      else and_then (list_merged_history_snapshots_by_group s root now group_folder)
          λ snapshots. find_snapshot snapshots (str_strip session_id)

  -- `get_history_by_group`
  unfoldable pub get_history_by_group : Service → Root → ℕ → String → Fetched Snapshot
  get_history_by_group s root now group_folder = elim (in_memory_snapshot s now group_folder) [
    | some snapshot ↦ done snapshot
    | none ↦
        and_then
          (load_persisted_history_snapshot iso to_text s.history_max_bytes resolved root
            group_folder)
          or_missing
  ]

  unfoldable pub load_archives :
      Service → Root → ℕ → Filter → List String → Fetched (Dict (List Snapshot))
  load_archives s root now f [] = done []
  load_archives s root now f (group_folder ∷ rest) =
      and_then (filtered_archive f (list_merged_history_snapshots_by_group s root now group_folder))
        λ items.
          and_then (load_archives s root now f rest)
            λ archives. done (with_items group_folder items archives)

  -- `list_history_snapshot_archives_by_groups`; the workspaces are loaded in turn.
  unfoldable pub list_history_snapshot_archives_by_groups :
      Service → Root → ℕ → List String → Filter → Fetched (Dict (List Snapshot))
  list_history_snapshot_archives_by_groups s root now folders f =
      and_then (filter_history_snapshots f [])
        λ _. load_archives s root now f (normalize_group_folders folders)
