-- ===== src/Terminal/Timeline/Tests.antt =====
-- The history of services/terminal_sessions.py at concrete snapshots.
use portex.Common.{◌≡◌, refl, none, some, [], ◌∷◌, String, map, arith}
use portex.Dict.{get, put, values}
use portex.Sort.{sort_rows, insert_row}
use portex.Sort.Insertion.{IsOrdered}
use portex.Terminal.Sessions.{closed, Service, deref}
use portex.Terminal.Persistence.Samples.{iso, no_text, below, at_time}
use portex.Terminal.Persistence.{
  json_object, history_snapshot_payload, load_snapshot, record_payload, field, read_payload,
  read_status, read_record, read_name, parse_persisted_datetime,
}
use portex.Text.{text_eq, is_space}
use portex.Text.Strings.{string_of, str_strip}
use portex.Terminal.Persistence.Files.{
  Root, done, load_persisted_history_snapshot, load_archived,
  list_persisted_history_archived_snapshots,
}
use portex.Terminal.Timeline.{
  find_snapshot, or_missing, list_history_snapshots_by_group,
  list_merged_history_snapshots_by_group,
}
use portex.Terminal.Timeline.Merging.{
  merge_timeline, keep_newest, keep_all_newest, dedupe_timeline_snapshots, newest_first, present,
}
use portex.Terminal.Timeline.Filters.{Filter, filter_history_snapshots, is_selected}
use portex.Terminal.Timeline.Newest.{newest, merge_timeline_lem}
use portex.Terminal.Timeline.Pages.{read_pages, read_pages_lem}

merged :
    merge_timeline
      (some (at_time "s2" 7))
      (some (at_time "s2" 9))
      (at_time "s1" 4 ∷ at_time "s3" 9 ∷ [])
    ≡ done (at_time "s3" 9 ∷ at_time "s2" 9 ∷ at_time "s1" 4 ∷ [])
unfolding merge_timeline dedupe_timeline_snapshots keep_all_newest keep_newest get put values
    sort_rows insert_row
merged = refl

merge_timeline_lem_example :
    IsOrdered newest_first (at_time "s3" 9 ∷ at_time "s2" 9 ∷ at_time "s1" 4 ∷ [])
    × ((session_id : String)
        → find_snapshot (at_time "s3" 9 ∷ at_time "s2" 9 ∷ at_time "s1" 4 ∷ []) session_id
          ≡ or_missing (
              newest session_id (
                present (
                  some (at_time "s2" 7)
                  ∷ some (at_time "s2" 9)
                  ∷ map some (at_time "s1" 4 ∷ at_time "s3" 9 ∷ [])))))
merge_timeline_lem_example =
    merge_timeline_lem (some (at_time "s2" 7)) (some (at_time "s2" 9))
      (at_time "s1" 4 ∷ at_time "s3" 9 ∷ []) (at_time "s3" 9 ∷ at_time "s2" 9 ∷ at_time "s1" 4 ∷ [])
      merged

abbrev service : Service
service = record {
  reconnect_timeout = 30;
  history_max_bytes = 100;
  objects = [];
  sessions_by_group = [];
  sessions_by_id = [];
  queues = [];
}

abbrev archive : Root
archive =
    (
      "home",
      record {
        latest = none;
        archived =
            ("s1", json_object (history_snapshot_payload iso (at_time "s1" 4)))
            ∷ ("s2", json_object (history_snapshot_payload iso (at_time "s2" 9)))
            ∷ [];
      },
    )
    ∷ []

abbrev closed_ones : Filter
closed_ones = record {
  status = some closed;
  owner_user_id = some " alice ";
  session_id_prefix = some "";
  snapshot_from = none;
  snapshot_to = none;
}

closed_snapshots :
    list_history_snapshots_by_group iso no_text below service archive 5 "home" closed_ones
    ≡ done (at_time "s2" 9 ∷ at_time "s1" 4 ∷ [])
unfolding list_history_snapshots_by_group list_merged_history_snapshots_by_group
    load_persisted_history_snapshot list_persisted_history_archived_snapshots load_archived
    load_snapshot history_snapshot_payload record_payload field read_payload read_status read_record
    read_name string_of parse_persisted_datetime text_eq merge_timeline dedupe_timeline_snapshots
    keep_all_newest keep_newest get put values sort_rows insert_row deref filter_history_snapshots
    is_selected str_strip is_space
closed_snapshots = refl

read_pages_lem_example :
    read_pages iso no_text below service archive 5 "home" closed_ones 2 1 0
    ≡ done (at_time "s2" 9 ∷ at_time "s1" 4 ∷ [])
read_pages_lem_example =
    read_pages_lem iso no_text below service archive 5 "home" closed_ones
      (at_time "s2" 9 ∷ at_time "s1" 4 ∷ []) closed_snapshots 0 (omega arith)
