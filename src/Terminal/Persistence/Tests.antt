-- ===== src/Terminal/Persistence/Tests.antt =====
-- The files of services/terminal_sessions.py at concrete snapshots.
use portex.Common.{◌≡◌, refl, false, none, some, [], ◌∷◌}
use portex.Text.{codes, text_eq, is_space}
use portex.Text.Strings.{string_of, str_strip, str_has}
use portex.Dict.{get}
use portex.Sort.{sort_rows, insert_row}
use portex.Terminal.Sessions.{created, docker_container, Snapshot, Service}
use portex.Terminal.Persistence.{
  Json, json_string, json_object, json_array, no_values, dict_of, field, record_payload,
  history_snapshot_payload, load_snapshot, read_payload, read_record, read_status, read_name,
  parse_persisted_datetime, raised,
}
use portex.Terminal.Persistence.Samples.{iso, no_text, below}
use portex.Terminal.Persistence.RoundTrip.{ReadsBack, IsNamed}
use portex.Terminal.Persistence.Disk.{load_persisted_history_snapshot-persist_history_snapshot}
use portex.Terminal.Persistence.Files.{
  is_writable, Root, done, empty_folder, archive_name, persist_history_snapshot,
  load_persisted_history_snapshot, list_persisted_history_snapshots, load_latest,
}
use portex.Terminal.Persistence.Recovery.{
  recover_active_sessions_from_persisted_snapshots, new_service,
}
use portex.Terminal.Persistence.Recovery.Restored.{IsRestored, recovery_lem}

iso-ReadsBack : ReadsBack iso
iso-ReadsBack = record { reads_back = λ t. refl }

abbrev snapshot : Snapshot
snapshot = record {
  info = record {
    session_id = "s1";
    group_id = "g1";
    group_folder = "home";
    owner_user_id = "alice";
    backend = docker_container;
    container_name = some "c7";
    status = created;
    created_at = 5;
    last_attached_at = some 6;
    reconnect_deadline = none;
  };
  snapshot_at = 9;
  output = codes "ready";
  output_bytes = 5;
  history_max_bytes = 100;
  truncated = false;
}

snapshot-IsNamed : IsNamed snapshot.info
snapshot-IsNamed = record {
  session_id_is = refl;
  group_id_is = refl;
  group_folder_is = refl;
  owner_user_id_is = refl;
}

load_persisted_history_snapshot-persist_history_snapshot_example :
    load_persisted_history_snapshot iso no_text 100 below
      (persist_history_snapshot iso below [] snapshot).1
      "home"
    ≡ done (some snapshot)
unfolding is_writable
load_persisted_history_snapshot-persist_history_snapshot_example =
    load_persisted_history_snapshot-persist_history_snapshot iso no_text 100 below [] snapshot
      "home" iso-ReadsBack snapshot-IsNamed refl

-- An id that holds a path is not archived.
archive_name-path : (archive_name "../s" ≡ none) × (archive_name " s1 " ≡ some "s1")
unfolding archive_name str_strip str_has is_space
archive_name-path = (refl, refl)

-- A file whose status is an array.
abbrev odd_file : Json
odd_file = json_object (
    dict_of (
      (
        "record",
        json_object (
            dict_of (
              ("backend", json_string (codes "docker_container"))
              ∷ ("created_at", json_string (5 ∷ []))
              ∷ ("status", json_array no_values)
              ∷ [])),
      )
      ∷ ("output", json_string [])
      ∷ []))

odd_file-raises : load_snapshot iso no_text 100 (some odd_file) ≡ raised
unfolding load_snapshot field read_payload read_status parse_persisted_datetime text_eq
odd_file-raises = refl

abbrev root : Root
root =
    (
      "home",
      record empty_folder { latest = some (json_object (history_snapshot_payload iso snapshot)) },
    )
    ∷ []

root_snapshots : list_persisted_history_snapshots iso no_text 100 below root ≡ done (snapshot ∷ [])
unfolding list_persisted_history_snapshots load_latest load_persisted_history_snapshot str_has
    sort_rows insert_row get load_snapshot history_snapshot_payload record_payload field
    read_payload read_status read_record read_name string_of parse_persisted_datetime text_eq
root_snapshots = refl

recovery_lem_example :
    (s : Service) × (recover_active_sessions_from_persisted_snapshots iso no_text below root
        (new_service 30 100)
      ≡ done s)
    × IsRestored s (snapshot ∷ [])
recovery_lem_example = recovery_lem iso no_text below root 30 100 (snapshot ∷ []) root_snapshots
