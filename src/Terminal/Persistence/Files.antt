-- ===== src/Terminal/Persistence/Files.antt =====
-- The files below `_history_persist_root` of services/terminal_sessions.py. A workspace's folder
-- stands under the path that its name resolves to below the root, which is an argument of the
-- model: no path where `validate_path` refuses the resolved one.
use portex.Common.{
  ℕ, Bool, true, false, not, ◌&&◌, ◌||◌, leb, Option, none, some, List, [], ◌∷◌, String,
  if◌then◌else◌, keep_if, map,
}
use portex.Dict.{Dict, get, put}
use portex.Text.Strings.{str_strip, str_empty, str_has}
use portex.Text.{Text}
use portex.Sort.{str_asc, row_le, sort_rows}
use Prim.Native.String.{◌++◌}
use text.Mathlib.Text.{◌==◌ as str_eq}
use portex.Terminal.Sessions.{Snapshot, is_over}
use portex.Terminal.Persistence.{
  Json, json_object, IsoFormat, history_snapshot_payload, Load, no_snapshot, loaded, raised,
  load_snapshot,
}

-- `latest.json`, and the files of `snapshots/` with the suffix `.json`, by their names without it.
pub record Folder : Type 0 where
  pub latest : Option Json
  pub archived : Dict Json

-- The folders that have files, by their paths below the root.
abbrev pub Root : Type 0
Root = Dict Folder

abbrev pub empty_folder : Folder
empty_folder = record { latest = none; archived = [] }

abbrev pub or_empty : Option Folder → Folder
or_empty none = empty_folder
or_empty (some folder) = folder

abbrev pub folder_at : Root → String → Folder
folder_at root path = or_empty (get root path)

-- What a method that reads or writes files answers.
pub data HistoryError : Type 0 where
  no_history : HistoryError
  invalid_value : HistoryError
  type_error : HistoryError

pub data Fetched {ℓ} (A : Type ℓ) : Type ℓ where
  done : A → Fetched A
  failed : HistoryError → Fetched A

abbrev slash : ℕ
slash = 0x2f

abbrev backslash : ℕ
backslash = 0x5c

-- The file name of `_history_archive_snapshot_path`, without the suffix.
unfoldable pub archive_name : String → Option String
archive_name session_id =
    let name : String = str_strip session_id in
    if str_empty name || str_has slash name || str_has backslash name then none else some name

-- Whether a text can be written in UTF-8: a lone surrogate raises `UnicodeEncodeError`. The other
-- texts of a payload are strings without such.
unfoldable pub is_writable : Text → Bool
is_writable [] = true
is_writable (c ∷ r) = not (leb 0xd800 c && leb c 0xdfff) && is_writable r

-- `_persist_history_snapshot`: what is on disk afterwards, and whether it came to its end. The
-- callers discard its exceptions. A file that cannot be written is left as it was, since the payload
-- goes to a temporary file first.
unfoldable pub persist_history_snapshot :
    IsoFormat → (String → Option String) → Root → Snapshot → Bool × Root
persist_history_snapshot iso resolved root snapshot =
    let payload : Json = json_object (history_snapshot_payload iso snapshot) in
    elim (resolved snapshot.info.group_folder) [
      | none ↦ (false, root)
      | some path ↦
          let folder : Folder = record (folder_at root path) { latest = some payload } in
          if not (is_writable snapshot.output)
          then (false, root)
          else if is_over snapshot.info.status
          then elim (archive_name snapshot.info.session_id) [
            | none ↦ (false, put root path folder)
            | some name ↦ (
              true,
              put root path (record folder { archived = put folder.archived name payload }),
            )
          ]
          else (true, put root path folder)
    ]

-- A file's snapshot, or what reading it raises.
abbrev pub opened : Load → Fetched (Option Snapshot)
opened no_snapshot = done none
opened (loaded snapshot) = done (some snapshot)
opened raised = failed type_error

module _ (iso : IsoFormat) (to_text : Json → Text) (history_max_bytes : ℕ)
    (resolved : String → Option String) where
  -- `_load_persisted_history_snapshot`
  unfoldable pub load_persisted_history_snapshot : Root → String → Fetched (Option Snapshot)
  load_persisted_history_snapshot root group_folder = elim (resolved group_folder) [
    | none ↦ failed invalid_value
    | some path ↦ opened (load_snapshot iso to_text history_max_bytes (folder_at root path).latest)
  ]

  -- The files in their order, without those that have no snapshot of this workspace.
  unfoldable pub load_archived : String → Dict Json → Fetched (List Snapshot)
  load_archived group_folder [] = done []
  load_archived group_folder ((name, file) ∷ files) =
      elim (load_snapshot iso to_text history_max_bytes (some file)) [
        | no_snapshot ↦ load_archived group_folder files
        | raised ↦ failed type_error
        | loaded snapshot ↦ elim (load_archived group_folder files) [
          | failed e ↦ failed e
          | done rest ↦
              done
                (if str_eq snapshot.info.group_folder group_folder then snapshot ∷ rest else rest)
        ]
      ]

  -- `_list_persisted_history_archived_snapshots`
  unfoldable pub list_persisted_history_archived_snapshots : Root → String → Fetched (List Snapshot)
  list_persisted_history_archived_snapshots root group_folder = elim (resolved group_folder) [
    | none ↦ failed invalid_value
    | some path ↦ load_archived group_folder (
        sort_rows (row_le (str_asc (λ file. file.0 ++ ".json") ∷ []))
          (folder_at root path).archived)
  ]

  -- The latest snapshots of folders in turn.
  unfoldable pub load_latest : Root → List String → Fetched (List Snapshot)
  load_latest root [] = done []
  load_latest root (name ∷ names) = elim (load_persisted_history_snapshot root name) [
    | failed e ↦ failed e
    | done none ↦ load_latest root names
    | done (some snapshot) ↦ elim (load_latest root names) [
      | failed e ↦ failed e
      | done rest ↦ done (snapshot ∷ rest)
    ]
  ]

  -- `_list_persisted_history_snapshots`: the folders right below the root, by their names.
  unfoldable pub list_persisted_history_snapshots : Root → Fetched (List Snapshot)
  list_persisted_history_snapshots root = load_latest root (
      sort_rows (row_le (str_asc (λ name. name) ∷ []))
        (keep_if (λ name. not (str_has slash name)) (map (λ entry. entry.0) root)))
