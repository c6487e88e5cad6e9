-- ===== src/Terminal/Persistence.antt =====
-- The snapshots that `TerminalSessionService` of services/terminal_sessions.py keeps on disk: the
-- payload of a file, and how it is read back. `datetime.isoformat` and `datetime.fromisoformat`, and
-- `str` of a JSON value that is no text, are arguments.
pub mod Files
pub mod RoundTrip
pub mod Disk
pub mod Recovery
pub mod Samples
mod Tests
use text.Mathlib.Text.{◌==◌ as str_eq}
use portex.Common.{
  ℕ, ◌+◌, ◌-◌, Bool, true, false, ◌||◌, Option, none, some, List, [], ◌∷◌, String, if◌then◌else◌,
  ◌>>=◌,
}
use portex.Clock.{Datetime, in_utc}
use portex.Text.{Text, codes, text_eq}
use portex.Text.Strings.{string_of, str_empty}
use portex.Terminal.History.{utf8_length}
use portex.Terminal.Sessions.{
  SessionStatus, created, attached, detached, closed, exited, docker_container, SessionRecord,
  Snapshot,
}

-- What `json.loads` makes of a file. The members of an object have different names.
mutual
  pub data Json : Type 0 where
    json_null : Json
    json_bool : Bool → Json
    json_int : ℕ → Json
    json_negative : ℕ → Json
    json_float : Text → Json
    json_string : Text → Json
    json_array : Values → Json
    json_object : Members → Json

  pub data Values : Type 0 where
    no_values : Values
    value : Json → Values → Values

  pub data Members : Type 0 where
    no_members : Members
    member : String → Json → Members → Members

-- `d.get(name)`
unfoldable pub field : Members → String → Option Json
field no_members name = none
field (member key v rest) name = if str_eq key name then some v else field rest name

pub record IsoFormat : Type 0 where
  pub isoformat : ℕ → Text
  pub fromisoformat : Text → Option Datetime

-- `_parse_persisted_datetime`
unfoldable pub parse_persisted_datetime : IsoFormat → Option Json → Option ℕ
parse_persisted_datetime iso (some (json_string t)) = elim (iso.fromisoformat t) [
  | none ↦ none
  | some d ↦ some (in_utc d.wall d.zone)
]
parse_persisted_datetime iso _ = none

abbrev pub status_text : SessionStatus → String
status_text created = "created"
status_text attached = "attached"
status_text detached = "detached"
status_text closed = "closed"
status_text exited = "exited"

abbrev pub optional_time : IsoFormat → Option ℕ → Json
optional_time iso none = json_null
optional_time iso (some t) = json_string (iso.isoformat t)

abbrev pub optional_name : Option String → Json
optional_name none = json_null
optional_name (some name) = json_string (codes name)

-- A dict literal.
abbrev pub dict_of : List (String × Json) → Members
dict_of [] = no_members
dict_of ((key, v) ∷ rest) = member key v (dict_of rest)

unfoldable pub record_payload : IsoFormat → SessionRecord → Members
record_payload iso info = dict_of (
    ("session_id", json_string (codes info.session_id))
    ∷ ("group_id", json_string (codes info.group_id))
    ∷ ("group_folder", json_string (codes info.group_folder))
    ∷ ("owner_user_id", json_string (codes info.owner_user_id))
    ∷ ("backend", json_string (codes "docker_container"))
    ∷ ("container_name", optional_name info.container_name)
    ∷ ("status", json_string (codes (status_text info.status)))
    ∷ ("created_at", json_string (iso.isoformat info.created_at))
    ∷ ("last_attached_at", optional_time iso info.last_attached_at)
    ∷ ("reconnect_deadline", optional_time iso info.reconnect_deadline)
    ∷ [])

-- `_history_snapshot_payload`
unfoldable pub history_snapshot_payload : IsoFormat → Snapshot → Members
history_snapshot_payload iso snapshot = dict_of (
    ("record", json_object (record_payload iso snapshot.info))
    ∷ ("snapshot_at", json_string (iso.isoformat snapshot.snapshot_at))
    ∷ ("output", json_string snapshot.output)
    ∷ ("output_bytes", json_int snapshot.output_bytes)
    ∷ ("history_max_bytes", json_int snapshot.history_max_bytes)
    ∷ ("truncated", json_bool snapshot.truncated)
    ∷ [])

-- What `_load_persisted_history_snapshot_from_path` comes to: the answer `None`, a snapshot, or the
-- `TypeError` of a status that cannot be hashed.
pub data Load : Type 0 where
  no_snapshot : Load
  loaded : Snapshot → Load
  raised : Load

-- The test of the status against the set of the known ones.
pub data StatusRead : Type 0 where
  known : SessionStatus → StatusRead
  unknown : StatusRead
  unhashable : StatusRead

abbrev pub status_of : Text → StatusRead
status_of t =
    if text_eq t (codes "created")
    then known created
    else if text_eq t (codes "attached")
    then known attached
    else if text_eq t (codes "detached")
    then known detached
    else if text_eq t (codes "closed")
    then known closed
    else if text_eq t (codes "exited")
    then known exited
    else unknown

unfoldable pub read_status : Option Json → StatusRead
read_status (some (json_string t)) = status_of t
read_status (some (json_array _)) = unhashable
read_status (some (json_object _)) = unhashable
read_status _ = unknown

-- `str(record_payload.get(name, ""))`
abbrev pub text_field : (Json → Text) → Option Json → Text
text_field to_text none = []
text_field to_text (some (json_string t)) = t
text_field to_text (some v) = to_text v

-- Such a text as a string that is not empty. One with a lone surrogate is no string here.
abbrev pub named : Option String → Option String
named none = none
named (some s) = if str_empty s then none else some s

unfoldable pub read_name : (Json → Text) → Option Json → Option String
read_name to_text v = named (string_of (text_field to_text v))

abbrev pub read_container_name : Option Json → Option String
read_container_name (some (json_string t)) = string_of t
read_container_name _ = none

-- An `int` that is not negative, where `True` and `False` are integers too, or else the default.
abbrev pub read_number : ℕ → Option Json → ℕ
read_number default (some (json_int n)) = n
read_number default (some (json_bool b)) = if b then 1 else 0
read_number default _ = default

abbrev pub read_flag : Option Json → Bool
read_flag (some (json_bool b)) = b
read_flag _ = false

abbrev pub time_or : ℕ → Option ℕ → ℕ
time_or default none = default
time_or default (some t) = t

abbrev pub is_docker_container : Option Json → Bool
is_docker_container (some (json_string t)) = text_eq t (codes "docker_container")
is_docker_container _ = false

-- The record of the file, once its status and its creation time are read.
unfoldable pub read_record :
    IsoFormat → (Json → Text) → Members → SessionStatus → ℕ → Option SessionRecord
read_record iso to_text m status created_at = do
  session_id ← read_name to_text (field m "session_id")
  group_id ← read_name to_text (field m "group_id")
  group_folder ← read_name to_text (field m "group_folder")
  owner_user_id ← read_name to_text (field m "owner_user_id")
  some (record {
    session_id = session_id;
    group_id = group_id;
    group_folder = group_folder;
    owner_user_id = owner_user_id;
    backend = docker_container;
    container_name = read_container_name (field m "container_name");
    status = status;
    created_at = created_at;
    last_attached_at = parse_persisted_datetime iso (field m "last_attached_at");
    reconnect_deadline = parse_persisted_datetime iso (field m "reconnect_deadline");
  })

unfoldable pub read_payload : IsoFormat → (Json → Text) → ℕ → Members → Members → Text → Load
read_payload iso to_text history_max_bytes payload m output =
    if is_docker_container (field m "backend")
    then elim (parse_persisted_datetime iso (field m "created_at")) [
      | none ↦ no_snapshot
      | some created_at ↦ elim (read_status (field m "status")) [
        | unknown ↦ no_snapshot
        | unhashable ↦ raised
        | known status ↦ elim (read_record iso to_text m status created_at) [
          | none ↦ no_snapshot
          | some info ↦ loaded (record {
            info = info;
            snapshot_at =
                time_or created_at (parse_persisted_datetime iso (field payload "snapshot_at"));
            output = output;
            output_bytes = read_number (utf8_length output) (field payload "output_bytes");
            history_max_bytes = read_number history_max_bytes (field payload "history_max_bytes");
            truncated = read_flag (field payload "truncated");
          })
        ]
      ]
    ]
    else no_snapshot

-- The tests of the record and of the output that a payload has.
abbrev pub read_parts : IsoFormat → (Json → Text) → ℕ → Members → Option Json → Option Json → Load
read_parts iso to_text history_max_bytes payload (some (json_object m)) (some (json_string t)) =
    read_payload iso to_text history_max_bytes payload m t
read_parts iso to_text history_max_bytes payload _ _ = no_snapshot

-- `_load_persisted_history_snapshot_from_path`; no value stands for a file that is not there or
-- is no JSON.
unfoldable pub load_snapshot : IsoFormat → (Json → Text) → ℕ → Option Json → Load
load_snapshot iso to_text history_max_bytes (some (json_object payload)) =
    read_parts iso to_text history_max_bytes payload (field payload "record")
      (field payload "output")
load_snapshot iso to_text history_max_bytes _ = no_snapshot
