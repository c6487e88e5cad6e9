-- ===== src/Terminal/Persistence/RoundTrip.antt =====
-- What `_history_snapshot_payload` of services/terminal_sessions.py writes is read back by
-- `_load_persisted_history_snapshot_from_path`.
use portex.Common.{ℕ, ◌≡◌, refl, ap, false, Option, none, some, String, arith}
use portex.Text.{Text, codes, text_eq}
use portex.Text.Strings.{str_empty, string_of-codes}
use portex.Terminal.Sessions.{
  SessionStatus, created, attached, detached, closed, exited, docker_container, SessionRecord,
  BackendName, Snapshot,
}
use portex.Clock.{ahead}
use portex.Terminal.Persistence.{
  Json, json_string, json_object, field, IsoFormat, parse_persisted_datetime, optional_time,
  status_text, record_payload, history_snapshot_payload, loaded, read_status, known, read_name,
  read_container_name, optional_name, read_record, read_payload, load_snapshot,
}

-- The documented inverse of `isoformat`, of a time in UTC.
pub record ReadsBack (iso : IsoFormat) : Type 0 where
  pub reads_back :
      (t : ℕ) → iso.fromisoformat (iso.isoformat t) ≡ some (record { wall = t; zone = ahead 0 })

-- A record whose four names are not empty.
pub record IsNamed (info : SessionRecord) : Type 0 where
  pub session_id_is : str_empty info.session_id ≡ false
  pub group_id_is : str_empty info.group_id ≡ false
  pub group_folder_is : str_empty info.group_folder ≡ false
  pub owner_user_id_is : str_empty info.owner_user_id ≡ false

status_back :
    (status : SessionStatus)
    → read_status (some (json_string (codes (status_text status)))) ≡ known status
unfolding read_status text_eq
status_back created = refl
status_back attached = refl
status_back detached = refl
status_back closed = refl
status_back exited = refl

container_back : (name : Option String) → read_container_name (some (optional_name name)) ≡ name
container_back none = refl
container_back (some name) = string_of-codes name

name_back :
    (to_text : Json → Text) (s : String)
    → str_empty s ≡ false
    → read_name to_text (some (json_string (codes s))) ≡ some s
unfolding read_name
name_back to_text s h = rw (string_of-codes s, h) refl

module _ (iso : IsoFormat) (back : ReadsBack iso) where
  time_back : (t : ℕ) → parse_persisted_datetime iso (some (json_string (iso.isoformat t))) ≡ some t
  unfolding parse_persisted_datetime
  time_back t = rw (back.reads_back t, parse_persisted_datetime) (ap some (omega arith))

  times_back : (t : Option ℕ) → parse_persisted_datetime iso (some (optional_time iso t)) ≡ t
  unfolding parse_persisted_datetime
  times_back none = refl
  times_back (some t) = time_back t

  backend_is : (b : BackendName) → docker_container ≡ b
  backend_is docker_container = refl

  module _ (to_text : Json → Text) where
    record_back :
        (info : SessionRecord)
        → IsNamed info
        → read_record iso to_text (record_payload iso info) info.status info.created_at ≡ some info
    unfolding record_payload field read_record
    record_back info named =
        rw
          (
            name_back to_text info.session_id named.session_id_is,
            name_back to_text info.group_id named.group_id_is,
            name_back to_text info.group_folder named.group_folder_is,
            name_back to_text info.owner_user_id named.owner_user_id_is,
            container_back info.container_name,
            times_back info.last_attached_at,
            times_back info.reconnect_deadline,
          )
          (ap {A = BackendName} {B = Option SessionRecord} (λ b. some (record info { backend = b }))
            (backend_is info.backend))

    payload_back :
        (history_max_bytes : ℕ) (s : Snapshot)
        → IsNamed s.info
        → read_payload iso to_text history_max_bytes
            (history_snapshot_payload iso s)
            (record_payload iso s.info)
            s.output
          ≡ loaded s
    unfolding read_payload history_snapshot_payload field record_payload text_eq
    payload_back history_max_bytes s named =
        rw
          (
            time_back s.info.created_at,
            status_back s.info.status,
            record_back s.info named,
            time_back s.snapshot_at,
          )
          refl

    -- A snapshot whose record has four names that are not empty is loaded as it was written, given that
    -- `fromisoformat` reads what `isoformat` wrote.
    pub load_snapshot-history_snapshot_payload :
        (history_max_bytes : ℕ) (s : Snapshot)
        → IsNamed s.info
        → load_snapshot iso to_text history_max_bytes
            (some (json_object (history_snapshot_payload iso s)))
          ≡ loaded s
    unfolding load_snapshot history_snapshot_payload field
    load_snapshot-history_snapshot_payload history_max_bytes s named =
        payload_back history_max_bytes s named
