-- ===== src/Terminal/Sessions.antt =====
-- The registry of `TerminalSessionService` in services/terminal_sessions.py: its state, and the
-- checks and small updates that its methods share. The managed sessions are mutable objects that
-- two dicts refer to, so they stand in a heap and the dicts hold references.
pub mod Actions
pub mod Events
pub mod Registry
pub mod Ownership
pub mod Lifecycle
mod Tests
use text.Mathlib.Text.{◌==◌ as str_eq}
use portex.Common.{
  ℕ, zero, suc, ◌+◌, Bool, true, false, Option, none, some, List, [], ◌∷◌, ◌++◌, String, length,
  get_elem?, set, if◌then◌else◌,
}
use portex.Text.{Text}
use portex.Dict.{Dict, get, pop}
use portex.Terminal.History.{History}

pub data RequestedMode : Type 0 where
  openai host container : RequestedMode

pub data BackendName : Type 0 where
  docker_container : BackendName

pub data SessionStatus : Type 0 where
  created attached detached closed exited : SessionStatus

-- The exceptions of the module.
pub data SessionError : Type 0 where
  backend_unsupported backend_disabled conflict not_found not_owner bridge_failed : SessionError

pub data Result {ℓ} (A : Type ℓ) : Type ℓ where
  ok : A → Result A
  err : SessionError → Result A

-- Points in time and durations are counted in microseconds.
pub record SessionRecord : Type 0 where
  pub session_id : String
  pub group_id : String
  pub group_folder : String
  pub owner_user_id : String
  pub backend : BackendName
  pub container_name : Option String
  pub status : SessionStatus
  pub created_at : ℕ
  pub last_attached_at : Option ℕ
  pub reconnect_deadline : Option ℕ

-- `TerminalSessionEvent`; the exit code is kept as the text of the number.
pub data SessionEvent : Type 0 where
  output_event : Option Text → SessionEvent
  exit_event : Option String → SessionEvent
  error_event : Option String → SessionEvent

-- `TerminalBridgeEvent`, by its type.
pub data BridgeEvent : Type 0 where
  output : Option Text → BridgeEvent
  exit : Option String → BridgeEvent
  error : Option String → BridgeEvent
  other : BridgeEvent

-- `_ManagedTerminalSession`. Bridges and queues are references; a reconnect task is named by the
-- deadline that it was made for.
pub record ManagedSession : Type 0 where
  pub info : SessionRecord
  pub bridge : Option ℕ
  pub output_queue : Option ℕ
  pub reconnect_task : Option ℕ
  pub history : History

pub record Snapshot : Type 0 where
  pub info : SessionRecord
  pub snapshot_at : ℕ
  pub output : Text
  pub output_bytes : ℕ
  pub history_max_bytes : ℕ
  pub truncated : Bool

-- What the methods ask of the world outside of the registry.
pub data Effect : Type 0 where
  start_bridge : ℕ → Effect
  close_bridge : ℕ → Effect
  persist : Snapshot → Effect
  start_timer : String → ℕ → Effect
  cancel_timer : String → ℕ → Effect

pub record Service : Type 0 where
  pub reconnect_timeout : ℕ
  pub history_max_bytes : ℕ
  pub objects : List ManagedSession
  pub sessions_by_group : Dict ℕ
  pub sessions_by_id : Dict ℕ
  pub queues : List (List SessionEvent)

-- `_resolve_backend`
unfoldable pub resolve_backend : RequestedMode → Result BackendName
resolve_backend container = ok docker_container
resolve_backend host = err backend_disabled
resolve_backend openai = err backend_unsupported

-- The object that a reference of a dict stands for.
unfoldable pub deref : Service → Option ℕ → Option (ℕ × ManagedSession)
deref s none = none
deref s (some r) = elim (get_elem? s.objects r) [ none ↦ none | some m ↦ some (r, m) ]

abbrev pub session_by_group : Service → String → Option (ℕ × ManagedSession)
session_by_group s group_folder = deref s (get s.sessions_by_group group_folder)

abbrev pub session_by_id : Service → String → Option (ℕ × ManagedSession)
session_by_id s session_id = deref s (get s.sessions_by_id session_id)

-- A write to a managed session.
abbrev pub update : Service → ℕ → ManagedSession → Service
update s r m = record s { objects = set s.objects r m }

-- `get_current_session`
unfoldable pub get_current_session : Service → String → Option SessionRecord
get_current_session s group_folder = elim (session_by_group s group_folder) [
  | none ↦ none
  | some (r, m) ↦ some m.info
]

-- `_require_session` and `_require_owner`
unfoldable pub require_owned : Service → String → String → Result (ℕ × ManagedSession)
require_owned s session_id owner_user_id = elim (session_by_id s session_id) [
  | none ↦ err not_found
  | some (r, m) ↦ if str_eq m.info.owner_user_id owner_user_id then ok (r, m) else err not_owner
]

-- `_cancel_reconnect_task`: what it leaves, and whom it cancels.
abbrev pub without_timer : ManagedSession → ManagedSession
without_timer m = record m { reconnect_task = none }

unfoldable pub cancelled_timers : ManagedSession → List Effect
cancelled_timers m = elim m.reconnect_task [
  | none ↦ []
  | some deadline ↦ cancel_timer m.info.session_id deadline ∷ []
]

-- `_drop_session`
unfoldable pub drop_session : Service → ℕ → ManagedSession → Service
drop_session s r m = record (update s r (without_timer m)) {
  sessions_by_group = pop s.sessions_by_group m.info.group_folder;
  sessions_by_id = pop s.sessions_by_id m.info.session_id;
}

abbrev pub join : List Text → Text
join [] = []
join (c ∷ cs) = c ++ join cs

-- `_build_history_snapshot`
unfoldable pub build_history_snapshot : Service → ManagedSession → ℕ → Snapshot
build_history_snapshot s m now = record {
  info = m.info;
  snapshot_at = now;
  output = join m.history.chunks;
  output_bytes = m.history.bytes;
  history_max_bytes = s.history_max_bytes;
  truncated = m.history.truncated;
}

abbrev pub is_over : SessionStatus → Bool
is_over closed = true
is_over exited = true
is_over _ = false
