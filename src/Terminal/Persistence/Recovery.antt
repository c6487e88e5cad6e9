-- ===== src/Terminal/Persistence/Recovery.antt =====
-- `_recover_active_sessions_from_persisted_snapshots` of services/terminal_sessions.py: the
-- sessions that a new service takes over from disk.
pub mod Restored
use portex.Common.{
  ℕ, ◌≡◌, refl, Bool, true, false, Option, none, some, List, [], ◌∷◌, ◌++◌, String, Option-cases,
  inl, inr, Bool-cases, if◌then◌else◌, ◌||◌, ◌∙◌, ap, not, ◌⊎◌, arith, length,
}
use text.Mathlib.Text.{◌==◌ as str_eq}
use text.Mathlib.TextEquality.{eq_iff}
use mathlib.Core.Path.{subst, subst⁻¹}
use portex.Common.{zero, suc, get_elem?, get_elem?-push, ◌==◌}
use mathlib.Core.Option.{some_inj}
use portex.Dict.{Dict, get, has, has-put}
use portex.Text.{Text}
use portex.Terminal.History.{append_output_history, empty_history}
use portex.Terminal.Sessions.{
  SessionStatus, created, attached, detached, closed, exited, Service, ManagedSession, Snapshot,
  SessionRecord, is_over,
}
use portex.Terminal.Persistence.{Json, IsoFormat}
use portex.Terminal.Persistence.Files.{
  Root, Fetched, done, failed, list_persisted_history_snapshots,
}
use portex.Terminal.Sessions.Registry.Keeps.{IsRegistry, filed, filed-IsRegistry}

abbrev pub is_recoverable : SessionStatus → Bool
is_recoverable created = true
is_recoverable attached = true
is_recoverable detached = true
is_recoverable _ = false

unfoldable pub recovered_session : Service → Snapshot → ManagedSession
recovered_session s snapshot = record {
  info = record snapshot.info { status = detached; reconnect_deadline = none };
  bridge = none;
  output_queue = none;
  reconnect_task = none;
  history =
      append_output_history s.history_max_bytes
        (record empty_history { truncated = snapshot.truncated }) snapshot.output;
}

abbrev pub file_if_free : Service → ManagedSession → Option ℕ → Option ℕ → Service
file_if_free s m none none = filed s m
file_if_free s m _ _ = s

unfoldable pub recover_session : Service → Snapshot → Service
recover_session s snapshot =
    if is_recoverable snapshot.info.status
    then file_if_free s (recovered_session s snapshot)
        (get s.sessions_by_group snapshot.info.group_folder)
        (get s.sessions_by_id snapshot.info.session_id)
    else s

unfoldable pub recover_sessions : Service → List Snapshot → Service
recover_sessions s [] = s
recover_sessions s (snapshot ∷ snapshots) = recover_sessions (recover_session s snapshot) snapshots

unfoldable pub recover_active_sessions_from_persisted_snapshots :
    IsoFormat → (Json → Text) → (String → Option String) → Root → Service → Fetched Service
recover_active_sessions_from_persisted_snapshots iso to_text resolved root s =
    elim (list_persisted_history_snapshots iso to_text s.history_max_bytes resolved root) [
      | failed e ↦ failed e
      | done snapshots ↦ done (recover_sessions s snapshots)
    ]

-- `TerminalSessionService(recover_active_sessions=...)`: the state that `__init__` leaves.
abbrev pub new_service : ℕ → ℕ → Service
new_service reconnect_timeout history_max_bytes = record {
  reconnect_timeout = reconnect_timeout;
  history_max_bytes = history_max_bytes;
  objects = [];
  sessions_by_group = [];
  sessions_by_id = [];
  queues = [];
}
