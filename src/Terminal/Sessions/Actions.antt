-- ===== src/Terminal/Sessions/Actions.antt =====
-- The methods of `TerminalSessionService` in services/terminal_sessions.py that change its state,
-- each from one acquisition of the lock to its release. A method answers with its result, the new
-- state and what it asks of the outside. Fresh ids, bridges and the time of the clock are
-- arguments. The await of a bridge's start divides `create_session` and `attach_session` in two.
use text.Mathlib.Text.{◌==◌ as str_eq}
use portex.Common.{
  ℕ, ◌+◌, Bool, true, false, Option, none, some, List, [], ◌∷◌, ◌++◌, String, length, if◌then◌else◌,
  map, not,
}
use portex.Dict.{put}
use portex.Terminal.History.{empty_history}
use portex.Terminal.Sessions.{
  RequestedMode, BackendName, created, attached, detached, closed, conflict, not_found, not_owner,
  bridge_failed, Result, ok, err, SessionRecord, SessionEvent, output_event, ManagedSession,
  Snapshot, Effect, start_bridge, close_bridge, persist, start_timer, Service, resolve_backend,
  session_by_group, session_by_id, update, require_owned, cancelled_timers, drop_session,
  build_history_snapshot, is_over,
}

abbrev pub Answer : Type 0 → Type 0
Answer A = Result A × Service × List Effect

-- What the bridge factory made: the bridge, and its container's name if it has one.
pub record NewBridge : Type 0 where
  pub ref : ℕ
  pub container_name : Option String

-- The end of the locked part of `create_session`: a new session in both dicts.
unfoldable pub create_new :
    Service
    → String
    → String
    → String
    → BackendName
    → String
    → NewBridge
    → ℕ
    → SessionRecord × Service
create_new s group_id group_folder owner_user_id backend session_id bridge now =
    let info : SessionRecord = record {
      session_id = session_id;
      group_id = group_id;
      group_folder = group_folder;
      owner_user_id = owner_user_id;
      backend = backend;
      container_name = bridge.container_name;
      status = created;
      created_at = now;
      last_attached_at = none;
      reconnect_deadline = none;
    } in
    let managed : ManagedSession = record {
      info = info;
      bridge = some bridge.ref;
      output_queue = none;
      reconnect_task = none;
      history = empty_history;
    } in
    (
      info,
      record s {
        objects = s.objects ++ managed ∷ [];
        sessions_by_group = put s.sessions_by_group group_folder (length s.objects);
        sessions_by_id = put s.sessions_by_id session_id (length s.objects);
      },
    )

-- Its result says whether the session is new, and so whether its bridge has to be started.
unfoldable pub create_locked :
    Service
    → String
    → String
    → String
    → BackendName
    → String
    → NewBridge
    → ℕ
    → Answer (SessionRecord × Bool)
create_locked s group_id group_folder owner_user_id backend session_id bridge now =
    elim (session_by_group s group_folder) [
      | none ↦
          let (info, s') =
            create_new s group_id group_folder owner_user_id backend session_id bridge now in
          (ok (info, true), s', start_bridge bridge.ref ∷ [])
      | some (r, m) ↦
          let (info, s') =
            create_new (drop_session s r m) group_id group_folder owner_user_id backend session_id
              bridge now in
          if not (is_over m.info.status)
          then (if not (str_eq m.info.owner_user_id owner_user_id)
              then (err conflict, s, [])
              else (ok (m.info, false), s, []))
          else (ok (info, true), s', cancelled_timers m ++ start_bridge bridge.ref ∷ [])
    ]

unfoldable pub create_session :
    Service
    → String
    → String
    → String
    → RequestedMode
    → String
    → NewBridge
    → ℕ
    → Answer (SessionRecord × Bool)
create_session s group_id group_folder owner_user_id mode session_id bridge now =
    elim (resolve_backend mode) [
      | err e ↦ (err e, s, [])
      | ok backend ↦
          create_locked s group_id group_folder owner_user_id backend session_id bridge now
    ]

-- `create_session` once the bridge has started: a snapshot, if the session is still there.
unfoldable pub create_started : Service → String → ℕ → List Effect
create_started s session_id now = elim (session_by_id s session_id) [
  | none ↦ []
  | some (r, m) ↦ persist (build_history_snapshot s m now) ∷ []
]

-- `name if isinstance(name, str) else old`
abbrev pub or_else : Option String → Option String → Option String
or_else (some name) old = some name
or_else none old = old

-- The session as `attach_session` leaves it, and the bridge that it has to start.
unfoldable pub attached_session : ManagedSession → ℕ → NewBridge → ℕ → ManagedSession × List Effect
attached_session m queue bridge now =
    let info : SessionRecord = record (m.info) {
      status = attached;
      last_attached_at = some now;
      reconnect_deadline = none;
    } in
    elim m.bridge [
      | some b ↦ (record m { info = info; output_queue = some queue; reconnect_task = none }, [])
      | none ↦ (
        record m {
          info = record info {
            container_name = or_else bridge.container_name m.info.container_name;
          };
          bridge = some bridge.ref;
          output_queue = some queue;
          reconnect_task = none;
        },
        start_bridge bridge.ref ∷ [],
      )
    ]

-- The locked part of `attach_session`: the record, the new queue with the history in it, and the
-- snapshot to persist once the bridge runs.
unfoldable pub attach_session :
    Service → String → String → NewBridge → ℕ → Answer (SessionRecord × ℕ × Snapshot)
attach_session s session_id owner_user_id bridge now =
    elim (require_owned s session_id owner_user_id) [
      | err e ↦ (err e, s, [])
      | ok (r, m) ↦
          let queue : ℕ = length s.queues in
          let (m', starts) = attached_session m queue bridge now in
          let replay : List SessionEvent =
            map (λ chunk. output_event (some chunk)) m.history.chunks in
          (
            ok (m'.info, queue, build_history_snapshot s m' now),
            record (update s r m') { queues = s.queues ++ replay ∷ [] },
            cancelled_timers m ++ starts,
          )
    ]

-- The `except` branch of `attach_session`: the bridge did not start.
unfoldable pub attach_failed : Service → String → ℕ → Answer Unit
attach_failed s session_id now = elim (session_by_id s session_id) [
  | none ↦ (err bridge_failed, s, [])
  | some (r, m) ↦
      let m' : ManagedSession = record m {
        info = record (m.info) { status = closed; reconnect_deadline = none };
        bridge = none;
        output_queue = none;
      } in
      (err bridge_failed, update s r m', persist (build_history_snapshot s m' now) ∷ [])
]

-- The session as `detach_session` leaves it.
unfoldable pub detached_session : ManagedSession → ℕ → ManagedSession
detached_session m deadline = record m {
  info = record (m.info) { status = detached; reconnect_deadline = some deadline };
  output_queue = none;
  reconnect_task = some deadline;
}

unfoldable pub detach_session : Service → String → String → ℕ → Answer SessionRecord
unfolding detached_session
detach_session s session_id owner_user_id now = elim (require_owned s session_id owner_user_id) [
  | err e ↦ (err e, s, [])
  | ok (r, m) ↦
      let deadline : ℕ = now + s.reconnect_timeout in
      let m' : ManagedSession = detached_session m deadline in
      (
        ok m'.info,
        update s r m',
        cancelled_timers m
            ++ start_timer session_id deadline ∷ persist (build_history_snapshot s m' now) ∷ [],
      )
]

-- A session as `close_session` and its kin leave it.
unfoldable pub closed_session : ManagedSession → ManagedSession
closed_session m = record m {
  info = record (m.info) { status = closed; reconnect_deadline = none };
  output_queue = none;
  reconnect_task = none;
}

-- `if bridge is not None: await bridge.close()`
unfoldable pub closing_bridge : ManagedSession → List Effect
closing_bridge m = elim m.bridge [ none ↦ [] | some b ↦ close_bridge b ∷ [] ]

abbrev pub close_with : Service → ℕ → ManagedSession → ℕ → Answer SessionRecord
close_with s r m now =
    let m' : ManagedSession = closed_session m in
    (
      ok m'.info,
      update s r m',
      cancelled_timers m ++ closing_bridge m ++ persist (build_history_snapshot s m' now) ∷ [],
    )

unfoldable pub close_session : Service → String → String → ℕ → Answer SessionRecord
unfolding closed_session closing_bridge
close_session s session_id owner_user_id now = elim (require_owned s session_id owner_user_id) [
  | err e ↦ (err e, s, [])
  | ok (r, m) ↦ close_with s r m now
]

unfoldable pub force_close_session_by_group : Service → String → ℕ → Answer SessionRecord
unfolding closed_session closing_bridge
force_close_session_by_group s group_folder now = elim (session_by_group s group_folder) [
  | none ↦ (err not_found, s, [])
  | some (r, m) ↦ close_with s r m now
]

unfoldable pub close_session_by_group : Service → String → String → ℕ → Answer SessionRecord
unfolding close_session
close_session_by_group s group_folder owner_user_id now = elim (session_by_group s group_folder) [
  | none ↦ (err not_found, s, [])
  | some (r, m) ↦
      if not (str_eq m.info.owner_user_id owner_user_id)
      then (err not_owner, s, [])
      else close_session s m.info.session_id owner_user_id now
]

-- `send_input` and `resize`: the bridge that is called.
unfoldable pub live_bridge : Service → String → String → Result ℕ
live_bridge s session_id owner_user_id = elim (require_owned s session_id owner_user_id) [
  | err e ↦ err e
  | ok (r, m) ↦ elim m.bridge [ none ↦ err not_found | some b ↦ ok b ]
]
