-- ===== src/Terminal/Sessions/Events.antt =====
-- The steps of services/terminal_sessions.py that its bridges and its reconnect timers take, each from
-- one acquisition of the lock to its release. An event is put into its queue in the step that looks
-- the queue up.
use portex.Common.{
  ℕ, Bool, true, false, Option, none, some, List, [], ◌∷◌, ◌++◌, String, get_elem?, set,
  if◌then◌else◌, not, ◌==◌,
}
use portex.Text.{Text}
use portex.Terminal.History.{append_output_history}
use portex.Terminal.Sessions.{
  SessionStatus, detached, closed, exited, SessionEvent, output_event, exit_event, error_event,
  BridgeEvent, output, exit, error, other, ManagedSession, Effect, persist, Service, session_by_id,
  update, cancelled_timers, build_history_snapshot,
}
use portex.Terminal.Sessions.Actions.{closing_bridge}

-- `queue.put`
unfoldable pub put_event :
    List (List SessionEvent) → Option ℕ → SessionEvent → List (List SessionEvent)
put_event queues none e = queues
put_event queues (some q) e = elim (get_elem? queues q) [
  | none ↦ queues
  | some es ↦ set queues q (es ++ e ∷ [])
]

-- The history part of an `output` event.
unfoldable pub record_output : ℕ → ManagedSession → Option Text → ManagedSession
record_output max_bytes m none = m
record_output max_bytes m (some text) = record m {
  history = append_output_history max_bytes m.history text;
}

unfoldable pub exited_session : ManagedSession → ManagedSession
exited_session m = record m {
  info = record (m.info) { status = exited; reconnect_deadline = none };
  reconnect_task = none;
}

unfoldable pub dispatch_event :
    BridgeEvent → Service → ℕ → ManagedSession → ℕ → Service × List Effect
unfolding record_output exited_session put_event
dispatch_event (output text) s r m now =
    let m' : ManagedSession = record_output s.history_max_bytes m text in
    (
      record (update s r m') { queues = put_event s.queues m.output_queue (output_event text) },
      elim text [ none ↦ [] | some t ↦ persist (build_history_snapshot s m' now) ∷ [] ],
    )
dispatch_event (exit code) s r m now =
    let m' : ManagedSession = exited_session m in
    (
      record (update s r m') { queues = put_event s.queues m.output_queue (exit_event code) },
      cancelled_timers m ++ persist (build_history_snapshot s m' now) ∷ [],
    )
dispatch_event (error message) s r m now =
    (record s { queues = put_event s.queues m.output_queue (error_event message) }, [])
dispatch_event other s r m now = (s, [])

unfoldable pub handle_bridge_event : Service → String → BridgeEvent → ℕ → Service × List Effect
unfolding dispatch_event
handle_bridge_event s session_id event now = elim (session_by_id s session_id) [
  | none ↦ (s, [])
  | some (r, m) ↦ dispatch_event event s r m now
]

abbrev pub is_detached : SessionStatus → Bool
is_detached detached = true
is_detached _ = false

abbrev pub deadline_is : Option ℕ → ℕ → Bool
deadline_is none deadline = false
deadline_is (some d) deadline = d == deadline

-- The session as `_expire_detached_session` leaves it: its queue and its task stay.
unfoldable pub expired_session : ManagedSession → ManagedSession
expired_session m = record m {
  info = record (m.info) { status = closed; reconnect_deadline = none };
}

-- `_expire_detached_session` after its sleep.
unfoldable pub expire_detached_session : Service → String → ℕ → ℕ → Service × List Effect
unfolding expired_session closing_bridge
expire_detached_session s session_id deadline now = elim (session_by_id s session_id) [
  | none ↦ (s, [])
  | some (r, m) ↦
      let m' : ManagedSession = expired_session m in
      if not (is_detached m.info.status)
      then (s, [])
      else if not (deadline_is m.info.reconnect_deadline deadline)
      then (s, [])
      else (update s r m', closing_bridge m ++ persist (build_history_snapshot s m' now) ∷ [])
]
