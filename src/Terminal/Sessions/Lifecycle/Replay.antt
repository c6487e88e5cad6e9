-- ===== src/Terminal/Sessions/Lifecycle/Replay.antt =====
-- What the reader of a session of services/terminal_sessions.py gets after it attaches.
use portex.Common.{
  ℕ, ◌≡◌, refl, ◌∙◌, ap, Option, none, some, List, [], ◌∷◌, ◌++◌, String, arith, map, get_elem?,
  get_elem?-set, get_elem?-push, get_elem?-lt, length,
}
use mathlib.Core.List.{append_assoc, append-nil}
use portex.Text.{Text}
use portex.Dict.{get}
use portex.Terminal.Sessions.{
  Service, ManagedSession, SessionEvent, output_event, output, session_by_id,
}
use portex.Terminal.Sessions.Actions.{NewBridge, attach_session, attached_session}
use portex.Terminal.Sessions.Events.{handle_bridge_event, dispatch_event, record_output, put_event}
use portex.Terminal.Sessions.Lifecycle.{deref-write, owned, after_attach}

abbrev pub as_events : List Text → List SessionEvent
as_events = map (λ chunk. output_event (some chunk))

-- The session's output goes into a queue that holds some events.
record Listening (s : Service) (sid : String) (q : ℕ) (events : List SessionEvent) : Type 0 where
  ref : ℕ
  managed : ManagedSession
  found : session_by_id s sid ≡ some (ref, managed)
  into : managed.output_queue ≡ some q
  holds : get_elem? s.queues q ≡ some events

-- The bridge sends texts, each at its time.
unfoldable pub handle_outputs : Service → String → List (Text × ℕ) → Service
handle_outputs s sid [] = s
handle_outputs s sid ((text, now) ∷ rest) =
    handle_outputs (handle_bridge_event s sid (output (some text)) now).0 sid rest

put_event-holds :
    (queues : List (List SessionEvent)) (q : ℕ) (events : List SessionEvent) (e : SessionEvent)
    → get_elem? queues q ≡ some events
    → get_elem? (put_event queues (some q) e) q ≡ some (events ++ e ∷ [])
unfolding put_event
put_event-holds queues q events e h =
    rw (h, put_event)
      (ground (arith, get_elem?-set queues q (events ++ e ∷ []) q, get_elem?-lt queues q events h))

record_output-queue :
    (n : ℕ) (m : ManagedSession) (text : Option Text)
    → (record_output n m text).output_queue ≡ m.output_queue
unfolding record_output
record_output-queue n m none = refl
record_output-queue n m (some t) = refl

Listening-output :
    (s : Service) (sid : String) (q : ℕ) (events : List SessionEvent) (text : Text) (now : ℕ)
    → Listening s sid q events
    → Listening
        (handle_bridge_event s sid (output (some text)) now).0
        sid
        q
        (events ++ output_event (some text) ∷ [])
unfolding handle_bridge_event dispatch_event
Listening-output s sid q events text now l =
    rw (l.found, handle_bridge_event)
      (record {
        ref = l.ref;
        managed = record_output s.history_max_bytes l.managed (some text);
        found = deref-write s _ (get s.sessions_by_id sid) l.ref l.managed _ refl l.found;
        into = record_output-queue s.history_max_bytes l.managed (some text) ∙ l.into;
        holds = rw l.into (put_event-holds s.queues q events (output_event (some text)) l.holds);
      })

Listening-outputs :
    (s : Service) (sid : String) (q : ℕ) (events : List SessionEvent) (texts : List (Text × ℕ))
    → Listening s sid q events
    → get_elem? (handle_outputs s sid texts).queues q
      ≡ some (events ++ as_events (map (λ t. t.0) texts))
unfolding handle_outputs
Listening-outputs s sid q events [] l = rw append-nil l.holds
Listening-outputs s sid q events ((text, now) ∷ rest) l =
    Listening-outputs (handle_bridge_event s sid (output (some text)) now).0 sid q _ rest
      (Listening-output s sid q events text now l)
    ∙ ap some (append_assoc events _ _)

attached_session-queue :
    (m : ManagedSession) (q : ℕ) (bridge : NewBridge) (now : ℕ)
    → (attached_session m q bridge now).0.output_queue ≡ some q
unfolding attached_session
attached_session-queue m q bridge now = ground arith

-- After the owner of a session attaches, and the bridge then sends any list of texts, the queue
-- that the attach handed out holds one output event for each kept history chunk and then one for
-- each text, in order.
pub attach-replays :
    (s : Service) (sid : String) (r : ℕ) (m : ManagedSession) (bridge : NewBridge) (now : ℕ)
    (texts : List (Text × ℕ))
    → session_by_id s sid ≡ some (r, m)
    → get_elem?
        (handle_outputs (attach_session s sid m.info.owner_user_id bridge now).1 sid texts).queues
        (length s.queues)
      ≡ some (as_events m.history.chunks ++ as_events (map (λ t. t.0) texts))
attach-replays s sid r m bridge now texts found =
    Listening-outputs (attach_session s sid m.info.owner_user_id bridge now).1 sid (length s.queues)
      (as_events m.history.chunks) texts
      (record {
        ref = r;
        managed = (attached_session m (length s.queues) bridge now).0;
        found = after_attach s sid r m found bridge now;
        into = attached_session-queue m (length s.queues) bridge now;
        holds = new_queue;
      })
  where
    new_queue :
        get_elem? (attach_session s sid m.info.owner_user_id bridge now).1.queues (length s.queues)
        ≡ some (as_events m.history.chunks)
    new_queue =
        unfold attach_session in
        rw (owned s sid r m found, attach_session)
          (get_elem?-push s.queues (as_events m.history.chunks) (length s.queues) ∙ ground arith)
