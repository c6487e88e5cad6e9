-- ===== src/Terminal/Sessions/Tests.antt =====
-- The sessions of services/terminal_sessions.py at a concrete service.
use text.Mathlib.TextEquality.{eq_iff}
use mathlib.Core.Bool.{false≢true}
use portex.Common.{◌≡◌, ◌≢◌, ◌<◌, refl, false, none, some, [], ◌∷◌, ◌++◌, get_elem?, arith}
use portex.Text.{codes}
use portex.Dict.{get}
use portex.Terminal.History.{empty_history, append_output_history, utf8_length, utf8_width}
use portex.Terminal.Sessions.{closed}
use portex.Terminal.Sessions.{
  Service, ManagedSession, created, docker_container, container, ok, deref, session_by_group,
  session_by_id,
}
use portex.Terminal.Sessions.Actions.{
  NewBridge, create_session, attach_session, detach_session, detached_session,
}
use portex.Terminal.Sessions.Events.{expire_detached_session}
use portex.Terminal.Sessions.Registry.Methods.{create, detach, perform, Reach, Reach-IsRegistry}
use portex.Terminal.Sessions.Registry.Keeps.{IsRegistry}
use portex.Terminal.Sessions.Lifecycle.{expire-detach, detach_revives}
use portex.Terminal.History.Window.{
  IsLongestEnd, empty-IsBounded, append_output_history-IsLongestEnd,
}
use portex.Terminal.Sessions.Lifecycle.Windows.{AreBounded, Reach-AreBounded}
use portex.Terminal.Sessions.Lifecycle.Replay.{as_events, handle_outputs, attach-replays}

abbrev start : Service
start = record {
  reconnect_timeout = 30;
  history_max_bytes = 100;
  objects = [];
  sessions_by_group = [];
  sessions_by_id = [];
  queues = [];
}

abbrev bridge : NewBridge
bridge = record { ref = 7; container_name = some "c7" }

-- A service with one session, which has written a line.
abbrev written : ManagedSession
written = record {
  info = record {
    session_id = "s1";
    group_id = "g1";
    group_folder = "home";
    owner_user_id = "alice";
    backend = docker_container;
    container_name = some "c7";
    status = created;
    created_at = 5;
    last_attached_at = none;
    reconnect_deadline = none;
  };
  bridge = some 7;
  output_queue = none;
  reconnect_task = none;
  history = record { chunks = codes "ready" ∷ []; bytes = 5; truncated = false };
}

abbrev live : Service
live = record start {
  objects = written ∷ [];
  sessions_by_group = ("home", 0) ∷ [];
  sessions_by_id = ("s1", 0) ∷ [];
}

found_by_id : session_by_id live "s1" ≡ some (0, written)
unfolding deref get
found_by_id = refl

found_by_folder : session_by_group live "home" ≡ some (0, written)
unfolding deref get
found_by_folder = refl

alice_is_not_bob : written.info.owner_user_id ≢ "bob"
alice_is_not_bob p = false≢true ((eq_iff "alice" "bob").1 p)

start-IsRegistry : IsRegistry start
unfolding get
start-IsRegistry = record { by_group = λ f r h. cc; by_id = λ i r h. cc }

live-IsRegistry : IsRegistry live
unfolding get
live-IsRegistry = record {
  by_group = λ f r h. record {
    object = written;
    at = ground (arith, eq_iff "home" f);
    folder_is = ground (arith, eq_iff "home" f);
    other_way = ground (arith, eq_iff "home" f);
  };
  by_id = λ i r h. record {
    object = written;
    at = ground (arith, eq_iff "s1" i);
    id_is = ground (arith, eq_iff "s1" i);
    other_way = ground (arith, eq_iff "s1" i);
  };
}

abbrev two_steps : Reach start (
    perform
      (detach "s1" "alice" 8)
      (perform (create "g1" "home" "alice" container "s1" bridge 5) start))
two_steps =
    Reach.next (Reach.next Reach.here (create "g1" "home" "alice" container "s1" bridge 5) fresh)
      (detach "s1" "alice" 8) tt
  where
    fresh : get start.sessions_by_id "s1" ≡ none
    fresh = unfold get in refl

Reach-IsRegistry_example : IsRegistry (
    perform
      (detach "s1" "alice" 8)
      (perform (create "g1" "home" "alice" container "s1" bridge 5) start))
Reach-IsRegistry_example = Reach-IsRegistry start-IsRegistry two_steps

expire-detach_example :
    (m : ManagedSession) × (session_by_id
        (expire_detached_session (detach_session live "s1" "alice" 9).1 "s1" 39 50).0
        "s1"
      ≡ some (0, m))
    × (m.info.status ≡ closed)
    × (m.info.reconnect_deadline ≡ none)
    × (m.info.owner_user_id ≡ "alice")
    × (m.history ≡ written.history)
expire-detach_example = expire-detach live "s1" 0 written found_by_id bridge 9 39 50

detach_revives_example :
    create_session
      (detach_session live "s1" "alice" 9).1
      "g1"
      "home"
      "alice"
      container
      "s2"
      bridge
      9
    ≡ (ok ((detached_session written 39).info, false), (detach_session live "s1" "alice" 9).1, [])
detach_revives_example =
    detach_revives live "s1" 0 written found_by_id bridge 9 "g1" "s2" live-IsRegistry

attach-replays_example :
    get_elem?
      (handle_outputs
        (attach_session live "s1" "alice" bridge 9).1
        "s1"
        ((codes "ok", 10) ∷ [])).queues
      0
    ≡ some (as_events (codes "ready" ∷ []) ++ as_events (codes "ok" ∷ []))
attach-replays_example =
    attach-replays live "s1" 0 written bridge 9 ((codes "ok", 10) ∷ []) found_by_id

start-AreBounded : AreBounded 100 start
start-AreBounded = record { limit_is = refl; each = λ r m h. cc }

Reach-AreBounded_example : AreBounded 100 (
    perform
      (detach "s1" "alice" 8)
      (perform (create "g1" "home" "alice" container "s1" bridge 5) start))
Reach-AreBounded_example = Reach-AreBounded 100 start-AreBounded two_steps

append_output_history-IsLongestEnd_example :
    IsLongestEnd 4 (codes "abcd" ∷ []) (append_output_history 4 empty_history (codes "abcd")).chunks
append_output_history-IsLongestEnd_example =
    append_output_history-IsLongestEnd 4 empty_history (codes "abcd") (empty-IsBounded 4)
      (omega arith) some_bytes
  where
    some_bytes : 0 < utf8_length (codes "abcd")
    some_bytes = unfold utf8_length utf8_width in omega arith
