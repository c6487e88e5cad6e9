-- ===== src/Terminal/Sessions/Registry/Methods.antt =====
-- Every method of services/terminal_sessions.py keeps the registry, and so do all histories.
use text.Mathlib.Text.{◌==◌ as str_eq}
use text.Mathlib.TextEquality.{eq_iff}
use portex.Common.{
  ℕ, ◌≡◌, refl, ◌∙◌, ap, Option, none, some, List, String, length, get_elem?, arith, Bool-cases,
  inl, inr, Option-cases, ◌⊎◌,
}
use portex.Text.{Text}
use portex.Dict.{get, get-pop}
use portex.Terminal.Sessions.{
  Service, ManagedSession, SessionEvent, RequestedMode, BackendName, BridgeEvent, output, exit,
  error, other, SessionError, not_found, not_owner, ok, err, update, deref, session_by_group,
  drop_session, resolve_backend, container, host, openai, docker_container, require_owned, is_over,
}
use portex.Terminal.Sessions.Actions.{
  NewBridge, create_new, create_locked, create_session, attach_session, attached_session,
  attach_failed, detach_session, close_session, force_close_session_by_group,
}
use portex.Terminal.Sessions.Events.{
  handle_bridge_event, dispatch_event, record_output, expire_detached_session, is_detached,
  deadline_is,
}
use portex.Terminal.Sessions.Registry.Keeps.{
  IsRegistry, InGroup, SameKeys, update-IsRegistry, drop_session-IsRegistry, filed-IsRegistry,
  queues-IsRegistry,
}

-- One step of the service or of the world around it. Ids, bridges and times come from outside.
pub data Action : Type 0 where
  create : String → String → String → RequestedMode → String → NewBridge → ℕ → Action
  attach : String → String → NewBridge → ℕ → Action
  attach_fails : String → ℕ → Action
  detach : String → String → ℕ → Action
  close : String → String → ℕ → Action
  force_close : String → ℕ → Action
  bridge_event : String → BridgeEvent → ℕ → Action
  expire : String → ℕ → ℕ → Action

unfoldable pub perform : Action → Service → Service
perform (create gid folder owner mode sid bridge now) s =
    (create_session s gid folder owner mode sid bridge now).1
perform (attach sid owner bridge now) s = (attach_session s sid owner bridge now).1
perform (attach_fails sid now) s = (attach_failed s sid now).1
perform (detach sid owner now) s = (detach_session s sid owner now).1
perform (close sid owner now) s = (close_session s sid owner now).1
perform (force_close folder now) s = (force_close_session_by_group s folder now).1
perform (bridge_event sid event now) s = (handle_bridge_event s sid event now).0
perform (expire sid deadline now) s = (expire_detached_session s sid deadline now).0

-- `uuid4().hex` is an id that no session has.
abbrev pub IsFresh : Service → Action → Type 0
IsFresh s (create gid folder owner mode sid bridge now) = get s.sessions_by_id sid ≡ none
IsFresh s _ = Unit {0}

pub data Reach (s : Service) : Service → Type 0 where
  here : Reach s s
  next : {t : Service} → Reach s t → (a : Action) → IsFresh t a → Reach s (perform a t)

-- What a lookup through a dict finds.
pub deref-cases :
    (s : Service) (o : Option ℕ)
    → (deref s o ≡ none)
      ⊎ ((r : ℕ) × (m : ManagedSession) × (o ≡ some r)
          × (get_elem? s.objects r ≡ some m)
          × (deref s o ≡ some (r, m)))
unfolding deref
deref-cases s none = inl refl
deref-cases s (some r) = elim (Option-cases (get_elem? s.objects r)) [
  | inl e ↦ inl (rw (e, deref))
  | inr (m, e) ↦ inr (r, m, refl, e, rw (e, deref))
]

pub require_owned-cases :
    (s : Service) (sid owner : String)
    → ((e : SessionError) × (require_owned s sid owner ≡ err e))
      ⊎ ((r : ℕ) × (m : ManagedSession) × (get_elem? s.objects r ≡ some m)
          × (require_owned s sid owner ≡ ok (r, m)))
unfolding require_owned
require_owned-cases s sid owner = elim (deref-cases s (get s.sessions_by_id sid)) [
  | inl e ↦ inl (not_found, ground arith)
  | inr (r, m, key, at, e) ↦ elim (Bool-cases (str_eq m.info.owner_user_id owner)) [
    | inl own ↦ inr (r, m, at, ground arith)
    | inr foreign ↦ inl (not_owner, ground arith)
  ]
]

module _ (s : Service) (v : IsRegistry s) where
  -- A method that writes one session and the queues.
  written :
      (r : ℕ) (m m' : ManagedSession) (q : List (List SessionEvent))
      → get_elem? s.objects r ≡ some m
      → SameKeys m m'
      → IsRegistry (record (update s r m') { queues = q })
  written r m m' q at keys =
      queues-IsRegistry (update s r m') q (update-IsRegistry s r m m' at keys v)

  attached_session-SameKeys :
      (m : ManagedSession) (q : ℕ) (bridge : NewBridge) (now : ℕ)
      → SameKeys m (attached_session m q bridge now).0
  unfolding attached_session
  attached_session-SameKeys m q bridge now = ground arith

  attach-IsRegistry :
      (sid owner : String) (bridge : NewBridge) (now : ℕ)
      → IsRegistry (attach_session s sid owner bridge now).1
  unfolding attach_session
  attach-IsRegistry sid owner bridge now = elim (require_owned-cases s sid owner) [
    | inl (x, e) ↦ rw (e, attach_session) v
    | inr (r, m, at, e) ↦
        rw (e, attach_session)
          (written r m (attached_session m (length s.queues) bridge now).0 _ at
            (attached_session-SameKeys m (length s.queues) bridge now))
  ]

  attach_fails-IsRegistry : (sid : String) (now : ℕ) → IsRegistry (attach_failed s sid now).1
  unfolding attach_failed
  attach_fails-IsRegistry sid now = elim (deref-cases s (get s.sessions_by_id sid)) [
    | inl e ↦ rw (e, attach_failed) v
    | inr (r, m, key, at, e) ↦
        rw (e, attach_failed)
          (update-IsRegistry s r m _ at (record { same_id = refl; same_folder = refl }) v)
  ]

  detach-IsRegistry : (sid owner : String) (now : ℕ) → IsRegistry (detach_session s sid owner now).1
  unfolding detach_session
  detach-IsRegistry sid owner now = elim (require_owned-cases s sid owner) [
    | inl (x, e) ↦ rw (e, detach_session) v
    | inr (r, m, at, e) ↦
        rw (e, detach_session)
          (update-IsRegistry s r m _ at (record { same_id = refl; same_folder = refl }) v)
  ]

  close-IsRegistry : (sid owner : String) (now : ℕ) → IsRegistry (close_session s sid owner now).1
  unfolding close_session
  close-IsRegistry sid owner now = elim (require_owned-cases s sid owner) [
    | inl (x, e) ↦ rw (e, close_session) v
    | inr (r, m, at, e) ↦
        rw (e, close_session)
          (update-IsRegistry s r m _ at (record { same_id = refl; same_folder = refl }) v)
  ]

  force_close-IsRegistry :
      (folder : String) (now : ℕ) → IsRegistry (force_close_session_by_group s folder now).1
  unfolding force_close_session_by_group
  force_close-IsRegistry folder now = elim (deref-cases s (get s.sessions_by_group folder)) [
    | inl e ↦ rw (e, force_close_session_by_group) v
    | inr (r, m, key, at, e) ↦
        rw (e, force_close_session_by_group)
          (update-IsRegistry s r m _ at (record { same_id = refl; same_folder = refl }) v)
  ]

  record_output-SameKeys :
      (n : ℕ) (m : ManagedSession) (text : Option Text) → SameKeys m (record_output n m text)
  unfolding record_output
  record_output-SameKeys n m none = record { same_id = refl; same_folder = refl }
  record_output-SameKeys n m (some t) = record { same_id = refl; same_folder = refl }

  dispatch-IsRegistry :
      (event : BridgeEvent) (r : ℕ) (m : ManagedSession) (now : ℕ)
      → get_elem? s.objects r ≡ some m
      → IsRegistry (dispatch_event event s r m now).0
  unfolding dispatch_event
  dispatch-IsRegistry (output text) r m now at =
      written r m _ _ at (record_output-SameKeys s.history_max_bytes m text)
  dispatch-IsRegistry (exit code) r m now at =
      written r m _ _ at (record { same_id = refl; same_folder = refl })
  dispatch-IsRegistry (error message) r m now at = queues-IsRegistry s _ v
  dispatch-IsRegistry other r m now at = v

  bridge_event-IsRegistry :
      (sid : String) (event : BridgeEvent) (now : ℕ)
      → IsRegistry (handle_bridge_event s sid event now).0
  unfolding handle_bridge_event
  bridge_event-IsRegistry sid event now = elim (deref-cases s (get s.sessions_by_id sid)) [
    | inl e ↦ rw (e, handle_bridge_event) v
    | inr (r, m, key, at, e) ↦ rw (e, handle_bridge_event) (dispatch-IsRegistry event r m now at)
  ]

  expire-IsRegistry :
      (sid : String) (deadline now : ℕ) → IsRegistry (expire_detached_session s sid deadline now).0
  unfolding expire_detached_session
  expire-IsRegistry sid deadline now = elim (deref-cases s (get s.sessions_by_id sid)) [
    | inl e ↦ rw (e, expire_detached_session) v
    | inr (r, m, key, at, e) ↦
        rw (e, expire_detached_session)
          (elim (Bool-cases (is_detached m.info.status)) [
            | inr no_wait ↦ rw no_wait v
            | inl waits ↦
                rw waits (elim (Bool-cases (deadline_is m.info.reconnect_deadline deadline)) [
                  | inr stale ↦ rw stale v
                  | inl due ↦ rw due (
                      update-IsRegistry s r m _ at (record { same_id = refl; same_folder = refl })
                        v)
                ])
          ])
  ]

  no_session :
      (folder : String) → session_by_group s folder ≡ none → get s.sessions_by_group folder ≡ none
  unfolding deref
  no_session folder h = elim (Option-cases (get s.sessions_by_group folder)) [
    | inl e ↦ e
    | inr (r, e) ↦ absurd (ground (arith, (v.by_group folder r e).at))
  ]

  -- The session that a workspace's entry stands for is filed under that workspace.
  folder_is :
      (folder : String) (r : ℕ) (m : ManagedSession)
      → get s.sessions_by_group folder ≡ some r
      → get_elem? s.objects r ≡ some m
      → m.info.group_folder ≡ folder
  folder_is folder r m key at =
      let w : InGroup s folder r = v.by_group folder r key in ground (arith, w.at, w.folder_is)

  own_folder :
      (folder : String) (r : ℕ) (m : ManagedSession)
      → get s.sessions_by_group folder ≡ some r
      → get_elem? s.objects r ≡ some m
      → get s.sessions_by_group m.info.group_folder ≡ some r
  own_folder folder r m key at = ap (get s.sessions_by_group) (folder_is folder r m key at) ∙ key

  dropped_free :
      (folder : String) (r : ℕ) (m : ManagedSession)
      → get s.sessions_by_group folder ≡ some r
      → get_elem? s.objects r ≡ some m
      → get (drop_session s r m).sessions_by_group folder ≡ none
  unfolding drop_session
  dropped_free folder r m key at = ground (
    arith,
    get-pop s.sessions_by_group m.info.group_folder folder,
    eq_iff m.info.group_folder folder,
    folder_is folder r m key at,
  )

  dropped_fresh :
      (sid : String) (r : ℕ) (m : ManagedSession)
      → get s.sessions_by_id sid ≡ none
      → get (drop_session s r m).sessions_by_id sid ≡ none
  unfolding drop_session
  dropped_fresh sid r m fresh = ground (arith, get-pop s.sessions_by_id m.info.session_id sid)

  create_locked-IsRegistry :
      (gid folder owner : String) (backend : BackendName) (sid : String) (bridge : NewBridge)
      (now : ℕ)
      → get s.sessions_by_id sid ≡ none
      → IsRegistry (create_locked s gid folder owner backend sid bridge now).1
  unfolding create_locked create_new
  create_locked-IsRegistry gid folder owner backend sid bridge now fresh =
      elim (deref-cases s (get s.sessions_by_group folder)) [
        | inl e ↦ rw (e, create_locked) (filed-IsRegistry s _ v (no_session folder e) fresh)
        | inr (r, m, key, at, e) ↦
            rw (e, create_locked)
              (elim (Bool-cases (is_over m.info.status)) [
                | inr active ↦ rw active (elim (Bool-cases (str_eq m.info.owner_user_id owner)) [
                  | inr foreign ↦ rw foreign v
                  | inl own ↦ rw own v
                ])
                | inl over ↦ rw over (
                    filed-IsRegistry (drop_session s r m) _
                      (drop_session-IsRegistry s r m at v (own_folder folder r m key at))
                      (dropped_free folder r m key at) (dropped_fresh sid r m fresh))
              ])
      ]

  -- Every method, whether it succeeds or raises, leaves dicts that mirror each other.
  pub perform-IsRegistry : (a : Action) → IsFresh s a → IsRegistry (perform a s)
  unfolding perform create_session resolve_backend
  perform-IsRegistry (create gid folder owner mode sid bridge now) fresh = created_by mode
    where
      created_by :
          (mode : RequestedMode)
          → IsRegistry (perform (create gid folder owner mode sid bridge now) s)
      created_by container =
          create_locked-IsRegistry gid folder owner docker_container sid bridge now fresh
      created_by host = v
      created_by openai = v
  perform-IsRegistry (attach sid owner bridge now) fresh = attach-IsRegistry sid owner bridge now
  perform-IsRegistry (attach_fails sid now) fresh = attach_fails-IsRegistry sid now
  perform-IsRegistry (detach sid owner now) fresh = detach-IsRegistry sid owner now
  perform-IsRegistry (close sid owner now) fresh = close-IsRegistry sid owner now
  perform-IsRegistry (force_close folder now) fresh = force_close-IsRegistry folder now
  perform-IsRegistry (bridge_event sid event now) fresh = bridge_event-IsRegistry sid event now
  perform-IsRegistry (expire sid deadline now) fresh = expire-IsRegistry sid deadline now

-- Starting from a service whose two dicts mirror each other (each reference in either dict stands
-- for a session filed under its own workspace and under its own id), every sequence of create,
-- attach, failed attach, detach, close, forced close, bridge events and timers, with ids that are
-- fresh at each create, leaves the dicts mirroring each other.
pub Reach-IsRegistry : {s t : Service} → IsRegistry s → Reach s t → IsRegistry t
Reach-IsRegistry v here = v
Reach-IsRegistry v (next {t = t} r a fresh) = perform-IsRegistry t (Reach-IsRegistry v r) a fresh
