-- ===== src/Terminal/Sessions/Lifecycle.antt =====
-- How a session of services/terminal_sessions.py moves between its states.
pub mod Replay
pub mod Windows
use text.Mathlib.Text.{◌==◌ as str_eq}
use text.Mathlib.TextEquality.{eq_iff}
use portex.Common.{
  ℕ, ◌+◌, ◌≡◌, ◌≢◌, refl, sym, ◌∙◌, ap, Bool, true, false, Option, none, some, List, [], ◌∷◌,
  String, arith, Bool-cases, Option-cases, inl, inr, if◌then◌else◌, not, ◌==◌, get_elem?, set,
  get_elem?-set, get_elem?-lt, length,
}
use portex.Dict.{get}
use portex.Terminal.Sessions.{
  Service, ManagedSession, SessionStatus, SessionRecord, created, attached, detached, closed,
  exited, ok, err, deref, session_by_group, session_by_id, require_owned, is_over, resolve_backend,
  container, update,
}
use portex.Terminal.Sessions.Actions.{
  NewBridge, create_session, create_locked, attach_session, attached_session, detach_session,
  detached_session, close_session, closed_session,
}
use portex.Terminal.Sessions.Events.{
  expire_detached_session, expired_session, is_detached, deadline_is,
}
use portex.Terminal.Sessions.Ownership.{create_session-active}
use portex.Terminal.Sessions.Registry.Keeps.{IsRegistry, InIds, InGroup}

pub deref_inv :
    (s : Service) (o : Option ℕ) (r : ℕ) (m : ManagedSession)
    → deref s o ≡ some (r, m)
    → (o ≡ some r) × (get_elem? s.objects r ≡ some m)
unfolding deref
deref_inv s none r m h = cc
deref_inv s (some k) r m h = elim (Option-cases (get_elem? s.objects k)) [
  | inl e ↦ absurd (ground arith)
  | inr (x, e) ↦ (ground arith, ground arith)
]

-- A lookup that found a session finds what a method wrote there.
pub deref-write :
    (s t : Service) (o : Option ℕ) (r : ℕ) (m m' : ManagedSession)
    → t.objects ≡ set s.objects r m'
    → deref s o ≡ some (r, m)
    → deref t o ≡ some (r, m')
unfolding deref
deref-write s t o r m m' e h =
    let (key, at) = deref_inv s o r m h in
    let lt = get_elem?-lt s.objects r m at in
    rw (key, deref) (rw (e, deref) (ground (arith, get_elem?-set s.objects r m' r)))

-- What a session's owner is answered.
pub owned :
    (s : Service) (sid : String) (r : ℕ) (m : ManagedSession)
    → session_by_id s sid ≡ some (r, m)
    → require_owned s sid m.info.owner_user_id ≡ ok (r, m)
unfolding require_owned
owned s sid r m found =
    let own : str_eq m.info.owner_user_id m.info.owner_user_id ≡ true =
      (eq_iff m.info.owner_user_id m.info.owner_user_id).1 refl in
    ground arith

abbrev after_detach_and_timer : Bool → ManagedSession → ℕ → ManagedSession
after_detach_and_timer due m deadline =
    if due then expired_session (detached_session m deadline) else detached_session m deadline

after_timer :
    (due : Bool) (m : ManagedSession) (deadline : ℕ)
    → let m' = after_detach_and_timer due m deadline in
      (m'.info.status ≡ (if due then closed else detached))
      × (m'.info.reconnect_deadline ≡ (if due then none else some deadline))
      × (m'.info.owner_user_id ≡ m.info.owner_user_id)
      × (m'.history ≡ m.history)
unfolding expired_session detached_session
after_timer true m deadline = (refl, refl, refl, refl)
after_timer false m deadline = (refl, refl, refl, refl)

-- Whatever the state of a session, its owner can attach and detach; the session is then attached
-- or detached, also if it was closed or had exited.
module _ (s : Service) (sid : String) (r : ℕ) (m : ManagedSession)
    (found : session_by_id s sid ≡ some (r, m)) (bridge : NewBridge) (now : ℕ) where
  pub after_attach :
      session_by_id (attach_session s sid m.info.owner_user_id bridge now).1 sid
      ≡ some (r, (attached_session m (length s.queues) bridge now).0)
  unfolding attach_session
  after_attach =
      rw (owned s sid r m found, attach_session)
        (deref-write s _ (get s.sessions_by_id sid) r m _ refl found)

  after_detach :
      session_by_id (detach_session s sid m.info.owner_user_id now).1 sid
      ≡ some (r, detached_session m (now + s.reconnect_timeout))
  unfolding detach_session
  after_detach =
      rw (owned s sid r m found, detach_session)
        (deref-write s _ (get s.sessions_by_id sid) r m _ refl found)

  attached_session-status : (q : ℕ) → (attached_session m q bridge now).0.info.status ≡ attached
  unfolding attached_session
  attached_session-status q = ground arith

  -- A reconnect timer that fires after its session was attached again changes nothing and asks
  -- nothing of the outside, whatever deadline it carries.
  pub expire-attach :
      (deadline later : ℕ)
      → let t = (attach_session s sid m.info.owner_user_id bridge now).1 in
        expire_detached_session t sid deadline later ≡ (t, [])
  unfolding expire_detached_session
  expire-attach deadline later =
      rw (after_attach, expire_detached_session)
        (rw (attached_session-status (length s.queues)) refl)

  expire_finds :
      (deadline later : ℕ)
      → let t = (detach_session s sid m.info.owner_user_id now).1 in
        session_by_id (expire_detached_session t sid deadline later).0 sid
        ≡ some (
          r,
          after_detach_and_timer
              (now + s.reconnect_timeout == deadline)
              m
              (now + s.reconnect_timeout),
        )
  unfolding expire_detached_session detached_session
  expire_finds deadline later =
      let t : Service = (detach_session s sid m.info.owner_user_id now).1 in
      rw (after_detach, expire_detached_session)
        (elim (Bool-cases (now + s.reconnect_timeout == deadline)) [
          | inl due ↦ rw due (deref-write t _ (get t.sessions_by_id sid) r _ _ refl after_detach)
          | inr stale ↦ rw stale after_detach
        ])

  -- A reconnect timer that fires on a session right after a detach leaves it closed and without a
  -- deadline if it carries the deadline of that detach, and otherwise detached with that deadline;
  -- its owner and its history stay as they were.
  pub expire-detach :
      (deadline later : ℕ)
      → let t = (detach_session s sid m.info.owner_user_id now).1 in
        let due = now + s.reconnect_timeout == deadline in
        (m' : ManagedSession) × (session_by_id (expire_detached_session t sid deadline later).0 sid
          ≡ some (r, m'))
        × (m'.info.status ≡ (if due then closed else detached))
        × (m'.info.reconnect_deadline ≡ (if due then none else some (now + s.reconnect_timeout)))
        × (m'.info.owner_user_id ≡ m.info.owner_user_id)
        × (m'.history ≡ m.history)
  expire-detach deadline later =
      let due : Bool = now + s.reconnect_timeout == deadline in
      let (status, no_deadline, owner, history) = after_timer due m (now + s.reconnect_timeout) in
      (
        after_detach_and_timer due m (now + s.reconnect_timeout),
        expire_finds deadline later,
        status,
        no_deadline,
        owner,
        history,
      )

  found_by_group : IsRegistry s → session_by_group s m.info.group_folder ≡ some (r, m)
  unfolding deref
  found_by_group v =
      let (key, at) = deref_inv s (get s.sessions_by_id sid) r m found in
      let w : InIds s sid r = v.by_id sid r key in
      let same : w.object ≡ m = ground (arith, w.at) in
      let group : get s.sessions_by_group m.info.group_folder ≡ some r = rw same at w.other_way in
      rw (group, deref) (rw (at, deref))

  after_detach_by_group :
      IsRegistry s
      → session_by_group (detach_session s sid m.info.owner_user_id now).1 m.info.group_folder
        ≡ some (r, detached_session m (now + s.reconnect_timeout))
  unfolding detach_session
  after_detach_by_group v =
      rw (owned s sid r m found, detach_session)
        (deref-write s _ (get s.sessions_by_group m.info.group_folder) r m _ refl
          (found_by_group v))

  -- In a service whose dicts mirror each other, after its owner detaches a session, whatever status
  -- it had, a create by that owner in that workspace answers with the same session and changes
  -- nothing.
  pub detach_revives :
      (gid fresh_id : String)
      → IsRegistry s
      → let t = (detach_session s sid m.info.owner_user_id now).1 in
        create_session t gid m.info.group_folder m.info.owner_user_id container fresh_id bridge now
        ≡ (ok ((detached_session m (now + s.reconnect_timeout)).info, false), t, [])
  unfolding detached_session
  detach_revives gid fresh_id v =
      create_session-active (detach_session s sid m.info.owner_user_id now).1 gid
        m.info.group_folder m.info.owner_user_id fresh_id bridge now r _ (after_detach_by_group v)
        refl
      ∙ rw ((eq_iff m.info.owner_user_id m.info.owner_user_id).1 refl)
