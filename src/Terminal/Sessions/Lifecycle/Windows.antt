-- ===== src/Terminal/Sessions/Lifecycle/Windows.antt =====
-- The output histories of services/terminal_sessions.py stay within the limit of the service.
use text.Mathlib.Text.{◌==◌ as str_eq}
use portex.Common.{
  ℕ, ◌≡◌, refl, sym, ◌∙◌, ap, Option, none, some, List, [], ◌∷◌, ◌++◌, String, arith, get_elem?,
  set, get_elem?-set, get_elem?-push, length, ◌==◌, Bool-cases, inl, inr, ◌⊎◌, ltb, ◌&&◌,
}
use portex.Text.{Text}
use portex.Dict.{get}
use portex.Terminal.History.Window.{IsBounded, empty-IsBounded, append_output_history-IsBounded}
use portex.Terminal.Sessions.{
  Service, ManagedSession, BridgeEvent, output, exit, error, other, RequestedMode, container, host,
  openai, resolve_backend, docker_container, drop_session, is_over,
}
use portex.Terminal.Sessions.Actions.{
  NewBridge, create_session, create_locked, create_new, attach_session, attached_session,
  attach_failed, detach_session, close_session, force_close_session_by_group,
}
use portex.Terminal.Sessions.Events.{
  handle_bridge_event, dispatch_event, record_output, expire_detached_session, is_detached,
  deadline_is,
}
use portex.Terminal.Sessions.Registry.Methods.{
  Action, create, attach, attach_fails, detach, close, force_close, bridge_event, expire, perform,
  Reach, here, next, deref-cases, require_owned-cases,
}

-- The limit of the service, and every managed session's history within it.
pub record AreBounded (limit : ℕ) (s : Service) : Type 0 where
  pub limit_is : s.history_max_bytes ≡ limit
  pub each :
      (r : ℕ) (m : ManagedSession) → get_elem? s.objects r ≡ some m → IsBounded limit m.history

written_or_old :
    (xs : List ManagedSession) (r j : ℕ) (m' x : ManagedSession)
    → get_elem? (set xs r m') j ≡ some x
    → (m' ≡ x) ⊎ (get_elem? xs j ≡ some x)
written_or_old xs r j m' x h = elim (Bool-cases (r == j && ltb r (length xs))) [
  | inl e ↦ inl (ground (arith, get_elem?-set xs r m' j))
  | inr e ↦ inr (ground (arith, get_elem?-set xs r m' j))
]

new_or_old :
    (xs : List ManagedSession) (j : ℕ) (m' x : ManagedSession)
    → get_elem? (xs ++ m' ∷ []) j ≡ some x
    → (m' ≡ x) ⊎ (get_elem? xs j ≡ some x)
new_or_old xs j m' x h = elim (Bool-cases (j == length xs)) [
  | inl e ↦ inl (ground (arith, get_elem?-push xs m' j))
  | inr e ↦ inr (ground (arith, get_elem?-push xs m' j))
]

module _ (limit : ℕ) (s t : Service) (v : AreBounded limit s)
    (kept : t.history_max_bytes ≡ s.history_max_bytes) where
  -- A write of a session with a bounded history, and a new one.
  after_write :
      (r : ℕ) (m' : ManagedSession)
      → t.objects ≡ set s.objects r m'
      → IsBounded limit m'.history
      → AreBounded limit t
  after_write r m' e b = record {
    limit_is = kept ∙ v.limit_is;
    each = λ j x h.
        elim (written_or_old s.objects r j m' x
          (ap (λ (o : List ManagedSession). get_elem? o j) (sym e) ∙ h)) [
            | inl new ↦ rw new at b
            | inr old ↦ v.each j x old
          ];
  }

  after_push :
      (m' : ManagedSession)
      → t.objects ≡ s.objects ++ m' ∷ []
      → IsBounded limit m'.history
      → AreBounded limit t
  after_push m' e b = record {
    limit_is = kept ∙ v.limit_is;
    each = λ j x h.
        elim (new_or_old s.objects j m' x
          (ap (λ (o : List ManagedSession). get_elem? o j) (sym e) ∙ h)) [
            | inl new ↦ rw new at b
            | inr old ↦ v.each j x old
          ];
  }

module _ (limit : ℕ) (s : Service) (v : AreBounded limit s) where
  attached_session-history :
      (m : ManagedSession) (q : ℕ) (bridge : NewBridge) (now : ℕ)
      → (attached_session m q bridge now).0.history ≡ m.history
  unfolding attached_session
  attached_session-history m q bridge now = ground arith

  attach-AreBounded :
      (sid owner : String) (bridge : NewBridge) (now : ℕ)
      → AreBounded limit (attach_session s sid owner bridge now).1
  unfolding attach_session
  attach-AreBounded sid owner bridge now = elim (require_owned-cases s sid owner) [
    | inl (x, e) ↦ rw (e, attach_session) v
    | inr (r, m, at, e) ↦
        rw (e, attach_session)
          (after_write limit s _ v refl r (attached_session m (length s.queues) bridge now).0 refl
            (rw (attached_session-history m (length s.queues) bridge now) (v.each r m at)))
  ]

  attach_fails-AreBounded : (sid : String) (now : ℕ) → AreBounded limit (attach_failed s sid now).1
  unfolding attach_failed
  attach_fails-AreBounded sid now = elim (deref-cases s (get s.sessions_by_id sid)) [
    | inl e ↦ rw (e, attach_failed) v
    | inr (r, m, key, at, e) ↦
        rw (e, attach_failed) (after_write limit s _ v refl r _ refl (v.each r m at))
  ]

  detach-AreBounded :
      (sid owner : String) (now : ℕ) → AreBounded limit (detach_session s sid owner now).1
  unfolding detach_session
  detach-AreBounded sid owner now = elim (require_owned-cases s sid owner) [
    | inl (x, e) ↦ rw (e, detach_session) v
    | inr (r, m, at, e) ↦
        rw (e, detach_session) (after_write limit s _ v refl r _ refl (v.each r m at))
  ]

  close-AreBounded :
      (sid owner : String) (now : ℕ) → AreBounded limit (close_session s sid owner now).1
  unfolding close_session
  close-AreBounded sid owner now = elim (require_owned-cases s sid owner) [
    | inl (x, e) ↦ rw (e, close_session) v
    | inr (r, m, at, e) ↦
        rw (e, close_session) (after_write limit s _ v refl r _ refl (v.each r m at))
  ]

  force_close-AreBounded :
      (folder : String) (now : ℕ) → AreBounded limit (force_close_session_by_group s folder now).1
  unfolding force_close_session_by_group
  force_close-AreBounded folder now = elim (deref-cases s (get s.sessions_by_group folder)) [
    | inl e ↦ rw (e, force_close_session_by_group) v
    | inr (r, m, key, at, e) ↦
        rw (e, force_close_session_by_group) (after_write limit s _ v refl r _ refl (v.each r m at))
  ]

  record_output-IsBounded :
      (m : ManagedSession) (text : Option Text)
      → IsBounded limit m.history
      → IsBounded limit (record_output s.history_max_bytes m text).history
  unfolding record_output
  record_output-IsBounded m none b = b
  record_output-IsBounded m (some t) b =
      rw v.limit_is (append_output_history-IsBounded limit m.history t b)

  dispatch-AreBounded :
      (event : BridgeEvent) (r : ℕ) (m : ManagedSession) (now : ℕ)
      → get_elem? s.objects r ≡ some m
      → AreBounded limit (dispatch_event event s r m now).0
  unfolding dispatch_event
  dispatch-AreBounded (output text) r m now at =
      after_write limit s _ v refl r _ refl (record_output-IsBounded m text (v.each r m at))
  dispatch-AreBounded (exit code) r m now at = after_write limit s _ v refl r _ refl (v.each r m at)
  dispatch-AreBounded (error message) r m now at = record { limit_is = v.limit_is; each = v.each }
  dispatch-AreBounded other r m now at = v

  bridge_event-AreBounded :
      (sid : String) (event : BridgeEvent) (now : ℕ)
      → AreBounded limit (handle_bridge_event s sid event now).0
  unfolding handle_bridge_event
  bridge_event-AreBounded sid event now = elim (deref-cases s (get s.sessions_by_id sid)) [
    | inl e ↦ rw (e, handle_bridge_event) v
    | inr (r, m, key, at, e) ↦ rw (e, handle_bridge_event) (dispatch-AreBounded event r m now at)
  ]

  expire-AreBounded :
      (sid : String) (deadline now : ℕ)
      → AreBounded limit (expire_detached_session s sid deadline now).0
  unfolding expire_detached_session
  expire-AreBounded sid deadline now = elim (deref-cases s (get s.sessions_by_id sid)) [
    | inl e ↦ rw (e, expire_detached_session) v
    | inr (r, m, key, at, e) ↦
        rw (e, expire_detached_session)
          (elim (Bool-cases (is_detached m.info.status)) [
            | inr no_wait ↦ rw no_wait v
            | inl waits ↦
                rw waits (elim (Bool-cases (deadline_is m.info.reconnect_deadline deadline)) [
                  | inr stale ↦ rw stale v
                  | inl due ↦ rw due (after_write limit s _ v refl r _ refl (v.each r m at))
                ])
          ])
  ]

  drop-AreBounded :
      (r : ℕ) (m : ManagedSession)
      → get_elem? s.objects r ≡ some m
      → AreBounded limit (drop_session s r m)
  unfolding drop_session
  drop-AreBounded r m at = after_write limit s _ v refl r _ refl (v.each r m at)

  create_locked-AreBounded :
      (gid folder owner : String) (sid : String) (bridge : NewBridge) (now : ℕ)
      → AreBounded limit (create_locked s gid folder owner docker_container sid bridge now).1
  unfolding create_locked create_new
  create_locked-AreBounded gid folder owner sid bridge now =
      elim (deref-cases s (get s.sessions_by_group folder)) [
        | inl e ↦ rw (e, create_locked) (after_push limit s _ v refl _ refl (empty-IsBounded limit))
        | inr (r, m, key, at, e) ↦
            rw (e, create_locked)
              (elim (Bool-cases (is_over m.info.status)) [
                | inr active ↦ rw active (elim (Bool-cases (str_eq m.info.owner_user_id owner)) [
                  | inr foreign ↦ rw foreign v
                  | inl own ↦ rw own v
                ])
                | inl over ↦ rw over (
                    after_push limit (drop_session s r m) _ (drop-AreBounded r m at) refl _ refl
                      (empty-IsBounded limit))
              ])
      ]

  created :
      (mode : RequestedMode) (gid folder owner sid : String) (bridge : NewBridge) (now : ℕ)
      → AreBounded limit (create_session s gid folder owner mode sid bridge now).1
  unfolding create_session resolve_backend
  created container gid folder owner sid bridge now =
      create_locked-AreBounded gid folder owner sid bridge now
  created host gid folder owner sid bridge now = v
  created openai gid folder owner sid bridge now = v

  -- Every method keeps every history within the limit of the service, and its count true.
  pub perform-AreBounded : (a : Action) → AreBounded limit (perform a s)
  unfolding perform
  perform-AreBounded (create gid folder owner mode sid bridge now) =
      created mode gid folder owner sid bridge now
  perform-AreBounded (attach sid owner bridge now) = attach-AreBounded sid owner bridge now
  perform-AreBounded (attach_fails sid now) = attach_fails-AreBounded sid now
  perform-AreBounded (detach sid owner now) = detach-AreBounded sid owner now
  perform-AreBounded (close sid owner now) = close-AreBounded sid owner now
  perform-AreBounded (force_close folder now) = force_close-AreBounded folder now
  perform-AreBounded (bridge_event sid event now) = bridge_event-AreBounded sid event now
  perform-AreBounded (expire sid deadline now) = expire-AreBounded sid deadline now

-- From a service whose sessions keep histories within its byte limit, every sequence of methods,
-- bridge events and timers reaches a service with the same limit whose sessions all have a history
-- with a true byte count within it.
pub Reach-AreBounded :
    (limit : ℕ) {s t : Service} → AreBounded limit s → Reach s t → AreBounded limit t
Reach-AreBounded limit v here = v
Reach-AreBounded limit v (next {t = t} r a fresh) =
    perform-AreBounded limit t (Reach-AreBounded limit v r) a
