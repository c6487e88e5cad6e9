-- ===== src/Terminal/Sessions/Ownership.antt =====
-- Who is answered with the session of a workspace that is in use, in services/terminal_sessions.py.
use text.Mathlib.Text.{◌==◌ as str_eq}
use portex.Common.{ℕ, ◌≡◌, refl, false, some, [], String, Bool-cases, inl, inr, if◌then◌else◌}
use portex.Terminal.Sessions.{
  Service, ManagedSession, conflict, ok, err, session_by_group, is_over, resolve_backend, container,
}
use portex.Terminal.Sessions.Actions.{NewBridge, create_session, create_locked}

-- While a workspace has a session that is neither closed nor exited, a container-mode create
-- changes nothing and asks nothing of the outside: the owner is answered with that session, anybody
-- else with the conflict error.
pub create_session-active :
    (s : Service) (gid folder owner sid : String) (bridge : NewBridge) (now r : ℕ)
    (m : ManagedSession)
    → session_by_group s folder ≡ some (r, m)
    → is_over m.info.status ≡ false
    → create_session s gid folder owner container sid bridge now
      ≡ (if str_eq m.info.owner_user_id owner then ok (m.info, false) else err conflict, s, [])
unfolding create_session create_locked resolve_backend
create_session-active s gid folder owner sid bridge now r m found active =
    rw (found, create_locked)
      (elim (Bool-cases (str_eq m.info.owner_user_id owner)) [
        | inl own ↦ rw (active, own) refl
        | inr foreign ↦ rw (active, foreign) refl
      ])
