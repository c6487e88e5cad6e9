-- ===== src/Execution/Workspace/Log.antt =====
-- The store of services/workspace_lifecycle.py against the log of what was done to it: only the
-- last commit or invalidation of a workspace counts.
use text.Mathlib.Text.{◌==◌ as str_eq}
use text.Mathlib.TextEquality.{eq_iff}
use portex.Common.{
  ◌≡◌, refl, ap, ◌∙◌, Bool, true, false, List, [], ◌∷◌, String, arith, Bool-cases, inl, inr,
  if◌then◌else◌,
}
use portex.Dict.{get, put, get-put}
use portex.Execution.Workspace.{
  WorkspaceSessionState, WorkspaceSessionStore, get_state, set_default, preview_session_id,
  preview_of, commit_success, committed, invalidate, invalidated, fresh_state,
}

pub data Operation : Type 0 where
  preview : String → String → Bool → String → Operation
  commit : String → String → String → Operation
  invalidation : String → Operation

unfoldable pub perform : Operation → WorkspaceSessionStore → WorkspaceSessionStore
perform (preview key backend fresh_session id) states =
    (preview_session_id states key backend fresh_session id).1
perform (commit key backend id) states = commit_success states key backend id
perform (invalidation key) states = invalidate states key

unfoldable pub perform_all : List Operation → WorkspaceSessionStore → WorkspaceSessionStore
unfolding perform
perform_all [] states = states
perform_all (op ∷ ops) states = perform_all ops (perform op states)

-- What the log says of a workspace.
pub data Session : Type 0 where
  unused : Session
  given_up : Session
  held : String → String → Session

unfoldable pub written : Operation → String → Session
written (preview key backend fresh_session id) other = unused
written (commit key backend id) other = if str_eq key other then held backend id else unused
written (invalidation key) other = if str_eq key other then given_up else unused

unfoldable pub last_session : List Operation → String → Session
unfolding written
last_session [] key = unused
last_session (op ∷ ops) key = elim (last_session ops key) [
  | unused ↦ written op key
  | given_up ↦ given_up
  | held backend id ↦ held backend id
]

-- The session that a run of that backend should go on with.
unfoldable pub session_for : Session → String → String → Bool → String → String
session_for unused key backend fresh_session new_id = key
session_for given_up key backend fresh_session new_id = new_id
session_for (held b id) key backend fresh_session new_id =
    if fresh_session then new_id else (if str_eq b backend then id else new_id)

abbrev written_state : Session → WorkspaceSessionState → WorkspaceSessionState
written_state unused state = state
written_state given_up state = invalidated state
written_state (held backend id) state = committed state backend id

get_state-put :
    (states : WorkspaceSessionStore) (key other : String) (state : WorkspaceSessionState)
    → get_state (put states key state) other
      ≡ (if str_eq key other then state else get_state states other)
unfolding get_state
get_state-put states key other state = ground (arith, get-put states key other state)

get_state-set_default :
    (states : WorkspaceSessionStore) (key other : String)
    → get_state (set_default states key) other ≡ get_state states other
unfolding get_state set_default
get_state-set_default states key other =
    ground (arith, get-put states key other (fresh_state key), eq_iff key other)

get_state-perform :
    (op : Operation) (states : WorkspaceSessionStore) (key : String)
    → get_state (perform op states) key ≡ written_state (written op key) (get_state states key)
unfolding perform written preview_session_id commit_success invalidate
get_state-perform (preview k backend fresh_session id) states key =
    get_state-set_default states k key
get_state-perform (commit k backend id) states key = elim (Bool-cases (str_eq k key)) [
  | inl e ↦
      ground (
        arith,
        get_state-put states k key (committed (get_state states k) backend id),
        eq_iff k key,
      )
  | inr e ↦ ground (arith, get_state-put states k key (committed (get_state states k) backend id))
]
get_state-perform (invalidation k) states key = elim (Bool-cases (str_eq k key)) [
  | inl e ↦
      ground (arith, get_state-put states k key (invalidated (get_state states k)), eq_iff k key)
  | inr e ↦ ground (arith, get_state-put states k key (invalidated (get_state states k)))
]

written_state-twice :
    (first later : Session) (state : WorkspaceSessionState)
    → written_state later (written_state first state)
      ≡ written_state
          (elim later [ unused ↦ first | given_up ↦ given_up | held backend id ↦ held backend id ])
          state
written_state-twice first unused state = refl
written_state-twice unused given_up state = refl
written_state-twice given_up given_up state = refl
written_state-twice (held b i) given_up state = refl
written_state-twice unused (held backend id) state = refl
written_state-twice given_up (held backend id) state = refl
written_state-twice (held b i) (held backend id) state = refl

get_state-perform_all :
    (ops : List Operation) (states : WorkspaceSessionStore) (key : String)
    → get_state (perform_all ops states) key
      ≡ written_state (last_session ops key) (get_state states key)
unfolding perform_all last_session
get_state-perform_all [] states key = refl
get_state-perform_all (op ∷ ops) states key =
    get_state-perform_all ops (perform op states) key
    ∙ ap (written_state (last_session ops key)) (get_state-perform op states key)
    ∙ written_state-twice (written op key) (last_session ops key) (get_state states key)

preview_of-written :
    (session : Session) (key backend : String) (fresh_session : Bool) (new_id : String)
    → preview_of (written_state session (fresh_state key)) key backend fresh_session new_id
      ≡ session_for session key backend fresh_session new_id
unfolding preview_of session_for
preview_of-written unused key backend true new_id = refl
preview_of-written unused key backend false new_id = refl
preview_of-written given_up key backend true new_id = refl
preview_of-written given_up key backend false new_id = refl
preview_of-written (held b id) key backend true new_id = refl
preview_of-written (held b id) key backend false new_id = ground arith

-- After any sequence of previews, commits and invalidations on an empty store, a preview answers
-- as the last commit or invalidation of its workspace says: the plain workspace key if there was
-- none, a new id after an invalidation, and after a commit the committed session, or a new id if
-- a fresh session is asked for or another backend committed it.
pub preview_session_id_lem :
    (ops : List Operation) (key backend : String) (fresh_session : Bool) (new_id : String)
    → (preview_session_id (perform_all ops []) key backend fresh_session new_id).0
      ≡ session_for (last_session ops key) key backend fresh_session new_id
unfolding preview_session_id get_state get
preview_session_id_lem ops key backend fresh_session new_id =
    ap (λ state. preview_of state key backend fresh_session new_id)
      (get_state-perform_all ops [] key)
    ∙ preview_of-written (last_session ops key) key backend fresh_session new_id
