-- ===== src/Execution/Workspace.antt =====
-- `WorkspaceSessionStore` of services/workspace_lifecycle.py: the committed session of each
-- workspace. A new session id is an argument, as it comes from a random number.
use Prim.Native.String.{◌++◌ as str_append}
use text.Mathlib.Text.{◌==◌ as str_eq}
use portex.Common.{Bool, true, false, not, ◌&&◌, Option, none, some, String, if◌then◌else◌}
pub mod Log
use portex.Dict.{Dict, get, put}

-- The states are objects, which only their dict refers to.
pub record WorkspaceSessionState : Type 0 where
  pub workspace_key : String
  pub session_id : Option String
  pub backend : Option String
  pub ever_committed : Bool

abbrev pub WorkspaceSessionStore : Type 0
WorkspaceSessionStore = Dict WorkspaceSessionState

-- `GroupFolderWorkspaceResolver.resolve_workspace_key`
abbrev pub build_slot_workspace_key : String → String → String
build_slot_workspace_key group_folder slot_id =
    str_append group_folder (str_append "#slot:" slot_id)

-- The default factory; `digits` are the eight digits of the random number.
abbrev pub default_new_session_id : String → String → String
default_new_session_id workspace_key digits = str_append workspace_key (str_append ":" digits)

abbrev pub fresh_state : String → WorkspaceSessionState
fresh_state workspace_key = record {
  workspace_key = workspace_key;
  session_id = none;
  backend = none;
  ever_committed = false;
}

-- `get_state`, which answers with a copy.
unfoldable pub get_state : WorkspaceSessionStore → String → WorkspaceSessionState
get_state states key = elim (get states key) [ none ↦ fresh_state key | some state ↦ state ]

-- `setdefault(workspace_key, WorkspaceSessionState(workspace_key))`
unfoldable pub set_default : WorkspaceSessionStore → String → WorkspaceSessionStore
set_default states key = elim (get states key) [
  | none ↦ put states key (fresh_state key)
  | some _ ↦ states
]

-- Whether the state holds a session of that backend.
abbrev pub session_of : WorkspaceSessionState → String → Option String
session_of state backend = elim state.session_id [
  | none ↦ none
  | some id ↦ elim state.backend [
    | none ↦ none
    | some b ↦ if str_eq b backend then some id else none
  ]
]

abbrev pub is_none {ℓ} : {A : Type ℓ} → Option A → Bool
is_none none = true
is_none (some _) = false

-- The answer of `preview_session_id` for the state that `setdefault` returns.
unfoldable pub preview_of : WorkspaceSessionState → String → String → Bool → String → String
preview_of state key backend fresh_session new_session_id =
    let otherwise : String =
      if is_none state.session_id && not state.ever_committed then key else new_session_id in
    if fresh_session
    then otherwise
    else elim (session_of state backend) [ none ↦ otherwise | some id ↦ id ]

unfoldable pub preview_session_id :
    WorkspaceSessionStore → String → String → Bool → String → String × WorkspaceSessionStore
preview_session_id states key backend fresh_session new_session_id = (
  preview_of (get_state states key) key backend fresh_session new_session_id,
  set_default states key,
)

abbrev pub committed : WorkspaceSessionState → String → String → WorkspaceSessionState
committed state backend session_id = record state {
  session_id = some session_id;
  backend = some backend;
  ever_committed = true;
}

unfoldable pub commit_success :
    WorkspaceSessionStore → String → String → String → WorkspaceSessionStore
commit_success states key backend session_id =
    put states key (committed (get_state states key) backend session_id)

abbrev pub invalidated : WorkspaceSessionState → WorkspaceSessionState
invalidated state = record state { session_id = none; backend = none; ever_committed = true }

-- The reason is not used.
unfoldable pub invalidate : WorkspaceSessionStore → String → WorkspaceSessionStore
invalidate states key = put states key (invalidated (get_state states key))
