-- ===== src/Groups/Bindings.antt =====
-- The chats that are bound to workspaces, and who may use a workspace: the rest of
-- `GroupRegistryService` of services/group_registry.py.
pub mod Access
pub mod Targets
use text.Mathlib.Text.{◌==◌ as str_eq}
use portex.Common.{
  ℕ, zero, suc, Bool, true, false, not, ◌&&◌, ◌||◌, Option, none, some, List, [], ◌∷◌, String,
  if◌then◌else◌,
}
use portex.Dict.{Dict, get, put, values, is_some}
use portex.Text.Strings.{str_starts_with, str_empty}
use portex.Sort.{row_le, sort_rows}
use portex.Groups.Slots.{
  RegistryError, value_error, conflict, lookup_error, Reply, answered, refused,
}
use portex.Groups.Members.{Member, get_member}
use portex.Groups.Registry.{
  RegisteredGroup, Database, get_registered_group, save_group, is_web, by_time,
}

pub data Channel : Type 0 where
  telegram feishu : Channel

-- `_channel_from_jid`
unfoldable pub channel_from_jid : String → Option Channel
channel_from_jid jid =
    if str_starts_with "telegram:" jid
    then some telegram
    else if str_starts_with "feishu:" jid
    then some feishu
    else none

-- A text that is there and not empty.
abbrev pub non_empty : Option String → Option String
non_empty none = none
non_empty (some s) = if str_empty s then none else some s

-- The web workspace that a target stands for, if there is one.
abbrev pub if_web : Option RegisteredGroup → Option RegisteredGroup
if_web none = none
if_web (some g) = if is_web g.jid then some g else none

abbrev pub web_group : Database → Option String → Option RegisteredGroup
web_group db none = none
web_group db (some jid) = if_web (get_registered_group db jid)

unfoldable pub target_workspace : Database → Option String → Option RegisteredGroup
target_workspace db target = web_group db (non_empty target)

-- `resolve_im_workspace`
unfoldable pub resolve_im_workspace : Database → String → Option RegisteredGroup
resolve_im_workspace db jid = elim (get_registered_group db jid) [
  | none ↦ none
  | some endpoint ↦ elim (target_workspace db endpoint.target_workspace_jid) [
    | none ↦ some endpoint
    | some workspace ↦ some workspace
  ]
]

abbrev pub targets : RegisteredGroup → String → Bool
targets endpoint jid = elim endpoint.target_workspace_jid [
  | none ↦ false
  | some target ↦ str_eq target jid
]

-- `bind_im_endpoint_to_workspace`
unfoldable pub bind_im_endpoint_to_workspace :
    Database → RegisteredGroup → String → Reply RegisteredGroup × Database
bind_im_endpoint_to_workspace db group im_jid = elim (get_registered_group db im_jid) [
  | none ↦ (refused lookup_error, db)
  | some endpoint ↦
      let bound : RegisteredGroup = record endpoint { target_workspace_jid = some group.jid } in
      if not (is_some (channel_from_jid endpoint.jid))
      then (refused value_error, db)
      else if targets endpoint group.jid
      then (answered endpoint, db)
      else if is_some (target_workspace db endpoint.target_workspace_jid)
      then (refused conflict, db)
      else (answered bound, save_group db bound)
]

-- `unbind_im_endpoint_from_workspace`
unfoldable pub unbind_im_endpoint_from_workspace :
    Database → RegisteredGroup → String → Reply RegisteredGroup × Database
unbind_im_endpoint_from_workspace db group im_jid = elim (get_registered_group db im_jid) [
  | none ↦ (refused lookup_error, db)
  | some endpoint ↦
      let unbound : RegisteredGroup = record endpoint { target_workspace_jid = none } in
      if not (is_some (channel_from_jid endpoint.jid)) || not (targets endpoint group.jid)
      then (refused value_error, db)
      else (answered unbound, save_group db unbound)
]

pub data BindingState : Type 0 where
  unbound orphaned bound : BindingState

-- `GroupIMBindingStatus`
pub record BindingStatus : Type 0 where
  pub im_jid : String
  pub name : String
  pub channel : Channel
  pub fallback_group_id : String
  pub binding_state : BindingState
  pub target_group_id : Option String
  pub target_group_name : Option String
  pub bound_to_current_group : Bool

-- The four values that depend on the target.
abbrev pub with_target :
    RegisteredGroup
    → RegisteredGroup
    → Channel
    → BindingState
    → Option RegisteredGroup
    → BindingStatus
with_target group endpoint channel state none = record {
  im_jid = endpoint.jid;
  name = endpoint.name;
  channel = channel;
  fallback_group_id = endpoint.folder;
  binding_state = state;
  target_group_id = none;
  target_group_name = none;
  bound_to_current_group = false;
}
with_target group endpoint channel state (some target) = record {
  im_jid = endpoint.jid;
  name = endpoint.name;
  channel = channel;
  fallback_group_id = endpoint.folder;
  binding_state = bound;
  target_group_id = some target.folder;
  target_group_name = some target.name;
  bound_to_current_group = str_eq target.jid group.jid;
}

-- A target that is no web workspace leaves the endpoint orphaned.
unfoldable pub binding_status :
    Database → RegisteredGroup → RegisteredGroup → Channel → BindingStatus
binding_status db group endpoint channel =
    let state : BindingState =
      if is_some (non_empty endpoint.target_workspace_jid) then orphaned else unbound in
    with_target group endpoint channel state (target_workspace db endpoint.target_workspace_jid)

unfoldable pub bindings_of : Database → RegisteredGroup → List RegisteredGroup → List BindingStatus
bindings_of db group [] = []
bindings_of db group (endpoint ∷ rest) = elim (channel_from_jid endpoint.jid) [
  | none ↦ bindings_of db group rest
  | some channel ↦ binding_status db group endpoint channel ∷ bindings_of db group rest
]

-- `list_im_endpoint_bindings`
unfoldable pub list_im_endpoint_bindings : Database → RegisteredGroup → List BindingStatus
list_im_endpoint_bindings db group = bindings_of db group (sort_rows by_time (values db.groups))

abbrev pub is_creator : RegisteredGroup → String → Bool
is_creator group user_id = elim group.created_by [
  | none ↦ false
  | some creator ↦ str_eq creator user_id
]

abbrev pub is_owner_role : Option String → Bool
is_owner_role none = false
is_owner_role (some role) = str_eq role "owner"

-- The last part of the check: of another workspace, if the group has a target that resolves to one.
abbrev pub or_workspace :
    String
    → Option Bool
    → (RegisteredGroup → Option Bool)
    → Option String
    → Option RegisteredGroup
    → Option Bool
or_workspace jid own again none workspace = own
or_workspace jid own again (some target) none = own
or_workspace jid own again (some target) (some workspace) =
    if str_eq workspace.jid jid then own else again workspace

-- `user_can_access_group`, on fuel for its call of itself.
unfoldable pub user_can_access_group :
    ℕ → Database → String → Option String → RegisteredGroup → Option Bool
user_can_access_group zero db user_id user_role group = none
user_can_access_group (suc fuel) db user_id user_role group =
    if group.is_home
    then some (
        str_eq group.jid "web:main" && str_eq group.folder "main" && is_owner_role user_role
        || is_creator group user_id)
    else if is_web group.jid
    then some (is_creator group user_id || is_some (get_member db.members group.folder user_id))
    else or_workspace group.jid (some (is_creator group user_id))
        (user_can_access_group fuel db user_id user_role) (non_empty group.target_workspace_jid)
        (resolve_im_workspace db group.jid)

-- `user_can_manage_members`
unfoldable pub user_can_manage_members : String → RegisteredGroup → Bool
user_can_manage_members user_id group =
    not group.is_home && is_web group.jid && is_creator group user_id
