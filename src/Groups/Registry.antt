-- ===== src/Groups/Registry.antt =====
-- `GroupRegistryService` of services/group_registry.py. A row that a method is given stands for the
-- object of the session that it changes; the clock is an argument.
pub mod MainSlots
pub mod Histories
use Prim.Native.String.{◌++◌ as concat}
use text.Mathlib.Text.{◌==◌ as str_eq}
use portex.Common.{
  ℕ, Bool, true, false, not, ◌&&◌, ◌||◌, Option, none, some, List, [], ◌∷◌, String, keep_if,
  if◌then◌else◌,
}
use portex.Dict.{Dict, get, put, values, is_some}
use portex.Text.Strings.{str_starts_with, str_empty}
use portex.Sort.{asc, str_asc, row_le, sort_rows}
use portex.Groups.Slots.{
  Slot, RegistryError, value_error, conflict, lookup_error, Reply, answered, refused, matches_name,
  ensure_main_slot,
}
use portex.Groups.Members.{Member, get_member, add_member}

pub record RegisteredGroup : Type 0 where
  pub jid : String
  pub name : String
  pub folder : String
  pub added_at : ℕ
  pub created_by : Option String
  pub is_home : Bool
  pub target_workspace_jid : Option String

-- The tables; the groups by their primary key.
pub record Database : Type 0 where
  pub groups : Dict RegisteredGroup
  pub members : List Member
  pub slots : List Slot

-- `list_registered_groups`
unfoldable pub list_registered_groups : Database → List RegisteredGroup
list_registered_groups db =
    sort_rows (row_le (asc (λ g. g.added_at) ∷ str_asc (λ g. g.folder) ∷ [])) (values db.groups)

-- `get_registered_group`
unfoldable pub get_registered_group : Database → String → Option RegisteredGroup
get_registered_group db jid = get db.groups jid

-- `_ensure_main_slot_for_workspace`
unfoldable pub ensure_main_slot_for_workspace : Database → RegisteredGroup → ℕ → Database
ensure_main_slot_for_workspace db group now = record db {
  slots = (ensure_main_slot db.slots group.folder group.created_by now).1;
}

-- A row of the table of groups, written.
abbrev pub save_group : Database → RegisteredGroup → Database
save_group db group = record db { groups = put db.groups group.jid group }

-- What `ensure_registered_group` is called with. The target is given or not (`_UNSET`).
pub record GroupArguments : Type 0 where
  pub jid : String
  pub name : String
  pub folder : String
  pub created_by : Option String
  pub is_home : Option Bool
  pub target_workspace_jid : Option (Option String)

abbrev pub or_given {ℓ} : {A : Type ℓ} → A → Option A → A
or_given old none = old
or_given old (some new) = new

abbrev pub or_else {ℓ} : {A : Type ℓ} → Option A → Option A → Option A
or_else none b = b
or_else (some a) b = some a

abbrev pub is_true : Option Bool → Bool
is_true none = false
is_true (some b) = b

abbrev pub ensured_group : Option RegisteredGroup → GroupArguments → ℕ → RegisteredGroup
ensured_group (some existing) a now = record existing {
  name = a.name;
  folder = a.folder;
  created_by = or_else existing.created_by a.created_by;
  is_home = is_true a.is_home || existing.is_home;
  target_workspace_jid = or_given existing.target_workspace_jid a.target_workspace_jid;
}
ensured_group none a now = record {
  jid = a.jid;
  name = a.name;
  folder = a.folder;
  added_at = now;
  created_by = a.created_by;
  is_home = is_true a.is_home;
  target_workspace_jid = or_given none a.target_workspace_jid;
}

-- A row written under its key, and its workspace with a main slot.
abbrev pub save_with_slot : Database → String → RegisteredGroup → ℕ → Database
save_with_slot db jid group now =
    ensure_main_slot_for_workspace (record db { groups = put db.groups jid group }) group now

-- `ensure_registered_group`
unfoldable pub ensure_registered_group : Database → GroupArguments → ℕ → RegisteredGroup × Database
ensure_registered_group db a now =
    let group : RegisteredGroup = ensured_group (get db.groups a.jid) a now in
    (group, save_with_slot db a.jid group now)

-- `ensure_im_endpoint`
unfoldable pub ensure_im_endpoint :
    Database → String → String → String → ℕ → RegisteredGroup × Database
ensure_im_endpoint db jid name folder now = elim (get db.groups jid) [
  | some existing ↦ (existing, ensure_main_slot_for_workspace db existing now)
  | none ↦
      ensure_registered_group db
        (record {
          jid = jid;
          name = name;
          folder = folder;
          created_by = none;
          is_home = none;
          target_workspace_jid = none;
        })
        now
]

-- `ensure_home_workspace`
unfoldable pub ensure_home_workspace :
    Database → String → String → String → ℕ → RegisteredGroup × Database
ensure_home_workspace db user_id role username now =
    let owner : Bool = str_eq role "owner" in
    ensure_registered_group db
      (record {
        jid = if owner then "web:main" else concat "web:home-" user_id;
        name = if owner then "Main" else concat username " Home";
        folder = if owner then "main" else concat "home-" user_id;
        created_by = some user_id;
        is_home = some true;
        target_workspace_jid = none;
      })
      now

-- `_validate_workspace_folder`
abbrev pub is_workspace_folder : String → Bool
is_workspace_folder folder =
    not (str_eq folder "main" || str_starts_with "home-" folder) && matches_name folder

abbrev pub in_folder : String → RegisteredGroup → Bool
in_folder folder g = str_eq g.folder folder

abbrev pub first_of : List RegisteredGroup → Option RegisteredGroup
first_of [] = none
first_of (g ∷ l) = some g

abbrev pub by_time : RegisteredGroup → RegisteredGroup → Bool
by_time = row_le (asc (λ g. g.added_at) ∷ str_asc (λ g. g.jid) ∷ [])

-- `_get_group_by_folder`
unfoldable pub get_group_by_folder : Database → String → Option RegisteredGroup
get_group_by_folder db folder =
    first_of (sort_rows by_time (keep_if (in_folder folder) (values db.groups)))

abbrev pub with_owner :
    RegisteredGroup → Reply Member × List Member → Database → Reply RegisteredGroup × Database
with_owner workspace (answered m, members) db =
    (answered workspace, record db { members = members })
with_owner workspace (refused e, members) db = (refused e, record db { members = members })

-- `create_workspace`: an exception of `add_member` comes after the group is committed.
unfoldable pub create_workspace :
    Database → String → String → String → ℕ → Reply RegisteredGroup × Database
create_workspace db folder name created_by now =
    if not (is_workspace_folder folder)
    then (refused value_error, db)
    else if is_some (get_group_by_folder db folder)
    then (refused conflict, db)
    else let (workspace, db') =
        ensure_registered_group db
          (record {
            jid = concat "web:" folder;
            name = name;
            folder = folder;
            created_by = some created_by;
            is_home = some false;
            target_workspace_jid = none;
          })
          now in
      with_owner workspace (add_member db'.members folder created_by "owner" (some created_by) now)
        db'

abbrev pub is_web : String → Bool
is_web jid = str_starts_with "web:" jid

-- `rename_workspace`
unfoldable pub rename_workspace :
    Database → RegisteredGroup → String → Reply RegisteredGroup × Database
rename_workspace db group name =
    if group.is_home || not (is_web group.jid)
    then (refused value_error, db)
    else (answered (record group { name = name }), save_group db (record group { name = name }))

abbrev pub web_workspace_of : Database → String → Option RegisteredGroup
web_workspace_of db folder =
    first_of
      (sort_rows by_time (keep_if (λ g. in_folder folder g && is_web g.jid) (values db.groups)))

-- `get_web_workspace_by_folder`
unfoldable pub get_web_workspace_by_folder :
    Database → String → ℕ → Option RegisteredGroup × Database
get_web_workspace_by_folder db folder now = elim (web_workspace_of db folder) [
  | none ↦ (none, db)
  | some workspace ↦ (some workspace, ensure_main_slot_for_workspace db workspace now)
]
