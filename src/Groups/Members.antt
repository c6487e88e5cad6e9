-- ===== src/Groups/Members.antt =====
-- `GroupMemberService` of services/group_member_service.py. The clock is an argument.
pub mod Owners
use text.Mathlib.Text.{◌==◌ as str_eq}
use portex.Common.{
  ℕ, Bool, true, false, not, ◌&&◌, ◌||◌, Option, none, some, List, [], ◌∷◌, String, keep_if,
  if◌then◌else◌,
}
use portex.Sort.{str_asc, row_le, sort_rows}
use portex.Table.{find_row, upsert_row, delete_rows}
use portex.Groups.Slots.{Reply, answered, refused, value_error}

pub record Member : Type 0 where
  pub group_folder : String
  pub user_id : String
  pub role : String
  pub joined_at : ℕ
  pub added_by : Option String

-- `_validate_role`
abbrev pub is_role : String → Bool
is_role role = str_eq role "owner" || str_eq role "admin" || str_eq role "member"

abbrev pub is_member : String → String → Member → Bool
is_member group_folder user_id m = str_eq m.group_folder group_folder && str_eq m.user_id user_id

-- `get_member`
unfoldable pub get_member : List Member → String → String → Option Member
get_member members group_folder user_id = find_row (is_member group_folder user_id) members

abbrev pub role_of : Option Member → Option String
role_of none = none
role_of (some m) = some m.role

-- `get_member_role`
unfoldable pub get_member_role : List Member → String → String → Option String
get_member_role members group_folder user_id = role_of (get_member members group_folder user_id)

abbrev pub is_owner : Member → Bool
is_owner m = str_eq m.role "owner"

-- The guards of `add_member`: an owner stays one, and nobody else becomes one.
abbrev pub changes_owner : Option Member → String → Bool
changes_owner none role = false
changes_owner (some existing) role =
    if str_eq role "owner" then not (is_owner existing) else is_owner existing

abbrev pub joined_member : Option Member → String → String → String → Option String → ℕ → Member
joined_member none group_folder user_id role added_by now = record {
  group_folder = group_folder;
  user_id = user_id;
  role = role;
  joined_at = now;
  added_by = added_by;
}
joined_member (some existing) group_folder user_id role added_by now = record {
  group_folder = group_folder;
  user_id = user_id;
  role = role;
  joined_at = existing.joined_at;
  added_by = existing.added_by;
}

-- `add_member`
unfoldable pub add_member :
    List Member → String → String → String → Option String → ℕ → Reply Member × List Member
add_member members group_folder user_id role added_by now =
    let existing : Option Member = get_member members group_folder user_id in
    let member : Member = joined_member existing group_folder user_id role added_by now in
    if not (is_role role) || changes_owner existing role
    then (refused value_error, members)
    else (answered member, upsert_row (is_member group_folder user_id) member members)

-- `remove_member`
unfoldable pub remove_member : List Member → String → String → Reply Bool × List Member
remove_member members group_folder user_id = elim (get_member members group_folder user_id) [
  | none ↦ (answered false, members)
  | some member ↦
      if is_owner member
      then (refused value_error, members)
      else (answered true, delete_rows (is_member group_folder user_id) members)
]

-- `list_members`
unfoldable pub list_members : List Member → String → List Member
list_members members group_folder =
    sort_rows (row_le (str_asc (λ m. m.user_id) ∷ []))
      (keep_if (λ m. str_eq m.group_folder group_folder) members)
