-- ===== src/Groups/Tests.antt =====
-- The workspaces of services/group_registry.py at a concrete database.
use portex.Common.{◌≡◌, refl, true, false, none, some, [], ◌∷◌}
use portex.Dict.{get, put, values}
use portex.Table.{find_row, upsert_row}
use portex.Sort.{sort_rows}
use portex.Text.Strings.{str_starts_with}
use portex.Groups.Slots.{answered, refused, conflict, value_error, get_slot, ensure_main_slot}
use portex.Groups.Members.{is_owner, Member, get_member, add_member}
use portex.Groups.Members.Owners.{add, remove, perform_all as perform_members, perform_all-owner}
use portex.Groups.Registry.{
  RegisteredGroup, Database, get_registered_group, create_workspace, get_group_by_folder,
  ensure_registered_group, ensure_main_slot_for_workspace,
}
use portex.Groups.Registry.MainSlots.{HasMains}
use portex.Groups.Registry.Histories.{im_endpoint, workspace, perform_all, perform_all-HasMains}
use portex.Groups.Bindings.{
  channel_from_jid, target_workspace, resolve_im_workspace, bind_im_endpoint_to_workspace,
  user_can_access_group,
}
use portex.Groups.Bindings.Access.{may_use, user_can_access_group_lem}
use portex.Groups.Bindings.Targets.{bind_lem}

abbrev owner : Member
owner = record {
  group_folder = "docs";
  user_id = "alice";
  role = "owner";
  joined_at = 3;
  added_by = some "alice";
}

found_owner : get_member (owner ∷ []) "docs" "alice" ≡ some owner
unfolding get_member find_row
found_owner = refl

perform_all-owner_example :
    (m : Member) × (get_member
        (perform_members
          (add "docs" "alice" "member" none 8
            ∷ remove "docs" "alice"
            ∷ add "docs" "bob" "admin" none 9
            ∷ [])
          (owner ∷ []))
        "docs"
        "alice"
      ≡ some m)
    × (is_owner m ≡ true)
    × (m.joined_at ≡ 3)
perform_all-owner_example =
    perform_all-owner
      (add "docs" "alice" "member" none 8
        ∷ remove "docs" "alice"
        ∷ add "docs" "bob" "admin" none 9
        ∷ [])
      (owner ∷ []) "docs" "alice" owner found_owner refl

abbrev empty : Database
empty = record { groups = []; members = []; slots = [] }

empty-HasMains : HasMains empty
unfolding get
empty-HasMains = record { main_of = λ jid g h. cc }

perform_all-HasMains_example : HasMains (
    perform_all
      (workspace "docs" "Docs" "alice" 5 ∷ im_endpoint "telegram:7" "Chat" "chat-7" 6 ∷ [])
      empty)
perform_all-HasMains_example =
    perform_all-HasMains
      (workspace "docs" "Docs" "alice" 5 ∷ im_endpoint "telegram:7" "Chat" "chat-7" 6 ∷ []) empty
      empty-HasMains

abbrev docs : RegisteredGroup
docs = record {
  jid = "web:docs";
  name = "Docs";
  folder = "docs";
  added_at = 5;
  created_by = some "alice";
  is_home = false;
  target_workspace_jid = none;
}

abbrev chat : RegisteredGroup
chat = record {
  jid = "telegram:7";
  name = "Chat";
  folder = "chat-7";
  added_at = 6;
  created_by = none;
  is_home = false;
  target_workspace_jid = none;
}

abbrev news : RegisteredGroup
news = record docs { jid = "web:news"; folder = "news" }

abbrev db : Database
db = record {
  groups = ("web:docs", docs) ∷ ("telegram:7", chat) ∷ [];
  members = owner ∷ [];
  slots = [];
}

abbrev bound_chat : RegisteredGroup
bound_chat = record chat { target_workspace_jid = some "web:docs" }

abbrev bound_db : Database
bound_db = record db { groups = ("web:docs", docs) ∷ ("telegram:7", bound_chat) ∷ [] }

chat_row : get_registered_group db "telegram:7" ≡ some chat
unfolding get_registered_group get
chat_row = refl

docs_row : get_registered_group db "web:docs" ≡ some docs
unfolding get_registered_group get
docs_row = refl

bound_row : get_registered_group bound_db "telegram:7" ≡ some bound_chat
unfolding get_registered_group get
bound_row = refl

docs_bound : bind_im_endpoint_to_workspace db docs "telegram:7" ≡ (answered bound_chat, bound_db)
unfolding bind_im_endpoint_to_workspace get_registered_group get put channel_from_jid
    str_starts_with target_workspace
docs_bound = refl

web_docs : str_starts_with "web:" "web:docs" ≡ true
unfolding str_starts_with
web_docs = refl

bind_lem_example :
    (resolve_im_workspace bound_db "telegram:7" ≡ some docs)
    × (bind_im_endpoint_to_workspace bound_db news "telegram:7" ≡ (refused conflict, bound_db))
bind_lem_example =
    bind_lem db "telegram:7" docs chat news chat_row refl docs_row web_docs bound_chat bound_db
      docs_bound refl

user_can_access_group_lem_example :
    user_can_access_group 2 bound_db "bob" none bound_chat
    ≡ some (may_use bound_db "bob" none bound_chat)
user_can_access_group_lem_example =
    user_can_access_group_lem 0 bound_db "bob" none bound_chat bound_row

-- The creator is a member already: the group is there, and the call fails.
abbrev with_member : Database
with_member = record empty { members = record owner { role = "member" } ∷ [] }

half_created :
    ((create_workspace with_member "docs" "Docs" "alice" 5).0 ≡ refused value_error)
    × (get_registered_group (create_workspace with_member "docs" "Docs" "alice" 5).1 "web:docs"
        ≡ some docs)
unfolding create_workspace get_group_by_folder sort_rows ensure_registered_group
    ensure_main_slot_for_workspace ensure_main_slot get_slot find_row upsert_row add_member
    get_member get_registered_group get put str_starts_with values
half_created = (refl, refl)
