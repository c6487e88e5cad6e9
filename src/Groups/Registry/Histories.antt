-- ===== src/Groups/Registry/Histories.antt =====
-- Sequences of calls of services/group_registry.py and of the two services beside it.
use text.Mathlib.Text.{◌==◌ as str_eq}
use portex.Common.{
  ℕ, ◌≡◌, refl, ap, ◌∙◌, true, not, ◌||◌, Option, none, some, List, [], ◌∷◌, String, Bool-cases,
  Option-cases, inl, inr,
}
use portex.Dict.{get, is_some}
use portex.Groups.Slots.{Slot, Reply, get_slot, create_slot, matches_name}
use portex.Groups.Slots.{answered, refused}
use portex.Groups.Members.{Member, add_member, remove_member}
use portex.Groups.Bindings.{
  bind_im_endpoint_to_workspace, unbind_im_endpoint_from_workspace, channel_from_jid, targets,
  target_workspace,
}
use portex.Groups.Registry.{
  RegisteredGroup, Database, GroupArguments, ensured_group, save_group, ensure_registered_group,
  ensure_im_endpoint, ensure_home_workspace, create_workspace, with_owner, rename_workspace,
  get_web_workspace_by_folder, get_group_by_folder, is_workspace_folder, web_workspace_of,
  get_registered_group, is_web,
}
use portex.Groups.Registry.MainSlots.{
  has_slot, HasMains, save_with_slot-HasMains, put-HasMains, slots-HasMains, ensure_main-HasMains,
  put_slot-has_slot,
}

pub data RegistryCall : Type 0 where
  im_endpoint : String → String → String → ℕ → RegistryCall
  registered_group : GroupArguments → ℕ → RegistryCall
  home_workspace : String → String → String → ℕ → RegistryCall
  workspace : String → String → String → ℕ → RegistryCall
  rename : String → String → RegistryCall
  web_workspace : String → ℕ → RegistryCall
  bind : RegisteredGroup → String → RegistryCall
  unbind : RegisteredGroup → String → RegistryCall
  slot : String → String → String → Option String → ℕ → RegistryCall
  member : String → String → String → Option String → ℕ → RegistryCall
  no_member : String → String → RegistryCall

abbrev renamed : Database → Option RegisteredGroup → String → Database
renamed db none name = db
renamed db (some group) name = (rename_workspace db group name).1

unfoldable pub perform : RegistryCall → Database → Database
perform (im_endpoint jid name folder now) db = (ensure_im_endpoint db jid name folder now).1
perform (registered_group a now) db = (ensure_registered_group db a now).1
perform (home_workspace user_id role username now) db =
    (ensure_home_workspace db user_id role username now).1
perform (workspace folder name created_by now) db =
    (create_workspace db folder name created_by now).1
perform (rename jid name) db = renamed db (get db.groups jid) name
perform (web_workspace folder now) db = (get_web_workspace_by_folder db folder now).1
perform (bind group im_jid) db = (bind_im_endpoint_to_workspace db group im_jid).1
perform (unbind group im_jid) db = (unbind_im_endpoint_from_workspace db group im_jid).1
perform (slot folder slot_id title created_by now) db = record db {
  slots = (create_slot db.slots folder slot_id title created_by now).1;
}
perform (member folder user_id role added_by now) db = record db {
  members = (add_member db.members folder user_id role added_by now).1;
}
perform (no_member folder user_id) db = record db {
  members = (remove_member db.members folder user_id).1;
}

unfoldable pub perform_all : List RegistryCall → Database → Database
perform_all [] db = db
perform_all (call ∷ calls) db = perform_all calls (perform call db)

ensure_registered_group-HasMains :
    (db : Database) (a : GroupArguments) (now : ℕ)
    → HasMains db
    → HasMains (ensure_registered_group db a now).1
unfolding ensure_registered_group
ensure_registered_group-HasMains db a now v =
    save_with_slot-HasMains db a.jid (ensured_group (get db.groups a.jid) a now) now v

with_owner-HasMains :
    (w : RegisteredGroup) (r : Reply Member × List Member) (db : Database)
    → HasMains db
    → HasMains (with_owner w r db).1
with_owner-HasMains w (answered m, members) db v = record { main_of = v.main_of }
with_owner-HasMains w (refused e, members) db v = record { main_of = v.main_of }

create_slot-keeps :
    (slots : List Slot) (folder slot_id title : String) (created_by : Option String) (now : ℕ)
    (folder' : String)
    → has_slot slots folder' "main" ≡ true
    → has_slot (create_slot slots folder slot_id title created_by now).1 folder' "main" ≡ true
unfolding create_slot
create_slot-keeps slots folder slot_id title created_by now folder' h =
    elim (Bool-cases (str_eq slot_id "main" || not (matches_name slot_id))) [
      | inl e ↦ rw (e) h
      | inr e ↦ elim (Option-cases (get_slot slots folder slot_id)) [
        | inr (x, k) ↦ rw (e, k, create_slot) h
        | inl k ↦ rw (e, k, create_slot) (put_slot-has_slot slots _ folder' "main" h)
      ]
    ]

endpoint-HasMains :
    (db : Database) (jid name folder : String) (now : ℕ)
    → HasMains db
    → HasMains (ensure_im_endpoint db jid name folder now).1
unfolding ensure_im_endpoint
endpoint-HasMains db jid name folder now v = elim (Option-cases (get db.groups jid)) [
  | inl e ↦ rw (e, ensure_im_endpoint) (ensure_registered_group-HasMains db _ now v)
  | inr (g, e) ↦ rw (e, ensure_im_endpoint) (ensure_main-HasMains db g now v)
]

create_workspace-HasMains :
    (db : Database) (folder name created_by : String) (now : ℕ)
    → HasMains db
    → HasMains (create_workspace db folder name created_by now).1
unfolding create_workspace
create_workspace-HasMains db folder name created_by now v =
    elim (Bool-cases (not (is_workspace_folder folder))) [
      | inl e ↦ rw (e, create_workspace) v
      | inr e ↦ elim (Bool-cases (is_some (get_group_by_folder db folder))) [
        | inl k ↦ rw (e, k, create_workspace) v
        | inr k ↦
            rw (e, k, create_workspace)
              (with_owner-HasMains _ _ _ (ensure_registered_group-HasMains db _ now v))
      ]
    ]

-- A row of the table, changed in another part than its folder.
row-HasMains :
    (db : Database) (jid : String) (g g' : RegisteredGroup)
    → get db.groups jid ≡ some g
    → g'.folder ≡ g.folder
    → HasMains db
    → HasMains (save_group db g')
row-HasMains db jid g g' e same v =
    put-HasMains db g'.jid g' (ap (λ f. has_slot db.slots f "main") same ∙ v.main_of jid g e) v

rename-HasMains :
    (db : Database) (jid name : String) (row : Option RegisteredGroup)
    → get db.groups jid ≡ row
    → HasMains db
    → HasMains (renamed db row name)
unfolding rename_workspace
rename-HasMains db jid name none e v = v
rename-HasMains db jid name (some g) e v = elim (Bool-cases (g.is_home || not (is_web g.jid))) [
  | inl k ↦ rw (k, rename_workspace, renamed) v
  | inr k ↦
      rw (k, rename_workspace, renamed) (row-HasMains db jid g (record g { name = name }) e refl v)
]

web_workspace-HasMains :
    (db : Database) (folder : String) (now : ℕ)
    → HasMains db
    → HasMains (get_web_workspace_by_folder db folder now).1
unfolding get_web_workspace_by_folder
web_workspace-HasMains db folder now v = elim (Option-cases (web_workspace_of db folder)) [
  | inl e ↦ rw (e, get_web_workspace_by_folder) v
  | inr (g, e) ↦ rw (e, get_web_workspace_by_folder) (ensure_main-HasMains db g now v)
]

bind-HasMains :
    (db : Database) (group : RegisteredGroup) (jid : String)
    → HasMains db
    → HasMains (bind_im_endpoint_to_workspace db group jid).1
unfolding bind_im_endpoint_to_workspace get_registered_group
bind-HasMains db group jid v = elim (Option-cases (get db.groups jid)) [
  | inl e ↦ rw (e, bind_im_endpoint_to_workspace) v
  | inr (g, e) ↦ elim (Bool-cases (not (is_some (channel_from_jid g.jid)))) [
    | inl c ↦ rw (e, c, bind_im_endpoint_to_workspace) v
    | inr c ↦ elim (Bool-cases (targets g group.jid)) [
      | inl t ↦ rw (e, c, t, bind_im_endpoint_to_workspace) v
      | inr t ↦ elim (Bool-cases (is_some (target_workspace db g.target_workspace_jid))) [
        | inl w ↦ rw (e, c, t, w, bind_im_endpoint_to_workspace) v
        | inr w ↦
            rw (e, c, t, w, bind_im_endpoint_to_workspace)
              (row-HasMains db jid g (record g { target_workspace_jid = some group.jid }) e refl v)
      ]
    ]
  ]
]

unbind-HasMains :
    (db : Database) (group : RegisteredGroup) (jid : String)
    → HasMains db
    → HasMains (unbind_im_endpoint_from_workspace db group jid).1
unfolding unbind_im_endpoint_from_workspace get_registered_group
unbind-HasMains db group jid v = elim (Option-cases (get db.groups jid)) [
  | inl e ↦ rw (e, unbind_im_endpoint_from_workspace) v
  | inr (g, e) ↦
      elim (Bool-cases (not (is_some (channel_from_jid g.jid)) || not (targets g group.jid))) [
        | inl c ↦ rw (e, c, unbind_im_endpoint_from_workspace) v
        | inr c ↦
            rw (e, c, unbind_im_endpoint_from_workspace)
              (row-HasMains db jid g (record g { target_workspace_jid = none }) e refl v)
      ]
]

perform-HasMains : (call : RegistryCall) (db : Database) → HasMains db → HasMains (perform call db)
unfolding perform
perform-HasMains (im_endpoint jid name folder now) db v = endpoint-HasMains db jid name folder now v
perform-HasMains (registered_group a now) db v = ensure_registered_group-HasMains db a now v
perform-HasMains (home_workspace user_id role username now) db v =
    unfold ensure_home_workspace in ensure_registered_group-HasMains db _ now v
perform-HasMains (workspace folder name created_by now) db v =
    create_workspace-HasMains db folder name created_by now v
perform-HasMains (rename jid name) db v = rename-HasMains db jid name (get db.groups jid) refl v
perform-HasMains (web_workspace folder now) db v = web_workspace-HasMains db folder now v
perform-HasMains (bind group im_jid) db v = bind-HasMains db group im_jid v
perform-HasMains (unbind group im_jid) db v = unbind-HasMains db group im_jid v
perform-HasMains (slot folder slot_id title created_by now) db v =
    slots-HasMains db (create_slot db.slots folder slot_id title created_by now).1
      (create_slot-keeps db.slots folder slot_id title created_by now) v
perform-HasMains (member folder user_id role added_by now) db v = record { main_of = v.main_of }
perform-HasMains (no_member folder user_id) db v = record { main_of = v.main_of }

-- From a database where the folder of each group has its main slot, such as an empty one, every sequence
-- of calls of the registry, the members and the slots leads to one where that holds.
pub perform_all-HasMains :
    (calls : List RegistryCall) (db : Database) → HasMains db → HasMains (perform_all calls db)
unfolding perform_all
perform_all-HasMains [] db v = v
perform_all-HasMains (call ∷ calls) db v =
    perform_all-HasMains calls (perform call db) (perform-HasMains call db v)
