-- ===== src/Groups/Registry/MainSlots.antt =====
-- Every workspace and chat in the table of services/group_registry.py has a main slot.
use text.Mathlib.Text.{◌==◌ as str_eq}
use text.Mathlib.TextEquality.{eq_iff}
use mathlib.Core.Path.{subst}
use portex.Common.{
  ℕ, ◌≡◌, ap, Bool, true, Option, some, List, String, Bool-cases, Option-cases, inl, inr, arith,
}
use portex.Dict.{get, put, is_some, get-put}
use portex.Table.{has_row-upsert_row, find_row-upsert_row}
use portex.Groups.Slots.{Slot, is_slot, get_slot, put_slot, ensure_main_slot}
use portex.Groups.Registry.{
  RegisteredGroup, Database, ensure_main_slot_for_workspace, save_with_slot,
}

abbrev pub has_slot : List Slot → String → String → Bool
has_slot slots folder slot_id = is_some (get_slot slots folder slot_id)

pub put_slot-has_slot :
    (slots : List Slot) (slot : Slot) (folder slot_id : String)
    → has_slot slots folder slot_id ≡ true
    → has_slot (put_slot slots slot) folder slot_id ≡ true
unfolding get_slot
put_slot-has_slot slots slot folder slot_id h =
    has_row-upsert_row (is_slot slot.workspace_folder slot.slot_id) (is_slot folder slot_id) slot
      slots
      (λ a k.
        ground (
          arith,
          k,
          eq_iff a.workspace_folder slot.workspace_folder,
          eq_iff a.slot_id slot.slot_id,
        ))
      h

put_slot-itself :
    (slots : List Slot) (slot : Slot)
    → has_slot (put_slot slots slot) slot.workspace_folder slot.slot_id ≡ true
unfolding get_slot
put_slot-itself slots slot = ap is_some (
    find_row-upsert_row (is_slot slot.workspace_folder slot.slot_id) slot slots (
      ground (
        arith,
        eq_iff slot.workspace_folder slot.workspace_folder,
        eq_iff slot.slot_id slot.slot_id,
      )))

ensure_main_slot-keeps :
    (slots : List Slot) (folder : String) (created_by : Option String) (now : ℕ)
    (folder' slot_id : String)
    → has_slot slots folder' slot_id ≡ true
    → has_slot (ensure_main_slot slots folder created_by now).1 folder' slot_id ≡ true
unfolding ensure_main_slot
ensure_main_slot-keeps slots folder created_by now folder' slot_id h =
    elim (Option-cases (get_slot slots folder "main")) [
      | inl e ↦ rw (e, ensure_main_slot) (put_slot-has_slot slots _ folder' slot_id h)
      | inr (x, e) ↦ rw (e, ensure_main_slot) (put_slot-has_slot slots _ folder' slot_id h)
    ]

ensure_main_slot-main :
    (slots : List Slot) (folder : String) (created_by : Option String) (now : ℕ)
    → has_slot (ensure_main_slot slots folder created_by now).1 folder "main" ≡ true
unfolding ensure_main_slot
ensure_main_slot-main slots folder created_by now =
    elim (Option-cases (get_slot slots folder "main")) [
      | inl e ↦ rw (e, ensure_main_slot) (put_slot-itself slots _)
      | inr (x, e) ↦
          rw (e, ensure_main_slot) (put_slot-has_slot slots _ folder "main" (ap is_some e))
    ]

-- Each group's folder has its slot.
pub record HasMains (db : Database) : Type 0 where
  pub main_of :
      (jid : String) (g : RegisteredGroup)
      → get db.groups jid ≡ some g
      → has_slot db.slots g.folder "main" ≡ true

pub slots-HasMains :
    (db : Database) (slots : List Slot)
    → ((folder : String)
        → has_slot db.slots folder "main" ≡ true
        → has_slot slots folder "main" ≡ true)
    → HasMains db
    → HasMains (record db { slots = slots })
slots-HasMains db slots keeps v = record { main_of = λ jid g h. keeps g.folder (v.main_of jid g h) }

pub ensure_main-HasMains :
    (db : Database) (group : RegisteredGroup) (now : ℕ)
    → HasMains db
    → HasMains (ensure_main_slot_for_workspace db group now)
unfolding ensure_main_slot_for_workspace
ensure_main-HasMains db group now v =
    slots-HasMains db (ensure_main_slot db.slots group.folder group.created_by now).1
      (λ folder h.
        ensure_main_slot-keeps db.slots group.folder group.created_by now folder "main" h)
      v

-- A row written whose folder has its slot.
pub put-HasMains :
    (db : Database) (jid : String) (group : RegisteredGroup)
    → has_slot db.slots group.folder "main" ≡ true
    → HasMains db
    → HasMains (record db { groups = put db.groups jid group })
put-HasMains db jid group here v = record {
  main_of = λ other g h. elim (Bool-cases (str_eq jid other)) [
    | inl e ↦
        let same : group ≡ g = ground (arith, h, e, get-put db.groups jid other group) in
        subst (λ x. has_slot db.slots x.folder "main" ≡ true) same here
    | inr e ↦ v.main_of other g (ground (arith, h, e, get-put db.groups jid other group))
  ];
}

pub save_with_slot-HasMains :
    (db : Database) (jid : String) (group : RegisteredGroup) (now : ℕ)
    → HasMains db
    → HasMains (save_with_slot db jid group now)
unfolding ensure_main_slot_for_workspace
save_with_slot-HasMains db jid group now v =
    put-HasMains (ensure_main_slot_for_workspace db group now) jid group
      (ensure_main_slot-main db.slots group.folder group.created_by now)
      (ensure_main-HasMains db group now v)
