-- ===== src/Groups/Slots.antt =====
-- `ConversationSlotService` of services/conversation_slot_service.py. The clock is an argument.
use Prim.Native.Char.{code}
use Prim.Native.String.{[] as end, ◌∷◌ as first_char}
use text.Mathlib.Text.{◌==◌ as str_eq}
use portex.Common.{
  ℕ, Bool, true, false, not, ◌&&◌, ◌||◌, Option, none, some, List, [], ◌∷◌, String, leb, ◌==◌,
  keep_if, if◌then◌else◌,
}
use portex.Sort.{asc, str_asc, row_le, sort_rows}
use portex.Table.{find_row, upsert_row}

pub record Slot : Type 0 where
  pub workspace_folder : String
  pub slot_id : String
  pub title : String
  pub created_by : Option String
  pub created_at : ℕ

-- The exceptions of the three services.
pub data RegistryError : Type 0 where
  value_error conflict lookup_error : RegistryError

pub data Reply {ℓ} (A : Type ℓ) : Type ℓ where
  answered : A → Reply A
  refused : RegistryError → Reply A

-- A character of a folder's or a slot's name, and the pattern `^[a-z0-9][a-z0-9-]*$`.
abbrev pub is_name_char : ℕ → Bool
is_name_char c = leb 0x61 c && leb c 0x7a || leb 0x30 c && leb c 0x39

abbrev pub is_name_rest : String → Bool
is_name_rest end = true
is_name_rest (first_char c s) = (is_name_char (code c) || code c == 0x2d) && is_name_rest s

abbrev pub matches_name : String → Bool
matches_name end = false
matches_name (first_char c s) = is_name_char (code c) && is_name_rest s

abbrev pub is_slot : String → String → Slot → Bool
is_slot workspace_folder slot_id slot =
    str_eq slot.workspace_folder workspace_folder && str_eq slot.slot_id slot_id

-- `get_slot`
unfoldable pub get_slot : List Slot → String → String → Option Slot
get_slot slots workspace_folder slot_id = find_row (is_slot workspace_folder slot_id) slots

-- The row of a slot, written.
abbrev pub put_slot : List Slot → Slot → List Slot
put_slot slots slot = upsert_row (is_slot slot.workspace_folder slot.slot_id) slot slots

-- The creator of a slot that has none, if one is given.
abbrev pub or_created_by : Option String → Option String → Option String
or_created_by (some a) created_by = some a
or_created_by none created_by = created_by

-- `ensure_main_slot`
unfoldable pub ensure_main_slot : List Slot → String → Option String → ℕ → Slot × List Slot
ensure_main_slot slots workspace_folder created_by now =
    elim (get_slot slots workspace_folder "main") [
      | some existing ↦
          let slot : Slot = record existing {
            created_by = or_created_by existing.created_by created_by;
          } in
          (slot, put_slot slots slot)
      | none ↦
          let slot : Slot = record {
            workspace_folder = workspace_folder;
            slot_id = "main";
            title = "Main";
            created_by = created_by;
            created_at = now;
          } in
          (slot, put_slot slots slot)
    ]

-- `create_slot`
unfoldable pub create_slot :
    List Slot → String → String → String → Option String → ℕ → Reply Slot × List Slot
create_slot slots workspace_folder slot_id title created_by now =
    if str_eq slot_id "main" || not (matches_name slot_id)
    then (refused value_error, slots)
    else elim (get_slot slots workspace_folder slot_id) [
      | some existing ↦ (answered existing, slots)
      | none ↦
          let slot : Slot = record {
            workspace_folder = workspace_folder;
            slot_id = slot_id;
            title = title;
            created_by = created_by;
            created_at = now;
          } in
          (answered slot, put_slot slots slot)
    ]

-- `list_slots`: the main slot first.
unfoldable pub list_slots : List Slot → String → List Slot
list_slots slots workspace_folder =
    sort_rows
      (row_le (
        asc (λ slot. if str_eq slot.slot_id "main" then 0 else 1)
        ∷ str_asc (λ slot. slot.slot_id)
        ∷ []))
      (keep_if (λ slot. str_eq slot.workspace_folder workspace_folder) slots)
