-- ===== src/Groups/Bindings/Access.antt =====
-- Who may use a workspace, or a chat, by `user_can_access_group` of services/group_registry.py.
use text.Mathlib.Text.{◌==◌ as str_eq}
use text.Mathlib.TextEquality.{eq_iff}
use mathlib.Core.Bool.{true≢false}
use portex.Common.{
  ℕ, suc, ◌≡◌, refl, ap, ◌∙◌, sym, Bool, true, false, ◌&&◌, ◌||◌, Option, none, some, String,
  if◌then◌else◌, Bool-cases, inl, inr, arith,
}
use portex.Dict.{is_some}
use portex.Groups.Members.{get_member}
use portex.Groups.Registry.{RegisteredGroup, Database, get_registered_group, is_web}
use portex.Groups.Bindings.{
  non_empty, if_web, target_workspace, resolve_im_workspace, is_creator, is_owner_role,
  user_can_access_group, web_group, or_workspace,
}

-- A home is for its creator, the main one also for every owner; another workspace is for its creator
-- and its members.
abbrev pub may_use_workspace : Database → String → Option String → RegisteredGroup → Bool
may_use_workspace db user_id user_role group =
    if group.is_home
    then (str_eq group.jid "web:main" && str_eq group.folder "main" && is_owner_role user_role
        || is_creator group user_id)
    else (is_creator group user_id || is_some (get_member db.members group.folder user_id))

abbrev pub workspace_or_creator :
    Database → String → Option String → RegisteredGroup → Option RegisteredGroup → Bool
workspace_or_creator db user_id user_role group none = is_creator group user_id
workspace_or_creator db user_id user_role group (some workspace) =
    may_use_workspace db user_id user_role workspace

-- A chat is for those who may use the workspace that it is bound to, or else for its creator.
abbrev pub may_use : Database → String → Option String → RegisteredGroup → Bool
may_use db user_id user_role group =
    if group.is_home || is_web group.jid
    then may_use_workspace db user_id user_role group
    else workspace_or_creator db user_id user_role group
        (target_workspace db group.target_workspace_jid)

abbrev or_group : Option RegisteredGroup → RegisteredGroup → RegisteredGroup
or_group none group = group
or_group (some w) group = w

str_eq_refl : (s : String) → str_eq s s ≡ true
str_eq_refl s = (eq_iff s s).1 refl

if_web-is_web :
    (o : Option RegisteredGroup) (w : RegisteredGroup) → if_web o ≡ some w → is_web w.jid ≡ true
if_web-is_web none w h = cc
if_web-is_web (some g) w h = ground (arith, h)

web_group-is_web :
    (db : Database) (jid : Option String) (w : RegisteredGroup)
    → web_group db jid ≡ some w
    → is_web w.jid ≡ true
web_group-is_web db none w h = cc
web_group-is_web db (some jid) w h = if_web-is_web (get_registered_group db jid) w h

-- A web workspace, or a home, is decided at once.
access_at_once :
    (n : ℕ) (db : Database) (user_id : String) (user_role : Option String) (group : RegisteredGroup)
    → (group.is_home || is_web group.jid) ≡ true
    → user_can_access_group (suc n) db user_id user_role group
      ≡ some (may_use_workspace db user_id user_role group)
unfolding user_can_access_group
access_at_once n db user_id user_role group h = elim (Bool-cases group.is_home) [
  | inl e ↦ rw (e) refl
  | inr e ↦ rw (e, (the_web e)) refl
]
  where
    the_web : group.is_home ≡ false → is_web group.jid ≡ true
    the_web e = ground (arith, h, e)

resolve_is :
    (db : Database) (group : RegisteredGroup) (target : Option RegisteredGroup)
    → get_registered_group db group.jid ≡ some group
    → target_workspace db group.target_workspace_jid ≡ target
    → resolve_im_workspace db group.jid ≡ some (or_group target group)
unfolding resolve_im_workspace
resolve_is db group none row e = rw (row, e, resolve_im_workspace) refl
resolve_is db group (some w) row e = rw (row, e, resolve_im_workspace) refl

other_jid :
    (w group : RegisteredGroup)
    → is_web w.jid ≡ true
    → is_web group.jid ≡ false
    → str_eq w.jid group.jid ≡ false
other_jid w group h k = elim (Bool-cases (str_eq w.jid group.jid)) [
  | inr e ↦ e
  | inl e ↦ absurd (true≢false (sym h ∙ ap is_web ((eq_iff w.jid group.jid).0 e) ∙ k))
]

-- A chat, by the workspace that it is bound to.
module _ (n : ℕ) (db : Database) (user_id : String) (user_role : Option String)
    (group : RegisteredGroup) (row : get_registered_group db group.jid ≡ some group)
    (chat : is_web group.jid ≡ false) where
  chat_access :
      (present : Option String) (target : Option RegisteredGroup)
      → non_empty group.target_workspace_jid ≡ present
      → web_group db present ≡ target
      → target_workspace db group.target_workspace_jid ≡ target
      → or_workspace group.jid
          (some (is_creator group user_id))
          (user_can_access_group (suc n) db user_id user_role)
          (non_empty group.target_workspace_jid)
          (resolve_im_workspace db group.jid)
        ≡ some (workspace_or_creator db user_id user_role group target)
  chat_access none none k e t = rw (k) refl
  chat_access none (some w) k e t = cc
  chat_access (some jid) none k e t =
      rw (k, resolve_is db group none row t, str_eq_refl group.jid) refl
  chat_access (some jid) (some w) k e t =
      let web : is_web w.jid ≡ true = web_group-is_web db (some jid) w e in
      rw (k, resolve_is db group (some w) row t, other_jid w group web chat)
        (access_at_once n db user_id user_role w (ground (arith, web)))

-- The check ends after at most one call of itself, and answers as `may_use` says, given that the group
-- is the row of its id.
pub user_can_access_group_lem :
    (n : ℕ) (db : Database) (user_id : String) (user_role : Option String) (group : RegisteredGroup)
    → get_registered_group db group.jid ≡ some group
    → user_can_access_group (suc (suc n)) db user_id user_role group
      ≡ some (may_use db user_id user_role group)
unfolding user_can_access_group target_workspace
user_can_access_group_lem n db user_id user_role group row =
    elim (Bool-cases (group.is_home || is_web group.jid)) [
      | inl e ↦ access_at_once (suc n) db user_id user_role group e ∙ rw (e) refl
      | inr e ↦
          let home : group.is_home ≡ false = ground (arith, e) in
          let chat : is_web group.jid ≡ false = ground (arith, e) in
          let present = non_empty group.target_workspace_jid in
          rw (home, chat)
            (chat_access n db user_id user_role group row chat present (web_group db present) refl
              refl refl)
    ]
