-- ===== src/Groups/Bindings/Targets.antt =====
-- What `bind_im_endpoint_to_workspace` of services/group_registry.py leaves: a chat has one workspace,
-- until it is unbound.
use Prim.Native.String.{[] as end, ◌∷◌ as first_char}
use text.Mathlib.Text.{◌==◌ as str_eq}
use text.Mathlib.TextEquality.{eq_iff}
use mathlib.Core.Bool.{true≢false}
use mathlib.Core.Path.{subst}
use portex.Common.{
  ◌≡◌, refl, ap, ◌∙◌, sym, true, false, Option, none, some, String, if◌then◌else◌, Bool-cases, inl,
  inr, arith,
}
use portex.Dict.{get, is_some, get-put}
use portex.Text.Strings.{str_starts_with, str_empty}
use portex.Groups.Slots.{answered, refused, conflict}
use portex.Groups.Registry.{RegisteredGroup, Database, get_registered_group, save_group, is_web}
use portex.Groups.Bindings.{
  channel_from_jid, target_workspace, resolve_im_workspace, targets, bind_im_endpoint_to_workspace,
}

-- A chat in the table, whose target is a web workspace in the table.
record IsBound (db : Database) (im_jid : String) (group : RegisteredGroup) : Type 0 where
  endpoint : RegisteredGroup
  row : get_registered_group db im_jid ≡ some endpoint
  is_chat : is_some (channel_from_jid endpoint.jid) ≡ true
  target_is : endpoint.target_workspace_jid ≡ some group.jid
  workspace : get_registered_group db group.jid ≡ some group
  web : is_web group.jid ≡ true

web_not_empty : (jid : String) → is_web jid ≡ true → str_empty jid ≡ false
unfolding str_starts_with
web_not_empty end h = absurd (true≢false (sym h))
web_not_empty (first_char c jid) h = refl

target_of_bound :
    (db : Database) (im_jid : String) (group : RegisteredGroup) (b : IsBound db im_jid group)
    → target_workspace db b.endpoint.target_workspace_jid ≡ some group
unfolding target_workspace
target_of_bound db im_jid group b =
    rw (b.target_is, web_not_empty group.jid b.web, b.workspace, b.web) refl

resolve_bound :
    (db : Database) (im_jid : String) (group : RegisteredGroup)
    → IsBound db im_jid group
    → resolve_im_workspace db im_jid ≡ some group
unfolding resolve_im_workspace
resolve_bound db im_jid group b =
    rw (b.row, target_of_bound db im_jid group b, resolve_im_workspace) refl

refuse_bound :
    (db : Database) (im_jid : String) (group other : RegisteredGroup)
    → IsBound db im_jid group
    → str_eq group.jid other.jid ≡ false
    → bind_im_endpoint_to_workspace db other im_jid ≡ (refused conflict, db)
unfolding bind_im_endpoint_to_workspace
refuse_bound db im_jid group other b h =
    let apart : targets b.endpoint other.jid ≡ false = rw (b.target_is, targets) h in
    rw (b.row, b.is_chat, target_of_bound db im_jid group b, bind_im_endpoint_to_workspace)
      (rw (apart) refl)

-- The first characters tell web workspaces from chats.
no_web_chat : (jid : String) → is_web jid ≡ true → is_some (channel_from_jid jid) ≡ false
unfolding channel_from_jid str_starts_with
no_web_chat end h = refl
no_web_chat (first_char c jid) h = ground (arith, h)

-- The jid of a chat is not that of a web workspace.
chat_apart :
    (im_jid jid : String)
    → is_some (channel_from_jid im_jid) ≡ true
    → is_web jid ≡ true
    → str_eq im_jid jid ≡ false
chat_apart im_jid jid h k = elim (Bool-cases (str_eq im_jid jid)) [
  | inr e ↦ e
  | inl e ↦
      let same : is_some (channel_from_jid jid) ≡ true =
        ap (λ i. is_some (channel_from_jid i)) (sym ((eq_iff im_jid jid).0 e)) ∙ h in
      absurd (true≢false (sym same ∙ no_web_chat jid k))
]

targets-some :
    (target : Option String) (jid : String)
    → (elim target [ none ↦ false | some t ↦ str_eq t jid ]) ≡ true
    → target ≡ some jid
targets-some none jid h = absurd (true≢false (sym h))
targets-some (some t) jid h = ap some ((eq_iff t jid).0 h)

abbrev bound_to : RegisteredGroup → RegisteredGroup → RegisteredGroup
bound_to endpoint group = record endpoint { target_workspace_jid = some group.jid }

-- The chat's row, written with its new target.
saved-IsBound :
    (db : Database) (im_jid : String) (group endpoint : RegisteredGroup)
    → endpoint.jid ≡ im_jid
    → get_registered_group db group.jid ≡ some group
    → is_web group.jid ≡ true
    → is_some (channel_from_jid endpoint.jid) ≡ true
    → IsBound (save_group db (bound_to endpoint group)) im_jid group
unfolding get_registered_group
saved-IsBound db im_jid group endpoint key workspace web chat = record {
  endpoint = bound_to endpoint group;
  row =
      get-put db.groups endpoint.jid im_jid (bound_to endpoint group)
      ∙ ap (λ b. if b then some (bound_to endpoint group) else get db.groups im_jid)
          ((eq_iff endpoint.jid im_jid).1 key);
  is_chat = chat;
  target_is = refl;
  workspace =
      get-put db.groups endpoint.jid group.jid (bound_to endpoint group)
      ∙ ap (λ b. if b then some (bound_to endpoint group) else get db.groups group.jid)
          (chat_apart endpoint.jid group.jid chat web)
      ∙ workspace;
  web = web;
}

bind-IsBound :
    (db : Database) (im_jid : String) (group endpoint : RegisteredGroup)
    → get_registered_group db im_jid ≡ some endpoint
    → endpoint.jid ≡ im_jid
    → get_registered_group db group.jid ≡ some group
    → is_web group.jid ≡ true
    → (reply : RegisteredGroup) (after : Database)
    → bind_im_endpoint_to_workspace db group im_jid ≡ (answered reply, after)
    → IsBound after im_jid group
unfolding bind_im_endpoint_to_workspace
bind-IsBound db im_jid group endpoint row key workspace web reply after h =
    elim (Bool-cases (is_some (channel_from_jid endpoint.jid))) [
      | inr c ↦ absurd (ground (arith, h, row, c))
      | inl c ↦ elim (Bool-cases (targets endpoint group.jid)) [
        | inl t ↦
            let same : db ≡ after = ground (arith, h, row, c, t) in
            subst (λ d. IsBound d im_jid group) same
              (record {
                endpoint = endpoint;
                row = row;
                is_chat = c;
                target_is = targets-some endpoint.target_workspace_jid group.jid t;
                workspace = workspace;
                web = web;
              })
        | inr t ↦
            let written : save_group db (bound_to endpoint group) ≡ after =
              ground (arith, h, row, c, t) in
            subst (λ d. IsBound d im_jid group) written
              (saved-IsBound db im_jid group endpoint key workspace web c)
      ]
    ]

-- After a chat, filed under its jid, is bound to a web workspace in the table, with whatever target it
-- had, it resolves to that workspace, and a bind to any other one is refused as a conflict and changes
-- nothing.
pub bind_lem :
    (db : Database) (im_jid : String) (group endpoint other : RegisteredGroup)
    → get_registered_group db im_jid ≡ some endpoint
    → endpoint.jid ≡ im_jid
    → get_registered_group db group.jid ≡ some group
    → is_web group.jid ≡ true
    → (reply : RegisteredGroup) (after : Database)
    → bind_im_endpoint_to_workspace db group im_jid ≡ (answered reply, after)
    → str_eq group.jid other.jid ≡ false
    → (resolve_im_workspace after im_jid ≡ some group)
      × (bind_im_endpoint_to_workspace after other im_jid ≡ (refused conflict, after))
bind_lem db im_jid group endpoint other row key workspace web reply after h apart =
    let b = bind-IsBound db im_jid group endpoint row key workspace web reply after h in
    (resolve_bound after im_jid group b, refuse_bound after im_jid group other b apart)
