-- ===== src/Permissions.antt =====
-- The permissions of roles: domain/permissions.py.
use text.Mathlib.Text.{◌==◌ as str_eq}
use text.Mathlib.TextEquality.{eq_iff}
use portex.Common.{
  ◌≡◌, ◌⊎◌, refl, Bool, true, false, ◌||◌, Option, none, some, List, [], ◌∷◌, String, arith,
  Bool-cases, inl, inr, if◌then◌else◌,
}
use portex.Dict.{Dict, get}
mod Tests

abbrev pub PermissionMapping : Type 0
PermissionMapping = Dict (List String)

abbrev pub permission_templates : Dict PermissionMapping
permission_templates =
    (
      "owner",
      ("users", "read" ∷ "write" ∷ "delete" ∷ "admin" ∷ [])
          ∷ ("groups", "read" ∷ "write" ∷ "delete" ∷ [])
          ∷ ("messages", "read" ∷ "write" ∷ [])
          ∷ ("tasks", "read" ∷ "write" ∷ "execute" ∷ [])
          ∷ ("settings", "read" ∷ "write" ∷ [])
          ∷ [],
    )
    ∷ (
      "admin",
      ("users", "read" ∷ "write" ∷ [])
          ∷ ("groups", "read" ∷ "write" ∷ [])
          ∷ ("messages", "read" ∷ "write" ∷ [])
          ∷ ("tasks", "read" ∷ "write" ∷ "execute" ∷ [])
          ∷ ("settings", "read" ∷ [])
          ∷ [],
    )
    ∷ (
      "member",
      ("groups", "read" ∷ []) ∷ ("messages", "read" ∷ "write" ∷ []) ∷ ("tasks", "read" ∷ []) ∷ [],
    )
    ∷ []

unfoldable pub get_permissions_for_role : String → PermissionMapping
unfolding get
get_permissions_for_role role = elim (get permission_templates role) [
  | none ↦ []
  | some permissions ↦ permissions
]

abbrev pub has_action : List String → String → Bool
has_action [] action = false
has_action (a ∷ actions) action = str_eq a action || has_action actions action

unfoldable pub has_permission : String → String → String → Bool
unfolding get get_permissions_for_role
has_permission role resource action = elim (get (get_permissions_for_role role) resource) [
  | none ↦ false
  | some actions ↦ has_action actions action
]

member_admin :
    (resource action : String)
    → has_permission "member" resource action ≡ true
    → has_permission "admin" resource action ≡ true
unfolding has_permission get_permissions_for_role get
member_admin resource action h = ground arith

admin_owner :
    (resource action : String)
    → has_permission "admin" resource action ≡ true
    → has_permission "owner" resource action ≡ true
unfolding has_permission get_permissions_for_role get
admin_owner resource action h = ground arith

absorbed : (a b : Bool) → (a ≡ true → b ≡ true) → (a || b) ≡ b
absorbed true b h = ground arith
absorbed false b h = refl

-- Whatever a member may do, an admin may do, and whatever an admin may do, an owner may do.
pub has_permission-order :
    (resource action : String)
    → ((has_permission "member" resource action || has_permission "admin" resource action)
        ≡ has_permission "admin" resource action)
      × ((has_permission "admin" resource action || has_permission "owner" resource action)
          ≡ has_permission "owner" resource action)
has_permission-order resource action = (
  absorbed (has_permission "member" resource action) (has_permission "admin" resource action)
      (member_admin resource action),
  absorbed (has_permission "admin" resource action) (has_permission "owner" resource action)
      (admin_owner resource action),
)

-- Only an owner, an admin or a member is ever permitted anything.
pub has_permission-role :
    (role resource action : String)
    → has_permission role resource action ≡ true
    → ("owner" ≡ role) ⊎ (("admin" ≡ role) ⊎ ("member" ≡ role))
unfolding has_permission get_permissions_for_role get
has_permission-role role resource action h = elim (Bool-cases (str_eq "owner" role)) [
  | inl e ↦ inl (ground (arith, eq_iff "owner" role))
  | inr not_owner ↦ elim (Bool-cases (str_eq "admin" role)) [
    | inl e ↦ inr (inl (ground (arith, eq_iff "admin" role)))
    | inr not_admin ↦ elim (Bool-cases (str_eq "member" role)) [
      | inl e ↦ inr (inr (ground (arith, eq_iff "member" role)))
      | inr not_member ↦ absurd (ground arith)
    ]
  ]
]
