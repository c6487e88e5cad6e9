-- ===== src/Groups/Members/Owners.antt =====
-- The owners of a workspace in services/group_member_service.py stay its owners.
use text.Mathlib.Text.{◌==◌ as str_eq}
use text.Mathlib.TextEquality.{eq_iff}
use mathlib.Core.Path.{subst}
use portex.Common.{
  ℕ, ◌≡◌, refl, ap, ◌∙◌, sym, Bool, true, false, not, ◌&&◌, ◌||◌, Option, none, some, List, [], ◌∷◌,
  String, ◌==◌, if◌then◌else◌, Bool-cases, Option-cases, inl, inr, arith,
}
use portex.Table.{
  upsert_row, delete_rows, find_row-upsert_row, find_row-upsert_other, find_row-delete_rows,
  find_row-delete_other,
}
use portex.Groups.Members.{
  Member, is_role, is_member, get_member, is_owner, changes_owner, joined_member, add_member,
  remove_member,
}

pub data MemberCall : Type 0 where
  add : String → String → String → Option String → ℕ → MemberCall
  remove : String → String → MemberCall

unfoldable pub perform : MemberCall → List Member → List Member
perform (add folder user role added_by now) members =
    (add_member members folder user role added_by now).1
perform (remove folder user) members = (remove_member members folder user).1

unfoldable pub perform_all : List MemberCall → List Member → List Member
perform_all [] members = members
perform_all (call ∷ calls) members = perform_all calls (perform call members)

abbrev same_key : String → String → String → String → Bool
same_key folder user folder' user' = str_eq folder folder' && str_eq user user'

keys_apart :
    (folder user folder' user' : String)
    → same_key folder user folder' user' ≡ false
    → (m : Member) → is_member folder' user' m ≡ true
    → is_member folder user m ≡ false
keys_apart folder user folder' user' h m k = ground (
  arith,
  h,
  k,
  eq_iff m.group_folder folder',
  eq_iff m.user_id user',
  eq_iff m.group_folder folder,
  eq_iff m.user_id user,
  eq_iff folder folder',
  eq_iff user user',
)

joined_member-is_member :
    (existing : Option Member) (folder user role : String) (added_by : Option String) (now : ℕ)
    (folder' user' : String)
    → is_member folder' user' (joined_member existing folder user role added_by now)
      ≡ same_key folder user folder' user'
joined_member-is_member none folder user role added_by now folder' user' = refl
joined_member-is_member (some m) folder user role added_by now folder' user' = refl

-- What one call may do to the row of a user in a workspace: a new one has a valid role, an owner
-- stays with the time and the inviter of the row, and nobody else becomes one.
abbrev pub is_allowed : Option Member → Option Member → Bool
is_allowed none none = true
is_allowed none (some m) = is_role m.role
is_allowed (some a) none = not (is_owner a)
is_allowed (some a) (some b) =
    if is_owner a then is_owner b && a.joined_at == b.joined_at else not (is_owner b)

is_allowed_refl : (m : Option Member) → is_allowed m m ≡ true
is_allowed_refl none = refl
is_allowed_refl (some m) = ground arith

-- The row that `add_member` writes, if it does.
joined_is_allowed :
    (existing : Option Member) (folder user role : String) (added_by : Option String) (now : ℕ)
    → (not (is_role role) || changes_owner existing role) ≡ false
    → is_allowed existing (some (joined_member existing folder user role added_by now)) ≡ true
joined_is_allowed none folder user role added_by now h = ground (arith, h)
joined_is_allowed (some m) folder user role added_by now h = ground (arith, h)

at_key :
    (P : String → String → Type 0) (folder user folder' user' : String)
    → same_key folder user folder' user' ≡ true
    → P folder user
    → P folder' user'
at_key P folder user folder' user' h here =
    subst (λ f. P f user') ((eq_iff folder folder').0 (ground (arith, h)))
      (subst (λ u. P folder u) ((eq_iff user user').0 (ground (arith, h))) here)

-- A call on one row, from what it does to that row and that the others are found as before.
changed_row :
    (folder user : String) (members after : List Member)
    → is_allowed (get_member members folder user) (get_member after folder user) ≡ true
    → ((folder' user' : String)
        → same_key folder user folder' user' ≡ false
        → get_member after folder' user' ≡ get_member members folder' user')
    → (folder' user' : String)
    → is_allowed (get_member members folder' user') (get_member after folder' user') ≡ true
changed_row folder user members after here others folder' user' =
    elim (Bool-cases (same_key folder user folder' user')) [
      | inl k ↦
          at_key (λ f u. is_allowed (get_member members f u) (get_member after f u) ≡ true) folder
            user folder' user' k here
      | inr k ↦
          ap (is_allowed (get_member members folder' user')) (others folder' user' k)
          ∙ is_allowed_refl (get_member members folder' user')
    ]

add-is_allowed :
    (members : List Member) (folder user role : String) (added_by : Option String) (now : ℕ)
    (folder' user' : String)
    → is_allowed
        (get_member members folder' user')
        (get_member (add_member members folder user role added_by now).1 folder' user')
      ≡ true
unfolding add_member
add-is_allowed members folder user role added_by now folder' user' =
    let existing = get_member members folder user in
    let member = joined_member existing folder user role added_by now in
    let after = upsert_row (is_member folder user) member members in
    elim (Bool-cases (not (is_role role) || changes_owner existing role)) [
      | inl e ↦ rw (e, add_member) (is_allowed_refl (get_member members folder' user'))
      | inr e ↦
          let written : get_member after folder user ≡ some member =
            unfold get_member in
            find_row-upsert_row (is_member folder user) member members (
              joined_member-is_member existing folder user role added_by now folder user
              ∙ ground (arith, eq_iff folder folder, eq_iff user user)) in
          rw (e, add_member)
            (changed_row folder user members after
              (ap (is_allowed existing) written
                ∙ joined_is_allowed existing folder user role added_by now e)
              (λ f u k.
                unfold get_member in
                find_row-upsert_other (is_member folder user) (is_member f u)
                  (keys_apart folder user f u k) member members
                  (joined_member-is_member existing folder user role added_by now f u ∙ k))
              folder' user')
    ]

remove-is_allowed :
    (members : List Member) (folder user folder' user' : String)
    → is_allowed
        (get_member members folder' user')
        (get_member (remove_member members folder user).1 folder' user')
      ≡ true
unfolding remove_member
remove-is_allowed members folder user folder' user' =
    let after = delete_rows (is_member folder user) members in
    elim (Option-cases (get_member members folder user)) [
      | inl e ↦ rw (e, remove_member) (is_allowed_refl (get_member members folder' user'))
      | inr (m, e) ↦ elim (Bool-cases (is_owner m)) [
        | inl o ↦ rw (e, o, remove_member) (is_allowed_refl (get_member members folder' user'))
        | inr o ↦
            let gone : get_member after folder user ≡ none =
              unfold get_member in find_row-delete_rows (is_member folder user) members in
            rw (e, o, remove_member)
              (changed_row folder user members after
                (ap (λ x. is_allowed x (get_member after folder user)) e
                  ∙ ap (is_allowed (some m)) gone
                  ∙ ground (arith, o))
                (λ f u k.
                  unfold get_member in
                  find_row-delete_other (is_member folder user) (is_member f u)
                    (keys_apart folder user f u k) members)
                folder' user')
      ]
    ]

-- Every call of `add_member` or `remove_member` changes the row of each user in each workspace only so:
-- a new row has one of the three roles; an owner's row stays an owner's, with its time of joining;
-- any other row is removed or stays that of somebody who is no owner.
pub perform-is_allowed :
    (call : MemberCall) (members : List Member) (folder user : String)
    → is_allowed (get_member members folder user) (get_member (perform call members) folder user)
      ≡ true
unfolding perform
perform-is_allowed (add folder user role added_by now) members folder' user' =
    add-is_allowed members folder user role added_by now folder' user'
perform-is_allowed (remove folder user) members folder' user' =
    remove-is_allowed members folder user folder' user'

owner_next :
    (m : Member) (after : Option Member)
    → is_owner m ≡ true
    → is_allowed (some m) after ≡ true
    → (m' : Member) × (after ≡ some m') × (is_owner m' ≡ true) × (m'.joined_at ≡ m.joined_at)
owner_next m none o h = absurd (ground (arith, o, h))
owner_next m (some m') o h = (m', refl, ground (arith, o, h), ground (arith, o, h))

-- An owner of a workspace is an owner of it after every sequence of calls, with the time of joining
-- unchanged.
pub perform_all-owner :
    (calls : List MemberCall) (members : List Member) (folder user : String) (m : Member)
    → get_member members folder user ≡ some m
    → is_owner m ≡ true
    → (m' : Member) × (get_member (perform_all calls members) folder user ≡ some m')
      × (is_owner m' ≡ true)
      × (m'.joined_at ≡ m.joined_at)
unfolding perform_all
perform_all-owner [] members folder user m h o = (m, h, o, refl)
perform_all-owner (call ∷ calls) members folder user m h o =
    let (m₁, e, o₁, j) = owner_next m (get_member (perform call members) folder user) o (
      ap (λ x. is_allowed x (get_member (perform call members) folder user)) (sym h)
      ∙ perform-is_allowed call members folder user) in
    let (m₂, e₂, o₂, j₂) = perform_all-owner calls (perform call members) folder user m₁ e o₁ in
    (m₂, e₂, o₂, j₂ ∙ j)
