-- ===== src/Table.antt =====
-- A table of a database as the list of its rows, in the order in which they were added. A test on
-- rows stands for a `where` clause on the primary key.
use portex.Dict.{is_some}
use portex.Common.{
  ◌≡◌, refl, Bool, true, false, not, Option, none, some, List, [], ◌∷◌, keep_if, if◌then◌else◌,
  arith, Bool-cases, inl, inr,
}

module _ {ℓ} {A : Type ℓ} where
  -- `scalar_one_or_none`
  unfoldable pub find_row : (A → Bool) → List A → Option A
  find_row p [] = none
  find_row p (a ∷ l) = if p a then some a else find_row p l

  -- `merge`: a row in the place of the one that has its key, or at the end.
  unfoldable pub upsert_row : (A → Bool) → A → List A → List A
  upsert_row p x [] = x ∷ []
  upsert_row p x (a ∷ l) = if p a then x ∷ l else a ∷ upsert_row p x l

  -- `delete`
  unfoldable pub delete_rows : (A → Bool) → List A → List A
  delete_rows p l = keep_if (λ a. not (p a)) l

  pub find_row-upsert_row :
      (p : A → Bool) (x : A) (l : List A) → p x ≡ true → find_row p (upsert_row p x l) ≡ some x
  unfolding find_row upsert_row
  find_row-upsert_row p x [] h = ground (arith, h)
  find_row-upsert_row p x (a ∷ l) h = ground (arith, h, find_row-upsert_row p x l h)

  pub find_row-delete_rows : (p : A → Bool) (l : List A) → find_row p (delete_rows p l) ≡ none
  unfolding find_row delete_rows
  find_row-delete_rows p [] = refl
  find_row-delete_rows p (a ∷ l) = elim (Bool-cases (p a)) [
    | inl e ↦ rw (e, keep_if) (find_row-delete_rows p l)
    | inr e ↦ rw (e, keep_if) (ground (arith, e, find_row-delete_rows p l))
  ]

  -- A row with another key is found as before.
  module _ (p q : A → Bool) (apart : (a : A) → q a ≡ true → p a ≡ false) where
    pub find_row-upsert_other :
        (x : A) (l : List A) → q x ≡ false → find_row q (upsert_row p x l) ≡ find_row q l
    unfolding find_row upsert_row
    find_row-upsert_other x [] h = ground (arith, h)
    find_row-upsert_other x (a ∷ l) h = ground (arith, h, apart a, find_row-upsert_other x l h)

    pub find_row-delete_other : (l : List A) → find_row q (delete_rows p l) ≡ find_row q l
    unfolding find_row delete_rows
    find_row-delete_other [] = refl
    find_row-delete_other (a ∷ l) = elim (Bool-cases (p a)) [
      | inl e ↦ rw (e, keep_if) (ground (arith, e, apart a, find_row-delete_other l))
      | inr e ↦ rw (e, keep_if) (ground (arith, find_row-delete_other l))
    ]

  -- A key that is there stays there.
  pub has_row-upsert_row :
      (p q : A → Bool) (x : A) (l : List A)
      → ((a : A) → p a ≡ true → q a ≡ q x)
      → is_some (find_row q l) ≡ true
      → is_some (find_row q (upsert_row p x l)) ≡ true
  unfolding find_row upsert_row
  has_row-upsert_row p q x [] same h = ground (arith, h)
  has_row-upsert_row p q x (a ∷ l) same h =
      ground (arith, h, same a, has_row-upsert_row p q x l same)
