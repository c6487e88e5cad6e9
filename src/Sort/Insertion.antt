-- ===== src/Sort/Insertion.antt =====
-- The sort gives an ordered permutation, and the only one where no two rows rank alike.
use mathlib.Core.Bool.{Bool-set}
use mathlib.Core.List.{
  Mem, Perm, Pairwise, Pairwise-singleton, mem-cons_self, mem-cons_of_mem, forall_mem-cons,
}
use mathlib.Core.List.Pairwise
use mathlib.Core.List.Perm
use portex.Common.{◌≡◌, ap₂, Bool, true, false, inl, inr, List, [], ◌∷◌, Bool-cases}
use portex.Sort.{insert_row, sort_rows}

module _ {ℓ} {A : Type ℓ} (le : A → A → Bool) where
  abbrev pub Le : A → A → Type 0
  Le a b = le a b ≡ true

  abbrev pub IsOrdered : List A → Type ℓ
  IsOrdered = Pairwise Le

  -- What the sort asks of its test.
  pub record IsTotalOrder : Type ℓ where
    pub total : (a b : A) → le a b ≡ false → Le b a
    pub trans : (a b c : A) → Le a b → Le b c → Le a c

  abbrev pub IsBound : A → List A → Type ℓ
  IsBound a l = (x : A) → Mem x l → Le a x

  insert_row-Perm : (x : A) (ys : List A) → Perm (insert_row le x ys) (x ∷ ys)
  unfolding insert_row
  insert_row-Perm x [] = Perm.rfl
  insert_row-Perm x (y ∷ ys) = elim (Bool-cases (le x y)) [
    | inl e ↦ rw (e, insert_row) Perm.rfl
    | inr e ↦
        rw (e, insert_row) (Perm.trans (Perm.cons y (insert_row-Perm x ys)) (Perm.swap x y ys))
  ]

  pub sort_rows-Perm : (xs : List A) → Perm (sort_rows le xs) xs
  unfolding sort_rows
  sort_rows-Perm [] = Perm.rfl
  sort_rows-Perm (x ∷ xs) =
      Perm.trans (insert_row-Perm x (sort_rows le xs)) (Perm.cons x (sort_rows-Perm xs))

  IsBound-Perm : {a : A} {l r : List A} → Perm l r → IsBound a r → IsBound a l
  IsBound-Perm p h x m = h x ((Perm.mem_iff p).0 m)

  IsBound-cons : {a b : A} {l : List A} → Le a b → IsBound a l → IsBound a (b ∷ l)
  IsBound-cons {a} p h = (forall_mem-cons (λ x. Bool-set (le a x) true)).1 (p, h)

  module _ (order : IsTotalOrder) where
    IsBound-whole : {a b : A} {l : List A} → Le a b → IsOrdered (b ∷ l) → IsBound a (b ∷ l)
    IsBound-whole p (Pairwise.cons h _) = IsBound-cons p λ x m. order.trans _ _ _ p (h x m)

    insert_row-IsOrdered : (x : A) {l : List A} → IsOrdered l → IsOrdered (insert_row le x l)
    unfolding insert_row
    insert_row-IsOrdered x Pairwise.nil = Pairwise-singleton _ x
    insert_row-IsOrdered x (Pairwise.cons {a = y} {l = ys} below s) = elim (Bool-cases (le x y)) [
      | inl e ↦
          let whole = Pairwise.cons below s in
          rw (e, insert_row) (Pairwise.cons (IsBound-whole e whole) whole)
      | inr e ↦
          rw (e, insert_row)
            (Pairwise.cons
              (IsBound-Perm (insert_row-Perm x ys) (IsBound-cons (order.total x y e) below))
              (insert_row-IsOrdered x s))
    ]

    pub sort_rows-IsOrdered : (xs : List A) → IsOrdered (sort_rows le xs)
    unfolding sort_rows
    sort_rows-IsOrdered [] = Pairwise.nil
    sort_rows-IsOrdered (x ∷ xs) = insert_row-IsOrdered x (sort_rows-IsOrdered xs)

  -- No two rows of the list rank alike.
  abbrev pub IsStrict : List A → Type ℓ
  IsStrict l = (a b : A) → Mem a l → Mem b l → Le a b → Le b a → a ≡ b

  module _ (order : IsTotalOrder) where
    le_refl : (a : A) → Le a a
    le_refl a = elim (Bool-cases (le a a)) [ inl e ↦ e | inr e ↦ order.total a a e ]

    first_le : {a b : A} {l r : List A} → IsOrdered (a ∷ l) → Perm (b ∷ r) (a ∷ l) → Le a b
    first_le {a} {b} s p = IsBound-Perm p (IsBound-whole order (le_refl a) s) b mem-cons_self

    pub IsOrdered-unique :
        {l r : List A} → IsStrict l → IsOrdered l → IsOrdered r → Perm l r → l ≡ r
    IsOrdered-unique {l = []} d _ _ p = Perm.nil-eq p
    IsOrdered-unique {l = x ∷ xs} {r = []} d _ _ p = Perm.eq-nil p
    IsOrdered-unique {l = x ∷ xs} {r = y ∷ ys} d ox oy p =
        let back = Perm.symm p in
        let same =
          d x y mem-cons_self ((Perm.mem_iff p).1 mem-cons_self) (first_le ox back)
            (first_le oy p) in
        let inner : IsStrict xs = λ u v m n. d u v (mem-cons_of_mem _ m) (mem-cons_of_mem _ n) in
        ap₂ ◌∷◌ same (
          IsOrdered-unique {l = xs} inner (Pairwise.of_cons ox) (Pairwise.of_cons oy)
            (Perm.cons_inv (Perm.trans p (Perm.symm (Perm.cons' same Perm.rfl)))))

    -- The order in which the rows come does not matter.
    pub sort_rows-order : {l r : List A} → IsStrict l → Perm l r → sort_rows le l ≡ sort_rows le r
    sort_rows-order {l} {r} d p =
        IsOrdered-unique
          (λ x y m n.
            d x y ((Perm.mem_iff (sort_rows-Perm l)).0 m) ((Perm.mem_iff (sort_rows-Perm l)).0 n))
          (sort_rows-IsOrdered order l) (sort_rows-IsOrdered order r)
          (Perm.trans (sort_rows-Perm l) (Perm.trans p (Perm.symm (sort_rows-Perm r))))
