-- ===== src/Sort.antt =====
-- Python's `list.sort(key=...)` with a tuple as its key: the columns of the tuple are compared from
-- left to right. `sort_rows_laws` is what its clients use.
pub mod Columns
pub mod Insertion
use Prim.Native.Nat.{Ordering, compare}
use Prim.Native.String.{compare as compare_text, then as or_else}
use portex.Common.{ℕ, ◌*◌, max, Bool, true, false, List, [], ◌∷◌, String, if◌then◌else◌}

-- A column of a key: a number, a negated number, a text, or a negated quotient.
pub data Column {ℓ} (A : Type ℓ) : Type ℓ where
  asc : (A → ℕ) → Column A
  desc : (A → ℕ) → Column A
  str_asc : (A → String) → Column A
  ratio_desc : (A → ℕ) → (A → ℕ) → Column A

abbrev pub at_most : Ordering → Bool
at_most Ordering.gt = false
at_most _ = true

module _ {ℓ} {A : Type ℓ} where
  -- A quotient stands for its fraction, whose denominator is at least 1.
  abbrev pub column_compare : Column A → A → A → Ordering
  column_compare (asc f) a b = compare (f a) (f b)
  column_compare (desc f) a b = compare (f b) (f a)
  column_compare (str_asc f) a b = compare_text (f a) (f b)
  column_compare (ratio_desc f g) a b = compare (f b * max 1 (g a)) (f a * max 1 (g b))

  -- The comparison of two tuples.
  abbrev pub row_compare : List (Column A) → A → A → Ordering
  row_compare [] a b = Ordering.eq
  row_compare (c ∷ cs) a b = or_else (column_compare c a b) (row_compare cs a b)

  abbrev pub row_le : List (Column A) → A → A → Bool
  row_le key a b = at_most (row_compare key a b)

  unfoldable pub insert_row : (A → A → Bool) → A → List A → List A
  insert_row le x [] = x ∷ []
  insert_row le x (y ∷ ys) =
      let rest = insert_row le x ys in if le x y then x ∷ y ∷ ys else y ∷ rest

  -- A stable sort: rows that compare as equal keep their order.
  unfoldable pub sort_rows : (A → A → Bool) → List A → List A
  sort_rows le [] = []
  sort_rows le (x ∷ xs) = insert_row le x (sort_rows le xs)
