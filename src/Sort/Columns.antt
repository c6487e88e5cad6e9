-- ===== src/Sort/Columns.antt =====
-- The comparison of key tuples is a total order, whatever the columns.
use Prim.Native.Nat.{Ordering, compare}
use Prim.Native.Char.{code}
use Prim.Native.String.{[], ◌∷◌, compare as compare_text, then as or_else}
use Prim.Native.String.compare.{nil-nil, nil-cons, cons-nil, cons-cons}
use native.Mathlib.Nat.{mul_right_comm, mul-lt-mul_of_pos_right, lt_of_mul-lt-mul_right}
use text.Mathlib.TextEquality.{path_by_compare}
use portex.Common.{
  ap, ℕ, ◌*◌, ◌<◌, max, ◌≡◌, refl, sym, ◌∙◌, true, List, [] as nil, ◌∷◌ as cons, String, arith,
}
use portex.Sort.{
  Column, asc, desc, str_asc, ratio_desc, column_compare, row_compare, at_most, row_le,
}
use portex.Sort.Insertion.{IsTotalOrder}

abbrev flipped : Ordering → Ordering
flipped Ordering.lt = Ordering.gt
flipped Ordering.eq = Ordering.eq
flipped Ordering.gt = Ordering.lt

-- What makes a three-way comparison that of a total order.
record IsComparison {ℓ} {A : Type ℓ} (c : A → A → Ordering) : Type ℓ where
  flip : (x y : A) → c y x ≡ flipped (c x y)
  replace : (x y z : A) → c x y ≡ Ordering.eq → c x z ≡ c y z
  less : (x y z : A) → c x y ≡ Ordering.lt → c y z ≡ Ordering.lt → c x z ≡ Ordering.lt

abbrev numbers : ℕ → ℕ → Ordering
numbers m n = compare m n

or_else-flipped : (o p : Ordering) → or_else (flipped o) (flipped p) ≡ flipped (or_else o p)
or_else-flipped Ordering.lt p = refl
or_else-flipped Ordering.eq p = refl
or_else-flipped Ordering.gt p = refl

-- One comparison decides, and another one where it does not.
module _ {ℓ} {A : Type ℓ} {c d : A → A → Ordering} (cs : IsComparison c) (ds : IsComparison d) where
  less_then_alike : (x y z : A) → c x y ≡ Ordering.lt → c y z ≡ Ordering.eq → c x z ≡ Ordering.lt
  less_then_alike x y z h k =
      let back : c y x ≡ c z x = cs.replace y z x k in
      ground (arith, cs.flip z x, cs.flip y x, h, back)

  or_else-IsComparison : IsComparison (λ x y. or_else (c x y) (d x y))
  or_else-IsComparison = record {
    flip = λ x y. rw (cs.flip x y, ds.flip x y) (or_else-flipped (c x y) (d x y));
    replace = λ x y z h. ground (arith, cs.replace x y z, ds.replace x y z, h);
    less = λ x y z h k.
        ground (arith, less_then_alike x y z, cs.less x y z, cs.replace x y z, ds.less x y z, h, k);
  }

numbers-IsComparison : IsComparison numbers
numbers-IsComparison = record {
  flip = λ x y. ground arith;
  replace = λ x y z h. ground arith;
  less = λ x y z h k. ground arith;
}

texts_flip : (s t : String) → compare_text t s ≡ flipped (compare_text s t)
texts_flip [] [] = rw nil-nil refl
texts_flip [] (d ∷ t) = rw (nil-cons, cons-nil) refl
texts_flip (c ∷ s) [] = rw (nil-cons, cons-nil) refl
texts_flip (c ∷ s) (d ∷ t) =
    rw (cons-cons d c t s, cons-cons c d s t)
      (rw (numbers-IsComparison.flip (code c) (code d), texts_flip s t)
        (or_else-flipped (numbers (code c) (code d)) (compare_text s t)))

texts_less :
    (s t u : String)
    → compare_text s t ≡ Ordering.lt
    → compare_text t u ≡ Ordering.lt
    → compare_text s u ≡ Ordering.lt
texts_less [] [] u h k = absurd (ground (arith, nil-nil, h))
texts_less [] (d ∷ t) [] h k = absurd (ground (arith, cons-nil d t, k))
texts_less [] (d ∷ t) (e ∷ u) h k = nil-cons e u
texts_less (c ∷ s) [] u h k = absurd (ground (arith, cons-nil c s, h))
texts_less (c ∷ s) (d ∷ t) [] h k = absurd (ground (arith, cons-nil d t, k))
texts_less (c ∷ s) (d ∷ t) (e ∷ u) h k =
    ground (arith, cons-cons c d s t, cons-cons d e t u, cons-cons c e s u, texts_less s t u, h, k)

texts-IsComparison : IsComparison compare_text
texts-IsComparison = record {
  flip = texts_flip;
  replace = λ x y z h. ap (λ s. compare_text s z) (path_by_compare x y h);
  less = texts_less;
}

compare-scaled : (m n k : ℕ) → 0 < k → compare (m * k) (n * k) ≡ compare m n
compare-scaled m n k h = ground (
  arith,
  (λ (l : m < n). mul-lt-mul_of_pos_right l h),
  (λ (l : n < m). mul-lt-mul_of_pos_right l h),
  (λ (l : m ≡ n). ap (λ i. i * k) l),
  lt_of_mul-lt-mul_right k {m = m} {n = n},
  lt_of_mul-lt-mul_right k {m = n} {n = m},
)

-- The products of three numbers that the fractions of a comparison meet in.
fractions_replace :
    (m k n l o j : ℕ)
    → 0 < k
    → 0 < l
    → n * k ≡ m * l
    → compare (o * k) (m * j) ≡ compare (o * l) (n * j)
fractions_replace m k n l o j hk hl e =
    sym (compare-scaled (o * k) (m * j) l hl)
    ∙ rw (mul_right_comm m j l, sym e, mul_right_comm n k j, mul_right_comm o k l) refl
    ∙ compare-scaled (o * l) (n * j) k hk

fractions_less :
    (m k n l o j : ℕ) → 0 < k → n * k < m * l → o * l < n * j → 0 < l → 0 < j → o * k < m * j
fractions_less m k n l o j hk h g hl hj =
    let first : o * l * k < n * j * k = mul-lt-mul_of_pos_right g hk in
    let second : n * k * j < m * l * j = mul-lt-mul_of_pos_right h hj in
    lt_of_mul-lt-mul_right l (
      omega
        (arith, first, second, mul_right_comm o k l, mul_right_comm n j k, mul_right_comm m j l))

module _ {ℓ} {A : Type ℓ} where
  ratio-IsComparison : (f g : A → ℕ) → IsComparison (column_compare (ratio_desc f g))
  ratio-IsComparison f g = record {
    flip = λ x y. numbers-IsComparison.flip (f y * max 1 (g x)) (f x * max 1 (g y));
    replace = λ x y z h.
        fractions_replace (f x) (max 1 (g x)) (f y) (max 1 (g y)) (f z) (max 1 (g z)) (omega arith)
          (omega arith) (ground (arith, h));
    less = λ x y z h k. ground (
      arith,
      h,
      k,
      fractions_less (f x) (max 1 (g x)) (f y) (max 1 (g y)) (f z) (max 1 (g z)) (omega arith),
    );
  }

  desc-IsComparison : (f : A → ℕ) → IsComparison (column_compare (desc f))
  desc-IsComparison f = record {
    flip = λ x y. numbers-IsComparison.flip (f y) (f x);
    replace = λ x y z h. ground (arith, h);
    less = λ x y z h k. ground (arith, h, k);
  }

  column-IsComparison : (c : Column A) → IsComparison (column_compare c)
  column-IsComparison (asc f) = record {
    flip = λ x y. numbers-IsComparison.flip (f x) (f y);
    replace = λ x y z h. numbers-IsComparison.replace (f x) (f y) (f z) h;
    less = λ x y z h k. numbers-IsComparison.less (f x) (f y) (f z) h k;
  }
  column-IsComparison (desc f) = desc-IsComparison f
  column-IsComparison (str_asc f) = record {
    flip = λ x y. texts_flip (f x) (f y);
    replace = λ x y z h. texts-IsComparison.replace (f x) (f y) (f z) h;
    less = λ x y z h k. texts_less (f x) (f y) (f z) h k;
  }
  column-IsComparison (ratio_desc f g) = ratio-IsComparison f g

  row-IsComparison : (key : List (Column A)) → IsComparison (row_compare key)
  row-IsComparison nil = record {
    flip = λ x y. refl;
    replace = λ x y z h. refl;
    less = λ x y z h k. h;
  }
  row-IsComparison (cons c cs) = or_else-IsComparison (column-IsComparison c) (row-IsComparison cs)

  less_trans :
      {c : A → A → Ordering} (x y z : A)
      → IsComparison c
      → at_most (c x y) ≡ true
      → at_most (c y z) ≡ true
      → at_most (c x z) ≡ true
  less_trans {c} x y z cs h k =
      ground (arith, cs.replace x y z, cs.less x y z, less_then_alike cs cs x y z, h, k)

  pub row_le-IsTotalOrder : (key : List (Column A)) → IsTotalOrder (row_le key)
  row_le-IsTotalOrder key =
      let cs = row-IsComparison key in
      record {
        total = λ x y h. ground (arith, cs.flip x y, h);
        trans = λ x y z h k. less_trans x y z cs h k;
      }

or_else_eq : (o p : Ordering) → or_else o p ≡ Ordering.eq → (o ≡ Ordering.eq) × (p ≡ Ordering.eq)
or_else_eq o p h = ground (arith, h)

module _ {A : Type 0} where
  -- Where the last column of a key is a text, rows that tie have it in common.
  abbrev pub EndsIn : (A → String) → List (Column A) → Type 0
  EndsIn f nil = ⊥
  EndsIn f (cons c nil) = c ≡ str_asc f
  EndsIn f (cons c (cons d cs)) = EndsIn f (cons d cs)

  last_tie :
      (f : A → String) (key : List (Column A)) (a b : A)
      → EndsIn f key
      → row_compare key a b ≡ Ordering.eq
      → f a ≡ f b
  last_tie f nil a b e h = absurd e
  last_tie f (cons c nil) a b e h =
      path_by_compare (f a) (f b) (
        ap (λ d. column_compare d a b) (sym e)
        ∙ (or_else_eq (column_compare c a b) Ordering.eq h).0)
  last_tie f (cons c (cons d cs)) a b e h =
      last_tie f (cons d cs) a b e
        (or_else_eq (column_compare c a b) (row_compare (cons d cs) a b) h).1

  pub row_tie :
      (f : A → String) (key : List (Column A)) (a b : A)
      → EndsIn f key
      → row_le key a b ≡ true
      → row_le key b a ≡ true
      → f a ≡ f b
  row_tie f key a b e h k =
      last_tie f key a b e (ground (arith, (row-IsComparison key).flip a b, h, k))
