-- ===== src/Text/Strings.antt =====
-- Python's operations on texts that stand as native strings, and the way from code points back to
-- a string.
use Prim.Native.Nat.{Ordering, compare}
use Prim.Native.Char.{char, code, IsScalar, IsLt}
use Prim.Native.String.{[] as end, ◌∷◌ as put_first}
use text.Mathlib.TextEquality.{IsScalar-prop}
use portex.Common.{
  ℕ, ◌≡◌, ◌≢◌, refl, ap, ◌∙◌, Option-cases, inl, inr, Bool, true, false, ◌&&◌, ◌||◌, Option, none,
  some, [], ◌∷◌, String, ◌==◌, if◌then◌else◌,
}
use portex.Text.{Text, codes, is_space, is_empty}

-- `s == ""`
abbrev pub str_empty : String → Bool
str_empty end = true
str_empty (put_first c s) = false

str_strip_start : String → String
str_strip_start end = end
str_strip_start (put_first c s) =
    let rest = str_strip_start s in if is_space (code c) then rest else put_first c s

str_strip_end : String → String
str_strip_end end = end
str_strip_end (put_first c s) =
    let rest = str_strip_end s in
    if is_space (code c) && str_empty rest then end else put_first c rest

-- `s.strip()`
unfoldable pub str_strip : String → String
unfolding str_strip_start str_strip_end
str_strip s = str_strip_end (str_strip_start s)

-- `s.startswith(prefix)`
unfoldable pub str_starts_with : String → String → Bool
str_starts_with end s = true
str_starts_with (put_first c p) end = false
str_starts_with (put_first c p) (put_first d s) = code c == code d && str_starts_with p s

-- `c in s`, of a single character.
unfoldable pub str_has : ℕ → String → Bool
str_has c end = false
str_has c (put_first d s) = code d == c || str_has c s

-- Whether a number is a character's; `Scalar` of the three comparisons is what `IsScalar` is.
abbrev BothLess : Ordering → Ordering → Type 0
BothLess Ordering.lt p = IsLt p
BothLess Ordering.eq p = ⊥
BothLess Ordering.gt p = ⊥

abbrev Scalar : Ordering → Ordering → Ordering → Type 0
Scalar Ordering.lt p q = Unit
Scalar Ordering.eq p q = BothLess p q
Scalar Ordering.gt p q = BothLess p q

abbrev is_lt? : (o : Ordering) → Option (IsLt o)
is_lt? Ordering.lt = some tt
is_lt? Ordering.eq = none
is_lt? Ordering.gt = none

abbrev both_less? : (o p : Ordering) → Option (BothLess o p)
both_less? Ordering.lt p = is_lt? p
both_less? Ordering.eq p = none
both_less? Ordering.gt p = none

abbrev scalar? : (o p q : Ordering) → Option (Scalar o p q)
scalar? Ordering.lt p q = some tt
scalar? Ordering.eq p q = both_less? p q
scalar? Ordering.gt p q = both_less? p q

abbrev is_scalar? : (n : ℕ) → Option (IsScalar n)
is_scalar? n = scalar? (compare n 55296) (compare 57343 n) (compare n 1114112)

-- The string of code points, if there is no lone surrogate among them.
unfoldable pub string_of : Text → Option String
string_of [] = some end
string_of (n ∷ r) = elim (is_scalar? n) [
  | none ↦ none
  | some h ↦ elim (string_of r) [ none ↦ none | some s ↦ some (put_first (char n h) s) ]
]

is_lt?-some : (o : Ordering) (h : IsLt o) → is_lt? o ≢ none
is_lt?-some Ordering.lt h e = cc
is_lt?-some Ordering.eq h e = absurd h
is_lt?-some Ordering.gt h e = absurd h

both_less?-some : (o p : Ordering) (h : BothLess o p) → both_less? o p ≢ none
both_less?-some Ordering.lt p h e = is_lt?-some p h e
both_less?-some Ordering.eq p h e = absurd h
both_less?-some Ordering.gt p h e = absurd h

scalar?-some : (o p q : Ordering) (h : Scalar o p q) → scalar? o p q ≢ none
scalar?-some Ordering.lt p q h e = cc
scalar?-some Ordering.eq p q h e = both_less?-some p q h e
scalar?-some Ordering.gt p q h e = both_less?-some p q h e

is_scalar?_lem : (n : ℕ) (h : IsScalar n) → is_scalar? n ≡ some h
is_scalar?_lem n h = elim (Option-cases (is_scalar? n)) [
  | inl e ↦ absurd (scalar?-some (compare n 55296) (compare 57343 n) (compare n 1114112) h e)
  | inr (g, e) ↦ e ∙ ap some (IsScalar-prop n g h)
]

pub string_of-codes : (s : String) → string_of (codes s) ≡ some s
unfolding string_of
string_of-codes end = refl
string_of-codes (put_first (char n h) s) =
    rw (is_scalar?_lem n h, string_of-codes s, string_of) refl

pub codes-empty : (s : String) → is_empty (codes s) ≡ str_empty s
codes-empty end = refl
codes-empty (put_first c s) = refl
