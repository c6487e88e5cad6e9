-- ===== src/Text/Integers.antt =====
-- Python's `int` of a text: spaces around it, a sign, decimal digits of any script with single
-- underscores between them, and no more than 4300 digits.
use portex.Common.{
  ℕ, ◌+◌, ◌-◌, ◌*◌, Bool, true, false, ◌&&◌, ◌||◌, Option, none, some, List, [], ◌∷◌, length,
  keep_if, ltb, leb, ◌==◌, if◌then◌else◌,
}
use portex.Dict.{is_some}
use portex.Text.{Text, is_space, is_empty}

-- The zeros of the scripts that have decimal digits; the other nine digits follow each.
abbrev decimal_zeros : List ℕ
decimal_zeros =
    48 ∷ 1632 ∷ 1776 ∷ 1984 ∷ 2406 ∷ 2534 ∷ 2662 ∷ 2790 ∷ 2918 ∷ 3046 ∷ 3174 ∷ 3302 ∷ 3430 ∷ 3558
    ∷ 3664 ∷ 3792 ∷ 3872 ∷ 4160 ∷ 4240 ∷ 6112 ∷ 6160 ∷ 6470 ∷ 6608 ∷ 6784 ∷ 6800 ∷ 6992 ∷ 7088
    ∷ 7232 ∷ 7248 ∷ 42528 ∷ 43216 ∷ 43264 ∷ 43472 ∷ 43504 ∷ 43600 ∷ 44016 ∷ 65296 ∷ 66720 ∷ 68912
    ∷ 69734 ∷ 69872 ∷ 69942 ∷ 70096 ∷ 70384 ∷ 70736 ∷ 70864 ∷ 71248 ∷ 71360 ∷ 71472 ∷ 71904 ∷ 72016
    ∷ 72784 ∷ 73040 ∷ 73120 ∷ 92768 ∷ 92864 ∷ 93008 ∷ 120782 ∷ 120792 ∷ 120802 ∷ 120812 ∷ 120822
    ∷ 123200 ∷ 123632 ∷ 125264 ∷ 130032 ∷ []

digit_in : List ℕ → ℕ → Option ℕ
digit_in [] c = none
digit_in (zero_digit ∷ rest) c =
    let later = digit_in rest c in
    if leb zero_digit c && ltb c (zero_digit + 10) then some (c - zero_digit) else later

unfoldable pub digit_of : ℕ → Option ℕ
unfolding digit_in
digit_of c = digit_in decimal_zeros c

-- The separators 28 to 31 are spaces for `str.strip`, but not for `int`.
abbrev is_int_space : ℕ → Bool
is_int_space c = leb 9 c && leb c 13 || c == 32 || leb 128 c && is_space c

skip_spaces : Text → Text
skip_spaces [] = []
skip_spaces (c ∷ r) = let rest = skip_spaces r in if is_int_space c then rest else c ∷ r

drop_end_spaces : Text → Text
drop_end_spaces [] = []
drop_end_spaces (c ∷ r) =
    let rest = drop_end_spaces r in if is_int_space c && is_empty rest then [] else c ∷ rest

digits_from : ℕ → Bool → Text → Option ℕ
digits_from value after_digit [] = if after_digit then some value else none
digits_from value after_digit (c ∷ r) = elim (digit_of c) [
  | some d ↦ digits_from (value * 10 + d) true r
  | none ↦ elim (c == 95 && after_digit) [ true ↦ digits_from value false r | false ↦ none ]
]

abbrev max_digits : ℕ
max_digits = 4300

-- `int(t)` of a number that is not negative. A negative one gives `none` like the `ValueError`,
-- since the caller refuses both in the same way.
unfoldable pub parse_int : Text → Option ℕ
unfolding skip_spaces drop_end_spaces digits_from
parse_int t =
    if ltb max_digits (length (keep_if (λ c. is_some (digit_of c)) t))
    then none
    else elim (drop_end_spaces (skip_spaces t)) [
      | [] ↦ none
      | c ∷ r ↦
          if c == 45
          then none
          else if c == 43
          then digits_from 0 false r
          else digits_from 0 false (c ∷ r)
    ]
