-- ===== src/Text.antt =====
-- Python's `str` as a list of code points, with the operations of it that the program uses.
pub mod Strings
pub mod Integers
use Prim.Native.Char.{code}
use portex.Common.{
  ℕ, ◌≡◌, Bool, true, false, ◌&&◌, ◌||◌, List, [], ◌∷◌, String, none, some, leb, ◌==◌, get_elem?,
  if◌then◌else◌, arith,
}

abbrev pub Text : Type 0
Text = List ℕ

-- The code points of a literal.
abbrev pub codes : String → Text
codes String.[] = []
codes (String.◌∷◌ c s) = code c ∷ codes s

abbrev pub newline : ℕ
newline = 10

-- `s == t`
unfoldable pub text_eq : Text → Text → Bool
text_eq [] [] = true
text_eq [] (d ∷ t) = false
text_eq (c ∷ s) [] = false
text_eq (c ∷ s) (d ∷ t) = c == d && text_eq s t

-- `text[i] == c` at an index in range.
unfoldable pub char_is : Text → ℕ → ℕ → Bool
char_is text i c = elim (get_elem? text i) [ none ↦ false | some d ↦ d == c ]

-- `c.isspace()`: the code points that Unicode gives the bidirectional type WS, B or S, or the
-- category Zs.
unfoldable pub is_space : ℕ → Bool
is_space c =
    leb 9 c && leb c 13
    || leb 28 c && leb c 32
    || c == 0x85
    || c == 0xa0
    || c == 0x1680
    || leb 0x2000 c && leb c 0x200a
    || c == 0x2028
    || c == 0x2029
    || c == 0x202f
    || c == 0x205f
    || c == 0x3000

all_space : Text → Bool
all_space [] = true
all_space (c ∷ s) = is_space c && all_space s

-- `s.isspace()`: false for the empty text.
unfoldable pub isspace : Text → Bool
unfolding all_space
isspace [] = false
isspace (c ∷ s) = is_space c && all_space s

-- `text[i].isspace()` at an index in range.
unfoldable pub space_at : Text → ℕ → Bool
space_at text i = elim (get_elem? text i) [ none ↦ false | some c ↦ is_space c ]

-- `s == ""`
abbrev pub is_empty : Text → Bool
is_empty [] = true
is_empty (c ∷ s) = false

abbrev strip_start : Text → Text
strip_start [] = []
strip_start (c ∷ r) = let rest = strip_start r in if is_space c then rest else c ∷ r

abbrev strip_end : Text → Text
strip_end [] = []
strip_end (c ∷ r) = let rest = strip_end r in if is_space c && is_empty rest then [] else c ∷ rest

-- `text.strip()`
abbrev pub strip : Text → Text
strip t = strip_end (strip_start t)

pub isspace-singleton : (c : ℕ) → isspace (c ∷ []) ≡ is_space c
unfolding isspace
isspace-singleton c = ground arith

pub text_eq-singleton : (c d : ℕ) → text_eq (c ∷ []) (d ∷ []) ≡ (c == d)
unfolding text_eq
text_eq-singleton c d = ground arith
