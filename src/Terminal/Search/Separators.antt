-- ===== src/Terminal/Search/Separators.antt =====
-- The six separator predicates of services/terminal_sessions.py against one classification of what
-- follows a plain tag.
use portex.Common.{
  ℕ, ◌+◌, ◌≡◌, refl, Bool, true, false, not, ◌&&◌, ◌||◌, [], ◌∷◌, take, drop, ◌==◌, if◌then◌else◌,
  arith,
}
use portex.Text.{Text, newline, is_space, is_empty, text_eq, codes, isspace}
use portex.Terminal.Search.Payload.{
  is_plain_tag, blank_line_rest, payload_line_rest, is_single_space_separator_match,
  is_payloadless_separator_match, is_tab_prefixed_payload_match, is_multi_space_payload_match,
  is_space_prefixed_mixed_whitespace_payload_match, is_other_leading_whitespace_payload_match,
}
use portex.Terminal.Search.Suffix.{slice_first, slice_second, past_end}
use portex.Terminal.Search.TagEnds.{space_or_end, plain_tag_lem, space-IsSpace}

-- What separates a plain tag from the rest of its line.
pub data Separator : Type 0 where
  single_space payloadless tab multi_space mixed_space other_leading : Separator

-- The second character behind a leading space.
abbrev pub after_space : Text → Separator
after_space [] = payloadless
after_space (d ∷ r) =
    if d == b' ' then multi_space else if is_space d then mixed_space else single_space

abbrev pub separator_of : Text → Separator
separator_of [] = payloadless
separator_of (c ∷ r) =
    if blank_line_rest (c ∷ r)
    then payloadless
    else if c == b' '
    then after_space r
    else if c == 9
    then tab
    else other_leading

abbrev pub Separator-eqb : Separator → Separator → Bool
Separator-eqb single_space single_space = true
Separator-eqb payloadless payloadless = true
Separator-eqb tab tab = true
Separator-eqb multi_space multi_space = true
Separator-eqb mixed_space mixed_space = true
Separator-eqb other_leading other_leading = true
Separator-eqb _ _ = false

payload_line_rest-not_blank : (r : Text) → payload_line_rest r ≡ not (blank_line_rest r)
unfolding payload_line_rest blank_line_rest
payload_line_rest-not_blank [] = refl
payload_line_rest-not_blank (c ∷ r) = ground (arith, payload_line_rest-not_blank r)

newline-IsSpace : is_space newline ≡ true
unfolding is_space
newline-IsSpace = refl

tab-IsSpace : is_space 9 ≡ true
unfolding is_space
tab-IsSpace = refl

abbrev is_sep : Separator → Text → Bool
is_sep k r = Separator-eqb (separator_of r) k

-- The tests of each predicate over the suffix behind the tag, where that starts with a space.
module _ (p : Bool) where
  single_tests :
      (r : Text)
      → (p ≡ true → space_or_end r ≡ true)
      → (if not p
          then false
          else if not (text_eq (take 1 r) (codes " "))
          then false
          else not (is_empty (take 1 (drop 1 r))) && not (isspace (take 1 (drop 1 r))))
        ≡ (p && is_sep single_space r)
  unfolding text_eq isspace blank_line_rest
  single_tests [] h = ground arith
  single_tests (c ∷ []) h = ground (arith, newline-IsSpace, space-IsSpace, tab-IsSpace)
  single_tests (c ∷ d ∷ r) h = ground (arith, newline-IsSpace, space-IsSpace, tab-IsSpace)

  payloadless_tests :
      (r : Text)
      → (if not p then false else if is_empty r then true else blank_line_rest r)
        ≡ (p && is_sep payloadless r)
  unfolding blank_line_rest
  payloadless_tests [] = ground arith
  payloadless_tests (c ∷ []) = ground (arith, space-IsSpace)
  payloadless_tests (c ∷ d ∷ r) = ground arith

  tab_tests :
      (r : Text)
      → (if not p
          then false
          else if p && is_sep payloadless r
          then false
          else if not (text_eq (take 1 r) (9 ∷ []))
          then false
          else payload_line_rest r)
        ≡ (p && is_sep tab r)
  unfolding text_eq blank_line_rest
  tab_tests [] = ground arith
  tab_tests (c ∷ []) = ground (arith, payload_line_rest-not_blank (c ∷ []), tab-IsSpace)
  tab_tests (c ∷ d ∷ r) = ground (arith, payload_line_rest-not_blank (c ∷ d ∷ r), tab-IsSpace)

  multi_space_tests :
      (r : Text)
      → (if not p
          then false
          else if p && is_sep payloadless r
          then false
          else if p && is_sep tab r
          then false
          else if not (text_eq (take 1 r) (codes " "))
          then false
          else if not (text_eq (take 1 (drop 1 r)) (codes " "))
          then false
          else payload_line_rest r)
        ≡ (p && is_sep multi_space r)
  unfolding text_eq blank_line_rest
  multi_space_tests [] = ground arith
  multi_space_tests (c ∷ []) = ground (arith, payload_line_rest-not_blank (c ∷ []), space-IsSpace)
  multi_space_tests (c ∷ d ∷ r) =
      ground (arith, payload_line_rest-not_blank (c ∷ d ∷ r), space-IsSpace)

  mixed_space_tests :
      (r : Text)
      → (if not p
          then false
          else if p && is_sep payloadless r
          then false
          else if p && is_sep tab r
          then false
          else if p && is_sep multi_space r
          then false
          else if not (text_eq (take 1 r) (codes " "))
          then false
          else if is_empty (take 1 (drop 1 r))
              || not (isspace (take 1 (drop 1 r)))
              || text_eq (take 1 (drop 1 r)) (codes " ")
          then false
          else payload_line_rest r)
        ≡ (p && is_sep mixed_space r)
  unfolding text_eq isspace blank_line_rest
  mixed_space_tests [] = ground arith
  mixed_space_tests (c ∷ []) = ground (arith, payload_line_rest-not_blank (c ∷ []), space-IsSpace)
  mixed_space_tests (c ∷ d ∷ r) =
      ground (arith, payload_line_rest-not_blank (c ∷ d ∷ r), space-IsSpace)

  other_leading_tests :
      (r : Text)
      → (p ≡ true → space_or_end r ≡ true)
      → (if not p
          then false
          else if p && is_sep payloadless r
          then false
          else if p && is_sep tab r
          then false
          else if p && is_sep multi_space r
          then false
          else if p && is_sep mixed_space r
          then false
          else if is_empty (take 1 r)
              || not (isspace (take 1 r))
              || (text_eq (take 1 r) (codes " ") || text_eq (take 1 r) (9 ∷ []))
          then false
          else payload_line_rest r)
        ≡ (p && is_sep other_leading r)
  unfolding text_eq isspace blank_line_rest
  other_leading_tests [] h = ground arith
  other_leading_tests (c ∷ []) h =
      ground (arith, payload_line_rest-not_blank (c ∷ []), space-IsSpace)
  other_leading_tests (c ∷ d ∷ r) h =
      ground (arith, payload_line_rest-not_blank (c ∷ d ∷ r), space-IsSpace)

module _ (text : Text) (offset query_length : ℕ) where
  plain_tag-space :
      is_plain_tag text offset query_length ≡ true
      → space_or_end (drop (offset + query_length + 1) text) ≡ true
  plain_tag-space h = ground (arith, plain_tag_lem text offset query_length)

  single_space_lem : is_single_space_separator_match text offset query_length ≡ (
      is_plain_tag text offset query_length
      && Separator-eqb (separator_of (drop (offset + query_length + 1) text)) single_space)
  unfolding is_single_space_separator_match
  single_space_lem =
      let i : ℕ = offset + query_length + 1 in
      rw (slice_first text i, slice_second text i)
        (single_tests (is_plain_tag text offset query_length) (drop i text) plain_tag-space)

  payloadless_lem : is_payloadless_separator_match text offset query_length ≡ (
      is_plain_tag text offset query_length
      && Separator-eqb (separator_of (drop (offset + query_length + 1) text)) payloadless)
  unfolding is_payloadless_separator_match
  payloadless_lem =
      let i : ℕ = offset + query_length + 1 in
      rw (past_end text i) (payloadless_tests (is_plain_tag text offset query_length) (drop i text))

  tab_lem : is_tab_prefixed_payload_match text offset query_length ≡ (
      is_plain_tag text offset query_length
      && Separator-eqb (separator_of (drop (offset + query_length + 1) text)) tab)
  unfolding is_tab_prefixed_payload_match
  tab_lem =
      let i : ℕ = offset + query_length + 1 in
      rw (payloadless_lem, slice_first text i)
        (tab_tests (is_plain_tag text offset query_length) (drop i text))

  multi_space_lem : is_multi_space_payload_match text offset query_length ≡ (
      is_plain_tag text offset query_length
      && Separator-eqb (separator_of (drop (offset + query_length + 1) text)) multi_space)
  unfolding is_multi_space_payload_match
  multi_space_lem =
      let i : ℕ = offset + query_length + 1 in
      rw (payloadless_lem, tab_lem, slice_first text i, slice_second text i)
        (multi_space_tests (is_plain_tag text offset query_length) (drop i text))

  mixed_space_lem : is_space_prefixed_mixed_whitespace_payload_match text offset query_length ≡ (
      is_plain_tag text offset query_length
      && Separator-eqb (separator_of (drop (offset + query_length + 1) text)) mixed_space)
  unfolding is_space_prefixed_mixed_whitespace_payload_match
  mixed_space_lem =
      let i : ℕ = offset + query_length + 1 in
      rw (payloadless_lem, tab_lem, multi_space_lem, slice_first text i, slice_second text i)
        (mixed_space_tests (is_plain_tag text offset query_length) (drop i text))

  other_leading_lem : is_other_leading_whitespace_payload_match text offset query_length ≡ (
      is_plain_tag text offset query_length
      && Separator-eqb (separator_of (drop (offset + query_length + 1) text)) other_leading)
  unfolding is_other_leading_whitespace_payload_match
  other_leading_lem =
      let i : ℕ = offset + query_length + 1 in
      rw (payloadless_lem, tab_lem, multi_space_lem, mixed_space_lem, slice_first text i)
        (other_leading_tests (is_plain_tag text offset query_length) (drop i text) plain_tag-space)

  -- What a separator predicate has to answer: the occurrence is a plain tag, and what follows it is
  -- of the predicate's class.
  abbrev pub is_tag_before : Separator → Bool
  is_tag_before k =
      is_plain_tag text offset query_length
      && Separator-eqb (separator_of (drop (offset + query_length + 1) text)) k

  -- Each of the six separator predicates holds of an occurrence exactly if it is a plain tag and
  -- one classifying function of the text behind its closing mark answers that predicate's class.
  pub separators_lem :
      (is_single_space_separator_match text offset query_length ≡ is_tag_before single_space)
      × (is_payloadless_separator_match text offset query_length ≡ is_tag_before payloadless)
      × (is_tab_prefixed_payload_match text offset query_length ≡ is_tag_before tab)
      × (is_multi_space_payload_match text offset query_length ≡ is_tag_before multi_space)
      × (is_space_prefixed_mixed_whitespace_payload_match text offset query_length
          ≡ is_tag_before mixed_space)
      × (is_other_leading_whitespace_payload_match text offset query_length
          ≡ is_tag_before other_leading)
  separators_lem = (
    single_space_lem, payloadless_lem, tab_lem, multi_space_lem, mixed_space_lem, other_leading_lem,
  )
