-- ===== src/Terminal/Search/TagEnds.antt =====
-- The tags of services/terminal_sessions.py against a description of what may follow the closing
-- mark.
use portex.Common.{
  ℕ, ◌+◌, ◌≡◌, refl, Bool, true, false, not, ◌&&◌, ◌||◌, [], ◌∷◌, take, drop, ◌==◌, if◌then◌else◌,
  arith,
}
use portex.Text.{Text, char_is, is_space, space_at, is_empty, text_eq, codes, isspace-singleton}
use portex.Terminal.Search.Tags.{
  is_line_start_punctuation_wrap_match, is_line_start_exact_tag_match,
  is_line_start_exact_tag_marker_match, empty_or_space,
}
use portex.Terminal.Search.Payload.{is_plain_tag}
use portex.Terminal.Search.Suffix.{
  slice_first, slice_first_two, slice_second, slice_third, past_end, char_is-drop, space_at-drop,
}

-- The end of the text, or a space.
abbrev pub space_or_end : Text → Bool
space_or_end [] = true
space_or_end (c ∷ r) = is_space c

abbrev pub colon_end : Text → Bool
colon_end [] = false
colon_end (c ∷ r) = c == b':' && space_or_end r

abbrev pub dash_end : Text → Bool
dash_end [] = false
dash_end (c ∷ []) = false
dash_end (c ∷ d ∷ r) = c == b' ' && d == b'-' && space_or_end r

pub empty_or_space-take : (r : Text) → empty_or_space (take 1 r) ≡ space_or_end r
unfolding empty_or_space
empty_or_space-take [] = refl
empty_or_space-take (c ∷ r) = isspace-singleton c

pub space-IsSpace : is_space b' ' ≡ true
unfolding is_space
space-IsSpace = refl

pub colon-eq-head : (r : Text) → text_eq (take 1 r) (codes ":") ≡ char_is r 0 b':'
unfolding text_eq char_is
colon-eq-head [] = refl
colon-eq-head (c ∷ r) = ground arith

dash_end-space : (r : Text) → dash_end r ≡ true → space_or_end r ≡ true
dash_end-space [] h = cc
dash_end-space (c ∷ []) h = cc
dash_end-space (c ∷ d ∷ r) h = ground (arith, space-IsSpace)

colon-IsSpace : is_space b':' ≡ false
unfolding is_space
colon-IsSpace = refl

colon_end-space : (r : Text) → colon_end r ≡ true → space_or_end r ≡ false
colon_end-space [] h = cc
colon_end-space (c ∷ r) h = ground (arith, colon-IsSpace)

-- The tests of the two predicates, over the suffix that follows the closing mark.
abbrev tag_tests : Text → Bool
tag_tests r =
    if is_empty r
    then true
    else if space_at r 0
    then true
    else if char_is r 0 b':'
    then empty_or_space (take 1 (drop 1 r))
    else if text_eq (take 2 r) (codes " -")
    then empty_or_space (take 1 (drop 2 r))
    else false

abbrev marker_tests : Text → Bool
marker_tests r =
    if text_eq (take 1 r) (codes ":")
    then empty_or_space (take 1 (drop 1 r))
    else if text_eq (take 2 r) (codes " -")
    then empty_or_space (take 1 (drop 2 r))
    else false

tag_tests-eq : (r : Text) → tag_tests r ≡ (space_or_end r || colon_end r)
unfolding space_at char_is text_eq
tag_tests-eq [] = refl
tag_tests-eq (c ∷ []) = ground (arith, empty_or_space-take [], space-IsSpace)
tag_tests-eq (c ∷ d ∷ r) = ground (arith, empty_or_space-take (d ∷ r), space-IsSpace)

marker_tests-eq : (r : Text) → marker_tests r ≡ (colon_end r || dash_end r)
unfolding text_eq
marker_tests-eq [] = refl
marker_tests-eq (c ∷ []) = ground (arith, empty_or_space-take [])
marker_tests-eq (c ∷ d ∷ r) = ground (arith, empty_or_space-take (d ∷ r), empty_or_space-take r)

module _ (text : Text) (offset query_length : ℕ) where
  exact_tag_tests : is_line_start_exact_tag_match text offset query_length ≡ (
      if not (is_line_start_punctuation_wrap_match text offset query_length)
      then false
      else tag_tests (drop (offset + query_length + 1) text))
  unfolding is_line_start_exact_tag_match
  exact_tag_tests =
      let i : ℕ = offset + query_length + 1 in
      rw (
        past_end text i,
        space_at-drop text i,
        char_is-drop text i b':',
        slice_second text i,
        slice_first_two text i,
        slice_third text i,
      )

  marker_tests_lem : is_line_start_exact_tag_marker_match text offset query_length ≡ (
      if not (is_line_start_exact_tag_match text offset query_length)
      then false
      else marker_tests (drop (offset + query_length + 1) text))
  unfolding is_line_start_exact_tag_marker_match
  marker_tests_lem =
      let i : ℕ = offset + query_length + 1 in
      rw (slice_first text i, slice_second text i, slice_first_two text i, slice_third text i)

  -- An occurrence is an exact tag exactly if it is a punctuation-wrapped word whose closing mark is
  -- followed by the end of the text, by a space, or by a colon that is followed by the end or a
  -- space.
  pub exact_tag_lem : is_line_start_exact_tag_match text offset query_length ≡ (
      is_line_start_punctuation_wrap_match text offset query_length
      && (space_or_end (drop (offset + query_length + 1) text)
          || colon_end (drop (offset + query_length + 1) text)))
  exact_tag_lem =
      rw (exact_tag_tests, tag_tests-eq (drop (offset + query_length + 1) text)) (ground arith)

  -- An occurrence is an exact-tag marker exactly if it is a punctuation-wrapped word whose closing
  -- mark is followed by a colon, or by a space and a dash, and then by the end of the text or a
  -- space.
  pub exact_tag_marker_lem : is_line_start_exact_tag_marker_match text offset query_length ≡ (
      is_line_start_punctuation_wrap_match text offset query_length
      && (colon_end (drop (offset + query_length + 1) text)
          || dash_end (drop (offset + query_length + 1) text)))
  exact_tag_marker_lem =
      rw (marker_tests_lem, exact_tag_lem, marker_tests-eq (drop (offset + query_length + 1) text))
        (ground (arith, dash_end-space (drop (offset + query_length + 1) text)))

  -- A plain tag is a wrapped word that is followed by the end of the text or by a space, but not
  -- by a space, a dash and then one of these.
  pub plain_tag_lem : is_plain_tag text offset query_length ≡ (
      is_line_start_punctuation_wrap_match text offset query_length
      && (space_or_end (drop (offset + query_length + 1) text)
          && not (dash_end (drop (offset + query_length + 1) text))))
  unfolding is_plain_tag
  plain_tag_lem =
      rw (exact_tag_lem, exact_tag_marker_lem)
        (ground (
          arith,
          dash_end-space (drop (offset + query_length + 1) text),
          colon_end-space (drop (offset + query_length + 1) text),
        ))
