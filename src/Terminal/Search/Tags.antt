-- ===== src/Terminal/Search/Tags.antt =====
-- The predicates of `TerminalSessionService` on one occurrence of the query that look at the
-- punctuation around it: `[QUERY]`, `(QUERY):`, `<QUERY> -` and the like at the start of a line.
use portex.Common.{
  ℕ, ◌+◌, ◌-◌, Bool, true, false, not, ◌&&◌, ◌||◌, Option, none, some, length, get_elem?, leb, ◌==◌,
  ◌∷◌, [], if◌then◌else◌, slice,
}
use portex.Text.{Text, newline, text_eq, codes, char_is, space_at, isspace, is_empty}
use portex.Terminal.Search.Words.{is_whole_word_match}

-- `_LINE_START_PUNCTUATION_WRAP_PAIRS.get(opening)`
unfoldable pub wrap_pair : ℕ → Option ℕ
wrap_pair opening =
    if opening == b'['
    then some b']'
    else if opening == b'('
    then some b')'
    else if opening == b'{'
    then some b'}'
    else if opening == b'<'
    then some b'>'
    else none

-- What follows once the closing mark is known.
unfoldable pub closes_with : Text → ℕ → ℕ → Option ℕ → Bool
closes_with text offset query_length none = false
closes_with text offset query_length (some closing) =
    let opening_offset : ℕ = offset - 1 in
    let end : ℕ = offset + query_length in
    if not (opening_offset == 0) && not (char_is text (opening_offset - 1) newline)
    then false
    else text_eq (slice text end (end + 1)) (closing ∷ [])

unfoldable pub closing_mark : Option ℕ → Option ℕ
unfolding wrap_pair
closing_mark none = none
closing_mark (some opening) = wrap_pair opening

unfoldable pub is_line_start_punctuation_wrap_match : Text → ℕ → ℕ → Bool
unfolding closes_with closing_mark
is_line_start_punctuation_wrap_match text offset query_length =
    if not (is_whole_word_match text offset query_length)
    then false
    else if leb offset 0
    then false
    else closes_with text offset query_length (closing_mark (get_elem? text (offset - 1)))

-- `s == "" or s.isspace()`
unfoldable pub empty_or_space : Text → Bool
empty_or_space s = is_empty s || isspace s

unfoldable pub is_line_start_exact_tag_match : Text → ℕ → ℕ → Bool
is_line_start_exact_tag_match text offset query_length =
    let trailing_offset : ℕ = offset + query_length + 1 in
    if not (is_line_start_punctuation_wrap_match text offset query_length)
    then false
    else if leb (length text) trailing_offset
    then true
    else if space_at text trailing_offset
    then true
    else if char_is text trailing_offset b':'
    then empty_or_space (slice text (trailing_offset + 1) (trailing_offset + 2))
    else if text_eq (slice text trailing_offset (trailing_offset + 2)) (codes " -")
    then empty_or_space (slice text (trailing_offset + 2) (trailing_offset + 3))
    else false

unfoldable pub is_line_start_exact_tag_marker_match : Text → ℕ → ℕ → Bool
is_line_start_exact_tag_marker_match text offset query_length =
    let trailing_offset : ℕ = offset + query_length + 1 in
    if not (is_line_start_exact_tag_match text offset query_length)
    then false
    else if text_eq (slice text trailing_offset (trailing_offset + 1)) (codes ":")
    then empty_or_space (slice text (trailing_offset + 1) (trailing_offset + 2))
    else if text_eq (slice text trailing_offset (trailing_offset + 2)) (codes " -")
    then empty_or_space (slice text (trailing_offset + 2) (trailing_offset + 3))
    else false

unfoldable pub is_line_start_exact_tag_colon_marker_match : Text → ℕ → ℕ → Bool
is_line_start_exact_tag_colon_marker_match text offset query_length =
    let trailing_offset : ℕ = offset + query_length + 1 in
    if not (is_line_start_exact_tag_marker_match text offset query_length)
    then false
    else if not (text_eq (slice text trailing_offset (trailing_offset + 1)) (codes ":"))
    then false
    else empty_or_space (slice text (trailing_offset + 1) (trailing_offset + 2))

-- `text[offset - 1 : offset] == opening and text[end : end + 1] == closing`
unfoldable pub is_wrapped_in : Text → ℕ → ℕ → Text → Text → Bool
is_wrapped_in text offset query_length opening closing =
    text_eq (slice text (offset - 1) offset) opening
    && text_eq (slice text (offset + query_length) (offset + query_length + 1)) closing

unfoldable pub is_line_start_square_bracket_exact_tag_match : Text → ℕ → ℕ → Bool
is_line_start_square_bracket_exact_tag_match text offset query_length =
    if not (is_line_start_exact_tag_match text offset query_length)
    then false
    else is_wrapped_in text offset query_length (codes "[") (codes "]")

unfoldable pub is_line_start_square_bracket_plain_exact_tag_match : Text → ℕ → ℕ → Bool
is_line_start_square_bracket_plain_exact_tag_match text offset query_length =
    if not (is_line_start_square_bracket_exact_tag_match text offset query_length)
    then false
    else if is_line_start_exact_tag_marker_match text offset query_length
    then false
    else true

-- The three other wrappers of a tag that is no marker: one body, the marks aside.
abbrev is_wrapper_plain_exact_tag_match : Text → ℕ → ℕ → Text → Text → Bool
is_wrapper_plain_exact_tag_match text offset query_length opening closing =
    if not (is_line_start_exact_tag_match text offset query_length)
    then false
    else if is_line_start_exact_tag_marker_match text offset query_length
    then false
    else is_wrapped_in text offset query_length opening closing

unfoldable pub is_line_start_angle_wrapper_plain_exact_tag_match : Text → ℕ → ℕ → Bool
is_line_start_angle_wrapper_plain_exact_tag_match text offset query_length =
    is_wrapper_plain_exact_tag_match text offset query_length (codes "<") (codes ">")

unfoldable pub is_line_start_paren_wrapper_plain_exact_tag_match : Text → ℕ → ℕ → Bool
is_line_start_paren_wrapper_plain_exact_tag_match text offset query_length =
    is_wrapper_plain_exact_tag_match text offset query_length (codes "(") (codes ")")

unfoldable pub is_line_start_brace_wrapper_plain_exact_tag_match : Text → ℕ → ℕ → Bool
is_line_start_brace_wrapper_plain_exact_tag_match text offset query_length =
    is_wrapper_plain_exact_tag_match text offset query_length (codes "{") (codes "}")

-- `text[trailing_offset : trailing_offset + 2] == " -"`, then the end or a space.
unfoldable pub ends_with_dash : Text → ℕ → Bool
ends_with_dash text trailing_offset =
    if not (text_eq (slice text trailing_offset (trailing_offset + 2)) (codes " -"))
    then false
    else empty_or_space (slice text (trailing_offset + 2) (trailing_offset + 3))

unfoldable pub is_line_start_square_bracket_exact_tag_dash_marker_match : Text → ℕ → ℕ → Bool
is_line_start_square_bracket_exact_tag_dash_marker_match text offset query_length =
    if not (is_line_start_exact_tag_marker_match text offset query_length)
    then false
    else if not (is_line_start_square_bracket_exact_tag_match text offset query_length)
    then false
    else ends_with_dash text (offset + query_length + 1)

unfoldable pub is_line_start_paren_wrapper_marker_match : Text → ℕ → ℕ → Bool
is_line_start_paren_wrapper_marker_match text offset query_length =
    if not (is_line_start_exact_tag_marker_match text offset query_length)
    then false
    else is_wrapped_in text offset query_length (codes "(") (codes ")")

unfoldable pub is_line_start_brace_wrapper_marker_match : Text → ℕ → ℕ → Bool
is_line_start_brace_wrapper_marker_match text offset query_length =
    if not (is_line_start_exact_tag_marker_match text offset query_length)
    then false
    else is_wrapped_in text offset query_length (codes "{") (codes "}")

unfoldable pub is_line_start_non_square_bracket_exact_tag_colon_marker_match : Text → ℕ → ℕ → Bool
is_line_start_non_square_bracket_exact_tag_colon_marker_match text offset query_length =
    if not (is_line_start_exact_tag_colon_marker_match text offset query_length)
    then false
    else if is_line_start_square_bracket_exact_tag_match text offset query_length
    then false
    else true

unfoldable pub is_line_start_non_square_bracket_exact_tag_dash_marker_match : Text → ℕ → ℕ → Bool
is_line_start_non_square_bracket_exact_tag_dash_marker_match text offset query_length =
    if not (is_line_start_exact_tag_marker_match text offset query_length)
    then false
    else if is_line_start_square_bracket_exact_tag_match text offset query_length
    then false
    else ends_with_dash text (offset + query_length + 1)
