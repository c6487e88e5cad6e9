-- ===== src/Terminal/Search/Payload.antt =====
-- The predicates of `TerminalSessionService` on a tag at the start of a line that is no marker, by
-- what separates the tag from the rest of its line. The `cursor` loops run over the suffix of the
-- text that starts at the separator.
use portex.Common.{
  ℕ, ◌+◌, Bool, true, false, not, ◌&&◌, ◌||◌, [], ◌∷◌, length, drop, leb, ◌==◌, if◌then◌else◌,
  slice,
}
use portex.Text.{Text, newline, text_eq, codes, is_space, isspace, is_empty}
use portex.Terminal.Search.Tags.{
  is_line_start_exact_tag_match, is_line_start_exact_tag_marker_match,
}

-- The loop that answers `False` at the first character that is no space, and `True` at the end of
-- the line.
unfoldable pub blank_line_rest : Text → Bool
blank_line_rest [] = true
blank_line_rest (c ∷ rest) =
    let go_on = blank_line_rest rest in
    if c == newline then true else if not (is_space c) then false else go_on

-- The loop that answers `True` at the first character that is no space, and `False` at the end of
-- the line.
unfoldable pub payload_line_rest : Text → Bool
payload_line_rest [] = false
payload_line_rest (c ∷ rest) =
    let go_on = payload_line_rest rest in
    if c == newline then false else if not (is_space c) then true else go_on

-- The two guards that every predicate below begins with: a tag, and no marker.
unfoldable pub is_plain_tag : Text → ℕ → ℕ → Bool
is_plain_tag text offset query_length =
    if not (is_line_start_exact_tag_match text offset query_length)
    then false
    else if is_line_start_exact_tag_marker_match text offset query_length
    then false
    else true

unfoldable pub is_single_space_separator_match : Text → ℕ → ℕ → Bool
is_single_space_separator_match text offset query_length =
    let separator_offset : ℕ = offset + query_length + 1 in
    let next_char : Text = slice text (separator_offset + 1) (separator_offset + 2) in
    if not (is_plain_tag text offset query_length)
    then false
    else if not (text_eq (slice text separator_offset (separator_offset + 1)) (codes " "))
    then false
    else not (is_empty next_char) && not (isspace next_char)

unfoldable pub is_payloadless_separator_match : Text → ℕ → ℕ → Bool
is_payloadless_separator_match text offset query_length =
    let separator_offset : ℕ = offset + query_length + 1 in
    if not (is_plain_tag text offset query_length)
    then false
    else if leb (length text) separator_offset
    then true
    else blank_line_rest (drop separator_offset text)

unfoldable pub is_non_single_space_separator_match : Text → ℕ → ℕ → Bool
is_non_single_space_separator_match text offset query_length =
    if not (is_plain_tag text offset query_length)
    then false
    else if is_single_space_separator_match text offset query_length
    then false
    else true

unfoldable pub is_tab_prefixed_payload_match : Text → ℕ → ℕ → Bool
is_tab_prefixed_payload_match text offset query_length =
    let separator_offset : ℕ = offset + query_length + 1 in
    if not (is_plain_tag text offset query_length)
    then false
    else if is_payloadless_separator_match text offset query_length
    then false
    else if not (text_eq (slice text separator_offset (separator_offset + 1)) (9 ∷ []))
    then false
    else payload_line_rest (drop separator_offset text)

unfoldable pub is_multi_space_payload_match : Text → ℕ → ℕ → Bool
is_multi_space_payload_match text offset query_length =
    let separator_offset : ℕ = offset + query_length + 1 in
    if not (is_plain_tag text offset query_length)
    then false
    else if is_payloadless_separator_match text offset query_length
    then false
    else if is_tab_prefixed_payload_match text offset query_length
    then false
    else if not (text_eq (slice text separator_offset (separator_offset + 1)) (codes " "))
    then false
    else if not (text_eq (slice text (separator_offset + 1) (separator_offset + 2)) (codes " "))
    then false
    else payload_line_rest (drop separator_offset text)

unfoldable pub is_space_prefixed_mixed_whitespace_payload_match : Text → ℕ → ℕ → Bool
is_space_prefixed_mixed_whitespace_payload_match text offset query_length =
    let separator_offset : ℕ = offset + query_length + 1 in
    let second_separator : Text = slice text (separator_offset + 1) (separator_offset + 2) in
    if not (is_plain_tag text offset query_length)
    then false
    else if is_payloadless_separator_match text offset query_length
    then false
    else if is_tab_prefixed_payload_match text offset query_length
    then false
    else if is_multi_space_payload_match text offset query_length
    then false
    else if not (text_eq (slice text separator_offset (separator_offset + 1)) (codes " "))
    then false
    else if is_empty second_separator
        || not (isspace second_separator)
        || text_eq second_separator (codes " ")
    then false
    else payload_line_rest (drop separator_offset text)

unfoldable pub is_other_leading_whitespace_payload_match : Text → ℕ → ℕ → Bool
is_other_leading_whitespace_payload_match text offset query_length =
    let separator_offset : ℕ = offset + query_length + 1 in
    let leading : Text = slice text separator_offset (separator_offset + 1) in
    if not (is_plain_tag text offset query_length)
    then false
    else if is_payloadless_separator_match text offset query_length
    then false
    else if is_tab_prefixed_payload_match text offset query_length
    then false
    else if is_multi_space_payload_match text offset query_length
    then false
    else if is_space_prefixed_mixed_whitespace_payload_match text offset query_length
    then false
    else if is_empty leading
        || not (isspace leading)
        || (text_eq leading (codes " ") || text_eq leading (9 ∷ []))
    then false
    else payload_line_rest (drop separator_offset text)

unfoldable pub is_other_leading_mixed_whitespace_payload_match : Text → ℕ → ℕ → Bool
is_other_leading_mixed_whitespace_payload_match text offset query_length =
    let separator_offset : ℕ = offset + query_length + 1 in
    let second_separator : Text = slice text (separator_offset + 1) (separator_offset + 2) in
    if not (is_other_leading_whitespace_payload_match text offset query_length)
    then false
    else not (is_empty second_separator) && isspace second_separator
