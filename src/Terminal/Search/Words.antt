-- ===== src/Terminal/Search/Words.antt =====
-- The predicates of `TerminalSessionService` on one occurrence of the query that look at the word
-- and at what stands directly behind it. Offsets come from `str.find`, so they are not negative.
use portex.Common.{
  ℕ, ◌+◌, ◌-◌, Bool, false, not, ◌&&◌, ◌||◌, Option, none, some, length, get_elem?, ltb, leb, ◌==◌,
  if◌then◌else◌, slice,
}
use portex.Text.{Text, newline, text_eq, codes, char_is, space_at}

unfoldable pub is_word_char : ℕ → Bool
is_word_char c =
    leb b'a' c && leb c b'z' || leb b'A' c && leb c b'Z' || leb b'0' c && leb c b'9' || c == b'_'

-- `False if char is None else _is_word_char(char)`
unfoldable pub is_word_opt : Option ℕ → Bool
is_word_opt none = false
is_word_opt (some c) = is_word_char c

unfoldable pub is_whole_word_match : Text → ℕ → ℕ → Bool
is_whole_word_match text offset query_length =
    let end : ℕ = offset + query_length in
    let prev_char : Option ℕ = if ltb 0 offset then get_elem? text (offset - 1) else none in
    let next_char : Option ℕ = if ltb end (length text) then get_elem? text end else none in
    if ltb (length text) end
    then false
    else not (is_word_opt prev_char) && not (is_word_opt next_char)

unfoldable pub is_line_start_whole_word_match : Text → ℕ → ℕ → Bool
is_line_start_whole_word_match text offset query_length =
    if not (is_whole_word_match text offset query_length)
    then false
    else offset == 0 || char_is text (offset - 1) newline

unfoldable pub is_line_start_log_marker_match : Text → ℕ → ℕ → Bool
is_line_start_log_marker_match text offset query_length =
    let end : ℕ = offset + query_length in
    if not (is_line_start_whole_word_match text offset query_length)
    then false
    else text_eq (slice text end (end + 1)) (codes ":")
      || text_eq (slice text end (end + 2)) (codes " -")

unfoldable pub is_line_start_delimited_log_marker_match : Text → ℕ → ℕ → Bool
is_line_start_delimited_log_marker_match text offset query_length =
    let end : ℕ = offset + query_length in
    let ends_at =
      λ (trailing_offset : ℕ). leb (length text) trailing_offset || space_at text trailing_offset in
    if not (is_line_start_log_marker_match text offset query_length)
    then false
    else if text_eq (slice text end (end + 1)) (codes ":")
    then ends_at (end + 1)
    else if text_eq (slice text end (end + 2)) (codes " -")
    then ends_at (end + 2)
    else false
