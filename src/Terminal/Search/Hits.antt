-- ===== src/Terminal/Search/Hits.antt =====
-- The counters of `TerminalSessionService` over words, wrappers and tags.
use portex.Common.{ℕ, List}
use portex.Text.{Text}
use portex.Terminal.Search.Words.{
  is_line_start_delimited_log_marker_match, is_line_start_log_marker_match,
  is_line_start_whole_word_match, is_whole_word_match,
}
use portex.Terminal.Search.Tags.{
  is_line_start_angle_wrapper_plain_exact_tag_match, is_line_start_brace_wrapper_marker_match,
  is_line_start_brace_wrapper_plain_exact_tag_match, is_line_start_exact_tag_colon_marker_match,
  is_line_start_exact_tag_marker_match, is_line_start_exact_tag_match,
  is_line_start_non_square_bracket_exact_tag_colon_marker_match,
  is_line_start_non_square_bracket_exact_tag_dash_marker_match,
  is_line_start_paren_wrapper_marker_match, is_line_start_paren_wrapper_plain_exact_tag_match,
  is_line_start_punctuation_wrap_match, is_line_start_square_bracket_exact_tag_dash_marker_match,
  is_line_start_square_bracket_exact_tag_match, is_line_start_square_bracket_plain_exact_tag_match,
}
use portex.Terminal.Search.Tally.{tally}

unfoldable pub count_whole_word_hits : Text → List ℕ → ℕ → ℕ × ℕ
count_whole_word_hits text offsets query_length =
    tally (λ offset. is_whole_word_match text offset query_length) offsets

unfoldable pub count_line_start_whole_word_hits : Text → List ℕ → ℕ → ℕ × ℕ
count_line_start_whole_word_hits text offsets query_length =
    tally (λ offset. is_line_start_whole_word_match text offset query_length) offsets

unfoldable pub count_line_start_log_marker_hits : Text → List ℕ → ℕ → ℕ × ℕ
count_line_start_log_marker_hits text offsets query_length =
    tally (λ offset. is_line_start_log_marker_match text offset query_length) offsets

unfoldable pub count_line_start_delimited_log_marker_hits : Text → List ℕ → ℕ → ℕ × ℕ
count_line_start_delimited_log_marker_hits text offsets query_length =
    tally (λ offset. is_line_start_delimited_log_marker_match text offset query_length) offsets

unfoldable pub count_line_start_punctuation_wrap_hits : Text → List ℕ → ℕ → ℕ × ℕ
count_line_start_punctuation_wrap_hits text offsets query_length =
    tally (λ offset. is_line_start_punctuation_wrap_match text offset query_length) offsets

unfoldable pub count_line_start_exact_tag_hits : Text → List ℕ → ℕ → ℕ × ℕ
count_line_start_exact_tag_hits text offsets query_length =
    tally (λ offset. is_line_start_exact_tag_match text offset query_length) offsets

unfoldable pub count_line_start_exact_tag_colon_marker_hits : Text → List ℕ → ℕ → ℕ × ℕ
count_line_start_exact_tag_colon_marker_hits text offsets query_length =
    tally (λ offset. is_line_start_exact_tag_colon_marker_match text offset query_length) offsets

unfoldable pub count_line_start_square_bracket_exact_tag_hits : Text → List ℕ → ℕ → ℕ × ℕ
count_line_start_square_bracket_exact_tag_hits text offsets query_length =
    tally (λ offset. is_line_start_square_bracket_exact_tag_match text offset query_length) offsets

unfoldable pub count_line_start_square_bracket_plain_exact_tag_hits : Text → List ℕ → ℕ → ℕ × ℕ
count_line_start_square_bracket_plain_exact_tag_hits text offsets query_length =
    tally (λ offset. is_line_start_square_bracket_plain_exact_tag_match text offset query_length)
      offsets

unfoldable pub count_line_start_angle_wrapper_plain_exact_tag_hits : Text → List ℕ → ℕ → ℕ × ℕ
count_line_start_angle_wrapper_plain_exact_tag_hits text offsets query_length =
    tally (λ offset. is_line_start_angle_wrapper_plain_exact_tag_match text offset query_length)
      offsets

unfoldable pub count_line_start_paren_wrapper_plain_exact_tag_hits : Text → List ℕ → ℕ → ℕ × ℕ
count_line_start_paren_wrapper_plain_exact_tag_hits text offsets query_length =
    tally (λ offset. is_line_start_paren_wrapper_plain_exact_tag_match text offset query_length)
      offsets

unfoldable pub count_line_start_brace_wrapper_plain_exact_tag_hits : Text → List ℕ → ℕ → ℕ × ℕ
count_line_start_brace_wrapper_plain_exact_tag_hits text offsets query_length =
    tally (λ offset. is_line_start_brace_wrapper_plain_exact_tag_match text offset query_length)
      offsets

unfoldable pub count_line_start_square_bracket_exact_tag_dash_marker_hits :
    Text → List ℕ → ℕ → ℕ × ℕ
count_line_start_square_bracket_exact_tag_dash_marker_hits text offsets query_length =
    tally
      (λ offset. is_line_start_square_bracket_exact_tag_dash_marker_match text offset query_length)
      offsets

unfoldable pub count_line_start_paren_wrapper_marker_hits : Text → List ℕ → ℕ → ℕ × ℕ
count_line_start_paren_wrapper_marker_hits text offsets query_length =
    tally (λ offset. is_line_start_paren_wrapper_marker_match text offset query_length) offsets

unfoldable pub count_line_start_brace_wrapper_marker_hits : Text → List ℕ → ℕ → ℕ × ℕ
count_line_start_brace_wrapper_marker_hits text offsets query_length =
    tally (λ offset. is_line_start_brace_wrapper_marker_match text offset query_length) offsets

unfoldable pub count_line_start_non_square_bracket_exact_tag_colon_marker_hits :
    Text → List ℕ → ℕ → ℕ × ℕ
count_line_start_non_square_bracket_exact_tag_colon_marker_hits text offsets query_length =
    tally
      (λ offset.
        is_line_start_non_square_bracket_exact_tag_colon_marker_match text offset query_length)
      offsets

unfoldable pub count_line_start_non_square_bracket_exact_tag_dash_marker_hits :
    Text → List ℕ → ℕ → ℕ × ℕ
count_line_start_non_square_bracket_exact_tag_dash_marker_hits text offsets query_length =
    tally
      (λ offset.
        is_line_start_non_square_bracket_exact_tag_dash_marker_match text offset query_length)
      offsets

unfoldable pub count_line_start_exact_tag_marker_hits : Text → List ℕ → ℕ → ℕ × ℕ
count_line_start_exact_tag_marker_hits text offsets query_length =
    tally (λ offset. is_line_start_exact_tag_marker_match text offset query_length) offsets
