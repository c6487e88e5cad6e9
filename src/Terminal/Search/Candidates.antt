-- ===== src/Terminal/Search/Candidates.antt =====
-- The candidates of a search in services/terminal_sessions.py: what `_build_search_candidate` finds
-- out about one snapshot that has matches.
use portex.Common.{ℕ, ◌-◌, max, List, [], ◌∷◌, ltb, if◌then◌else◌}
use portex.Text.{Text}
use portex.Terminal.Sessions.{SessionRecord}
use portex.Terminal.Search.Offsets.{Snippet}
use portex.Terminal.Search.Tally.{no_match_offset}
use portex.Terminal.Search.Hits.{
  count_line_start_angle_wrapper_plain_exact_tag_hits, count_line_start_brace_wrapper_marker_hits,
  count_line_start_brace_wrapper_plain_exact_tag_hits, count_line_start_delimited_log_marker_hits,
  count_line_start_exact_tag_colon_marker_hits, count_line_start_exact_tag_hits,
  count_line_start_exact_tag_marker_hits, count_line_start_log_marker_hits,
  count_line_start_non_square_bracket_exact_tag_colon_marker_hits,
  count_line_start_non_square_bracket_exact_tag_dash_marker_hits,
  count_line_start_paren_wrapper_marker_hits, count_line_start_paren_wrapper_plain_exact_tag_hits,
  count_line_start_punctuation_wrap_hits,
  count_line_start_square_bracket_exact_tag_dash_marker_hits,
  count_line_start_square_bracket_exact_tag_hits,
  count_line_start_square_bracket_plain_exact_tag_hits, count_line_start_whole_word_hits,
  count_whole_word_hits,
}
use portex.Terminal.Search.PayloadHits.{
  count_multi_space_payload_hits, count_other_leading_mixed_whitespace_payload_hits,
  count_payloadless_separator_hits, count_single_space_separator_hits,
  count_space_prefixed_mixed_whitespace_payload_hits, count_tab_prefixed_payload_hits,
  first_line_start_non_single_space_separator_offset, first_multi_space_payload_offset,
  first_other_leading_mixed_whitespace_payload_offset,
  first_other_leading_whitespace_payload_offset, first_payloadless_separator_offset,
  first_space_prefixed_mixed_whitespace_payload_offset, first_tab_prefixed_payload_offset,
}

-- `TerminalSessionHistorySearchMatch`
pub record Match : Type 0 where
  pub info : SessionRecord
  pub snapshot_at : ℕ
  pub match_count : ℕ
  pub snippets : List Text
  pub snippet_matches : List Snippet

-- `_TerminalSessionHistorySearchCandidate`. The density is kept as the fraction that it divides.
pub record Candidate : Type 0 where
  pub match : Match
  pub line_start_log_marker_match_count : ℕ
  pub first_line_start_log_marker_offset : ℕ
  pub line_start_delimited_log_marker_match_count : ℕ
  pub first_line_start_delimited_log_marker_offset : ℕ
  pub line_start_exact_tag_marker_match_count : ℕ
  pub first_line_start_exact_tag_marker_offset : ℕ
  pub line_start_exact_tag_colon_marker_match_count : ℕ
  pub first_line_start_exact_tag_colon_marker_offset : ℕ
  pub line_start_square_bracket_exact_tag_dash_marker_match_count : ℕ
  pub first_line_start_square_bracket_exact_tag_dash_marker_offset : ℕ
  pub line_start_paren_wrapper_marker_match_count : ℕ
  pub first_line_start_paren_wrapper_marker_offset : ℕ
  pub line_start_brace_wrapper_marker_match_count : ℕ
  pub first_line_start_brace_wrapper_marker_offset : ℕ
  pub line_start_non_square_bracket_exact_tag_colon_marker_match_count : ℕ
  pub first_line_start_non_square_bracket_exact_tag_colon_marker_offset : ℕ
  pub line_start_non_square_bracket_exact_tag_dash_marker_match_count : ℕ
  pub first_line_start_non_square_bracket_exact_tag_dash_marker_offset : ℕ
  pub line_start_exact_tag_match_count : ℕ
  pub first_line_start_exact_tag_offset : ℕ
  pub line_start_square_bracket_exact_tag_match_count : ℕ
  pub first_line_start_square_bracket_exact_tag_offset : ℕ
  pub first_line_start_square_bracket_plain_exact_tag_offset : ℕ
  pub line_start_paren_wrapper_plain_exact_tag_match_count : ℕ
  pub first_line_start_paren_wrapper_plain_exact_tag_offset : ℕ
  pub line_start_brace_wrapper_plain_exact_tag_match_count : ℕ
  pub first_line_start_brace_wrapper_plain_exact_tag_offset : ℕ
  pub line_start_angle_wrapper_plain_exact_tag_match_count : ℕ
  pub first_line_start_angle_wrapper_plain_exact_tag_offset : ℕ
  pub line_start_plain_exact_tag_single_space_separator_match_count : ℕ
  pub first_line_start_plain_exact_tag_single_space_separator_offset : ℕ
  pub conditional_first_line_start_non_single_space_plain_exact_tag_separator_offset : ℕ
  pub conditional_line_start_plain_exact_tag_payloadless_separator_match_count : ℕ
  pub conditional_first_line_start_plain_exact_tag_payloadless_separator_offset : ℕ
  pub conditional_line_start_plain_exact_tag_tab_prefixed_payload_match_count : ℕ
  pub conditional_first_line_start_plain_exact_tag_tab_prefixed_payload_offset : ℕ
  pub conditional_line_start_plain_exact_tag_multi_space_payload_match_count : ℕ
  pub conditional_first_line_start_plain_exact_tag_multi_space_payload_offset : ℕ
  pub conditional_line_start_plain_exact_tag_space_prefixed_mixed_whitespace_payload_match_count : ℕ
  pub conditional_first_line_start_plain_exact_tag_space_prefixed_mixed_whitespace_payload_offset :
      ℕ
  pub conditional_line_start_plain_exact_tag_other_leading_mixed_whitespace_payload_match_count : ℕ
  pub conditional_first_line_start_plain_exact_tag_other_leading_mixed_whitespace_payload_offset : ℕ
  pub conditional_first_line_start_plain_exact_tag_other_leading_whitespace_payload_offset : ℕ
  pub conditional_non_exact_tag_punctuation_wrap_match_count : ℕ
  pub line_start_punctuation_wrap_match_count : ℕ
  pub first_line_start_punctuation_wrap_offset : ℕ
  pub whole_word_match_count : ℕ
  pub line_start_whole_word_match_count : ℕ
  pub conditional_non_line_start_whole_word_match_count : ℕ
  pub first_line_start_whole_word_offset : ℕ
  pub first_whole_word_offset : ℕ
  pub cluster_span : ℕ
  pub first_match_offset : ℕ
  pub match_density : ℕ × ℕ

-- `offsets[-1]`
abbrev pub last_offset : ℕ → List ℕ → ℕ
last_offset offset [] = offset
last_offset offset (o ∷ os) = last_offset o os

-- The offsets are not empty: the first one and the rest.
unfoldable pub build_search_candidate : Match → Text → ℕ → List ℕ → ℕ → ℕ → Candidate
build_search_candidate match text first rest query_length output_length =
    let offsets : List ℕ = first ∷ rest in
    record {
      match = match;
      line_start_log_marker_match_count =
          (count_line_start_log_marker_hits text offsets query_length).0;
      first_line_start_log_marker_offset =
          (count_line_start_log_marker_hits text offsets query_length).1;
      line_start_delimited_log_marker_match_count =
          (count_line_start_delimited_log_marker_hits text offsets query_length).0;
      first_line_start_delimited_log_marker_offset =
          (count_line_start_delimited_log_marker_hits text offsets query_length).1;
      line_start_exact_tag_marker_match_count =
          (count_line_start_exact_tag_marker_hits text offsets query_length).0;
      first_line_start_exact_tag_marker_offset =
          (count_line_start_exact_tag_marker_hits text offsets query_length).1;
      line_start_exact_tag_colon_marker_match_count =
          (count_line_start_exact_tag_colon_marker_hits text offsets query_length).0;
      first_line_start_exact_tag_colon_marker_offset =
          (count_line_start_exact_tag_colon_marker_hits text offsets query_length).1;
      line_start_square_bracket_exact_tag_dash_marker_match_count =
          (count_line_start_square_bracket_exact_tag_dash_marker_hits text offsets query_length).0;
      first_line_start_square_bracket_exact_tag_dash_marker_offset =
          (count_line_start_square_bracket_exact_tag_dash_marker_hits text offsets query_length).1;
      line_start_paren_wrapper_marker_match_count =
          (count_line_start_paren_wrapper_marker_hits text offsets query_length).0;
      first_line_start_paren_wrapper_marker_offset =
          (count_line_start_paren_wrapper_marker_hits text offsets query_length).1;
      line_start_brace_wrapper_marker_match_count =
          (count_line_start_brace_wrapper_marker_hits text offsets query_length).0;
      first_line_start_brace_wrapper_marker_offset =
          (count_line_start_brace_wrapper_marker_hits text offsets query_length).1;
      line_start_non_square_bracket_exact_tag_colon_marker_match_count =
          (count_line_start_non_square_bracket_exact_tag_colon_marker_hits text offsets
            query_length).0;
      first_line_start_non_square_bracket_exact_tag_colon_marker_offset =
          (count_line_start_non_square_bracket_exact_tag_colon_marker_hits text offsets
            query_length).1;
      line_start_non_square_bracket_exact_tag_dash_marker_match_count =
          (count_line_start_non_square_bracket_exact_tag_dash_marker_hits text offsets
            query_length).0;
      first_line_start_non_square_bracket_exact_tag_dash_marker_offset =
          (count_line_start_non_square_bracket_exact_tag_dash_marker_hits text offsets
            query_length).1;
      line_start_exact_tag_match_count =
          (count_line_start_exact_tag_hits text offsets query_length).0;
      first_line_start_exact_tag_offset =
          (count_line_start_exact_tag_hits text offsets query_length).1;
      line_start_square_bracket_exact_tag_match_count =
          (count_line_start_square_bracket_exact_tag_hits text offsets query_length).0;
      first_line_start_square_bracket_exact_tag_offset =
          (count_line_start_square_bracket_exact_tag_hits text offsets query_length).1;
      first_line_start_square_bracket_plain_exact_tag_offset =
          (count_line_start_square_bracket_plain_exact_tag_hits text offsets query_length).1;
      line_start_paren_wrapper_plain_exact_tag_match_count =
          (count_line_start_paren_wrapper_plain_exact_tag_hits text offsets query_length).0;
      first_line_start_paren_wrapper_plain_exact_tag_offset =
          (count_line_start_paren_wrapper_plain_exact_tag_hits text offsets query_length).1;
      line_start_brace_wrapper_plain_exact_tag_match_count =
          (count_line_start_brace_wrapper_plain_exact_tag_hits text offsets query_length).0;
      first_line_start_brace_wrapper_plain_exact_tag_offset =
          (count_line_start_brace_wrapper_plain_exact_tag_hits text offsets query_length).1;
      line_start_angle_wrapper_plain_exact_tag_match_count =
          (count_line_start_angle_wrapper_plain_exact_tag_hits text offsets query_length).0;
      first_line_start_angle_wrapper_plain_exact_tag_offset =
          (count_line_start_angle_wrapper_plain_exact_tag_hits text offsets query_length).1;
      line_start_plain_exact_tag_single_space_separator_match_count =
          (count_single_space_separator_hits text offsets query_length).0;
      first_line_start_plain_exact_tag_single_space_separator_offset =
          (count_single_space_separator_hits text offsets query_length).1;
      conditional_first_line_start_non_single_space_plain_exact_tag_separator_offset =
          if ltb 0 (count_single_space_separator_hits text offsets query_length).0
          then first_line_start_non_single_space_separator_offset text offsets query_length
          else no_match_offset;
      conditional_line_start_plain_exact_tag_payloadless_separator_match_count =
          if ltb 0 (count_single_space_separator_hits text offsets query_length).0
          then count_payloadless_separator_hits text offsets query_length
          else 0;
      conditional_first_line_start_plain_exact_tag_payloadless_separator_offset =
          if ltb 0 (count_single_space_separator_hits text offsets query_length).0
          then first_payloadless_separator_offset text offsets query_length
          else no_match_offset;
      conditional_line_start_plain_exact_tag_tab_prefixed_payload_match_count =
          if ltb 0 (count_single_space_separator_hits text offsets query_length).0
          then count_tab_prefixed_payload_hits text offsets query_length
          else 0;
      conditional_first_line_start_plain_exact_tag_tab_prefixed_payload_offset =
          if ltb 0 (count_single_space_separator_hits text offsets query_length).0
          then first_tab_prefixed_payload_offset text offsets query_length
          else no_match_offset;
      conditional_line_start_plain_exact_tag_multi_space_payload_match_count =
          if ltb 0 (count_single_space_separator_hits text offsets query_length).0
          then count_multi_space_payload_hits text offsets query_length
          else 0;
      conditional_first_line_start_plain_exact_tag_multi_space_payload_offset =
          if ltb 0 (count_single_space_separator_hits text offsets query_length).0
          then first_multi_space_payload_offset text offsets query_length
          else no_match_offset;
      conditional_line_start_plain_exact_tag_space_prefixed_mixed_whitespace_payload_match_count =
          if ltb 0 (count_single_space_separator_hits text offsets query_length).0
          then count_space_prefixed_mixed_whitespace_payload_hits text offsets query_length
          else 0;
      conditional_first_line_start_plain_exact_tag_space_prefixed_mixed_whitespace_payload_offset =
          if ltb 0 (count_single_space_separator_hits text offsets query_length).0
          then first_space_prefixed_mixed_whitespace_payload_offset text offsets query_length
          else no_match_offset;
      conditional_line_start_plain_exact_tag_other_leading_mixed_whitespace_payload_match_count =
          if ltb 0 (count_single_space_separator_hits text offsets query_length).0
          then count_other_leading_mixed_whitespace_payload_hits text offsets query_length
          else 0;
      conditional_first_line_start_plain_exact_tag_other_leading_mixed_whitespace_payload_offset =
          if ltb 0 (count_single_space_separator_hits text offsets query_length).0
          then first_other_leading_mixed_whitespace_payload_offset text offsets query_length
          else no_match_offset;
      conditional_first_line_start_plain_exact_tag_other_leading_whitespace_payload_offset =
          if ltb 0 (count_single_space_separator_hits text offsets query_length).0
          then first_other_leading_whitespace_payload_offset text offsets query_length
          else no_match_offset;
      conditional_non_exact_tag_punctuation_wrap_match_count =
          if ltb 0 (count_line_start_exact_tag_hits text offsets query_length).0
          then (count_line_start_punctuation_wrap_hits text offsets query_length).0
            - (count_line_start_exact_tag_hits text offsets query_length).0
          else 0;
      line_start_punctuation_wrap_match_count =
          (count_line_start_punctuation_wrap_hits text offsets query_length).0;
      first_line_start_punctuation_wrap_offset =
          (count_line_start_punctuation_wrap_hits text offsets query_length).1;
      whole_word_match_count = (count_whole_word_hits text offsets query_length).0;
      line_start_whole_word_match_count =
          (count_line_start_whole_word_hits text offsets query_length).0;
      conditional_non_line_start_whole_word_match_count =
          if ltb 0 (count_line_start_whole_word_hits text offsets query_length).0
          then (count_whole_word_hits text offsets query_length).0
            - (count_line_start_whole_word_hits text offsets query_length).0
          else 0;
      first_line_start_whole_word_offset =
          (count_line_start_whole_word_hits text offsets query_length).1;
      first_whole_word_offset = (count_whole_word_hits text offsets query_length).1;
      cluster_span = last_offset first rest - first;
      first_match_offset = first;
      match_density = (match.match_count, max 1 output_length);
    }
