-- ===== src/Terminal/Search/Ranking.antt =====
-- The order of the results of a search in services/terminal_sessions.py, and the search itself.
pub mod Order
pub mod Unique
mod Tests
use portex.Common.{ℕ, Bool, Option, none, some, List, [], ◌∷◌, length, map, if◌then◌else◌, ◌>>=◌}
use portex.Text.{Text, is_empty}
use portex.Sort.{Column, asc, desc, str_asc, ratio_desc, row_le, sort_rows}
use portex.Terminal.Sessions.{Snapshot}
use portex.Terminal.Search.Offsets.{
  Snippet, find_case_insensitive_match_offsets, build_search_snippets,
}
use portex.Terminal.Search.Candidates.{Match, Candidate, build_search_candidate}

pub data SearchSort : Type 0 where
  relevance newest oldest : SearchSort

-- The key of the order by relevance. A time's `timestamp()` is the time.
abbrev pub relevance_key : List (Column Candidate)
relevance_key =
    desc (λ c. c.match.match_count)
    ∷ desc (λ c. c.line_start_log_marker_match_count)
    ∷ desc (λ c. c.line_start_delimited_log_marker_match_count)
    ∷ desc (λ c. c.line_start_exact_tag_marker_match_count)
    ∷ desc (λ c. c.line_start_exact_tag_colon_marker_match_count)
    ∷ desc (λ c. c.line_start_square_bracket_exact_tag_dash_marker_match_count)
    ∷ desc (λ c. c.line_start_paren_wrapper_marker_match_count)
    ∷ desc (λ c. c.line_start_brace_wrapper_marker_match_count)
    ∷ desc (λ c. c.line_start_non_square_bracket_exact_tag_colon_marker_match_count)
    ∷ desc (λ c. c.line_start_non_square_bracket_exact_tag_dash_marker_match_count)
    ∷ desc (λ c. c.line_start_exact_tag_match_count)
    ∷ desc (λ c. c.line_start_square_bracket_exact_tag_match_count)
    ∷ desc (λ c. c.line_start_paren_wrapper_plain_exact_tag_match_count)
    ∷ desc (λ c. c.line_start_brace_wrapper_plain_exact_tag_match_count)
    ∷ asc (λ c. c.line_start_angle_wrapper_plain_exact_tag_match_count)
    ∷ desc (λ c. c.line_start_plain_exact_tag_single_space_separator_match_count)
    ∷ desc (λ c. c.conditional_first_line_start_non_single_space_plain_exact_tag_separator_offset)
    ∷ asc (λ c. c.conditional_line_start_plain_exact_tag_payloadless_separator_match_count)
    ∷ desc (λ c. c.conditional_first_line_start_plain_exact_tag_payloadless_separator_offset)
    ∷ asc (λ c. c.conditional_line_start_plain_exact_tag_tab_prefixed_payload_match_count)
    ∷ desc (λ c. c.conditional_first_line_start_plain_exact_tag_tab_prefixed_payload_offset)
    ∷ asc (λ c. c.conditional_line_start_plain_exact_tag_multi_space_payload_match_count)
    ∷ desc (λ c. c.conditional_first_line_start_plain_exact_tag_multi_space_payload_offset)
    ∷ asc (λ c.
      c.conditional_line_start_plain_exact_tag_space_prefixed_mixed_whitespace_payload_match_count)
    ∷ desc (λ c.
      c.conditional_first_line_start_plain_exact_tag_space_prefixed_mixed_whitespace_payload_offset)
    ∷ asc (λ c.
      c.conditional_line_start_plain_exact_tag_other_leading_mixed_whitespace_payload_match_count)
    ∷ desc (λ c.
      c.conditional_first_line_start_plain_exact_tag_other_leading_mixed_whitespace_payload_offset)
    ∷ desc (λ c.
      c.conditional_first_line_start_plain_exact_tag_other_leading_whitespace_payload_offset)
    ∷ asc (λ c. c.conditional_non_exact_tag_punctuation_wrap_match_count)
    ∷ desc (λ c. c.line_start_punctuation_wrap_match_count)
    ∷ desc (λ c. c.line_start_whole_word_match_count)
    ∷ asc (λ c. c.conditional_non_line_start_whole_word_match_count)
    ∷ desc (λ c. c.whole_word_match_count)
    ∷ asc (λ c. c.first_line_start_log_marker_offset)
    ∷ asc (λ c. c.first_line_start_delimited_log_marker_offset)
    ∷ asc (λ c. c.first_line_start_exact_tag_colon_marker_offset)
    ∷ asc (λ c. c.first_line_start_square_bracket_exact_tag_dash_marker_offset)
    ∷ asc (λ c. c.first_line_start_paren_wrapper_marker_offset)
    ∷ asc (λ c. c.first_line_start_brace_wrapper_marker_offset)
    ∷ asc (λ c. c.first_line_start_non_square_bracket_exact_tag_colon_marker_offset)
    ∷ asc (λ c. c.first_line_start_non_square_bracket_exact_tag_dash_marker_offset)
    ∷ asc (λ c. c.first_line_start_square_bracket_plain_exact_tag_offset)
    ∷ asc (λ c. c.first_line_start_paren_wrapper_plain_exact_tag_offset)
    ∷ asc (λ c. c.first_line_start_brace_wrapper_plain_exact_tag_offset)
    ∷ asc (λ c. c.first_line_start_angle_wrapper_plain_exact_tag_offset)
    ∷ asc (λ c. c.first_line_start_plain_exact_tag_single_space_separator_offset)
    ∷ asc (λ c. c.first_line_start_exact_tag_marker_offset)
    ∷ asc (λ c. c.first_line_start_exact_tag_offset)
    ∷ asc (λ c. c.first_line_start_square_bracket_exact_tag_offset)
    ∷ asc (λ c. c.first_line_start_punctuation_wrap_offset)
    ∷ asc (λ c. c.first_line_start_whole_word_offset)
    ∷ asc (λ c. c.first_whole_word_offset)
    ∷ asc (λ c. c.cluster_span)
    ∷ asc (λ c. c.first_match_offset)
    ∷ ratio_desc (λ c. c.match_density.0) (λ c. c.match_density.1)
    ∷ desc (λ c. c.match.snapshot_at)
    ∷ str_asc (λ c. c.match.info.session_id)
    ∷ []

abbrev pub newest_key : List (Column Candidate)
newest_key =
    desc (λ c. c.match.snapshot_at)
    ∷ desc (λ c. c.match.match_count)
    ∷ str_asc (λ c. c.match.info.session_id)
    ∷ []

abbrev pub oldest_key : List (Column Candidate)
oldest_key =
    asc (λ c. c.match.snapshot_at)
    ∷ desc (λ c. c.match.match_count)
    ∷ str_asc (λ c. c.match.info.session_id)
    ∷ []

abbrev pub sort_key : SearchSort → List (Column Candidate)
sort_key relevance = relevance_key
sort_key newest = newest_key
sort_key oldest = oldest_key

-- `_sort_history_search_matches`
unfoldable pub sort_history_search_matches : List Candidate → SearchSort → List Match
sort_history_search_matches candidates sort =
    map (λ c. c.match) (sort_rows (row_le (sort_key sort)) candidates)

-- The body of the loop of `_search_history_snapshots`, once the offsets are found.
unfoldable pub candidate_at : Snapshot → ℕ → ℕ → ℕ → List ℕ → Option Candidate
candidate_at snapshot query_length snippet_limit snippet_context_chars [] = none
candidate_at snapshot query_length snippet_limit snippet_context_chars (first ∷ rest) =
    let snippet_matches : List Snippet =
      build_search_snippets snapshot.output (first ∷ rest) query_length snippet_limit
        snippet_context_chars in
    let match : Match = record {
      info = snapshot.info;
      snapshot_at = snapshot.snapshot_at;
      match_count = length (first ∷ rest);
      snippets = map (λ item. item.text) snippet_matches;
      snippet_matches = snippet_matches;
    } in
    some (
      build_search_candidate match snapshot.output first rest query_length (length snapshot.output))

abbrev pub add_candidate : Option Candidate → List Candidate → List Candidate
add_candidate none rest = rest
add_candidate (some c) rest = c ∷ rest

-- `str.lower` is an argument; no result means that the fuel of a scan ran out.
module _ (lower : Text → Text) (query : Text) (snippet_limit snippet_context_chars : ℕ) where
  unfoldable pub search_candidates : List Snapshot → Option (List Candidate)
  search_candidates [] = some []
  search_candidates (snapshot ∷ rest) = do
    offsets ← find_case_insensitive_match_offsets lower snapshot.output query
    later ← search_candidates rest
    some (
        add_candidate
          (candidate_at snapshot (length query) snippet_limit snippet_context_chars offsets) later)

  -- `_search_history_snapshots`; an empty query has no candidates.
  unfoldable pub search_history_snapshots : List Snapshot → SearchSort → Option (List Match)
  search_history_snapshots snapshots sort =
      if is_empty query
      then some []
      else search_candidates snapshots >>= λ candidates.
          some (sort_history_search_matches candidates sort)
