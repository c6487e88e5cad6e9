-- ===== src/Terminal/Search/Tests.antt =====
-- The search of services/terminal_sessions.py at concrete histories.
use portex.Common.{ℕ, ◌+◌, ◌≡◌, refl, true, not, ◌&&◌, ◌||◌, some, List, [], ◌∷◌, ◌++◌, drop, slice}
use portex.Text.{Text, codes, text_eq, char_is, is_space, isspace, space_at}
use portex.Terminal.Search.Offsets.{find_case_insensitive_match_offsets}
use portex.Terminal.Search.Offsets.Scan.{IsScan, offsets_total}
use portex.Terminal.Search.Words.{is_word_char, is_word_opt, is_whole_word_match}
use portex.Terminal.Search.WholeWords.{last_char, first_char, whole_word_lem}
use portex.Terminal.Search.Tags.{
  empty_or_space, is_line_start_punctuation_wrap_match, is_line_start_exact_tag_match,
  is_line_start_exact_tag_marker_match,
}
use portex.Terminal.Search.TagEnds.{space_or_end, colon_end, exact_tag_lem}
use portex.Terminal.Search.Payload.{
  is_plain_tag, blank_line_rest, payload_line_rest, is_single_space_separator_match,
  is_payloadless_separator_match, is_tab_prefixed_payload_match, is_multi_space_payload_match,
  is_space_prefixed_mixed_whitespace_payload_match, is_other_leading_whitespace_payload_match,
}
use portex.Terminal.Search.Separators.{Separator, is_tag_before, separators_lem}
use portex.Terminal.Search.Tally.{count_if}
use portex.Terminal.Search.Census.{separator_census, tag_census}
use portex.Terminal.Search.Hits
use portex.Terminal.Search.PayloadHits

abbrev tagged : Text
tagged = codes "[ERROR]" ++ 9 ∷ codes "disk full"

abbrev dashed : Text
dashed = codes "[ERROR] -x"

abbrev offsets : List ℕ
offsets = 1 ∷ []

offsets_total_example :
    (os : List ℕ) × (find_case_insensitive_match_offsets (λ t. t) tagged (codes "ERROR") ≡ some os)
    × IsScan tagged (codes "ERROR") 0 os
offsets_total_example = offsets_total (λ t. t) tagged (codes "ERROR") refl refl

whole_word_lem_example :
    is_whole_word_match (codes "[" ++ (codes "ERROR" ++ codes "] x")) 1 5
    ≡ (not (is_word_opt (last_char (codes "["))) && not (is_word_opt (first_char (codes "] x"))))
whole_word_lem_example = whole_word_lem (codes "[") (codes "ERROR") (codes "] x")

exact_tag_lem_example : is_line_start_exact_tag_match dashed 1 5 ≡ (
    is_line_start_punctuation_wrap_match dashed 1 5
    && (space_or_end (drop 7 dashed) || colon_end (drop 7 dashed)))
exact_tag_lem_example = exact_tag_lem dashed 1 5

separators_lem_example :
    (is_single_space_separator_match tagged 1 5 ≡ is_tag_before tagged 1 5 Separator.single_space)
    × (is_payloadless_separator_match tagged 1 5 ≡ is_tag_before tagged 1 5 Separator.payloadless)
    × (is_tab_prefixed_payload_match tagged 1 5 ≡ is_tag_before tagged 1 5 Separator.tab)
    × (is_multi_space_payload_match tagged 1 5 ≡ is_tag_before tagged 1 5 Separator.multi_space)
    × (is_space_prefixed_mixed_whitespace_payload_match tagged 1 5
        ≡ is_tag_before tagged 1 5 Separator.mixed_space)
    × (is_other_leading_whitespace_payload_match tagged 1 5
        ≡ is_tag_before tagged 1 5 Separator.other_leading)
separators_lem_example = separators_lem tagged 1 5

tagged_is_tab_prefixed : is_tab_prefixed_payload_match tagged 1 5 ≡ true
unfolding is_tab_prefixed_payload_match is_payloadless_separator_match is_plain_tag
    is_line_start_exact_tag_match is_line_start_exact_tag_marker_match
    is_line_start_punctuation_wrap_match is_whole_word_match is_word_opt is_word_char slice text_eq
    blank_line_rest payload_line_rest is_space space_at char_is empty_or_space isspace
tagged_is_tab_prefixed = refl

separator_census_example :
    count_if (λ o. is_plain_tag tagged o 5) offsets
    ≡ (PayloadHits.count_single_space_separator_hits tagged offsets 5).0
      + (PayloadHits.count_payloadless_separator_hits tagged offsets 5
          + (PayloadHits.count_tab_prefixed_payload_hits tagged offsets 5
              + (PayloadHits.count_multi_space_payload_hits tagged offsets 5
                  + (PayloadHits.count_space_prefixed_mixed_whitespace_payload_hits tagged offsets 5
                      + count_if
                          (λ o. is_other_leading_whitespace_payload_match tagged o 5)
                          offsets))))
separator_census_example = separator_census tagged 5 offsets

tag_census_example :
    (Hits.count_line_start_exact_tag_hits tagged offsets 5).0
    ≡ (Hits.count_line_start_exact_tag_marker_hits tagged offsets 5).0
      + ((Hits.count_line_start_square_bracket_plain_exact_tag_hits tagged offsets 5).0
          + ((Hits.count_line_start_paren_wrapper_plain_exact_tag_hits tagged offsets 5).0
              + ((Hits.count_line_start_brace_wrapper_plain_exact_tag_hits tagged offsets 5).0
                  + (Hits.count_line_start_angle_wrapper_plain_exact_tag_hits tagged offsets 5).0)))
tag_census_example = tag_census tagged 5 offsets
