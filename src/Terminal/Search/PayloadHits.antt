-- ===== src/Terminal/Search/PayloadHits.antt =====
-- The counters of `TerminalSessionService` over what separates a plain tag from its line.
use portex.Common.{ℕ, List}
use portex.Text.{Text}
use portex.Terminal.Search.Payload.{
  is_multi_space_payload_match, is_non_single_space_separator_match,
  is_other_leading_mixed_whitespace_payload_match, is_other_leading_whitespace_payload_match,
  is_payloadless_separator_match, is_single_space_separator_match,
  is_space_prefixed_mixed_whitespace_payload_match, is_tab_prefixed_payload_match,
}
use portex.Terminal.Search.Tally.{tally, count_if, first_offset}

unfoldable pub count_single_space_separator_hits : Text → List ℕ → ℕ → ℕ × ℕ
count_single_space_separator_hits text offsets query_length =
    tally (λ offset. is_single_space_separator_match text offset query_length) offsets

unfoldable pub count_payloadless_separator_hits : Text → List ℕ → ℕ → ℕ
count_payloadless_separator_hits text offsets query_length =
    count_if (λ offset. is_payloadless_separator_match text offset query_length) offsets

unfoldable pub first_line_start_non_single_space_separator_offset : Text → List ℕ → ℕ → ℕ
first_line_start_non_single_space_separator_offset text offsets query_length =
    first_offset (λ offset. is_non_single_space_separator_match text offset query_length) offsets

unfoldable pub first_payloadless_separator_offset : Text → List ℕ → ℕ → ℕ
first_payloadless_separator_offset text offsets query_length =
    first_offset (λ offset. is_payloadless_separator_match text offset query_length) offsets

unfoldable pub count_tab_prefixed_payload_hits : Text → List ℕ → ℕ → ℕ
count_tab_prefixed_payload_hits text offsets query_length =
    count_if (λ offset. is_tab_prefixed_payload_match text offset query_length) offsets

unfoldable pub first_tab_prefixed_payload_offset : Text → List ℕ → ℕ → ℕ
first_tab_prefixed_payload_offset text offsets query_length =
    first_offset (λ offset. is_tab_prefixed_payload_match text offset query_length) offsets

unfoldable pub count_multi_space_payload_hits : Text → List ℕ → ℕ → ℕ
count_multi_space_payload_hits text offsets query_length =
    count_if (λ offset. is_multi_space_payload_match text offset query_length) offsets

unfoldable pub first_multi_space_payload_offset : Text → List ℕ → ℕ → ℕ
first_multi_space_payload_offset text offsets query_length =
    first_offset (λ offset. is_multi_space_payload_match text offset query_length) offsets

unfoldable pub count_space_prefixed_mixed_whitespace_payload_hits : Text → List ℕ → ℕ → ℕ
count_space_prefixed_mixed_whitespace_payload_hits text offsets query_length =
    count_if (λ offset. is_space_prefixed_mixed_whitespace_payload_match text offset query_length)
      offsets

unfoldable pub first_space_prefixed_mixed_whitespace_payload_offset : Text → List ℕ → ℕ → ℕ
first_space_prefixed_mixed_whitespace_payload_offset text offsets query_length =
    first_offset
      (λ offset. is_space_prefixed_mixed_whitespace_payload_match text offset query_length) offsets

unfoldable pub first_other_leading_whitespace_payload_offset : Text → List ℕ → ℕ → ℕ
first_other_leading_whitespace_payload_offset text offsets query_length =
    first_offset (λ offset. is_other_leading_whitespace_payload_match text offset query_length)
      offsets

unfoldable pub count_other_leading_mixed_whitespace_payload_hits : Text → List ℕ → ℕ → ℕ
count_other_leading_mixed_whitespace_payload_hits text offsets query_length =
    count_if (λ offset. is_other_leading_mixed_whitespace_payload_match text offset query_length)
      offsets

unfoldable pub first_other_leading_mixed_whitespace_payload_offset : Text → List ℕ → ℕ → ℕ
first_other_leading_mixed_whitespace_payload_offset text offsets query_length =
    first_offset
      (λ offset. is_other_leading_mixed_whitespace_payload_match text offset query_length) offsets
