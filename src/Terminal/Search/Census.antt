-- ===== src/Terminal/Search/Census.antt =====
-- The counters of services/terminal_sessions.py add up: no occurrence is counted in two classes of
-- one division, and none is left out.
use portex.Common.{ℕ, ◌+◌, ◌≡◌, refl, Bool, true, false, ◌&&◌, List, arith, drop}
use portex.Text.{Text}
use portex.Terminal.Search.Tally.{count_if}
use portex.Terminal.Search.Tally.Counting.{bit, tally-count, total-bit, total-add, total-cong}
use portex.Terminal.Search.Hits
use portex.Terminal.Search.PayloadHits
use portex.Terminal.Search.Tags.{
  is_line_start_exact_tag_match, is_line_start_exact_tag_marker_match,
  is_line_start_square_bracket_plain_exact_tag_match, is_line_start_square_bracket_exact_tag_match,
  is_line_start_paren_wrapper_plain_exact_tag_match,
  is_line_start_brace_wrapper_plain_exact_tag_match,
  is_line_start_angle_wrapper_plain_exact_tag_match,
}
use portex.Terminal.Search.Payload.{
  is_plain_tag, is_single_space_separator_match, is_payloadless_separator_match,
  is_tab_prefixed_payload_match, is_multi_space_payload_match,
  is_space_prefixed_mixed_whitespace_payload_match, is_other_leading_whitespace_payload_match,
}
use portex.Terminal.Search.TagEnds.{exact_tag_lem}
use portex.Terminal.Search.Separators.{Separator, separator_of, Separator-eqb, separators_lem}
use portex.Terminal.Search.Wrappers.{wrapper_sum}

-- Six tests that each answer for one class of a division.
six_classes :
    (p : Bool) (k : Separator)
    → bit p
      ≡ bit (p && Separator-eqb k Separator.single_space)
        + (bit (p && Separator-eqb k Separator.payloadless)
            + (bit (p && Separator-eqb k Separator.tab)
                + (bit (p && Separator-eqb k Separator.multi_space)
                    + (bit (p && Separator-eqb k Separator.mixed_space)
                        + bit (p && Separator-eqb k Separator.other_leading)))))
six_classes false k = refl
six_classes true Separator.single_space = refl
six_classes true Separator.payloadless = refl
six_classes true Separator.tab = refl
six_classes true Separator.multi_space = refl
six_classes true Separator.mixed_space = refl
six_classes true Separator.other_leading = refl

-- Any list of tests that add up to one test at each offset add up in their counts.
module _ (text : Text) (q : ℕ) where
  separators_at :
      (o : ℕ)
      → bit (is_plain_tag text o q)
        ≡ bit (is_single_space_separator_match text o q)
          + (bit (is_payloadless_separator_match text o q)
              + (bit (is_tab_prefixed_payload_match text o q)
                  + (bit (is_multi_space_payload_match text o q)
                      + (bit (is_space_prefixed_mixed_whitespace_payload_match text o q)
                          + bit (is_other_leading_whitespace_payload_match text o q)))))
  separators_at o =
      let (a, b, c, d, e, f) = separators_lem text o q in
      rw (a, b, c, d, e, f)
        (six_classes (is_plain_tag text o q) (separator_of (drop (o + q + 1) text)))

  tag_or_marker_at :
      (o : ℕ)
      → bit (is_line_start_exact_tag_match text o q)
        ≡ bit (is_line_start_exact_tag_marker_match text o q) + bit (is_plain_tag text o q)
  unfolding is_plain_tag is_line_start_exact_tag_marker_match
  tag_or_marker_at o = ground arith

  wrappers_at :
      (o : ℕ)
      → bit (is_plain_tag text o q)
        ≡ bit (is_line_start_square_bracket_plain_exact_tag_match text o q)
          + (bit (is_line_start_paren_wrapper_plain_exact_tag_match text o q)
              + (bit (is_line_start_brace_wrapper_plain_exact_tag_match text o q)
                  + bit (is_line_start_angle_wrapper_plain_exact_tag_match text o q)))
  unfolding is_plain_tag is_line_start_square_bracket_plain_exact_tag_match
      is_line_start_square_bracket_exact_tag_match is_line_start_paren_wrapper_plain_exact_tag_match
      is_line_start_brace_wrapper_plain_exact_tag_match
      is_line_start_angle_wrapper_plain_exact_tag_match
  wrappers_at o = ground (arith, wrapper_sum text o q, exact_tag_lem text o q)

  -- Over any offsets, the number of plain tags is the sum of the single-space, payloadless, tab,
  -- multi-space and mixed-space counters and of the number of occurrences with another leading
  -- space.
  pub separator_census :
      (offsets : List ℕ)
      → count_if (λ o. is_plain_tag text o q) offsets
        ≡ (PayloadHits.count_single_space_separator_hits text offsets q).0
          + (PayloadHits.count_payloadless_separator_hits text offsets q
              + (PayloadHits.count_tab_prefixed_payload_hits text offsets q
                  + (PayloadHits.count_multi_space_payload_hits text offsets q
                      + (PayloadHits.count_space_prefixed_mixed_whitespace_payload_hits text offsets
                            q
                          + count_if
                              (λ o. is_other_leading_whitespace_payload_match text o q)
                              offsets))))
  unfolding PayloadHits.count_single_space_separator_hits
      PayloadHits.count_payloadless_separator_hits PayloadHits.count_tab_prefixed_payload_hits
      PayloadHits.count_multi_space_payload_hits
      PayloadHits.count_space_prefixed_mixed_whitespace_payload_hits
  separator_census offsets =
      simp (tally-count, ← total-bit, ← total-add) (total-cong _ _ separators_at offsets)

  -- Over any offsets, the exact-tag counter is the sum of the marker counter and of the four
  -- counters of plain tags in square, round, curly and angle brackets.
  pub tag_census :
      (offsets : List ℕ)
      → (Hits.count_line_start_exact_tag_hits text offsets q).0
        ≡ (Hits.count_line_start_exact_tag_marker_hits text offsets q).0
          + ((Hits.count_line_start_square_bracket_plain_exact_tag_hits text offsets q).0
              + ((Hits.count_line_start_paren_wrapper_plain_exact_tag_hits text offsets q).0
                  + ((Hits.count_line_start_brace_wrapper_plain_exact_tag_hits text offsets q).0
                      + (Hits.count_line_start_angle_wrapper_plain_exact_tag_hits text offsets
                          q).0)))
  unfolding Hits.count_line_start_exact_tag_hits Hits.count_line_start_exact_tag_marker_hits
      Hits.count_line_start_square_bracket_plain_exact_tag_hits
      Hits.count_line_start_paren_wrapper_plain_exact_tag_hits
      Hits.count_line_start_brace_wrapper_plain_exact_tag_hits
      Hits.count_line_start_angle_wrapper_plain_exact_tag_hits
  tag_census offsets =
      simp (tally-count, ← total-bit, ← total-add)
        (total-cong _ _ (λ o. omega (arith, tag_or_marker_at o, wrappers_at o)) offsets)
