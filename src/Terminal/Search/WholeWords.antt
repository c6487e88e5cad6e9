-- ===== src/Terminal/Search/WholeWords.antt =====
-- Whole words of services/terminal_sessions.py against the text on either side, and the order of
-- the counters that refine one another.
use portex.Common.{
  ℕ, zero, suc, ◌+◌, ◌-◌, ◌≤◌, ◌≡◌, refl, ◌∙◌, ap, true, false, not, ◌&&◌, Option, none, some, List,
  [], ◌∷◌, ◌++◌, length, ltb, arith, get_elem?, length-append, if◌then◌else◌,
}
use portex.Text.{Text}
use portex.Terminal.Search.Words.{
  is_word_opt, is_whole_word_match, is_line_start_whole_word_match, is_line_start_log_marker_match,
  is_line_start_delimited_log_marker_match,
}
use portex.Terminal.Search.Tags.{
  is_line_start_punctuation_wrap_match, is_line_start_exact_tag_match,
}
use portex.Terminal.Search.Tally.Counting.{tally-count, count_if_mono}
use portex.Terminal.Search.Hits

abbrev pub last_char : Text → Option ℕ
last_char [] = none
last_char (c ∷ []) = some c
last_char (c ∷ d ∷ r) = last_char (d ∷ r)

abbrev pub first_char : Text → Option ℕ
first_char [] = none
first_char (c ∷ r) = some c

get_elem?-behind :
    (before rest : Text) → get_elem? (before ++ rest) (length before) ≡ first_char rest
get_elem?-behind [] [] = refl
get_elem?-behind [] (c ∷ r) = refl
get_elem?-behind (c ∷ before) rest = get_elem?-behind before rest

get_elem?-last :
    (c : ℕ) (before rest : Text)
    → get_elem? ((c ∷ before) ++ rest) (length before) ≡ last_char (c ∷ before)
get_elem?-last c [] rest = refl
get_elem?-last c (d ∷ before) rest = get_elem?-last d before rest

prev_char_lem :
    (before rest : Text)
    → (if ltb 0 (length before) then get_elem? (before ++ rest) (length before - 1) else none)
      ≡ last_char before
prev_char_lem [] rest = refl
prev_char_lem (c ∷ before) rest =
    let e : suc (length before) - 1 ≡ length before = omega arith in
    ground (arith, e, get_elem?-last c before rest, ap (get_elem? ((c ∷ before) ++ rest)) e)

get_elem?-guarded :
    (i : ℕ) (xs : Text) → (if ltb i (length xs) then get_elem? xs i else none) ≡ get_elem? xs i
get_elem?-guarded i [] = ground arith
get_elem?-guarded zero (x ∷ xs) = ground arith
get_elem?-guarded (suc i) (x ∷ xs) = ground (arith, get_elem?-guarded i xs)

get_elem?-shift :
    (before rest : Text) (k : ℕ) → get_elem? (before ++ rest) (length before + k) ≡ get_elem? rest k
get_elem?-shift [] rest k = let e : 0 + k ≡ k = omega arith in rw e
get_elem?-shift (c ∷ before) rest k =
    let e : suc (length before) + k ≡ suc (length before + k) = omega arith in
    rw e (get_elem?-shift before rest k)

next_char_lem :
    (before word after : Text)
    → (if ltb (length before + length word) (length (before ++ (word ++ after)))
        then get_elem? (before ++ (word ++ after)) (length before + length word)
        else none)
      ≡ first_char after
next_char_lem before word after =
    get_elem?-guarded (length before + length word) (before ++ (word ++ after))
    ∙ get_elem?-shift before (word ++ after) (length word)
    ∙ get_elem?-behind word after

-- An occurrence of a word between a text before it and a text after it is a whole-word match
-- exactly if the text before does not end in a word character and the text after does not begin
-- with one.
pub whole_word_lem :
    (before word after : Text)
    → is_whole_word_match (before ++ (word ++ after)) (length before) (length word)
      ≡ (not (is_word_opt (last_char before)) && not (is_word_opt (first_char after)))
unfolding is_whole_word_match
whole_word_lem before word after =
    let inside : ltb (length (before ++ (word ++ after))) (length before + length word) ≡ false =
      ground (arith, length-append before (word ++ after), length-append word after) in
    rw (inside, prev_char_lem before (word ++ after), next_char_lem before word after)

module _ (text : Text) (q o : ℕ) where
  line_start-whole :
      is_line_start_whole_word_match text o q ≡ true → is_whole_word_match text o q ≡ true
  unfolding is_line_start_whole_word_match
  line_start-whole h = ground arith

  log_marker-line_start :
      is_line_start_log_marker_match text o q ≡ true
      → is_line_start_whole_word_match text o q ≡ true
  unfolding is_line_start_log_marker_match
  log_marker-line_start h = ground arith

  delimited-log_marker :
      is_line_start_delimited_log_marker_match text o q ≡ true
      → is_line_start_log_marker_match text o q ≡ true
  unfolding is_line_start_delimited_log_marker_match
  delimited-log_marker h = ground arith

  wrap-whole :
      is_line_start_punctuation_wrap_match text o q ≡ true → is_whole_word_match text o q ≡ true
  unfolding is_line_start_punctuation_wrap_match
  wrap-whole h = ground arith

  exact_tag-wrap :
      is_line_start_exact_tag_match text o q ≡ true
      → is_line_start_punctuation_wrap_match text o q ≡ true
  unfolding is_line_start_exact_tag_match
  exact_tag-wrap h = ground arith

-- Over any offsets, the delimited log-marker count is at most the log-marker count, that at most
-- the line-start whole-word count, that at most the whole-word count; and the exact-tag count is at
-- most the punctuation-wrap count, which is at most the whole-word count.
pub hits_order :
    (text : Text) (offsets : List ℕ) (q : ℕ)
    → ((Hits.count_line_start_delimited_log_marker_hits text offsets q).0
        ≤ (Hits.count_line_start_log_marker_hits text offsets q).0)
      × ((Hits.count_line_start_log_marker_hits text offsets q).0
          ≤ (Hits.count_line_start_whole_word_hits text offsets q).0)
      × ((Hits.count_line_start_whole_word_hits text offsets q).0
          ≤ (Hits.count_whole_word_hits text offsets q).0)
      × ((Hits.count_line_start_exact_tag_hits text offsets q).0
          ≤ (Hits.count_line_start_punctuation_wrap_hits text offsets q).0)
      × ((Hits.count_line_start_punctuation_wrap_hits text offsets q).0
          ≤ (Hits.count_whole_word_hits text offsets q).0)
unfolding Hits.count_line_start_delimited_log_marker_hits Hits.count_line_start_log_marker_hits
    Hits.count_line_start_whole_word_hits Hits.count_whole_word_hits
    Hits.count_line_start_exact_tag_hits Hits.count_line_start_punctuation_wrap_hits
hits_order text offsets q = simp tally-count (
  count_if_mono _ _ (delimited-log_marker text q) offsets,
  count_if_mono _ _ (log_marker-line_start text q) offsets,
  count_if_mono _ _ (line_start-whole text q) offsets,
  count_if_mono _ _ (exact_tag-wrap text q) offsets,
  count_if_mono _ _ (wrap-whole text q) offsets,
)
