-- ===== src/Terminal/Search/Wrappers.antt =====
-- The four kinds of wrapper in services/terminal_sessions.py.
use portex.Common.{
  ℕ, ◌+◌, ◌-◌, ◌≡◌, refl, sym, ◌∙◌, true, Option, none, some, [], ◌∷◌, arith, take, drop, get_elem?,
  get_elem?-drop, slice, ◌<◌,
}
use portex.Text.{Text, text_eq, codes}
use portex.Terminal.Search.Tally.Counting.{bit}
use portex.Terminal.Search.Tags.{
  is_line_start_punctuation_wrap_match, is_wrapped_in, wrap_pair, closes_with, closing_mark,
}
use portex.Terminal.Search.Suffix.{slice_first}

pub text_eq_sound : (s t : Text) → text_eq s t ≡ true → s ≡ t
unfolding text_eq
text_eq_sound [] [] h = refl
text_eq_sound [] (d ∷ t) h = cc
text_eq_sound (c ∷ s) [] h = cc
text_eq_sound (c ∷ s) (d ∷ t) h = ground (arith, text_eq_sound s t)

take_one : (r : Text) (c : ℕ) → get_elem? r 0 ≡ some c → take 1 r ≡ c ∷ []
take_one [] c h = cc
take_one (d ∷ r) c h = ground arith

-- The mark before a wrapped word, the mark behind it, and that they belong together.
record Wrap (text : Text) (offset query_length : ℕ) : Type 0 where
  opening : ℕ
  closing : ℕ
  before : slice text (offset - 1) offset ≡ opening ∷ []
  behind : slice text (offset + query_length) (offset + query_length + 1) ≡ closing ∷ []
  paired : wrap_pair opening ≡ some closing

module _ (text : Text) (offset query_length : ℕ) where
  closes_with_inv :
      (m : Option ℕ)
      → closes_with text offset query_length m ≡ true
      → (c : ℕ) × (m ≡ some c)
        × (slice text (offset + query_length) (offset + query_length + 1) ≡ c ∷ [])
  unfolding closes_with
  closes_with_inv none h = cc
  closes_with_inv (some c) h = (c, refl, text_eq_sound _ _ (ground arith))

  closing_mark_inv :
      (o : Option ℕ) (c : ℕ)
      → closing_mark o ≡ some c
      → (a : ℕ) × (o ≡ some a) × (wrap_pair a ≡ some c)
  unfolding closing_mark
  closing_mark_inv none c h = cc
  closing_mark_inv (some a) c h = (a, refl, h)

  wrap_parts :
      is_line_start_punctuation_wrap_match text offset query_length ≡ true
      → (0 < offset)
        × (closes_with text offset query_length (closing_mark (get_elem? text (offset - 1))) ≡ true)
  unfolding is_line_start_punctuation_wrap_match
  wrap_parts h = ground arith

  match-Wrap :
      is_line_start_punctuation_wrap_match text offset query_length ≡ true
      → Wrap text offset query_length
  match-Wrap h =
      let (pos, closes) = wrap_parts h in
      let (c, marked, behind) =
        closes_with_inv (closing_mark (get_elem? text (offset - 1))) closes in
      let (a, found, paired) = closing_mark_inv (get_elem? text (offset - 1)) c marked in
      let one : slice text (offset - 1) (offset - 1 + 1) ≡ a ∷ [] =
        rw (slice_first text (offset - 1))
          (take_one (drop (offset - 1) text) a (sym (get_elem?-drop (offset - 1) text) ∙ found)) in
      let back : offset - 1 + 1 ≡ offset = omega arith in
      record { opening = a; closing = c; before = rw back at one; behind = behind; paired = paired }

  wrapper_sum_of :
      Wrap text offset query_length
      → bit (is_wrapped_in text offset query_length (codes "[") (codes "]"))
          + bit (is_wrapped_in text offset query_length (codes "(") (codes ")"))
          + bit (is_wrapped_in text offset query_length (codes "{") (codes "}"))
          + bit (is_wrapped_in text offset query_length (codes "<") (codes ">"))
        ≡ 1
  unfolding is_wrapped_in wrap_pair text_eq
  wrapper_sum_of w = rw (w.before, w.behind) (ground (arith, w.paired))

  -- A wrapped word is in exactly one of the four kinds of wrapper.
  pub wrapper_sum :
      is_line_start_punctuation_wrap_match text offset query_length ≡ true
      → bit (is_wrapped_in text offset query_length (codes "[") (codes "]"))
          + bit (is_wrapped_in text offset query_length (codes "(") (codes ")"))
          + bit (is_wrapped_in text offset query_length (codes "{") (codes "}"))
          + bit (is_wrapped_in text offset query_length (codes "<") (codes ">"))
        ≡ 1
  wrapper_sum h = wrapper_sum_of (match-Wrap h)
