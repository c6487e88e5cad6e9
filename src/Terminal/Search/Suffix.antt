-- ===== src/Terminal/Search/Suffix.antt =====
-- What the slices and index tests of services/terminal_sessions.py read, as questions about the
-- suffix of the text from an offset on.
use portex.Common.{
  ℕ, zero, suc, ◌+◌, ◌-◌, ◌≡◌, refl, ap, false, Option, none, some, List, [], ◌∷◌, length, take,
  drop, leb, ◌==◌, slice, arith, drop-suc, get_elem?-drop,
}
use portex.Text.{Text, char_is, is_space, space_at, is_empty}

module _ {ℓ} {A : Type ℓ} where
  slice-width : (xs : List A) (i j n : ℕ) → j ≡ i + n → slice xs i j ≡ take n (drop i xs)
  unfolding slice
  slice-width xs i j n e = let w : j - i ≡ n = omega arith in rw w

  drop-add : (xs : List A) (i j n : ℕ) → j ≡ n + i → drop j xs ≡ drop n (drop i xs)
  drop-add xs i j zero e = let w : j ≡ i = omega arith in rw w
  drop-add xs i j (suc n) e =
      let w : j ≡ suc (n + i) = omega arith in
      rw (w, drop-suc (n + i) xs, drop-add xs i (n + i) n refl, drop-suc n (drop i xs))

leb-drop : (i : ℕ) (text : Text) → leb (length text) i ≡ is_empty (drop i text)
leb-drop zero [] = refl
leb-drop zero (c ∷ r) = ground arith
leb-drop (suc i) [] = ground arith
leb-drop (suc i) (c ∷ r) = ground (arith, leb-drop i r)

module _ (text : Text) (i : ℕ) where
  pub slice_first : slice text i (i + 1) ≡ take 1 (drop i text)
  slice_first = slice-width text i (i + 1) 1 refl

  pub slice_first_two : slice text i (i + 2) ≡ take 2 (drop i text)
  slice_first_two = slice-width text i (i + 2) 2 refl

  pub slice_second : slice text (i + 1) (i + 2) ≡ take 1 (drop 1 (drop i text))
  slice_second =
      rw (← drop-add text i (i + 1) 1 (omega arith))
        (slice-width text (i + 1) (i + 2) 1 (omega arith))

  pub slice_third : slice text (i + 2) (i + 3) ≡ take 1 (drop 2 (drop i text))
  slice_third =
      rw (← drop-add text i (i + 2) 2 (omega arith))
        (slice-width text (i + 2) (i + 3) 1 (omega arith))

  pub past_end : leb (length text) i ≡ is_empty (drop i text)
  past_end = leb-drop i text

  pub char_is-drop : (c : ℕ) → char_is text i c ≡ char_is (drop i text) 0 c
  unfolding char_is
  char_is-drop c =
      ap (λ (o : Option ℕ). elim o [ none ↦ false | some d ↦ d == c ]) (get_elem?-drop i text)

  pub space_at-drop : space_at text i ≡ space_at (drop i text) 0
  unfolding space_at
  space_at-drop =
      ap (λ (o : Option ℕ). elim o [ none ↦ false | some c ↦ is_space c ]) (get_elem?-drop i text)
