-- ===== src/Terminal/Search/Offsets/Scan.antt =====
-- The search for offsets against its description: the leftmost occurrences that do not overlap.
use portex.Common.{
  ℕ, zero, suc, ◌+◌, ◌-◌, ◌≤◌, ◌<◌, ◌≡◌, refl, sym, ◌∙◌, ap, Bool, true, false, Option, none, some,
  List, [], ◌∷◌, length, length-drop, drop, ltb, arith, Bool-cases, Option-cases, inl, inr, max,
  ltb→lt,
}
use portex.Text.{Text, is_empty}
use portex.Terminal.Search.Offsets.{
  starts_with, find_in, find, offsets_loop, find_case_insensitive_match_offsets,
}

-- The query stands in the text at an offset.
abbrev pub occurs : Text → Text → ℕ → Bool
occurs text query i = starts_with query (drop i text)

-- The offsets are the occurrences from a position on, each the first that lies behind the end of
-- the one before it.
abbrev pub IsScan : Text → Text → ℕ → List ℕ → Type 0
IsScan text query position [] =
    (i : ℕ) → position ≤ i → i ≤ length text → occurs text query i ≡ false
IsScan text query position (o ∷ os) =
    (position ≤ o)
    × (o ≤ length text)
    × (occurs text query o ≡ true)
    × ((i : ℕ) → position ≤ i → i < o → occurs text query i ≡ false)
    × IsScan text query (o + max 1 (length query)) os

-- What `find` answers.
abbrev IsFirst : Text → Text → ℕ → Option ℕ → Type 0
IsFirst text query position none =
    (i : ℕ) → position ≤ i → i ≤ length text → occurs text query i ≡ false
IsFirst text query position (some o) =
    (position ≤ o)
    × (o ≤ length text)
    × (occurs text query o ≡ true)
    × ((i : ℕ) → position ≤ i → i < o → occurs text query i ≡ false)

starts_with-nil : (query : Text) → starts_with query [] ≡ is_empty query
unfolding starts_with
starts_with-nil [] = refl
starts_with-nil (c ∷ q) = refl

-- The scan over a suffix, in the suffix's own indices.
abbrev IsFirstIn : Text → ℕ → Text → Option ℕ → Type 0
IsFirstIn query i r none = (k : ℕ) → k ≤ length r → occurs r query k ≡ false
IsFirstIn query i r (some o) =
    (j : ℕ) × (o ≡ i + j)
    × (j ≤ length r)
    × (occurs r query j ≡ true)
    × ((k : ℕ) → k < j → occurs r query k ≡ false)

-- One more character in front.
none_step :
    (query : Text) (c : ℕ) (r : Text)
    → starts_with query (c ∷ r) ≡ false
    → ((k : ℕ) → k ≤ length r → occurs r query k ≡ false)
    → (k : ℕ) → k ≤ length (c ∷ r)
    → occurs (c ∷ r) query k ≡ false
none_step query c r e h zero le = e
none_step query c r e h (suc k) le = h k (omega arith)

some_step :
    (query : Text) (c : ℕ) (r : Text) (j : ℕ)
    → starts_with query (c ∷ r) ≡ false
    → ((k : ℕ) → k < j → occurs r query k ≡ false)
    → (k : ℕ) → k < suc j
    → occurs (c ∷ r) query k ≡ false
some_step query c r j e h zero lt = e
some_step query c r j e h (suc k) lt = h k (omega arith)

IsFirstIn-step :
    (query : Text) (i c : ℕ) (r : Text) (o : Option ℕ)
    → starts_with query (c ∷ r) ≡ false
    → IsFirstIn query (i + 1) r o
    → IsFirstIn query i (c ∷ r) o
IsFirstIn-step query i c r none e h = none_step query c r e h
IsFirstIn-step query i c r (some o) e (j, at, le, hit, before) =
    (suc j, omega arith, omega arith, hit, some_step query c r j e before)

find_in-IsFirstIn : (query : Text) (i : ℕ) (r : Text) → IsFirstIn query i r (find_in query i r)
unfolding find_in
find_in-IsFirstIn query i [] = elim (Bool-cases (is_empty query)) [
  | inl e ↦
      rw e (0, omega arith, omega arith, starts_with-nil query ∙ e, λ k lt. absurd (omega arith))
  | inr e ↦ rw e (none_nil query e)
]
  where
    none_nil : (q : Text) → is_empty q ≡ false → (k : ℕ) → k ≤ 0 → occurs [] q k ≡ false
    none_nil q e zero le = starts_with-nil q ∙ e
    none_nil q e (suc k) le = absurd (omega arith)
find_in-IsFirstIn query i (c ∷ r) = elim (Bool-cases (starts_with query (c ∷ r))) [
  | inl e ↦ rw e (0, omega arith, omega arith, e, λ k lt. absurd (omega arith))
  | inr e ↦
      rw e
        (IsFirstIn-step query i c r (find_in query (i + 1) r) e (find_in-IsFirstIn query (i + 1) r))
]

drop-nil {ℓ} : {A : Type ℓ} (k : ℕ) → drop {A = A} k [] ≡ []
drop-nil zero = refl
drop-nil (suc k) = refl

drop-drop {ℓ} : {A : Type ℓ} (n k : ℕ) (xs : List A) → drop k (drop n xs) ≡ drop (n + k) xs
drop-drop zero k xs = let e : 0 + k ≡ k = omega arith in rw e
drop-drop (suc n) k [] = let e : suc n + k ≡ suc (n + k) = omega arith in rw e (drop-nil k)
drop-drop (suc n) k (x ∷ xs) =
    let e : suc n + k ≡ suc (n + k) = omega arith in rw e (drop-drop n k xs)

-- From the suffix's indices to the text's.
module _ (text query : Text) (position : ℕ) (fits : position ≤ length text) where
  shift :
      (i : ℕ)
      → position ≤ i
      → occurs (drop position text) query (i - position) ≡ occurs text query i
  shift i le =
      let e : position + (i - position) ≡ i = omega arith in
      ap (starts_with query)
        (drop-drop position (i - position) text ∙ ap (λ (k : ℕ). drop k text) e)

  IsFirst-of-In :
      (o : Option ℕ)
      → IsFirstIn query position (drop position text) o
      → IsFirst text query position o
  IsFirst-of-In none h = λ i from upto.
      sym (shift i from) ∙ h (i - position) (omega (arith, length-drop position text))
  IsFirst-of-In (some o) (j, at, le, hit, before) =
      let back : o - position ≡ j = omega arith in
      (
        omega arith,
        omega (arith, length-drop position text),
        sym (shift o (omega arith)) ∙ ap (occurs (drop position text) query) back ∙ hit,
        λ i from lt. sym (shift i from) ∙ before (i - position) (omega arith),
      )

-- `find` answers the first occurrence from the position on, and `none` if there is none.
pub find-IsFirst :
    (text query : Text) (position : ℕ) → IsFirst text query position (find text query position)
unfolding find
find-IsFirst text query position = elim (Bool-cases (ltb (length text) position)) [
  | inl e ↦ rw e (λ i from upto. absurd (omega (arith, ltb→lt (length text) position e)))
  | inr e ↦ rw e (
      IsFirst-of-In text query position (ground arith) (find_in query position (drop position text))
        (find_in-IsFirstIn query position (drop position text)))
]

module _ (text query : Text) (position : ℕ) where
  loop_none :
      (fuel : ℕ)
      → find text query position ≡ none
      → offsets_loop (suc fuel) text query position ≡ some []
  unfolding offsets_loop
  loop_none fuel e = ground arith

  loop_some :
      (fuel o : ℕ) (os : List ℕ)
      → find text query position ≡ some o
      → offsets_loop fuel text query (o + max 1 (length query)) ≡ some os
      → offsets_loop (suc fuel) text query position ≡ some (o ∷ os)
  unfolding offsets_loop
  loop_some fuel o os e later = ground arith

-- The loop, with enough fuel for what is left of the text, ends with a scan of it.
offsets_loop-IsScan :
    (fuel : ℕ) (text query : Text) (position : ℕ)
    → length text < position + fuel
    → (offsets : List ℕ) × (offsets_loop (suc fuel) text query position ≡ some offsets)
      × IsScan text query position offsets
offsets_loop-IsScan zero text query position h = elim (Option-cases (find text query position)) [
  | inl e ↦ ([], loop_none text query position zero e, rw e at (find-IsFirst text query position))
  | inr (o, e) ↦
      let first : IsFirst text query position (some o) =
        rw e at (find-IsFirst text query position) in
      absurd (omega (arith, first.0, first.1))
]
offsets_loop-IsScan (suc f) text query position h = elim (Option-cases (find text query position)) [
  | inl e ↦
      ([], loop_none text query position (suc f) e, rw e at (find-IsFirst text query position))
  | inr (o, e) ↦
      let (from, upto, hit, before) = first o e in
      let (os, ends, scan) =
        offsets_loop-IsScan f text query (o + max 1 (length query)) (omega arith) in
      (o ∷ os, loop_some text query position (suc f) o os e ends, (from, upto, hit, before, scan))
]
  where
    first : (o : ℕ) → find text query position ≡ some o → IsFirst text query position (some o)
    first o e = rw e at (find-IsFirst text query position)

-- For every case mapping and every text and query that are not empty, the search loop ends, and its
-- offsets are exactly the leftmost occurrences of the mapped query in the mapped text that do not
-- overlap: each is an occurrence, none lies between one and the next, and none follows the last.
pub offsets_total :
    (lower : Text → Text) (text query : Text)
    → is_empty text ≡ false
    → is_empty query ≡ false
    → (offsets : List ℕ) × (find_case_insensitive_match_offsets lower text query ≡ some offsets)
      × IsScan (lower text) (lower query) 0 offsets
unfolding find_case_insensitive_match_offsets
offsets_total lower text query h k =
    let (os, ends, scan) =
      offsets_loop-IsScan (suc (length (lower text))) (lower text) (lower query) 0 (omega arith) in
    let two : length (lower text) + 2 ≡ suc (suc (length (lower text))) = omega arith in
    (os, rw (h, k, two) ends, scan)
