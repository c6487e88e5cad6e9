-- ===== src/Terminal/Search/Tally/Counting.antt =====
-- Counting offsets by a test: a test that is the sum of others counts as their sum.
use portex.Common.{ℕ, ◌+◌, ◌≤◌, ◌≡◌, refl, Bool, true, false, List, [], ◌∷◌, length, keep_if, arith}
use portex.Terminal.Search.Tally.{tally, count_if, hits_and_first, first_offset}

abbrev pub bit : Bool → ℕ
bit true = 1
bit false = 0

count_if-cons :
    (p : ℕ → Bool) (o : ℕ) (os : List ℕ) → count_if p (o ∷ os) ≡ bit (p o) + count_if p os
unfolding count_if
count_if-cons p o os = ground arith

length-keep_if : (p : ℕ → Bool) (os : List ℕ) → length (keep_if p os) ≡ count_if p os
unfolding count_if
length-keep_if p [] = refl
length-keep_if p (o ∷ os) = ground (arith, length-keep_if p os)

hits_and_first-length : (os : List ℕ) → (hits_and_first os).0 ≡ length os
unfolding hits_and_first
hits_and_first-length [] = refl
hits_and_first-length (o ∷ os) = refl

-- The first part of a counter's answer is the plain count.
pub tally-count : (p : ℕ → Bool) (os : List ℕ) → (tally p os).0 ≡ count_if p os
unfolding tally
tally-count p os = omega (arith, hits_and_first-length (keep_if p os), length-keep_if p os)

-- A counter that answers a pair and one that looks for the first offset agree on the offset.
pub tally-first : (p : ℕ → Bool) (os : List ℕ) → (tally p os).1 ≡ first_offset p os
unfolding tally hits_and_first first_offset
tally-first p [] = refl
tally-first p (o ∷ os) = ground (arith, tally-first p os)

-- The sum of a value over the offsets.
pub total : (ℕ → ℕ) → List ℕ → ℕ
total f [] = 0
total f (o ∷ os) = f o + total f os

pub total-bit : (p : ℕ → Bool) (os : List ℕ) → total (λ o. bit (p o)) os ≡ count_if p os
unfolding total count_if
total-bit p [] = refl
total-bit p (o ∷ os) = ground (arith, total-bit p os)

pub total-add : (f g : ℕ → ℕ) (os : List ℕ) → total (λ o. f o + g o) os ≡ total f os + total g os
unfolding total
total-add f g [] = refl
total-add f g (o ∷ os) = omega (arith, total-add f g os)

pub total-cong : (f g : ℕ → ℕ) → ((o : ℕ) → f o ≡ g o) → (os : List ℕ) → total f os ≡ total g os
unfolding total
total-cong f g h [] = refl
total-cong f g h (o ∷ os) = omega (arith, h o, total-cong f g h os)

pub count_if_mono :
    (p q : ℕ → Bool)
    → ((o : ℕ) → p o ≡ true → q o ≡ true)
    → (os : List ℕ) → count_if p os ≤ count_if q os
unfolding count_if
count_if_mono p q h [] = omega arith
count_if_mono p q h (o ∷ os) = ground (arith, h o, count_if_mono p q h os)
