-- ===== src/Terminal/Search/Tally.antt =====
-- The three shapes of the counters of services/terminal_sessions.py: how many offsets pass a test,
-- and the first that does.
pub mod Counting
use portex.Common.{ℕ, ◌+◌, ◌^◌, Bool, true, false, List, [], ◌∷◌, length, keep_if, if◌then◌else◌}

-- `1 << 60`, the value of all constants `_NO_…_MATCH_OFFSET`.
abbrev pub no_match_offset : ℕ
no_match_offset = 2 ^ 60

-- `if not hits: return 0, _NO_…; return len(hits), hits[0]`
unfoldable pub hits_and_first : List ℕ → ℕ × ℕ
hits_and_first [] = (0, no_match_offset)
hits_and_first (o ∷ os) = (length (o ∷ os), o)

unfoldable pub tally : (ℕ → Bool) → List ℕ → ℕ × ℕ
unfolding hits_and_first
tally p offsets = hits_and_first (keep_if p offsets)

-- `sum(1 for offset in offsets if p(offset))`
unfoldable pub count_if : (ℕ → Bool) → List ℕ → ℕ
count_if p [] = 0
count_if p (o ∷ os) = let rest = count_if p os in if p o then 1 + rest else rest

-- `for offset in offsets: if p(offset): return offset`
unfoldable pub first_offset : (ℕ → Bool) → List ℕ → ℕ
first_offset p [] = no_match_offset
first_offset p (o ∷ os) = let rest = first_offset p os in if p o then o else rest
