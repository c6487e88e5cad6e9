-- ===== src/Terminal/Search/Offsets.antt =====
-- `_find_case_insensitive_match_offsets` and `_build_search_snippets` of
-- services/terminal_sessions.py. `str.lower` is an argument: the full Unicode case mapping, which
-- may change the length of a text.
pub mod Scan
use portex.Common.{
  ℕ, zero, suc, ◌+◌, ◌-◌, Bool, true, false, ◌&&◌, ◌||◌, Option, none, some, List, [], ◌∷◌, ◌++◌,
  length, take, drop, ltb, ◌==◌, if◌then◌else◌, slice, max, min,
}
use portex.Text.{Text, is_empty, codes}

-- `text.startswith(query)`
unfoldable pub starts_with : Text → Text → Bool
starts_with [] text = true
starts_with (c ∷ q) [] = false
starts_with (c ∷ q) (d ∷ text) = c == d && starts_with q text

-- The scan of `str.find`; the suffix stands at index `i`.
unfoldable pub find_in : Text → ℕ → Text → Option ℕ
find_in query i [] = if is_empty query then some i else none
find_in query i (c ∷ r) =
    let later = find_in query (i + 1) r in if starts_with query (c ∷ r) then some i else later

-- `text.find(query, position)`; `none` is the answer -1.
unfoldable pub find : Text → Text → ℕ → Option ℕ
find text query position =
    if ltb (length text) position then none else find_in query position (drop position text)

-- The `while True` loop, on fuel. `none` means that the fuel ran out.
unfoldable pub offsets_loop : ℕ → Text → Text → ℕ → Option (List ℕ)
offsets_loop zero text query position = none
offsets_loop (suc fuel) text query position = elim (find text query position) [
  | none ↦ some []
  | some found ↦ elim (offsets_loop fuel text query (found + max 1 (length query))) [
    | none ↦ none
    | some offsets ↦ some (found ∷ offsets)
  ]
]

unfoldable pub find_case_insensitive_match_offsets : (Text → Text) → Text → Text → Option (List ℕ)
find_case_insensitive_match_offsets lower text query =
    if is_empty text || is_empty query
    then some []
    else offsets_loop (length (lower text) + 2) (lower text) (lower query) 0

pub record Snippet : Type 0 where
  pub text : Text
  pub match_index : ℕ
  pub match_offset : ℕ

unfoldable pub snippet_at : Text → ℕ → ℕ → ℕ → ℕ → Snippet
snippet_at text query_length context_chars match_index offset =
    -- `max(0, offset - context)` is the truncated difference
    let start : ℕ = offset - context_chars in
    let end : ℕ = min (length text) (offset + query_length + context_chars) in
    let snippet : Text = slice text start end in
    let opened : Text = if ltb 0 start then codes "..." ++ snippet else snippet in
    let closed : Text = if ltb end (length text) then opened ++ codes "..." else opened in
    record { text = closed; match_index = match_index; match_offset = offset }

-- `enumerate` from an index on.
unfoldable pub snippets_from : Text → ℕ → ℕ → ℕ → List ℕ → List Snippet
snippets_from text query_length context_chars i [] = []
snippets_from text query_length context_chars i (o ∷ os) =
    snippet_at text query_length context_chars i o
    ∷ snippets_from text query_length context_chars (i + 1) os

unfoldable pub build_search_snippets : Text → List ℕ → ℕ → ℕ → ℕ → List Snippet
unfolding snippet_at snippets_from
build_search_snippets text offsets query_length snippet_limit snippet_context_chars =
    snippets_from text query_length snippet_context_chars 0 (take snippet_limit offsets)
