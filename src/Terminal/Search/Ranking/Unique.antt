-- ===== src/Terminal/Search/Ranking/Unique.antt =====
-- The ranking of services/terminal_sessions.py leaves nothing open: the last part of each key is the
-- session's id.
use text.Mathlib.Text.{◌==◌ as str_eq}
use text.Mathlib.TextEquality.{eq_iff}
use mathlib.Core.Bool.{Bool-set}
use mathlib.Core.Logic.Or
use mathlib.Core.List.{
  Perm, Mem, filter_map, not-mem-nil, filter_map-cons-none, filter_map-cons-some,
  eq-or-mem_of_mem-cons,
}
use mathlib.Core.List.Perm
use mathlib.Core.Option.{some_inj}
use portex.Common.{
  ℕ, ◌≡◌, refl, sym, ap, ◌∙◌, Bool, true, false, not, ◌||◌, ◌&&◌, Option, some, List, [], ◌∷◌,
  String, length, map, Option-cases, inl, inr, arith,
}
use portex.Text.{Text, is_empty}
use portex.Sort.{row_le}
use portex.Sort.Insertion.{IsStrict, sort_rows-order}
use portex.Sort.Columns.{row_le-IsTotalOrder, EndsIn, row_tie}
use portex.Terminal.Sessions.{Snapshot}
use portex.Terminal.Search.Candidates.{Candidate, build_search_candidate}
use portex.Terminal.Search.Ranking.{
  SearchSort, relevance, newest, oldest, sort_key, sort_history_search_matches, candidate_at,
  search_history_snapshots,
}
use portex.Terminal.Search.Ranking.Order.{Candidate-IsSet, candidate_of, search_candidates_lem}

abbrev candidate_id : Candidate → String
candidate_id c = c.match.info.session_id

sort_key-EndsIn : (sort : SearchSort) → EndsIn candidate_id (sort_key sort)
sort_key-EndsIn relevance = refl
sort_key-EndsIn newest = refl
sort_key-EndsIn oldest = refl

abbrev pub has_id : String → List String → Bool
has_id i [] = false
has_id i (x ∷ xs) = str_eq x i || has_id i xs

-- No id occurs twice.
abbrev pub distinct : List String → Bool
distinct [] = true
distinct (x ∷ xs) = not (has_id x xs) && distinct xs

Mem-has_id :
    (c : Candidate) (cs : List Candidate)
    → Mem c cs
    → has_id (candidate_id c) (map candidate_id cs) ≡ true
Mem-has_id c [] m = absurd (not-mem-nil m)
Mem-has_id c (x ∷ xs) m =
    Or.elim (Bool-set _ true) (eq-or-mem_of_mem-cons m)
      (λ e. ground (arith, eq_iff (candidate_id x) (candidate_id c), ap candidate_id e))
      (λ n. ground (arith, Mem-has_id c xs n))

distinct_unique :
    (cs : List Candidate)
    → distinct (map candidate_id cs) ≡ true
    → (a b : Candidate) → Mem a cs
    → Mem b cs
    → candidate_id a ≡ candidate_id b
    → a ≡ b
distinct_unique [] h a b m n e = absurd (not-mem-nil m)
distinct_unique (x ∷ xs) h a b m n e =
    Or.elim (Candidate-IsSet a b) (eq-or-mem_of_mem-cons m)
      (λ p.
        Or.elim (Candidate-IsSet a b) (eq-or-mem_of_mem-cons n) (λ q. p ∙ sym q)
          (λ k. absurd (
            ground (
              arith,
              h,
              Mem-has_id b xs k,
              e,
              ap candidate_id p,
              eq_iff (candidate_id x) (candidate_id b),
            ))))
      (λ j.
        Or.elim (Candidate-IsSet a b) (eq-or-mem_of_mem-cons n)
          (λ q. absurd (ground (arith, h, Mem-has_id a xs j, e, ap candidate_id q)))
          (λ k. distinct_unique xs (ground (arith, h)) a b j k e))

abbrev pub snapshot_ids : List Snapshot → List String
snapshot_ids l = map (λ s. s.info.session_id) l

module _ (lower : Text → Text) (query : Text) (snippet_limit snippet_context_chars : ℕ) where
  abbrev candidates_of : List Snapshot → List Candidate
  candidates_of = filter_map (candidate_of lower query snippet_limit snippet_context_chars)

  abbrev this : Snapshot → Option Candidate
  this = candidate_of lower query snippet_limit snippet_context_chars

  candidate_id_is :
      (s : Snapshot) (offsets : List ℕ) (c : Candidate)
      → candidate_at s (length query) snippet_limit snippet_context_chars offsets ≡ some c
      → candidate_id c ≡ s.info.session_id
  unfolding candidate_at build_search_candidate
  candidate_id_is s [] c h = cc
  candidate_id_is s (o ∷ os) c h = sym (ap candidate_id (some_inj.0 h))

  has_id-candidates_of :
      (i : String) (l : List Snapshot)
      → has_id i (snapshot_ids l) ≡ false
      → has_id i (map candidate_id (candidates_of l)) ≡ false
  unfolding filter_map
  has_id-candidates_of i [] h = refl
  has_id-candidates_of i (s ∷ l) h = elim (Option-cases (this s)) [
    | inl e ↦
        ap (λ cs. has_id i (map candidate_id cs)) (filter_map-cons-none this s l e)
        ∙ has_id-candidates_of i l (ground (arith, h))
    | inr (c, e) ↦
        ap (λ cs. has_id i (map candidate_id cs)) (filter_map-cons-some this s l e)
        ∙ ground (arith, h, has_id-candidates_of i l, candidate_id_is s _ c e)
  ]

  distinct-candidates_of :
      (l : List Snapshot)
      → distinct (snapshot_ids l) ≡ true
      → distinct (map candidate_id (candidates_of l)) ≡ true
  unfolding filter_map
  distinct-candidates_of [] h = refl
  distinct-candidates_of (s ∷ l) h = elim (Option-cases (this s)) [
    | inl e ↦
        ap (λ cs. distinct (map candidate_id cs)) (filter_map-cons-none this s l e)
        ∙ distinct-candidates_of l (ground (arith, h))
    | inr (c, e) ↦
        ap (λ cs. distinct (map candidate_id cs)) (filter_map-cons-some this s l e)
        ∙ ground (
          arith,
          h,
          distinct-candidates_of l,
          candidate_id_is s _ c e,
          has_id-candidates_of s.info.session_id l,
        )
  ]

  -- Where the query is not empty and no two snapshots share a session id, the order in which the
  -- snapshots come in makes no difference to the answer, whatever the sort.
  pub search_history_snapshots-order :
      (l r : List Snapshot) (sort : SearchSort)
      → is_empty query ≡ false
      → distinct (snapshot_ids l) ≡ true
      → Perm l r
      → search_history_snapshots lower query snippet_limit snippet_context_chars l sort
        ≡ search_history_snapshots lower query snippet_limit snippet_context_chars r sort
  unfolding search_history_snapshots sort_history_search_matches
  search_history_snapshots-order l r sort h d p =
      let strict : IsStrict (row_le (sort_key sort)) (candidates_of l) = λ a b m n u v.
        distinct_unique (candidates_of l) (distinct-candidates_of l d) a b m n
          (row_tie candidate_id (sort_key sort) a b (sort_key-EndsIn sort) u v) in
      rw
        (
          h,
          search_candidates_lem lower query snippet_limit snippet_context_chars l h,
          search_candidates_lem lower query snippet_limit snippet_context_chars r h,
        )
        (ap (λ cs. some (map (λ c. c.match) cs))
          (sort_rows-order (row_le (sort_key sort)) (row_le-IsTotalOrder (sort_key sort)) strict
            (Perm.filter_map this p)))
