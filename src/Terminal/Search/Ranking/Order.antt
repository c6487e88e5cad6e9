-- ===== src/Terminal/Search/Ranking/Order.antt =====
-- What a search of services/terminal_sessions.py answers: the candidates of the snapshots that have
-- matches, ranked.
use mathlib.Core.Path.{subst}
use mathlib.Core.Bool.{Bool-set}
use mathlib.Core.Option
use mathlib.Core.List.Perm
use mathlib.Core.List.Pairwise
use mathlib.Core.List.{
  Perm, Pairwise, map-map, map-filter_map, filter_map, filter_map-cons-none, filter_map-cons-some,
}
use mathlib.Core.HLevel.{prop→set}
use text.Mathlib.TextEquality.{IsScalar-prop}
use portex.Common.{
  ℕ, ◌≡◌, refl, sym, ap, ◌∙◌, Bool, true, false, ◌&&◌, ◌||◌, ltb, leb, ◌==◌, str_le, arith, String,
  Option, none, some, List, [], ◌∷◌, length, drop, map, Option-cases, inl, inr,
}
use portex.Text.{Text, is_empty}
use portex.Sort.{Column, desc, row_le, sort_rows}
use portex.Sort.Insertion.{sort_rows-IsOrdered, sort_rows-Perm}
use portex.Sort.Columns.{row_le-IsTotalOrder}
use portex.Terminal.Sessions.{Snapshot}
use portex.Terminal.Search.Offsets.{find_case_insensitive_match_offsets}
use portex.Terminal.Search.Offsets.Scan.{offsets_total}
use portex.Terminal.Search.Candidates.{Candidate, Match, build_search_candidate}
use portex.Terminal.Search.Ranking.{
  SearchSort, relevance, relevance_key, newest, oldest, sort_key, sort_history_search_matches,
  candidate_at, add_candidate, search_candidates, search_history_snapshots,
}

pub Candidate-IsSet : IsSet Candidate
Candidate-IsSet = hlevel (λ (n : ℕ). prop→set (IsScalar-prop n))

-- The offsets of a scan, which always ends.
abbrev pub or_none : Option (List ℕ) → List ℕ
or_none none = []
or_none (some offsets) = offsets

abbrev pub all_offsets : (Text → Text) → Text → Text → List ℕ
all_offsets lower text query = or_none (find_case_insensitive_match_offsets lower text query)

find-all_offsets :
    (lower : Text → Text) (text query : Text)
    → is_empty query ≡ false
    → find_case_insensitive_match_offsets lower text query ≡ some (all_offsets lower text query)
find-all_offsets lower [] query h = unfold find_case_insensitive_match_offsets in refl
find-all_offsets lower (c ∷ text) query h =
    let (os, e, scan) = offsets_total lower (c ∷ text) query refl h in
    e ∙ ap (λ o. some (or_none o)) (sym e)

-- Of two matches, which may stand first: the later one, or the earlier one, then the one with more
-- occurrences, then the one with the smaller id; or only the one with more occurrences.
abbrev then_by_count : Match → Match → Bool
then_by_count a b =
    ltb b.match_count a.match_count
    || a.match_count == b.match_count && str_le a.info.session_id b.info.session_id

abbrev pub comes_first : SearchSort → Match → Match → Bool
comes_first newest a b =
    ltb b.snapshot_at a.snapshot_at || a.snapshot_at == b.snapshot_at && then_by_count a b
comes_first oldest a b =
    ltb a.snapshot_at b.snapshot_at || a.snapshot_at == b.snapshot_at && then_by_count a b
comes_first relevance a b = leb b.match_count a.match_count

abbrev pub ComesFirst : SearchSort → Match → Match → Type 0
ComesFirst sort a b = comes_first sort a b ≡ true

abbrev pub hit_of_match : Match → String × ℕ × ℕ
hit_of_match m = (m.info.session_id, m.snapshot_at, m.match_count)

first_column :
    (f : Candidate → ℕ) (key : List (Column Candidate)) (c d : Candidate)
    → row_le (desc f ∷ key) c d ≡ true
    → leb (f d) (f c) ≡ true
first_column f key c d h = ground (arith, h)

row_le-comes_first :
    (sort : SearchSort) (c d : Candidate)
    → row_le (sort_key sort) c d ≡ true
    → comes_first sort c.match d.match ≡ true
row_le-comes_first newest c d h = ground (arith, h)
row_le-comes_first oldest c d h = ground (arith, h)
row_le-comes_first relevance c d h =
    first_column (λ x. x.match.match_count) (drop 1 relevance_key) c d h

module _ (lower : Text → Text) (query : Text) (snippet_limit snippet_context_chars : ℕ) where
  -- The candidate of one snapshot, if it has matches.
  abbrev pub candidate_of : Snapshot → Option Candidate
  candidate_of snapshot =
      candidate_at snapshot (length query) snippet_limit snippet_context_chars
        (all_offsets lower snapshot.output query)

  add_candidate-filter_map :
      (snapshot : Snapshot) (rest : List Snapshot)
      → add_candidate (candidate_of snapshot) (filter_map candidate_of rest)
        ≡ filter_map candidate_of (snapshot ∷ rest)
  add_candidate-filter_map snapshot rest = elim (Option-cases (candidate_of snapshot)) [
    | inl e ↦
        ap (λ c. add_candidate c (filter_map candidate_of rest)) e
        ∙ sym (filter_map-cons-none candidate_of snapshot rest e)
    | inr (c, e) ↦
        ap (λ c. add_candidate c (filter_map candidate_of rest)) e
        ∙ sym (filter_map-cons-some candidate_of snapshot rest e)
  ]

  pub search_candidates_lem :
      (snapshots : List Snapshot)
      → is_empty query ≡ false
      → search_candidates lower query snippet_limit snippet_context_chars snapshots
        ≡ some (filter_map candidate_of snapshots)
  unfolding search_candidates filter_map
  search_candidates_lem [] h = refl
  search_candidates_lem (x ∷ xs) h =
      rw (find-all_offsets lower x.output query h, search_candidates_lem xs h)
        (ap some (add_candidate-filter_map x xs))

  -- What the answer says of one snapshot: which it is, when it was taken, and in how many places the
  -- query occurs; nothing if it does not occur.
  abbrev pub hit_at : Snapshot → List ℕ → Option (String × ℕ × ℕ)
  hit_at s [] = none
  hit_at s (o ∷ offsets) = some (s.info.session_id, s.snapshot_at, length (o ∷ offsets))

  abbrev pub hit_of : Snapshot → Option (String × ℕ × ℕ)
  hit_of s = hit_at s (all_offsets lower s.output query)

  candidate_at-hit_at :
      (s : Snapshot) (offsets : List ℕ)
      → Option.map
          (λ c. hit_of_match c.match)
          (candidate_at s (length query) snippet_limit snippet_context_chars offsets)
        ≡ hit_at s offsets
  unfolding candidate_at build_search_candidate
  candidate_at-hit_at s [] = refl
  candidate_at-hit_at s (o ∷ offsets) = refl

  candidates_hits :
      (snapshots : List Snapshot)
      → map (λ c. hit_of_match c.match) (filter_map candidate_of snapshots)
        ≡ filter_map hit_of snapshots
  candidates_hits snapshots =
      map-filter_map candidate_of (λ c. hit_of_match c.match) snapshots
      ∙ ap (λ f. filter_map f snapshots)
          (λ i s. candidate_at-hit_at s (all_offsets lower s.output query) i)

  -- For a query that is not empty, and any case mapping, a search ends. Its answer has one match for
  -- each snapshot in which the query occurs, and no other, with the snapshot's id and time and the
  -- number of occurrences; by `newest` and `oldest` the matches stand in the order of time, then of
  -- more occurrences, then of the id, and by relevance those with more occurrences stand first.
  pub search_history_snapshots_lem :
      (snapshots : List Snapshot) (sort : SearchSort)
      → is_empty query ≡ false
      → (matches : List Match) × (search_history_snapshots lower query snippet_limit
            snippet_context_chars snapshots sort
          ≡ some matches)
        × Pairwise (ComesFirst sort) matches
        × Perm (map hit_of_match matches) (filter_map hit_of snapshots)
  unfolding search_history_snapshots sort_history_search_matches
  search_history_snapshots_lem snapshots sort h =
      let le = row_le (sort_key sort) in
      let found = filter_map candidate_of snapshots in
      (
        map (λ c. c.match) (sort_rows le found),
        rw (h, search_candidates_lem snapshots h) refl,
        Pairwise.map (λ a b. Bool-set (comes_first sort a b) true) (λ c. c.match)
            (λ c d. row_le-comes_first sort c d)
            (sort_rows-IsOrdered le (row_le-IsTotalOrder (sort_key sort)) found),
        subst (λ l. Perm (map hit_of_match (map (λ c. c.match) (sort_rows le found))) l)
            (candidates_hits snapshots)
            (subst (λ l. Perm l (map (λ c. hit_of_match c.match) found))
              (sym (map-map hit_of_match (λ c. c.match) (sort_rows le found)))
              (Perm.map (λ c. hit_of_match c.match) (sort_rows-Perm le found))),
      )
