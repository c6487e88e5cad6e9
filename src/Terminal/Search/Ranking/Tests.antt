-- ===== src/Terminal/Search/Ranking/Tests.antt =====
-- The ranked search of services/terminal_sessions.py at concrete snapshots.
use mathlib.Core.List.{Perm, Pairwise, filter_map}
use mathlib.Core.List.Perm
use portex.Common.{◌≡◌, refl, some, List, [], ◌∷◌, map}
use portex.Text.{Text, codes}
use portex.Terminal.Sessions.{Snapshot}
use portex.Terminal.Persistence.Samples.{at_time}
use portex.Terminal.Search.Candidates.{Match}
use portex.Terminal.Search.Ranking.{relevance, newest, search_history_snapshots}
use portex.Terminal.Search.Ranking.Order.{
  hit_of, hit_of_match, ComesFirst, search_history_snapshots_lem,
}
use portex.Terminal.Search.Ranking.Unique.{search_history_snapshots-order}

abbrev lower : Text → Text
lower t = t

abbrev query : Text
query = codes "ready"

abbrev snapshots : List Snapshot
snapshots = at_time "s1" 4 ∷ at_time "s2" 9 ∷ []

search_history_snapshots_lem_example :
    (matches : List Match) × (search_history_snapshots lower query 3 40 snapshots newest
      ≡ some matches)
    × Pairwise (ComesFirst newest) matches
    × Perm (map hit_of_match matches) (filter_map (hit_of lower query 3 40) snapshots)
search_history_snapshots_lem_example =
    search_history_snapshots_lem lower query 3 40 snapshots newest refl

search_history_snapshots-order_example :
    search_history_snapshots lower query 3 40 snapshots relevance
    ≡ search_history_snapshots lower query 3 40 (at_time "s2" 9 ∷ at_time "s1" 4 ∷ []) relevance
search_history_snapshots-order_example =
    search_history_snapshots-order lower query 3 40 snapshots (at_time "s2" 9 ∷ at_time "s1" 4 ∷ [])
      relevance refl refl (Perm.swap (at_time "s2" 9) (at_time "s1" 4) [])
