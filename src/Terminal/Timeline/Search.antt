-- ===== src/Terminal/Timeline/Search.antt =====
-- `search_history_by_group` of services/terminal_sessions.py: its guards, the search in the filtered
-- history of a workspace, and the page of its answer.
use text.Mathlib.Text.{◌==◌ as str_eq}
use portex.Common.{ℕ, Option, none, some, List, String, if◌then◌else◌, ◌>>=◌}
use portex.Text.{Text, strip, is_empty}
use portex.Terminal.Sessions.{Service}
use portex.Terminal.Persistence.{Json, IsoFormat}
use portex.Terminal.Persistence.Files.{Root, invalid_value, Fetched, done, failed}
use portex.Terminal.Search.Candidates.{Match}
use portex.Terminal.Search.Ranking.{SearchSort, relevance, newest, oldest, search_history_snapshots}
use portex.Terminal.Timeline.{and_then, list_history_snapshots_by_group}
use portex.Terminal.Timeline.Paging.{ℤ, checked_page, Page, page_of}
use portex.Terminal.Timeline.Filters.{Filter}

-- `_normalize_search_sort`
unfoldable pub normalize_search_sort : String → Option SearchSort
normalize_search_sort sort =
    if str_eq sort "relevance"
    then some relevance
    else if str_eq sort "newest"
    then some newest
    else if str_eq sort "oldest"
    then some oldest
    else none

pub record SearchRequest : Type 0 where
  pub query : Text
  pub limit : ℤ
  pub offset : ℤ
  pub sort : String
  pub filter : Filter
  pub snippet_limit : ℤ
  pub snippet_context_chars : ℤ

-- What the guards of the method let through.
pub record CheckedSearch : Type 0 where
  pub query : Text
  pub limit : ℕ
  pub offset : ℕ
  pub sort : SearchSort
  pub snippet_limit : ℕ
  pub snippet_context_chars : ℕ

unfoldable pub checked_search : SearchRequest → Option CheckedSearch
checked_search q = do
  sort ← normalize_search_sort q.sort
  query ← if is_empty (strip q.query) then none else some (strip q.query)
  (limit, offset) ← checked_page q.limit q.offset
  (snippet_limit, snippet_context_chars) ← checked_page q.snippet_limit q.snippet_context_chars
  some (record {
    query = query;
    limit = limit;
    offset = offset;
    sort = sort;
    snippet_limit = snippet_limit;
    snippet_context_chars = snippet_context_chars;
  })

-- The page of a search; without one, the fuel of a scan ran out.
abbrev pub searched : CheckedSearch → Option (List Match) → Fetched (Option (Page Match))
searched q none = done none
searched q (some items) = done (some (page_of items q.limit q.offset))

unfoldable pub search_history_by_group :
    (Text → Text)
    → IsoFormat
    → (Json → Text)
    → (String → Option String)
    → Service
    → Root
    → ℕ
    → String
    → SearchRequest
    → Fetched (Option (Page Match))
search_history_by_group lower iso to_text resolved s root now group_folder request =
    elim (checked_search request) [
      | none ↦ failed invalid_value
      | some q ↦
          and_then
            (list_history_snapshots_by_group iso to_text resolved s root now group_folder
              request.filter)
            λ filtered. searched q (
              search_history_snapshots lower q.query q.snippet_limit q.snippet_context_chars
                filtered q.sort)
    ]
