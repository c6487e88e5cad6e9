-- ===== src/Terminal/Timeline/Pages.antt =====
-- A client of `list_history_snapshot_page_by_group` of services/terminal_sessions.py that goes on as
-- long as `has_more` is set.
use mathlib.Core.List.{append-nil}
use portex.Common.{
  ℕ, zero, suc, ◌+◌, ◌≤◌, ◌<◌, ◌≡◌, refl, sym, ap, ◌∙◌, true, false, Option, List, [], ◌++◌, String,
  length, drop, drop_all, slice, slice-append-drop, ltb, Bool-cases, inl, inr, arith, ltb→lt,
}
use portex.Text.{Text}
use portex.Terminal.Sessions.{Service, Snapshot}
use portex.Terminal.Persistence.{Json, IsoFormat}
use portex.Terminal.Persistence.Files.{Root, Fetched, done, failed, no_history}
use portex.Terminal.Timeline.{
  and_then, list_history_snapshots_by_group, list_history_snapshot_page_by_group,
}
use portex.Terminal.Timeline.Paging.{pos, page_of}
use portex.Terminal.Timeline.Filters.{Filter}

module _ (iso : IsoFormat) (to_text : Json → Text) (resolved : String → Option String) (s : Service)
    (root : Root) (now : ℕ) (group_folder : String) (f : Filter) where
  -- The client, on fuel.
  unfoldable pub read_pages : ℕ → ℕ → ℕ → Fetched (List Snapshot)
  read_pages zero limit offset = failed no_history
  read_pages (suc n) limit offset =
      and_then
        (list_history_snapshot_page_by_group iso to_text resolved s root now group_folder
          (pos limit) (pos offset) f)
        λ page. elim page.has_more [
          | false ↦ done page.items
          | true ↦ and_then (read_pages n limit (offset + limit)) λ rest. done (page.items ++ rest)
        ]

  module _ (items : List Snapshot)
      (found : list_history_snapshots_by_group iso to_text resolved s root now group_folder f
        ≡ done items) where
    page_is :
        (limit offset : ℕ)
        → list_history_snapshot_page_by_group iso to_text resolved s root now group_folder
            (pos (suc limit))
            (pos offset)
            f
          ≡ done (page_of items (suc limit) offset)
    unfolding list_history_snapshot_page_by_group
    page_is limit offset = rw (found) refl

    read_pages-drop :
        (n limit offset : ℕ)
        → 0 < n
        → length items ≤ offset + n
        → read_pages n (suc limit) offset ≡ done (drop offset items)
    unfolding read_pages page_of
    read_pages-drop zero limit offset h k = absurd (omega arith)
    read_pages-drop (suc n) limit offset h k =
        let stop : ℕ = offset + suc limit in
        elim (Bool-cases (ltb stop (length items))) [
          | inr e ↦
              let last : drop stop items ≡ [] = drop_all stop items (ground (arith, e)) in
              rw (page_is limit offset, e)
                (ap done (
                  sym (append-nil (slice items offset stop))
                  ∙ ap (λ l. slice items offset stop ++ l) (sym last)
                  ∙ slice-append-drop items offset (suc limit)))
          | inl e ↦
              let more : stop < length items = ltb→lt stop (length items) e in
              let rest : read_pages n (suc limit) stop ≡ done (drop stop items) =
                read_pages-drop n limit stop (omega (arith, more, k)) (omega (arith, k)) in
              rw (page_is limit offset, e, rest)
                (ap done (slice-append-drop items offset (suc limit)))
        ]

    -- Reading page after page, with any positive limit, from offset 0 while `has_more` is set, and
    -- with the state, the files and the clock as they are, comes to an end and gives exactly the
    -- filtered snapshots of the workspace, each once and in order, within as many requests as there
    -- are snapshots, provided that there are any.
    pub read_pages_lem :
        (limit : ℕ) → 0 < length items → read_pages (length items) (suc limit) 0 ≡ done items
    read_pages_lem limit h = read_pages-drop (length items) limit 0 h (omega arith)
