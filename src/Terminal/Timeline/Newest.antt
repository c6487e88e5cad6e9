-- ===== src/Terminal/Timeline/Newest.antt =====
-- What `_list_merged_history_snapshots_by_group` of services/terminal_sessions.py keeps of the
-- snapshots in memory and on disk, and in which order.
use text.Mathlib.Text.{◌==◌ as str_eq}
use text.Mathlib.TextEquality.{eq_iff}
use mathlib.Core.Path.{subst⁻¹}
use portex.Common.{
  ◌≡◌, refl, ap, ◌∙◌, ltb, Bool, true, Option, none, some, List, [], ◌∷◌, String, map,
  if◌then◌else◌, not, ◌&&◌, Bool-cases, inl, inr, arith,
}
use portex.Dict.{Dict, get, put, values, has, get-put, has-put}
use portex.Sort.{asc, str_asc, insert_row, sort_rows}
use portex.Sort.Insertion.{IsOrdered, IsTotalOrder, sort_rows-IsOrdered}
use portex.Sort.Columns.{row_le-IsTotalOrder}
use portex.Terminal.Sessions.{Snapshot}
use portex.Terminal.Persistence.Files.{done, failed, no_history}
use portex.Terminal.Timeline.{find_snapshot, or_missing}
use portex.Terminal.Timeline.Merging.{
  keep_newest, keep_all_newest, present, dedupe_timeline_snapshots, newest_first, or_no_history,
  merge_timeline,
}

-- The later of two snapshots, the first one of two at a time.
abbrev pub later : Option Snapshot → Option Snapshot → Option Snapshot
later none b = b
later (some a) none = some a
later (some a) (some b) = if ltb a.snapshot_at b.snapshot_at then some b else some a

-- The newest snapshot of a session in a list.
abbrev pub newest : String → List Snapshot → Option Snapshot
newest session_id [] = none
newest session_id (s ∷ rest) =
    later (if str_eq s.info.session_id session_id then some s else none) (newest session_id rest)

later_assoc : (a b c : Option Snapshot) → later (later a b) c ≡ later a (later b c)
later_assoc none b c = refl
later_assoc (some a) none c = refl
later_assoc (some a) (some b) none = ground arith
later_assoc (some a) (some b) (some c) = ground arith

get-keep_newest :
    (d : Dict Snapshot) (s : Snapshot) (session_id : String)
    → get (keep_newest d s) session_id
      ≡ later (get d session_id) (if str_eq s.info.session_id session_id then some s else none)
unfolding keep_newest
get-keep_newest d s session_id =
    ground (arith, eq_iff s.info.session_id session_id, get-put d s.info.session_id session_id s)

get-keep_all_newest :
    (d : Dict Snapshot) (xs : List Snapshot) (session_id : String)
    → get (keep_all_newest d xs) session_id ≡ later (get d session_id) (newest session_id xs)
unfolding keep_all_newest
get-keep_all_newest d [] session_id = ground arith
get-keep_all_newest d (x ∷ xs) session_id =
    get-keep_all_newest (keep_newest d x) xs session_id
    ∙ ap (λ a. later a (newest session_id xs)) (get-keep_newest d x session_id)
    ∙ later_assoc (get d session_id) _ (newest session_id xs)

-- A dict that files each snapshot once, under its session's id.
abbrev is_keyed : Dict Snapshot → Bool
is_keyed [] = true
is_keyed ((key, s) ∷ d) = str_eq s.info.session_id key && not (has d key) && is_keyed d

put-is_keyed :
    (d : Dict Snapshot) (s : Snapshot)
    → is_keyed d ≡ true
    → is_keyed (put d s.info.session_id s) ≡ true
unfolding put get
put-is_keyed [] s h = ground (arith, eq_iff s.info.session_id s.info.session_id)
put-is_keyed ((key, x) ∷ d) s h = ground (
  arith,
  eq_iff key s.info.session_id,
  eq_iff s.info.session_id key,
  eq_iff s.info.session_id s.info.session_id,
  has-put d s.info.session_id key s,
  put-is_keyed d s,
  h,
)

keep_newest-is_keyed :
    (d : Dict Snapshot) (s : Snapshot) → is_keyed d ≡ true → is_keyed (keep_newest d s) ≡ true
unfolding keep_newest
keep_newest-is_keyed d s h = ground (arith, put-is_keyed d s, h)

keep_all_newest-is_keyed :
    (d : Dict Snapshot) (xs : List Snapshot)
    → is_keyed d ≡ true
    → is_keyed (keep_all_newest d xs) ≡ true
unfolding keep_all_newest
keep_all_newest-is_keyed d [] h = h
keep_all_newest-is_keyed d (x ∷ xs) h =
    keep_all_newest-is_keyed (keep_newest d x) xs (keep_newest-is_keyed d x h)

-- The search of `get_history_snapshot_by_group`, with no answer as none.
find_snapshot-insert_row :
    (x : Snapshot) (ys : List Snapshot) (session_id : String)
    → (str_eq x.info.session_id session_id ≡ true → find_snapshot ys session_id ≡ failed no_history)
    → find_snapshot (insert_row newest_first x ys) session_id ≡ find_snapshot (x ∷ ys) session_id
unfolding insert_row find_snapshot
find_snapshot-insert_row x [] session_id h = refl
find_snapshot-insert_row x (y ∷ ys) session_id h = elim (Bool-cases (newest_first x y)) [
  | inl e ↦ rw (e) refl
  | inr e ↦ rw (e) (ground (arith, find_snapshot-insert_row x ys session_id, h))
]

find_snapshot-values :
    (d : Dict Snapshot) (session_id : String)
    → is_keyed d ≡ true
    → find_snapshot (values d) session_id ≡ or_missing (get d session_id)
unfolding find_snapshot values get
find_snapshot-values [] session_id h = refl
find_snapshot-values ((key, s) ∷ d) session_id h =
    ground (arith, eq_iff s.info.session_id key, find_snapshot-values d session_id, h)

find_snapshot-sorted :
    (d : Dict Snapshot) (session_id : String)
    → is_keyed d ≡ true
    → find_snapshot (sort_rows newest_first (values d)) session_id ≡ or_missing (get d session_id)
unfolding sort_rows values find_snapshot get
find_snapshot-sorted [] session_id h = refl
find_snapshot-sorted ((key, s) ∷ d) session_id h =
    let rest = find_snapshot-sorted d session_id (ground (arith, h)) in
    find_snapshot-insert_row s (sort_rows newest_first (values d)) session_id (λ e.
      rest
      ∙ ap or_missing (
          let missing : get d session_id ≡ none =
            ground (arith, h, eq_iff s.info.session_id session_id, eq_iff s.info.session_id key) in
          missing))
    ∙ ground (arith, h, rest, eq_iff s.info.session_id key)

or_no_history-done :
    (xs snapshots : List Snapshot) → or_no_history xs ≡ done snapshots → snapshots ≡ xs
or_no_history-done [] snapshots h = cc
or_no_history-done (x ∷ xs) snapshots h = cc

newest_first-IsTotalOrder : IsTotalOrder newest_first
newest_first-IsTotalOrder =
    let order =
      row_le-IsTotalOrder (asc (λ s. s.snapshot_at) ∷ str_asc (λ s. s.info.session_id) ∷ []) in
    record { total = λ a b h. order.total b a h; trans = λ a b c h k. order.trans c b a k h }

-- The merged snapshots of a workspace are ordered by time and then by id, the latest first; and for
-- every session id, the one found among them is the newest of those in memory, in `latest.json` and in
-- the archive, the first of several of the same time.
pub merge_timeline_lem :
    (in_memory latest : Option Snapshot) (archived snapshots : List Snapshot)
    → merge_timeline in_memory latest archived ≡ done snapshots
    → IsOrdered newest_first snapshots
      × ((session_id : String)
          → find_snapshot snapshots session_id
            ≡ or_missing (newest session_id (present (in_memory ∷ latest ∷ map some archived))))
unfolding merge_timeline dedupe_timeline_snapshots get
merge_timeline_lem in_memory latest archived snapshots h =
    let all = present (in_memory ∷ latest ∷ map some archived) in
    let d : Dict Snapshot = keep_all_newest [] all in
    let e : snapshots ≡ sort_rows newest_first (values d) =
      or_no_history-done (sort_rows newest_first (values d)) snapshots h in
    (
      subst⁻¹ (IsOrdered newest_first) e
          (sort_rows-IsOrdered newest_first newest_first-IsTotalOrder (values d)),
      λ session_id.
          ap (λ l. find_snapshot l session_id) e
          ∙ find_snapshot-sorted d session_id (keep_all_newest-is_keyed [] all refl)
          ∙ ap or_missing (get-keep_all_newest [] all session_id),
    )
