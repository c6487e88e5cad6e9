-- ===== src/Terminal/Persistence/Disk.antt =====
-- A snapshot that `_persist_history_snapshot` of services/terminal_sessions.py wrote is the one that
-- the next reader of its workspace finds.
use text.Mathlib.TextEquality.{eq_iff}
use portex.Common.{
  ℕ, ◌≡◌, refl, ap, ◌∙◌, Option, some, String, true, false, if◌then◌else◌, Bool-cases, Option-cases,
  inl, inr, arith,
}
use portex.Dict.{get, put, get-put}
use portex.Text.{Text}
use portex.Terminal.Sessions.{Snapshot, is_over}
use portex.Terminal.Persistence.{
  Json, json_object, IsoFormat, history_snapshot_payload, load_snapshot,
}
use portex.Terminal.Persistence.RoundTrip.{
  ReadsBack, IsNamed, load_snapshot-history_snapshot_payload,
}
use portex.Terminal.Persistence.Files.{
  Folder, Root, folder_at, or_empty, done, opened, archive_name, is_writable,
  persist_history_snapshot, load_persisted_history_snapshot,
}

folder_at-put :
    (root : Root) (path : String) (folder : Folder) → folder_at (put root path folder) path ≡ folder
folder_at-put root path folder =
    ap or_empty {x = get (put root path folder) path} {y = some folder}
      (ground (arith, get-put root path path folder, eq_iff path path))

-- What is on disk afterwards: the folder of the snapshot, written anew.
record IsWritten (iso : IsoFormat) (root after : Root) (s : Snapshot) (path : String) : Type 0 where
  folder : Folder
  after_is : after ≡ put root path folder
  latest_is : folder.latest ≡ some (json_object (history_snapshot_payload iso s))

-- The file `latest.json` is written, even where the archive's file cannot be named.
persist-IsWritten :
    (iso : IsoFormat) (resolved : String → Option String) (root : Root) (s : Snapshot)
    (path : String)
    → resolved s.info.group_folder ≡ some path
    → is_writable s.output ≡ true
    → IsWritten iso root (persist_history_snapshot iso resolved root s).1 s path
unfolding persist_history_snapshot
persist-IsWritten iso resolved root s path h w =
    let payload : Json = json_object (history_snapshot_payload iso s) in
    let folder : Folder = record (folder_at root path) { latest = some payload } in
    elim (Bool-cases (is_over s.info.status)) [
      | inr e ↦ record {
        folder = folder;
        after_is = rw (h, w, e, persist_history_snapshot) refl;
        latest_is = refl;
      }
      | inl e ↦ elim (Option-cases (archive_name s.info.session_id)) [
        | inl n ↦ record {
          folder = folder;
          after_is = rw (h, w, e, n, persist_history_snapshot) refl;
          latest_is = refl;
        }
        | inr (name, n) ↦ record {
          folder = record folder { archived = put folder.archived name payload };
          after_is = rw (h, w, e, n, persist_history_snapshot) refl;
          latest_is = refl;
        }
      ]
    ]

-- A snapshot with a lone surrogate in its output leaves the files as they were.
persist-refused :
    (iso : IsoFormat) (resolved : String → Option String) (root : Root) (s : Snapshot)
    (path : String)
    → resolved s.info.group_folder ≡ some path
    → is_writable s.output ≡ false
    → (persist_history_snapshot iso resolved root s).1 ≡ root
unfolding persist_history_snapshot
persist-refused iso resolved root s path h w = rw (h, w, persist_history_snapshot) refl

module _ (iso : IsoFormat) (to_text : Json → Text) (history_max_bytes : ℕ)
    (resolved : String → Option String) where
  load-written :
      (root after : Root) (s : Snapshot) (path : String)
      → ReadsBack iso
      → IsNamed s.info
      → resolved s.info.group_folder ≡ some path
      → IsWritten iso root after s path
      → load_persisted_history_snapshot iso to_text history_max_bytes resolved after
          s.info.group_folder
        ≡ done (some s)
  unfolding load_persisted_history_snapshot
  load-written root after s path back named h w =
      rw (h, load_persisted_history_snapshot)
        (ap (λ t. opened (load_snapshot iso to_text history_max_bytes (folder_at t path).latest))
            w.after_is
          ∙ ap (λ f. opened (load_snapshot iso to_text history_max_bytes f.latest))
              (folder_at-put root path w.folder)
          ∙ ap (λ f. opened (load_snapshot iso to_text history_max_bytes f)) w.latest_is
          ∙ ap opened
              (load_snapshot-history_snapshot_payload iso back to_text history_max_bytes s named))

-- After a snapshot is persisted, given that `fromisoformat` reads what `isoformat` wrote, that its
-- record has four names that are not empty, and that its folder lies below the root, the latest
-- snapshot loaded for its workspace is the snapshot itself; or it is the one loaded before, if the
-- output has a lone surrogate.
pub load_persisted_history_snapshot-persist_history_snapshot :
    (iso : IsoFormat) (to_text : Json → Text) (history_max_bytes : ℕ)
    (resolved : String → Option String) (root : Root) (s : Snapshot) (path : String)
    → ReadsBack iso
    → IsNamed s.info
    → resolved s.info.group_folder ≡ some path
    → load_persisted_history_snapshot iso to_text history_max_bytes resolved
        (persist_history_snapshot iso resolved root s).1
        s.info.group_folder
      ≡ (if is_writable s.output
          then done (some s)
          else load_persisted_history_snapshot iso to_text history_max_bytes resolved root
              s.info.group_folder)
load_persisted_history_snapshot-persist_history_snapshot iso to_text history_max_bytes resolved root
      s path back named h =
    elim (Bool-cases (is_writable s.output)) [
      | inl w ↦ rw (w) (
          load-written iso to_text history_max_bytes resolved root
            (persist_history_snapshot iso resolved root s).1 s path back named h
            (persist-IsWritten iso resolved root s path h w))
      | inr w ↦ rw (w) (
          ap
            (λ r.
              load_persisted_history_snapshot iso to_text history_max_bytes resolved r
                s.info.group_folder)
            (persist-refused iso resolved root s path h w))
    ]
