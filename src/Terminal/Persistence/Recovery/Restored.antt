-- ===== src/Terminal/Persistence/Recovery/Restored.antt =====
-- What `_recover_active_sessions_from_persisted_snapshots` of services/terminal_sessions.py leaves:
-- a consistent registry of detached sessions.
use portex.Common.{
  ℕ, ◌≡◌, refl, Bool, true, Option, none, some, List, [], ◌∷◌, ◌++◌, String, Option-cases, inl, inr,
  Bool-cases, ◌||◌, ◌∙◌, ap, not, ◌⊎◌, arith, length,
}
use text.Mathlib.Text.{◌==◌ as str_eq}
use text.Mathlib.TextEquality.{eq_iff}
use mathlib.Core.Path.{subst, subst⁻¹}
use portex.Common.{zero, suc, get_elem?, get_elem?-push, ◌==◌}
use mathlib.Core.Option.{some_inj}
use portex.Dict.{get, has, has-put}
use portex.Text.{Text}
use portex.Terminal.Sessions.{detached, Service, ManagedSession, Snapshot}
use portex.Terminal.Persistence.{Json, IsoFormat}
use portex.Terminal.Persistence.Files.{Root, done, list_persisted_history_snapshots}
use portex.Terminal.Sessions.Registry.Keeps.{IsRegistry, filed, filed-IsRegistry}
use portex.Terminal.Persistence.Recovery.{
  is_recoverable, recovered_session, recover_session, recover_sessions,
  recover_active_sessions_from_persisted_snapshots, new_service,
}

-- Either nothing changes, or the session is filed in a place that was free.
record IsFiled (s : Service) (snapshot : Snapshot) : Type 0 where
  filed_is : recover_session s snapshot ≡ filed s (recovered_session s snapshot)
  no_session : get s.sessions_by_group snapshot.info.group_folder ≡ none
  no_id : get s.sessions_by_id snapshot.info.session_id ≡ none

-- The workspace or the id of a snapshot is taken.
abbrev pub is_taken : Service → Snapshot → Bool
is_taken s snapshot =
    has s.sessions_by_group snapshot.info.group_folder
    || has s.sessions_by_id snapshot.info.session_id

record IsSkipped (s : Service) (snapshot : Snapshot) : Type 0 where
  same : recover_session s snapshot ≡ s
  taken : (not (is_recoverable snapshot.info.status) || is_taken s snapshot) ≡ true

recover_session-cases :
    (s : Service) (snapshot : Snapshot) → IsSkipped s snapshot ⊎ IsFiled s snapshot
unfolding recover_session
recover_session-cases s snapshot = elim (Bool-cases (is_recoverable snapshot.info.status)) [
  | inr e ↦ inl (record { same = rw (e) refl; taken = ground (arith, e) })
  | inl e ↦ elim (Option-cases (get s.sessions_by_group snapshot.info.group_folder)) [
    | inr (r, g) ↦ inl (record { same = rw (e, g) refl; taken = ground (arith, g) })
    | inl g ↦ elim (Option-cases (get s.sessions_by_id snapshot.info.session_id)) [
      | inr (r, h) ↦ inl (record { same = rw (e, g, h) refl; taken = ground (arith, h) })
      | inl h ↦ inr (record { filed_is = rw (e, g, h) refl; no_session = g; no_id = h })
    ]
  ]
]

-- So a property that filing a session keeps is kept.
recovered_keeps :
    (P : Service → Type 0) (s : Service) (snapshot : Snapshot)
    → P s
    → (IsFiled s snapshot → P (filed s (recovered_session s snapshot)))
    → P (recover_session s snapshot)
recovered_keeps P s snapshot v f = elim (recover_session-cases s snapshot) [
  | inl skipped ↦ subst⁻¹ P skipped.same v
  | inr w ↦ subst⁻¹ P w.filed_is (f w)
]

recover_session-IsRegistry :
    (s : Service) (snapshot : Snapshot) → IsRegistry s → IsRegistry (recover_session s snapshot)
recover_session-IsRegistry s snapshot v = recovered_keeps IsRegistry s snapshot v λ w.
    unfold recovered_session in
    filed-IsRegistry s (recovered_session s snapshot) v w.no_session w.no_id

filed-is_taken :
    (s : Service) (snapshot other : Snapshot)
    → is_taken (filed s (recovered_session s snapshot)) other ≡ (
        str_eq snapshot.info.group_folder other.info.group_folder
        || has s.sessions_by_group other.info.group_folder
        || str_eq snapshot.info.session_id other.info.session_id
        || has s.sessions_by_id other.info.session_id)
unfolding recovered_session
filed-is_taken s snapshot other = ground (
  arith,
  has-put s.sessions_by_group snapshot.info.group_folder other.info.group_folder (length s.objects),
  has-put s.sessions_by_id snapshot.info.session_id other.info.session_id (length s.objects),
)

-- What is taken stays so, and the workspace or the id of a recoverable snapshot is taken.
recover_session-is_taken :
    (s : Service) (snapshot other : Snapshot)
    → is_taken s other ≡ true
    → is_taken (recover_session s snapshot) other ≡ true
recover_session-is_taken s snapshot other h =
    recovered_keeps (λ t. is_taken t other ≡ true) s snapshot h
      λ w. ground (arith, filed-is_taken s snapshot other, h)

recovered_is_taken :
    (s : Service) (snapshot : Snapshot)
    → is_recoverable snapshot.info.status ≡ true
    → is_taken (recover_session s snapshot) snapshot ≡ true
recovered_is_taken s snapshot e = elim (recover_session-cases s snapshot) [
  | inl skipped ↦ ap (λ t. is_taken t snapshot) skipped.same ∙ ground (arith, skipped.taken, e)
  | inr w ↦
      ap (λ t. is_taken t snapshot) w.filed_is
      ∙ ground (
        arith,
        filed-is_taken s snapshot snapshot,
        eq_iff snapshot.info.group_folder snapshot.info.group_folder,
      )
]

-- A session that waits for its owner: detached, with no bridge and no time limit.
pub record IsDormant (m : ManagedSession) : Type 0 where
  pub status_is : m.info.status ≡ detached
  pub no_deadline : m.info.reconnect_deadline ≡ none
  pub no_bridge : m.bridge ≡ none
  pub no_task : m.reconnect_task ≡ none

abbrev pub AllDormant : List ManagedSession → Type 0
AllDormant objects = (i : ℕ) (m : ManagedSession) → get_elem? objects i ≡ some m → IsDormant m

push-AllDormant :
    (objects : List ManagedSession) (m : ManagedSession)
    → IsDormant m
    → AllDormant objects
    → AllDormant (objects ++ m ∷ [])
push-AllDormant objects m d all i x h = elim (Bool-cases (i == length objects)) [
  | inl e ↦ subst IsDormant (ground (arith, h, get_elem?-push objects m i)) d
  | inr e ↦ all i x (ground (arith, h, get_elem?-push objects m i))
]

recovered_session-IsDormant :
    (s : Service) (snapshot : Snapshot) → IsDormant (recovered_session s snapshot)
unfolding recovered_session
recovered_session-IsDormant s snapshot = record {
  status_is = refl;
  no_deadline = refl;
  no_bridge = refl;
  no_task = refl;
}

-- What recovery makes of the snapshots on disk.
pub record IsRestored (s : Service) (snapshots : List Snapshot) : Type 0 where
  pub registry : IsRegistry s
  pub all_dormant : AllDormant s.objects
  pub all_taken :
      (i : ℕ) (snapshot : Snapshot)
      → get_elem? snapshots i ≡ some snapshot
      → is_recoverable snapshot.info.status ≡ true
      → is_taken s snapshot ≡ true

recover_sessions-is_taken :
    (s : Service) (snapshots : List Snapshot) (other : Snapshot)
    → is_taken s other ≡ true
    → is_taken (recover_sessions s snapshots) other ≡ true
unfolding recover_sessions
recover_sessions-is_taken s [] other h = h
recover_sessions-is_taken s (x ∷ xs) other h =
    recover_sessions-is_taken (recover_session s x) xs other (recover_session-is_taken s x other h)

taken_cons :
    (s : Service) (x : Snapshot) (xs : List Snapshot)
    → ((i : ℕ) (y : Snapshot)
        → get_elem? xs i ≡ some y
        → is_recoverable y.info.status ≡ true
        → is_taken (recover_sessions (recover_session s x) xs) y ≡ true)
    → (i : ℕ) (y : Snapshot) → get_elem? (x ∷ xs) i ≡ some y
    → is_recoverable y.info.status ≡ true
    → is_taken (recover_sessions (recover_session s x) xs) y ≡ true
taken_cons s x xs rest zero y h e =
    let here : is_taken (recover_session s x) y ≡ true =
      subst (λ z. is_recoverable z.info.status ≡ true → is_taken (recover_session s x) z ≡ true)
        (some_inj.0 h) (recovered_is_taken s x) e in
    recover_sessions-is_taken (recover_session s x) xs y here
taken_cons s x xs rest (suc i) y h e = rest i y h e

recover_sessions-IsRestored :
    (s : Service) (snapshots : List Snapshot)
    → IsRegistry s
    → AllDormant s.objects
    → IsRestored (recover_sessions s snapshots) snapshots
unfolding recover_sessions
recover_sessions-IsRestored s [] v all = record {
  registry = v;
  all_dormant = all;
  all_taken = λ i x h e. cc;
}
recover_sessions-IsRestored s (x ∷ xs) v all =
    let dormant : AllDormant (recover_session s x).objects =
      recovered_keeps (λ t. AllDormant t.objects) s x all
        λ w.
          push-AllDormant s.objects (recovered_session s x) (recovered_session-IsDormant s x) all in
    let rest : IsRestored (recover_sessions (recover_session s x) xs) xs =
      recover_sessions-IsRestored (recover_session s x) xs (recover_session-IsRegistry s x v)
        dormant in
    record {
      registry = rest.registry;
      all_dormant = rest.all_dormant;
      all_taken = taken_cons s x xs rest.all_taken;
    }

-- A service that starts with recovery, if every file can be read, has a registry whose dicts
-- mirror each other, in which every session is detached, with no bridge, no deadline and no timer;
-- and for every snapshot on disk of an active session, its workspace or its id is taken.
pub recovery_lem :
    (iso : IsoFormat) (to_text : Json → Text) (resolved : String → Option String) (root : Root)
    (reconnect_timeout history_max_bytes : ℕ) (snapshots : List Snapshot)
    → list_persisted_history_snapshots iso to_text history_max_bytes resolved root ≡ done snapshots
    → (s : Service) × (recover_active_sessions_from_persisted_snapshots iso to_text resolved root
          (new_service reconnect_timeout history_max_bytes)
        ≡ done s)
      × IsRestored s snapshots
unfolding recover_active_sessions_from_persisted_snapshots
recovery_lem iso to_text resolved root reconnect_timeout history_max_bytes snapshots h = (
  recover_sessions (new_service reconnect_timeout history_max_bytes) snapshots,
  rw (h, recover_active_sessions_from_persisted_snapshots) refl,
  recover_sessions-IsRestored (new_service reconnect_timeout history_max_bytes) snapshots
      (unfold get in record { by_group = λ f r e. cc; by_id = λ i r e. cc }) (λ i m e. cc),
)
