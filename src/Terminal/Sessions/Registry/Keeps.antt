-- ===== src/Terminal/Sessions/Registry/Keeps.antt =====
-- The invariant of the dicts of services/terminal_sessions.py, and the three updates that keep it.
use text.Mathlib.Text.{◌==◌ as str_eq}
use text.Mathlib.TextEquality.{eq_iff}
use portex.Common.{
  ℕ, ◌≡◌, ◌≢◌, refl, ◌∙◌, ap, none, some, List, [], ◌∷◌, ◌++◌, String, length, get_elem?, set, ◌==◌,
  arith, get_elem?-set, get_elem?-push, get_elem?-lt, Bool-cases, inl, inr,
}
use portex.Dict.{get, put, pop, get-put, get-pop}
use portex.Terminal.Sessions.{
  SessionEvent, Service, ManagedSession, update, drop_session, without_timer,
}

-- What a reference in the dict of workspaces stands for, and one in the dict of ids.
pub record InGroup (s : Service) (folder : String) (r : ℕ) : Type 0 where
  pub object : ManagedSession
  pub at : get_elem? s.objects r ≡ some object
  pub folder_is : object.info.group_folder ≡ folder
  pub other_way : get s.sessions_by_id object.info.session_id ≡ some r

pub record InIds (s : Service) (session_id : String) (r : ℕ) : Type 0 where
  pub object : ManagedSession
  pub at : get_elem? s.objects r ≡ some object
  pub id_is : object.info.session_id ≡ session_id
  pub other_way : get s.sessions_by_group object.info.group_folder ≡ some r

-- Each reference of a dict stands for a session that is filed under its own key there, and under
-- its own key in the other dict.
pub record IsRegistry (s : Service) : Type 0 where
  pub by_group : (f : String) (r : ℕ) → get s.sessions_by_group f ≡ some r → InGroup s f r
  pub by_id : (i : String) (r : ℕ) → get s.sessions_by_id i ≡ some r → InIds s i r

-- A session that keeps its id and its workspace.
pub record SameKeys (m m' : ManagedSession) : Type 0 where
  pub same_id : m'.info.session_id ≡ m.info.session_id
  pub same_folder : m'.info.group_folder ≡ m.info.group_folder

module _ (s : Service) (r : ℕ) (m m' : ManagedSession) (at : get_elem? s.objects r ≡ some m)
    (keys : SameKeys m m') where
  object_after :
      (j : ℕ) (x : ManagedSession)
      → get_elem? s.objects j ≡ some x
      → (y : ManagedSession) × (get_elem? (set s.objects r m') j ≡ some y) × SameKeys x y
  object_after j x h = elim (Bool-cases (r == j)) [
    | inl e ↦ (
      m',
      ground (arith, get_elem?-set s.objects r m' j, get_elem?-lt s.objects r m),
      ground arith,
    )
    | inr e ↦ (x, ground (arith, get_elem?-set s.objects r m' j), ground arith)
  ]

  -- A write to a session that keeps its keys.
  pub update-IsRegistry : IsRegistry s → IsRegistry (update s r m')
  update-IsRegistry v = record {
    by_group = λ f j h.
        let w : InGroup s f j = v.by_group f j h in
        let (y, found, same) = object_after j w.object w.at in
        record {
          object = y;
          at = found;
          folder_is = same.same_folder ∙ w.folder_is;
          other_way = ap (get s.sessions_by_id) same.same_id ∙ w.other_way;
        };
    by_id = λ i j h.
        let w : InIds s i j = v.by_id i j h in
        let (y, found, same) = object_after j w.object w.at in
        record {
          object = y;
          at = found;
          id_is = same.same_id ∙ w.id_is;
          other_way = ap (get s.sessions_by_group) same.same_folder ∙ w.other_way;
        };
  }

abbrev popped : Service → ManagedSession → Service
popped s m = record s {
  sessions_by_group = pop s.sessions_by_group m.info.group_folder;
  sessions_by_id = pop s.sessions_by_id m.info.session_id;
}

-- Taking one session out of both dicts.
module _ (s : Service) (r : ℕ) (m : ManagedSession) (at : get_elem? s.objects r ≡ some m)
    (v : IsRegistry s) (here : get s.sessions_by_group m.info.group_folder ≡ some r) where
  folder_stays :
      (f : String) (j : ℕ)
      → get (pop s.sessions_by_group m.info.group_folder) f ≡ some j
      → (get s.sessions_by_group f ≡ some j) × (j ≢ r)
  folder_stays f j h = elim (Bool-cases (str_eq m.info.group_folder f)) [
    | inl e ↦ absurd (ground (arith, get-pop s.sessions_by_group m.info.group_folder f))
    | inr e ↦
        let g : get s.sessions_by_group f ≡ some j =
          ground (arith, get-pop s.sessions_by_group m.info.group_folder f) in
        let w : InGroup s f j = v.by_group f j g in
        (g, λ same. ground (arith, w.at, w.folder_is, eq_iff m.info.group_folder f))
  ]

  id_stays :
      (i : String) (j : ℕ)
      → get (pop s.sessions_by_id m.info.session_id) i ≡ some j
      → (get s.sessions_by_id i ≡ some j) × (j ≢ r)
  id_stays i j h = elim (Bool-cases (str_eq m.info.session_id i)) [
    | inl e ↦ absurd (ground (arith, get-pop s.sessions_by_id m.info.session_id i))
    | inr e ↦
        let g : get s.sessions_by_id i ≡ some j =
          ground (arith, get-pop s.sessions_by_id m.info.session_id i) in
        let w : InIds s i j = v.by_id i j g in
        (g, λ same. ground (arith, w.at, w.id_is, eq_iff m.info.session_id i))
  ]

  id_kept :
      (i : String) (j : ℕ)
      → get s.sessions_by_id i ≡ some j
      → j ≢ r
      → get (pop s.sessions_by_id m.info.session_id) i ≡ some j
  id_kept i j h apart =
      let w : InGroup s m.info.group_folder r = v.by_group m.info.group_folder r here in
      ground (
        arith,
        get-pop s.sessions_by_id m.info.session_id i,
        eq_iff m.info.session_id i,
        w.at,
        w.other_way,
      )

  folder_kept :
      (f : String) (j : ℕ)
      → get s.sessions_by_group f ≡ some j
      → j ≢ r
      → get (pop s.sessions_by_group m.info.group_folder) f ≡ some j
  folder_kept f j h apart =
      ground
        (arith, get-pop s.sessions_by_group m.info.group_folder f, eq_iff m.info.group_folder f)

  popped-IsRegistry : IsRegistry (popped s m)
  popped-IsRegistry = record {
    by_group = λ f j h.
        let (g, apart) = folder_stays f j h in
        let w : InGroup s f j = v.by_group f j g in
        record {
          object = w.object;
          at = w.at;
          folder_is = w.folder_is;
          other_way = id_kept (w.object.info.session_id) j w.other_way apart;
        };
    by_id = λ i j h.
        let (g, apart) = id_stays i j h in
        let w : InIds s i j = v.by_id i j g in
        record {
          object = w.object;
          at = w.at;
          id_is = w.id_is;
          other_way = folder_kept (w.object.info.group_folder) j w.other_way apart;
        };
  }

-- `_drop_session`, of the session of a workspace.
pub drop_session-IsRegistry :
    (s : Service) (r : ℕ) (m : ManagedSession)
    → get_elem? s.objects r ≡ some m
    → IsRegistry s
    → get s.sessions_by_group m.info.group_folder ≡ some r
    → IsRegistry (drop_session s r m)
unfolding drop_session
drop_session-IsRegistry s r m at v here =
    popped-IsRegistry (update s r (without_timer m)) r (without_timer m)
      (ground (arith, get_elem?-set s.objects r (without_timer m) r, get_elem?-lt s.objects r m))
      (update-IsRegistry s r m (without_timer m) at (record { same_id = refl; same_folder = refl })
        v)
      here

-- A session filed under its two keys, as `create_session` and the recovery at start do.
abbrev pub filed : Service → ManagedSession → Service
filed s m = record s {
  objects = s.objects ++ m ∷ [];
  sessions_by_group = put s.sessions_by_group m.info.group_folder (length s.objects);
  sessions_by_id = put s.sessions_by_id m.info.session_id (length s.objects);
}

-- A session under a fresh id, in a workspace that has none.
module _ (s : Service) (m : ManagedSession) (v : IsRegistry s)
    (free : get s.sessions_by_group m.info.group_folder ≡ none)
    (fresh : get s.sessions_by_id m.info.session_id ≡ none) where
  old_object :
      (j : ℕ) (x : ManagedSession)
      → get_elem? s.objects j ≡ some x
      → get_elem? (s.objects ++ m ∷ []) j ≡ some x
  old_object j x h = ground (arith, get_elem?-push s.objects m j, get_elem?-lt s.objects j x)

  new_object : get_elem? (s.objects ++ m ∷ []) (length s.objects) ≡ some m
  new_object = ground (arith, get_elem?-push s.objects m (length s.objects))

  old_folder :
      (f : String) (j : ℕ)
      → get s.sessions_by_group f ≡ some j
      → get (filed s m).sessions_by_group f ≡ some j
  old_folder f j h = ground (
    arith,
    get-put s.sessions_by_group m.info.group_folder f (length s.objects),
    eq_iff m.info.group_folder f,
  )

  old_id :
      (i : String) (j : ℕ)
      → get s.sessions_by_id i ≡ some j
      → get (filed s m).sessions_by_id i ≡ some j
  old_id i j h = ground (
    arith,
    get-put s.sessions_by_id m.info.session_id i (length s.objects),
    eq_iff m.info.session_id i,
  )

  new_folder : get (filed s m).sessions_by_group m.info.group_folder ≡ some (length s.objects)
  new_folder = ground (
    arith,
    get-put s.sessions_by_group m.info.group_folder m.info.group_folder (length s.objects),
    eq_iff m.info.group_folder m.info.group_folder,
  )

  new_id : get (filed s m).sessions_by_id m.info.session_id ≡ some (length s.objects)
  new_id = ground (
    arith,
    get-put s.sessions_by_id m.info.session_id m.info.session_id (length s.objects),
    eq_iff m.info.session_id m.info.session_id,
  )

  folder_of_filed :
      (f : String) (j : ℕ) → get (filed s m).sessions_by_group f ≡ some j → InGroup (filed s m) f j
  folder_of_filed f j h = elim (Bool-cases (str_eq m.info.group_folder f)) [
    | inl e ↦
        let here : length s.objects ≡ j =
          ground (arith, get-put s.sessions_by_group m.info.group_folder f (length s.objects)) in
        record {
          object = m;
          at = rw (← here) new_object;
          folder_is = (eq_iff m.info.group_folder f).0 e;
          other_way = rw (← here) new_id;
        }
    | inr e ↦
        let w : InGroup s f j =
          v.by_group f j (
            ground (arith, get-put s.sessions_by_group m.info.group_folder f (length s.objects))) in
        record {
          object = w.object;
          at = old_object j w.object w.at;
          folder_is = w.folder_is;
          other_way = old_id w.object.info.session_id j w.other_way;
        }
  ]

  id_of_filed :
      (i : String) (j : ℕ) → get (filed s m).sessions_by_id i ≡ some j → InIds (filed s m) i j
  id_of_filed i j h = elim (Bool-cases (str_eq m.info.session_id i)) [
    | inl e ↦
        let here : length s.objects ≡ j =
          ground (arith, get-put s.sessions_by_id m.info.session_id i (length s.objects)) in
        record {
          object = m;
          at = rw (← here) new_object;
          id_is = (eq_iff m.info.session_id i).0 e;
          other_way = rw (← here) new_folder;
        }
    | inr e ↦
        let w : InIds s i j =
          v.by_id i j
            (ground (arith, get-put s.sessions_by_id m.info.session_id i (length s.objects))) in
        record {
          object = w.object;
          at = old_object j w.object w.at;
          id_is = w.id_is;
          other_way = old_folder w.object.info.group_folder j w.other_way;
        }
  ]

  pub filed-IsRegistry : IsRegistry (filed s m)
  filed-IsRegistry = record { by_group = folder_of_filed; by_id = id_of_filed }

-- The queues are no part of it.
pub queues-IsRegistry :
    (s : Service) (q : List (List SessionEvent))
    → IsRegistry s
    → IsRegistry (record s { queues = q })
queues-IsRegistry s q v = record {
  by_group = λ f j h.
      let w : InGroup s f j = v.by_group f j h in
      record { object = w.object; at = w.at; folder_is = w.folder_is; other_way = w.other_way };
  by_id = λ i j h.
      let w : InIds s i j = v.by_id i j h in
      record { object = w.object; at = w.at; id_is = w.id_is; other_way = w.other_way };
}
