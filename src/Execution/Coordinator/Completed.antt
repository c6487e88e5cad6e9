-- ===== src/Execution/Coordinator/Completed.antt =====
-- The parts of `_store_terminal_result` in services/execution_coordinator.py: which fields each
-- changes, and what the loop over `_completed_order` drops.
use text.Mathlib.Text.{◌==◌ as str_eq}
use portex.Common.{
  ℕ, suc, ◌-◌, ◌≡◌, refl, sym, ap, ◌∙◌, Bool, true, false, ◌&&◌, ◌||◌, ◌==◌, ==_iff, set,
  get_elem?-set, get_elem?-lt, Option, none, some, List, [], ◌∷◌, String, length, get_elem?, take,
  drop, ltb, arith, Option-cases, Bool-cases, inl, inr, if◌then◌else◌,
}
use portex.Dict.{Dict, get, pop, get-pop}
use portex.Execution.Requests.{ExecutionResult}
use portex.Execution.Coordinator.{
  Coordinator, Future, resolved, evict, forget_run, resolve, mark_terminal, is_pending,
}

abbrev pub has_id : String → List String → Bool
has_id run_id [] = false
has_id run_id (x ∷ xs) = str_eq x run_id || has_id run_id xs

-- How many entries are over the limit.
abbrev pub excess : ℕ → List String → ℕ
excess max_runs order = length order - max_runs

excess_over : (m n : ℕ) → ltb m (suc n) ≡ true → suc n - m ≡ suc (n - m)
excess_over m n h = ground arith

excess_within : (m n : ℕ) → ltb m (suc n) ≡ false → suc n - m ≡ 0
excess_within m n h = ground arith

no_excess : (m : ℕ) → 0 ≡ 0 - m
no_excess m = ground arith

pub evict-completed_order :
    (order : List String) (c : Coordinator)
    → (evict order c).completed_order ≡ drop (excess c.setup.max_completed_runs order) order
unfolding evict
evict-completed_order [] c = ap (λ n. drop n []) (no_excess c.setup.max_completed_runs)
evict-completed_order (x ∷ order) c =
    elim (Bool-cases (ltb c.setup.max_completed_runs (suc (length order)))) [
      | inl e ↦
          rw (e, excess_over c.setup.max_completed_runs (length order) e)
            (evict-completed_order order (forget_run c x))
      | inr e ↦ rw (e, excess_within c.setup.max_completed_runs (length order) e) refl
    ]

-- A dict of the runs loses those over the limit.
evict-get :
    {V : Type 0} (field : Coordinator → Dict V)
    → ((c : Coordinator) (x : String) → field (forget_run c x) ≡ pop (field c) x)
    → ((c : Coordinator) (order : List String)
        → field (record c { completed_order = order }) ≡ field c)
    → (order : List String) (c : Coordinator) (run_id : String)
    → get (field (evict order c)) run_id ≡ (
        if has_id run_id (take (excess c.setup.max_completed_runs order) order)
        then none
        else get (field c) run_id)
unfolding evict
evict-get field popped kept [] c run_id =
    ap (λ d. get d run_id) (kept c [])
    ∙ ap (λ n. if has_id run_id (take n []) then none else get (field c) run_id)
        (no_excess c.setup.max_completed_runs)
evict-get field popped kept (x ∷ order) c run_id =
    elim (Bool-cases (ltb c.setup.max_completed_runs (suc (length order)))) [
      | inl e ↦
          rw (e, excess_over c.setup.max_completed_runs (length order) e)
            (ground (
              arith,
              evict-get field popped kept order (forget_run c x) run_id,
              ap (λ d. get d run_id) (popped c x),
              get-pop (field c) x run_id,
            ))
      | inr e ↦
          rw (e, excess_within c.setup.max_completed_runs (length order) e)
            (ap (λ d. get d run_id) (kept c (x ∷ order)))
    ]

module _ (order : List String) (c : Coordinator) (run_id : String) where
  abbrev kept_of {ℓ} : {A : Type ℓ} → Option A → Option A
  kept_of found =
      if has_id run_id (take (excess c.setup.max_completed_runs order) order) then none else found

  pub evict-completed_results :
      get (evict order c).completed_results run_id ≡ kept_of (get c.completed_results run_id)
  evict-completed_results =
      evict-get (λ k. k.completed_results) (λ k x. refl) (λ k l. refl) order c run_id

  pub evict-statuses : get (evict order c).statuses run_id ≡ kept_of (get c.statuses run_id)
  evict-statuses = evict-get (λ k. k.statuses) (λ k x. refl) (λ k l. refl) order c run_id

  pub evict-run_snapshots :
      get (evict order c).run_snapshots run_id ≡ kept_of (get c.run_snapshots run_id)
  evict-run_snapshots = evict-get (λ k. k.run_snapshots) (λ k x. refl) (λ k l. refl) order c run_id

pub evict-rest :
    (order : List String) (c : Coordinator)
    → evict order c ≡ (record c {
      completed_order = (evict order c).completed_order;
      completed_results = (evict order c).completed_results;
      statuses = (evict order c).statuses;
      run_snapshots = (evict order c).run_snapshots;
    })
unfolding evict
evict-rest [] c = refl
evict-rest (x ∷ order) c = elim (Bool-cases (ltb c.setup.max_completed_runs (suc (length order)))) [
  | inl e ↦ rw (e) (evict-rest order (forget_run c x))
  | inr e ↦ rw (e) refl
]

pub mark_terminal-rest :
    (c : Coordinator) (result : ExecutionResult) (now : ℕ)
    → mark_terminal c result now
      ≡ (record c { run_snapshots = (mark_terminal c result now).run_snapshots })
unfolding mark_terminal
mark_terminal-rest c result now = elim (Option-cases (get c.run_snapshots result.run_id)) [
  | inl e ↦ rw (e, mark_terminal) refl
  | inr (snapshot, e) ↦ rw (e, mark_terminal) refl
]

pub resolve-rest :
    (c : Coordinator) (run_id : String) (result : ExecutionResult)
    → resolve c run_id result ≡ (record c { futures = (resolve c run_id result).futures })
unfolding resolve
resolve-rest c run_id result = elim (Option-cases (get c.run_futures run_id)) [
  | inl e ↦ rw (e, resolve) refl
  | inr (f, e) ↦ elim (Bool-cases (is_pending (get_elem? c.futures f))) [
    | inl p ↦ rw (e, p, resolve) refl
    | inr p ↦ rw (e, p, resolve) refl
  ]
]

-- The future at a reference, when a run's result is set: only the run's own, if it is pending.
abbrev pub told_future : Option ℕ → ℕ → Option Future → ExecutionResult → Option Future
told_future none f future result = future
told_future (some own) f future result =
    if own == f && is_pending future then some (resolved result) else future

own_told :
    (futures : List Future) (own f : ℕ) (future : Future) (result : ExecutionResult)
    → get_elem? futures own ≡ some future
    → is_pending (some future) ≡ true
    → get_elem? (set futures own (resolved result)) f
      ≡ told_future (some own) f (get_elem? futures f) result
own_told futures own f future result at p = elim (Bool-cases (own == f)) [
  | inl e ↦
      let here : get_elem? futures f ≡ some future =
        ap (get_elem? futures) (sym ((==_iff own f).0 e)) ∙ at in
      rw (e, here, p)
        (ground (
          arith,
          get_elem?-set futures own (resolved result) f,
          get_elem?-lt futures own future at,
          e,
        ))
  | inr e ↦ rw (e) (ground (arith, get_elem?-set futures own (resolved result) f, e))
]

own_kept :
    (futures : List Future) (own f : ℕ) (result : ExecutionResult)
    → is_pending (get_elem? futures own) ≡ false
    → get_elem? futures f ≡ told_future (some own) f (get_elem? futures f) result
own_kept futures own f result p = elim (Bool-cases (own == f)) [
  | inl e ↦
      let here : is_pending (get_elem? futures f) ≡ false =
        ap (λ g. is_pending (get_elem? futures g)) (sym ((==_iff own f).0 e)) ∙ p in
      rw (e, here) refl
  | inr e ↦ rw (e) refl
]

pub resolve-futures :
    (c : Coordinator) (run_id : String) (result : ExecutionResult) (f : ℕ)
    → get_elem? (resolve c run_id result).futures f
      ≡ told_future (get c.run_futures run_id) f (get_elem? c.futures f) result
unfolding resolve
resolve-futures c run_id result f = elim (Option-cases (get c.run_futures run_id)) [
  | inl e ↦ rw (e, resolve) refl
  | inr (own, e) ↦ elim (Bool-cases (is_pending (get_elem? c.futures own))) [
    | inl p ↦ elim (Option-cases (get_elem? c.futures own)) [
      | inl n ↦ absurd (ground (arith, p, n))
      | inr (future, n) ↦
          rw (e, p, resolve) (own_told c.futures own f future result n (ap is_pending (sym n) ∙ p))
    ]
    | inr p ↦ rw (e, p, resolve) (own_kept c.futures own f result p)
  ]
]
