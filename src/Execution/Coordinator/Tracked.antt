-- ===== src/Execution/Coordinator/Tracked.antt =====
-- A run that is queued or running in services/execution_coordinator.py has its request, so `cancel`
-- finds it.
use text.Mathlib.TextEquality.{eq_iff}
use portex.Common.{
  ℕ, ◌≡◌, refl, ap, Bool, true, false, Option, none, some, List, [], ◌∷◌, ◌++◌, String, get_elem?,
  set, get_elem?-set, get_elem?-push, arith, Option-cases, inl, inr,
}
use portex.Dict.{get, put, get-put, get-pop}
use portex.Execution.Requests.{
  queued, running, completed, failed, cancelled, timeout, ExecutionResult, ExecutionRequest,
}
use portex.Execution.Coordinator.{Coordinator, store_terminal_result, Execution, ExecutionState}
use portex.Execution.Coordinator.Stored.{Stored, store_terminal_result-Stored}
use portex.Execution.Coordinator.Steps.{answer, cancel, cancel_queued, cancel_running}
use portex.Execution.Coordinator.Histories.{Action, perform_all, is_live, is_live_opt, are_settled}
use portex.Execution.Coordinator.Kept.{Core, core, Kept, AreSettled, is_settled_state}
use portex.Execution.Coordinator.Kept.All.{perform_all-kept}

abbrev is_some {ℓ} : {A : Type ℓ} → Option A → Bool
is_some none = false
is_some (some _) = true

pub record IsTracked (k : Core) : Type 0 where
  pub of_future :
      (run_id : String)
      → is_some (get k.run_futures run_id) ≡ true
      → is_some (get k.run_requests run_id) ≡ true
  pub of_status :
      (run_id : String)
      → is_live_opt (get k.statuses run_id) ≡ true
      → is_some (get k.run_requests run_id) ≡ true
  pub settled : AreSettled k.executions

module _ (c : Coordinator) (result : ExecutionResult) (now : ℕ)
    (settled : is_live result.status ≡ false) (b : IsTracked (core c)) where
  abbrev after : Coordinator
  after = store_terminal_result c result now

  abbrev changed : Stored c result after
  changed = store_terminal_result-Stored c result now

  store_terminal_result-IsTracked : IsTracked (core after)
  store_terminal_result-IsTracked = record {
    of_future = λ run_id h. ground (
      arith,
      ap (λ d. get d run_id) changed.run_futures_are,
      ap (λ d. get d run_id) changed.run_requests_are,
      get-pop c.run_futures result.run_id run_id,
      get-pop c.run_requests result.run_id run_id,
      b.of_future run_id,
    );
    of_status = λ run_id h. ground (
      arith,
      changed.statuses_are run_id,
      get-put c.statuses result.run_id run_id result.status,
      ap (λ d. get d run_id) changed.run_requests_are,
      get-pop c.run_requests result.run_id run_id,
      b.of_status run_id,
    );
    settled = rw (changed.executions_same) b.settled;
  }

filed-IsTracked :
    (k : Core) (run_id : String) (request : ExecutionRequest) (f : ℕ)
    → IsTracked k
    → IsTracked (record k {
      run_futures = put k.run_futures run_id f;
      run_requests = put k.run_requests run_id request;
      statuses = put k.statuses run_id queued;
    })
filed-IsTracked k run_id request f b = record {
  of_future = λ other h. ground (
    arith,
    get-put k.run_futures run_id other f,
    get-put k.run_requests run_id other request,
    b.of_future other,
  );
  of_status = λ other h. ground (
    arith,
    get-put k.statuses run_id other queued,
    get-put k.run_requests run_id other request,
    b.of_status other,
  );
  settled = b.settled;
}

started-IsTracked :
    (k : Core) (run_id : String) (f : ℕ) (e : Execution)
    → get k.run_futures run_id ≡ some f
    → is_settled_state e.state ≡ true
    → IsTracked k
    → IsTracked
        (record k { statuses = put k.statuses run_id running; executions = k.executions ++ e ∷ [] })
started-IsTracked k run_id f e found settled b = record {
  of_future = b.of_future;
  of_status = λ other h. ground (
    arith,
    get-put k.statuses run_id other running,
    b.of_status other,
    b.of_future run_id,
    eq_iff run_id other,
  );
  settled = λ t e' at. ground (arith, get_elem?-push k.executions e t, b.settled t e');
}

advanced-AreSettled :
    (executions : List Execution) (t : ℕ) (e : Execution) (state : ExecutionState)
    → get_elem? executions t ≡ some e
    → is_settled_state state ≡ true
    → AreSettled executions
    → AreSettled (set executions t (record e { state = state }))
advanced-AreSettled executions t e state at settled all t' e' at' =
    ground (arith, get_elem?-set executions t (record e { state = state }) t', all t' e')

IsTracked-Kept : Kept true IsTracked
IsTracked-Kept = record {
  settled = λ k b h. b.settled;
  stored = λ c result now settled b. store_terminal_result-IsTracked c result now (settled refl) b;
  filed = filed-IsTracked;
  hired = λ k group_folder over b. record {
    of_future = b.of_future;
    of_status = b.of_status;
    settled = b.settled;
  };
  marked = λ k run_id status over b. record {
    of_future = b.of_future;
    of_status =
        λ other h. ground (arith, get-put k.statuses run_id other status, b.of_status other);
    settled = b.settled;
  };
  started = started-IsTracked;
  moved = λ k w worker state at live b. record {
    of_future = b.of_future;
    of_status = b.of_status;
    settled = b.settled;
  };
  left = λ k w worker at live b. record {
    of_future = b.of_future;
    of_status = b.of_status;
    settled = b.settled;
  };
  advanced = λ k t e state at settled b. record {
    of_future = b.of_future;
    of_status = b.of_status;
    settled = advanced-AreSettled k.executions t e state at (settled refl) b.settled;
  };
}

answers :
    (c : Coordinator)
    → IsTracked (core c)
    → (run_id digits : String) (now : ℕ) → (b : Bool) × ((cancel c run_id digits now).0 ≡ answer b)
unfolding cancel cancel_queued cancel_running
answers c tracked run_id digits now = elim (Option-cases (get c.statuses run_id)) [
  | inl e ↦ (false, rw (e, cancel) refl)
  | inr (queued, e) ↦ elim (Option-cases (get c.run_requests run_id)) [
    | inl r ↦ absurd (ground (arith, tracked.of_status run_id))
    | inr (request, r) ↦ (true, rw (e, r, cancel, cancel_queued) refl)
  ]
  | inr (running, e) ↦ elim (Option-cases (get c.run_requests run_id)) [
    | inl r ↦ absurd (ground (arith, tracked.of_status run_id))
    | inr (request, r) ↦ elim (Option-cases (get c.running_backends run_id)) [
      | inl x ↦ (false, rw (e, r, cancel, x, cancel_running) refl)
      | inr (backend, x) ↦ (true, rw (e, r, cancel, x, cancel_running) refl)
    ]
  ]
  | inr (completed, e) ↦ (false, rw (e, cancel) refl)
  | inr (failed, e) ↦ (false, rw (e, cancel) refl)
  | inr (cancelled, e) ↦ (false, rw (e, cancel) refl)
  | inr (timeout, e) ↦ (false, rw (e, cancel) refl)
]

-- From a coordinator whose queued and running runs have their requests, whose open runs have
-- theirs, and whose executions ended with settled results, after every sequence of submissions,
-- cancellations, worker steps, cancelled waiters and backend outcomes whose status is neither
-- queued nor running, a cancel of any run answers True or False: it raises no `KeyError`.
pub perform_all-cancel :
    (actions : List Action) (c : Coordinator)
    → are_settled actions ≡ true
    → IsTracked (core c)
    → (run_id digits : String) (now : ℕ)
    → (b : Bool) × ((cancel (perform_all actions c) run_id digits now).0 ≡ answer b)
perform_all-cancel actions c settled tracked =
    answers (perform_all actions c)
      (perform_all-kept IsTracked-Kept actions c (λ _. settled) tracked)
