-- ===== src/Execution/Coordinator/Lost.antt =====
-- Two ways in which services/execution_coordinator.py loses a run.
use text.Mathlib.TextEquality.{eq_iff}
use portex.Common.{
  ℕ, suc, ◌≡◌, refl, sym, ap, ◌∙◌, true, false, none, some, List, [], ◌∷◌, ◌++◌, String, length,
  length-append, take, get_elem?, set, get_elem?-set, get_elem?-lt, arith, if◌then◌else◌,
}
use portex.Dict.{get, put, get-pop}
use portex.Execution.Requests.{ExecutionResult, ExecutionRequest}
use portex.Execution.Coordinator.{
  Coordinator, pending, abandoned, is_pending, future_of, waiter_cancelled, Worker, ready,
  store_terminal_result, key_error, wait_for_run,
}
use portex.Execution.Coordinator.Completed.{has_id, excess}
use portex.Execution.Coordinator.Stored.{Stored, stale_with, store_terminal_result-Stored}
use portex.Execution.Coordinator.Runs.{worker_step, next_run, execute_request, start_execution}

repeated_is_stale :
    (max_runs : ℕ) (run_id : String) (rest : List String)
    → suc (length rest) ≡ max_runs
    → has_id run_id
        (take (excess max_runs ((run_id ∷ rest) ++ run_id ∷ [])) ((run_id ∷ rest) ++ run_id ∷ []))
      ≡ true
repeated_is_stale max_runs run_id rest full =
    let one : excess max_runs ((run_id ∷ rest) ++ run_id ∷ []) ≡ 1 =
      ground (arith, length-append rest (run_id ∷ [])) in
    rw (one) (ground (arith, eq_iff run_id run_id))

-- When the record of finished runs is full, and its oldest run has the id of the run whose result
-- is stored, as for a request with an id that was used before, the new result is lost at once: a
-- wait for the run raises `KeyError`.
pub store_terminal_result-lost :
    (c : Coordinator) (result : ExecutionResult) (now : ℕ) (rest : List String)
    → c.completed_order ≡ result.run_id ∷ rest
    → length c.completed_order ≡ c.setup.max_completed_runs
    → wait_for_run (store_terminal_result c result now) result.run_id ≡ key_error
unfolding wait_for_run
store_terminal_result-lost c result now rest order full =
    let s : Stored c result (store_terminal_result c result now) =
      store_terminal_result-Stored c result now in
    let stale : has_id result.run_id (stale_with c result.run_id) ≡ true = rw (order) (
      repeated_is_stale c.setup.max_completed_runs result.run_id rest
        (sym (ap length order) ∙ full)) in
    let lost : get (store_terminal_result c result now).completed_results result.run_id ≡ none =
      s.results_are result.run_id
      ∙ ap
          (λ b.
            if b then none else get (put c.completed_results result.run_id result) result.run_id)
          stale in
    let popped : get (store_terminal_result c result now).run_futures result.run_id ≡ none =
      ap (λ d. get d result.run_id) s.run_futures_are
      ∙ ground (
        arith,
        get-pop c.run_futures result.run_id result.run_id,
        eq_iff result.run_id result.run_id,
      ) in
    rw (lost, wait_for_run, popped) refl

-- The worker skips a run whose future is done.
dropped :
    (c : Coordinator) (w : ℕ) (worker : Worker) (run_id : String) (request : ExecutionRequest)
    (rest : List (String × ExecutionRequest)) (digits : String) (now : ℕ)
    → get c.group_queues worker.group_folder ≡ some ((run_id, request) ∷ rest)
    → is_pending (future_of c run_id) ≡ false
    → next_run c w worker digits now
      ≡ (record c { group_queues = put c.group_queues worker.group_folder rest })
unfolding next_run future_of
dropped c w worker run_id request rest digits now queue closed =
    rw (queue, next_run) (rw (closed, future_of) refl)

-- When the task that waits for a run is cancelled, the run's future is pending, and the run is the
-- next of its group, the step of the group's ready worker takes the run out of the queue and does
-- nothing else: its status stays as it was, and it does not start.
pub waiter_cancelled-drops :
    (c : Coordinator) (w f : ℕ) (worker : Worker) (run_id : String) (request : ExecutionRequest)
    (rest : List (String × ExecutionRequest)) (digits : String) (now : ℕ)
    → get_elem? c.workers w ≡ some worker
    → worker.state ≡ ready
    → get c.group_queues worker.group_folder ≡ some ((run_id, request) ∷ rest)
    → get c.run_futures run_id ≡ some f
    → get_elem? c.futures f ≡ some pending
    → worker_step (waiter_cancelled c f) w digits now ≡ (record c {
      futures = set c.futures f abandoned;
      group_queues = put c.group_queues worker.group_folder rest;
    })
unfolding waiter_cancelled worker_step next_run future_of execute_request start_execution
waiter_cancelled-drops c w f worker run_id request rest digits now at idle queue future
      open_future =
    let shut : is_pending (get_elem? (set c.futures f abandoned) f) ≡ false =
      ground (arith, get_elem?-set c.futures f abandoned f, get_elem?-lt c.futures f pending) in
    let left : Coordinator = record c { futures = set c.futures f abandoned } in
    let first : waiter_cancelled c f ≡ left = rw (open_future, waiter_cancelled) refl in
    let step : worker_step left w digits now ≡ next_run left w worker digits now =
      rw (at, worker_step, idle) refl in
    let closed : is_pending (future_of left run_id) ≡ false = rw (future, future_of) shut in
    ap (λ k. worker_step k w digits now) first
    ∙ step
    ∙ dropped left w worker run_id request rest digits now queue closed
