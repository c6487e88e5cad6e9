-- ===== src/Execution/Coordinator/Cancelled.antt =====
-- A run that `cancel` of services/execution_coordinator.py has ended stays so, however its backend
-- ends.
use text.Mathlib.TextEquality.{eq_iff}
use portex.Common.{
  ℕ, ◌≡◌, refl, ap, ◌∙◌, true, some, String, get_elem?, set, get_elem?-set, get_elem?-lt, arith,
}
use portex.Dict.{get, get-put}
use portex.Execution.Requests.{running, ExecutionRequest}
use portex.Execution.Coordinator.{
  Coordinator, store_terminal_result, Worker, awaiting, Execution, ExecutionState, trying, retrying,
  finished, aborted,
}
use portex.Execution.Coordinator.Stored.{Stored, store_terminal_result-Stored}
use portex.Execution.Coordinator.Steps.{
  cancel, cancel_running, safe_select_backend_name, peek_session_id, marked_cancelled,
  cancelled_result,
}
use portex.Execution.Coordinator.Runs.{worker_step, end_execution, is_cancelled}
use portex.Execution.Coordinator.Backends.{set_execution}
use portex.Execution.Coordinator.Kept.{Core, core}
use portex.Execution.Coordinator.Kept.Calls.{core-resolve_session_id}

-- What a coordinator answers about runs that are over.
pub record SameAnswers (c c' : Coordinator) : Type 0 where
  pub same_statuses : c'.statuses ≡ c.statuses
  pub same_results : c'.completed_results ≡ c.completed_results
  pub same_order : c'.completed_order ≡ c.completed_order
  pub same_futures : c'.futures ≡ c.futures

end_execution-SameAnswers :
    (c : Coordinator) (w : ℕ) (worker : Worker) (run_id : String) (state : ExecutionState) (now : ℕ)
    → is_cancelled c run_id ≡ true
    → SameAnswers c (end_execution c w worker run_id state now)
unfolding end_execution
end_execution-SameAnswers c w worker run_id (trying _) now h = record {
  same_statuses = refl;
  same_results = refl;
  same_order = refl;
  same_futures = refl;
}
end_execution-SameAnswers c w worker run_id (retrying _) now h = record {
  same_statuses = refl;
  same_results = refl;
  same_order = refl;
  same_futures = refl;
}
end_execution-SameAnswers c w worker run_id (finished result) now h =
    rw (h, end_execution)
      (record { same_statuses = refl; same_results = refl; same_order = refl; same_futures = refl })
end_execution-SameAnswers c w worker run_id aborted now h =
    rw (h, end_execution)
      (record { same_statuses = refl; same_results = refl; same_order = refl; same_futures = refl })

-- A worker that awaits the execution of a run which is marked as cancelled.
worker_step-SameAnswers :
    (c : Coordinator) (w : ℕ) (worker : Worker) (run_id : String) (request : ExecutionRequest)
    (t : ℕ) (e : Execution) (digits : String) (now : ℕ)
    → is_cancelled c run_id ≡ true
    → get_elem? c.workers w ≡ some worker
    → worker.state ≡ awaiting run_id request t
    → get_elem? c.executions t ≡ some e
    → SameAnswers c (worker_step c w digits now)
unfolding worker_step
worker_step-SameAnswers c w worker run_id request t e digits now h at state here =
    rw (at, state, here, worker_step) (end_execution-SameAnswers c w worker run_id e.state now h)

-- The coordinator that a cancel of a running run leaves.
cancelled_coordinator :
    (c : Coordinator) (run_id : String) (request : ExecutionRequest) (backend digits : String)
    (now : ℕ)
    → get c.statuses run_id ≡ some running
    → get c.run_requests run_id ≡ some request
    → get c.running_backends run_id ≡ some backend
    → (is_cancelled (cancel c run_id digits now).1 run_id ≡ true)
      × ((cancel c run_id digits now).1.workers ≡ c.workers)
      × ((cancel c run_id digits now).1.executions ≡ c.executions)
unfolding cancel cancel_running
cancelled_coordinator c run_id request backend digits now status found at =
    let s : Stored (marked_cancelled c run_id request digits)
        (cancelled_result c run_id request digits)
        (store_terminal_result (marked_cancelled c run_id request digits)
          (cancelled_result c run_id request digits) now) =
      store_terminal_result-Stored (marked_cancelled c run_id request digits)
        (cancelled_result c run_id request digits) now in
    let peeked : core (marked_cancelled c run_id request digits)
        ≡ (record (core c) { statuses = (marked_cancelled c run_id request digits).statuses }) =
      ap {A = Core} {B = Core}
        (λ k. record k { statuses = (marked_cancelled c run_id request digits).statuses })
        (core-resolve_session_id c request (safe_select_backend_name c request)
          request.fresh_session digits) in
    rw (status, found, cancel, at, cancel_running)
      (
        ground (
          arith,
          ap (λ d. get d run_id) s.cancelled_same,
          get-put
              (peek_session_id c request (safe_select_backend_name c request)
                digits).1.cancelled_run_ids
              run_id run_id true,
          eq_iff run_id run_id,
        ),
        s.workers_same ∙ ap (λ k. k.workers) peeked,
        s.executions_same ∙ ap (λ k. k.executions) peeked,
      )

-- When a run is running and its worker awaits it, then after a cancel of the run, and whatever state
-- its execution is in after that, the worker's next step changes no status, no kept result, no future
-- and not the order of finished runs.
pub cancel-stays :
    (c : Coordinator) (run_id : String) (request : ExecutionRequest) (backend : String) (w : ℕ)
    (worker : Worker) (t : ℕ) (e : Execution) (state : ExecutionState) (digits digits' : String)
    (now now' : ℕ)
    → get c.statuses run_id ≡ some running
    → get c.run_requests run_id ≡ some request
    → get c.running_backends run_id ≡ some backend
    → get_elem? c.workers w ≡ some worker
    → worker.state ≡ awaiting run_id request t
    → get_elem? c.executions t ≡ some e
    → SameAnswers
        (cancel c run_id digits now).1
        (worker_step (set_execution (cancel c run_id digits now).1 t e state) w digits' now')
cancel-stays c run_id request backend w worker t e state digits digits' now now' status found at
      here awaits running_there =
    let (marked, same_workers, same_executions) =
      cancelled_coordinator c run_id request backend digits now status found at in
    let ended : Coordinator = set_execution (cancel c run_id digits now).1 t e state in
    let s : SameAnswers ended (worker_step ended w digits' now') =
      worker_step-SameAnswers ended w worker run_id request t (record e { state = state }) digits'
        now' marked (rw (same_workers) here) awaits
        (ap (λ xs. get_elem? (set xs t (record e { state = state })) t) same_executions
          ∙ ground (
            arith,
            get_elem?-set c.executions t (record e { state = state }) t,
            get_elem?-lt c.executions t e,
          )) in
    record {
      same_statuses = s.same_statuses;
      same_results = s.same_results;
      same_order = s.same_order;
      same_futures = s.same_futures;
    }
