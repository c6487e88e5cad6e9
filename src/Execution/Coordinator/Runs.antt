-- ===== src/Execution/Coordinator/Runs.antt =====
-- The task of a group's worker in services/execution_coordinator.py: `_run_group_queue` with
-- `_execute_request`. A step leads from one await to the next, or to the head of the loop.
use Prim.Native.String.{◌++◌ as str_append}
use portex.Common.{
  ℕ, Bool, false, none, some, [], ◌∷◌, ◌++◌, String, length, get_elem?, set, inl, inr,
  if◌then◌else◌,
}
use portex.Dict.{get, put, pop}
use portex.Execution.Requests.{running, failed, ExecutionRequest}
use portex.Execution.Coordinator.{
  ready, awaiting, done, WorkerState, Worker, trying, retrying, finished, aborted, ExecutionState,
  Execution, Coordinator, store_terminal_result, is_pending, future_of,
}
use portex.Execution.Coordinator.Steps.{
  value_or, workspace_key, resolve_session_id, peek_session_id, plain_result,
}

-- `_mark_running`
abbrev pub mark_running : Coordinator → String → String → String → ℕ → Coordinator
mark_running c run_id backend session_id now = elim (get c.run_snapshots run_id) [
  | none ↦ c
  | some snapshot ↦ record c {
    run_snapshots = put c.run_snapshots run_id (record snapshot {
      status = running;
      backend = some backend;
      session_id = some session_id;
      started_at = some now;
    });
  }
]

abbrev pub set_worker : Coordinator → ℕ → Worker → WorkerState → Coordinator
set_worker c w worker state = record c {
  workers = set c.workers w (record worker { state = state });
}

-- `_execute_request` from the choice of the backend to the await of the execution, with a backend
-- of that name.
unfoldable pub start_execution :
    Coordinator → ℕ → Worker → String → ExecutionRequest → String → String → ℕ → Coordinator
start_execution c w worker run_id request backend_name digits now =
    let (session_id, c') = resolve_session_id c request backend_name request.fresh_session digits in
    let marked =
      mark_running
        (record c' {
          run_session_ids = put c'.run_session_ids run_id session_id;
          statuses = put c'.statuses run_id running;
        })
        run_id backend_name session_id now in
    let execution : Execution = record {
      run_id = run_id;
      request = request;
      backend_name = backend_name;
      workspace_key = workspace_key c request;
      state = trying session_id;
    } in
    set_worker
      (record marked {
        running_backends = put marked.running_backends run_id backend_name;
        executions = marked.executions ++ execution ∷ [];
        running_tasks = put marked.running_tasks run_id (length marked.executions);
      })
      w worker (awaiting run_id request (length marked.executions))

-- `_execute_request` up to its await, or to its return if no backend is there. The result for an
-- unknown backend gets the default slot.
unfoldable pub execute_request :
    Coordinator → ℕ → Worker → String → ExecutionRequest → String → ℕ → Coordinator
execute_request c w worker run_id request digits now = elim (c.setup.select_backend request) [
  | inl message ↦
      let (session_id, c') = peek_session_id c request "unknown" digits in
      let result = record (plain_result run_id request "unknown" session_id failed) {
        error = some message;
      } in
      store_terminal_result c' result now
  | inr backend_name ↦
      if c.setup.has_backend backend_name
      then start_execution c w worker run_id request backend_name digits now
      else (let (session_id, c') = peek_session_id c request backend_name digits in
          let result = record (plain_result run_id request backend_name session_id failed) {
            slot_id = "main";
            error = some (str_append "unknown execution backend: " backend_name);
          } in
          store_terminal_result c' result now)
]

-- One pass of the loop of `_run_group_queue`, or its end.
unfoldable pub next_run : Coordinator → ℕ → Worker → String → ℕ → Coordinator
next_run c w worker digits now = elim (get c.group_queues worker.group_folder) [
  | none ↦ set_worker c w worker done
  | some queue ↦ elim queue [
    | [] ↦
        set_worker (record c { group_workers = pop c.group_workers worker.group_folder }) w worker
          done
    | entry ∷ rest ↦
        let (run_id, request) = entry in
        let popped = record c { group_queues = put c.group_queues worker.group_folder rest } in
        if is_pending (future_of popped run_id)
        then execute_request popped w worker run_id request digits now
        else popped
  ]
]

abbrev pub no_longer_running : Coordinator → String → Coordinator
no_longer_running c run_id = record c {
  running_backends = pop c.running_backends run_id;
  running_tasks = pop c.running_tasks run_id;
  run_session_ids = pop c.run_session_ids run_id;
}

abbrev pub is_cancelled : Coordinator → String → Bool
is_cancelled c run_id = value_or (get c.cancelled_run_ids run_id) false

abbrev pub discard_cancelled : Coordinator → String → Coordinator
discard_cancelled c run_id = record c { cancelled_run_ids = pop c.cancelled_run_ids run_id }

-- The rest of `_execute_request`, once its task is over. A `CancelledError` that no `cancel` has
-- announced ends the worker, which then stays in the dict of workers.
unfoldable pub end_execution : Coordinator → ℕ → Worker → String → ExecutionState → ℕ → Coordinator
end_execution c w worker run_id (trying _) now = c
end_execution c w worker run_id (retrying _) now = c
end_execution c w worker run_id (finished result) now =
    let c' = set_worker (no_longer_running c run_id) w worker ready in
    if is_cancelled c run_id
    then discard_cancelled c' run_id
    else store_terminal_result c' result now
end_execution c w worker run_id aborted now =
    if is_cancelled c run_id
    then discard_cancelled (set_worker (no_longer_running c run_id) w worker ready) run_id
    else set_worker (no_longer_running c run_id) w worker done

-- A step of a worker.
unfoldable pub worker_step : Coordinator → ℕ → String → ℕ → Coordinator
worker_step c w digits now = elim (get_elem? c.workers w) [
  | none ↦ c
  | some worker ↦ elim worker.state [
    | ready ↦ next_run c w worker digits now
    | awaiting run_id request t ↦ elim (get_elem? c.executions t) [
      | none ↦ c
      | some execution ↦ end_execution c w worker run_id execution.state now
    ]
    | done ↦ c
  ]
]
