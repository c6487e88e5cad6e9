-- ===== src/Execution/Coordinator/Steps.antt =====
-- Submitting and cancelling a run, and reading its state: services/execution_coordinator.py.
use text.Mathlib.Text.{◌==◌ as str_eq}
use portex.Common.{
  ℕ, Bool, true, false, Option, none, some, List, [], ◌∷◌, ◌++◌, String, length, get_elem?, inl,
  inr, if◌then◌else◌,
}
use portex.Dict.{get, put}
use portex.Execution.Workspace.{preview_session_id, default_new_session_id}
use portex.Execution.Requests.{
  ExecutionStatus, queued, running, completed, failed, cancelled, timeout, ExecutionRequest,
  ExecutionHandle, ExecutionResult, ExecutionRunSnapshot,
}
use portex.Execution.Coordinator.{
  pending, WorkerState, ready, done, Worker, trying, retrying, finished, aborted, Coordinator,
  store_terminal_result,
}

-- What the coordinator asks of the outside: to cancel a task, and to call `backend.cancel` in a
-- new task, whose exceptions are dropped.
pub data Demand : Type 0 where
  cancel_task : ℕ → Demand
  cancel_backend : String → String → Demand

abbrev pub value_or {ℓ} : {A : Type ℓ} → Option A → A → A
value_or none other = other
value_or (some a) _ = a

-- `request.request_id or uuid4().hex`
abbrev pub run_id_of : ExecutionRequest → String → String
run_id_of request fresh = elim request.request_id [
  | none ↦ fresh
  | some id ↦ if str_eq id "" then fresh else id
]

abbrev pub is_done : WorkerState → Bool
is_done done = true
is_done _ = false

abbrev pub is_worker_over : Option Worker → Bool
is_worker_over none = true
is_worker_over (some worker) = is_done worker.state

-- `_ensure_worker`
unfoldable pub ensure_worker : Coordinator → String → Coordinator
ensure_worker c group_folder =
    let started = record c {
      workers = c.workers ++ record { group_folder = group_folder; state = ready } ∷ [];
      group_workers = put c.group_workers group_folder (length c.workers);
    } in
    elim (get c.group_workers group_folder) [
      | none ↦ started
      | some w ↦ if is_worker_over (get_elem? c.workers w) then started else c
    ]

abbrev pub queued_snapshot : ExecutionRequest → String → ℕ → ExecutionRunSnapshot
queued_snapshot request run_id now = record {
  run_id = run_id;
  group_folder = request.group_folder;
  chat_jid = request.chat_jid;
  user_id = request.user_id;
  source = request.source;
  requested_mode = request.requested_mode;
  status = queued;
  slot_id = request.slot_id;
  backend = none;
  session_id = none;
  created_at = now;
  started_at = none;
  finished_at = none;
  final_output = none;
  error = none;
  timeout_ms = none;
  recovery_attempted = false;
  recovery_reason = none;
  recovery_succeeded = none;
}

abbrev pub filed : Coordinator → ExecutionRequest → String → ℕ → Coordinator
filed c request run_id now = record c {
  futures = c.futures ++ pending ∷ [];
  run_futures = put c.run_futures run_id (length c.futures);
  run_requests = put c.run_requests run_id request;
  statuses = put c.statuses run_id queued;
  run_snapshots = put c.run_snapshots run_id (queued_snapshot request run_id now);
  group_queues =
      put c.group_queues request.group_folder
        (value_or (get c.group_queues request.group_folder) [] ++ (run_id, request) ∷ []);
}

-- `submit_execution`; `fresh` is the new id and `now` the time.
unfoldable pub submit_execution :
    Coordinator → ExecutionRequest → String → ℕ → ExecutionHandle × Coordinator
submit_execution c request fresh now =
    let run_id : String = run_id_of request fresh in
    (
      record { run_id = run_id; group_folder = request.group_folder; status = queued },
      ensure_worker (filed c request run_id now) request.group_folder,
    )

abbrev pub uses_workspace_session : String → Bool
uses_workspace_session backend_name = str_eq backend_name "openai_runtime"

abbrev pub workspace_key : Coordinator → ExecutionRequest → String
workspace_key c request = c.setup.resolve_workspace_key request.group_folder request.slot_id

-- `_resolve_session_id`; `digits` are those of the random number.
unfoldable pub resolve_session_id :
    Coordinator → ExecutionRequest → String → Bool → String → String × Coordinator
resolve_session_id c request backend_name fresh_session digits =
    let key : String = workspace_key c request in
    let new_id : String = default_new_session_id key digits in
    if uses_workspace_session backend_name
    then (let (session_id, states) =
          preview_session_id c.workspace_session_store key backend_name fresh_session new_id in
        (session_id, record c { workspace_session_store = states }))
    else (if fresh_session then new_id else key, c)

-- `_peek_session_id`
abbrev pub peek_session_id : Coordinator → ExecutionRequest → String → String → String × Coordinator
peek_session_id c request backend_name digits =
    resolve_session_id c request backend_name request.fresh_session digits

-- `_safe_select_backend_name`
abbrev pub safe_select_backend_name : Coordinator → ExecutionRequest → String
safe_select_backend_name c request = elim (c.setup.select_backend request) [
  | inl _ ↦ "unknown"
  | inr name ↦ name
]

-- `_build_result` of a result without output.
abbrev pub plain_result :
    String → ExecutionRequest → String → String → ExecutionStatus → ExecutionResult
plain_result run_id request backend session_id status = record {
  run_id = run_id;
  status = status;
  group_folder = request.group_folder;
  backend = backend;
  session_id = session_id;
  slot_id = request.slot_id;
  final_output = none;
  error = none;
  timeout_ms = none;
}

pub data CancelAnswer : Type 0 where
  answer : Bool → CancelAnswer
  key_error : CancelAnswer

abbrev task_effects : Coordinator → String → List Demand
task_effects c run_id = elim (get c.running_tasks run_id) [
  | none ↦ []
  | some t ↦ elim (get_elem? c.executions t) [
    | none ↦ []
    | some e ↦ elim e.state [
      | trying _ ↦ cancel_task t ∷ []
      | retrying _ ↦ cancel_task t ∷ []
      | finished _ ↦ []
      | aborted ↦ []
    ]
  ]
]

-- The branch of `cancel` for a queued run.
unfoldable pub cancel_queued :
    Coordinator → String → ExecutionRequest → String → ℕ → CancelAnswer × Coordinator × List Demand
cancel_queued c run_id request digits now =
    let backend : String = safe_select_backend_name c request in
    let (session_id, c') = peek_session_id c request backend digits in
    let result = plain_result run_id request backend session_id cancelled in
    (answer true, store_terminal_result c' result now, [])

-- The result of a running run that is cancelled. The session's id is peeked at even if it is not
-- used.
abbrev pub cancelled_result : Coordinator → String → ExecutionRequest → String → ExecutionResult
cancelled_result c run_id request digits =
    let backend_name : String = safe_select_backend_name c request in
    let (peeked, c') = peek_session_id c request backend_name digits in
    let session_id : String = value_or (get c.run_session_ids run_id) peeked in
    plain_result run_id request backend_name session_id cancelled

-- The coordinator with that run marked as cancelled.
abbrev pub marked_cancelled : Coordinator → String → ExecutionRequest → String → Coordinator
marked_cancelled c run_id request digits =
    let (peeked, c') = peek_session_id c request (safe_select_backend_name c request) digits in
    record c' {
      cancelled_run_ids = put c'.cancelled_run_ids run_id true;
      statuses = put c'.statuses run_id cancelled;
    }

-- The branch of `cancel` for a running run.
unfoldable pub cancel_running :
    Coordinator → String → ExecutionRequest → String → ℕ → CancelAnswer × Coordinator × List Demand
cancel_running c run_id request digits now = elim (get c.running_backends run_id) [
  | none ↦
      (answer false, (peek_session_id c request (safe_select_backend_name c request) digits).1, [])
  | some backend ↦ (
    answer true,
    store_terminal_result (marked_cancelled c run_id request digits)
        (cancelled_result c run_id request digits) now,
    task_effects c run_id ++ cancel_backend backend run_id ∷ [],
  )
]

-- `cancel`
unfoldable pub cancel : Coordinator → String → String → ℕ → CancelAnswer × Coordinator × List Demand
cancel c run_id digits now = elim (get c.statuses run_id) [
  | none ↦ (answer false, c, [])
  | some status ↦ elim status [
    | queued ↦ elim (get c.run_requests run_id) [
      | none ↦ (key_error, c, [])
      | some request ↦ cancel_queued c run_id request digits now
    ]
    | running ↦ elim (get c.run_requests run_id) [
      | none ↦ (key_error, c, [])
      | some request ↦ cancel_running c run_id request digits now
    ]
    | completed ↦ (answer false, c, [])
    | failed ↦ (answer false, c, [])
    | cancelled ↦ (answer false, c, [])
    | timeout ↦ (answer false, c, [])
  ]
]
