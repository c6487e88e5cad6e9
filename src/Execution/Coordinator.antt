-- ===== src/Execution/Coordinator.antt =====
-- The state of `ExecutionCoordinator` in services/execution_coordinator.py, its results and its
-- bounded record of the runs that are over.
pub mod Steps
pub mod Runs
pub mod Backends
pub mod Completed
pub mod Stored
pub mod Histories
pub mod Kept
pub mod Bounded
pub mod Workers
pub mod Tracked
pub mod Cancelled
pub mod Recovery
pub mod Lost
pub mod Monitor
use portex.Common.{
  ℕ, ◌⊎◌, Bool, true, false, Option, none, some, List, [], ◌∷◌, ◌++◌, String, length, get_elem?,
  set, ltb, if◌then◌else◌,
}
use portex.Dict.{Dict, get, put, pop}
use portex.Execution.Workspace.{WorkspaceSessionStore}
use portex.Execution.Requests.{
  ExecutionStatus, queued, running, ExecutionRequest, ExecutionResult, ExecutionRunSnapshot,
}

pub data Future : Type 0 where
  pending : Future
  resolved : ExecutionResult → Future
  abandoned : Future

-- The task that runs `_run_group_queue`: at the head of its loop, at the await of an execution, or
-- over.
pub data WorkerState : Type 0 where
  ready : WorkerState
  awaiting : String → ExecutionRequest → ℕ → WorkerState
  done : WorkerState

pub record Worker : Type 0 where
  pub group_folder : String
  pub state : WorkerState

-- The task that runs `_execute_backend_with_lifecycle`: at the await of the first or of the second
-- `execute`, or over, with a result or with `CancelledError`.
pub data ExecutionState : Type 0 where
  trying : String → ExecutionState
  retrying : String → ExecutionState
  finished : ExecutionResult → ExecutionState
  aborted : ExecutionState

pub record Execution : Type 0 where
  pub run_id : String
  pub request : ExecutionRequest
  pub backend_name : String
  pub workspace_key : String
  pub state : ExecutionState

-- The policy, which answers with the message of its error or with a name; the names of the
-- backends; and the resolver of workspaces.
pub record Setup : Type 0 where
  pub select_backend : ExecutionRequest → String ⊎ String
  pub has_backend : String → Bool
  pub resolve_workspace_key : String → String → String
  pub max_completed_runs : ℕ

-- Futures, workers and executions are objects, so they stand in heaps and the dicts hold
-- references. Running backends are kept by name; a set of ids is a dict to `true`.
pub record Coordinator : Type 0 where
  pub setup : Setup
  pub workspace_session_store : WorkspaceSessionStore
  pub futures : List Future
  pub workers : List Worker
  pub executions : List Execution
  pub group_queues : Dict (List (String × ExecutionRequest))
  pub group_workers : Dict ℕ
  pub run_futures : Dict ℕ
  pub run_requests : Dict ExecutionRequest
  pub statuses : Dict ExecutionStatus
  pub running_backends : Dict String
  pub running_tasks : Dict ℕ
  pub run_session_ids : Dict String
  pub cancelled_run_ids : Dict Bool
  pub completed_results : Dict ExecutionResult
  pub completed_order : List String
  pub run_snapshots : Dict ExecutionRunSnapshot

abbrev pub is_pending : Option Future → Bool
is_pending (some pending) = true
is_pending _ = false

-- The future of a run, if the dict has one.
unfoldable pub future_of : Coordinator → String → Option Future
future_of c run_id = elim (get c.run_futures run_id) [
  | none ↦ none
  | some f ↦ get_elem? c.futures f
]

-- `set_result` unless the future is done.
unfoldable pub resolve : Coordinator → String → ExecutionResult → Coordinator
resolve c run_id result = elim (get c.run_futures run_id) [
  | none ↦ c
  | some f ↦
      if is_pending (get_elem? c.futures f)
      then record c { futures = set c.futures f (resolved result) }
      else c
]

-- `_mark_terminal`
unfoldable pub mark_terminal : Coordinator → ExecutionResult → ℕ → Coordinator
mark_terminal c result now = elim (get c.run_snapshots result.run_id) [
  | none ↦ c
  | some snapshot ↦ record c {
    run_snapshots = put c.run_snapshots result.run_id (record snapshot {
      status = result.status;
      backend = some result.backend;
      session_id = some result.session_id;
      slot_id = result.slot_id;
      final_output = result.final_output;
      error = result.error;
      timeout_ms = result.timeout_ms;
      finished_at = some now;
    });
  }
]

-- The three `pop`s of a stale run.
abbrev pub forget_run : Coordinator → String → Coordinator
forget_run c run_id = record c {
  completed_results = pop c.completed_results run_id;
  statuses = pop c.statuses run_id;
  run_snapshots = pop c.run_snapshots run_id;
}

-- The `while` loop over `_completed_order`, whose entries are the first argument.
unfoldable pub evict : List String → Coordinator → Coordinator
evict [] c = record c { completed_order = [] }
evict (stale_run_id ∷ order) c =
    let rest = evict order (forget_run c stale_run_id) in
    if ltb c.setup.max_completed_runs (length (stale_run_id ∷ order))
    then rest
    else record c { completed_order = stale_run_id ∷ order }

-- `_store_terminal_result`
unfoldable pub store_terminal_result : Coordinator → ExecutionResult → ℕ → Coordinator
store_terminal_result c result now =
    let stored = record c {
      statuses = put c.statuses result.run_id result.status;
      completed_results = put c.completed_results result.run_id result;
    } in
    let kept = evict (c.completed_order ++ result.run_id ∷ []) (mark_terminal stored result now) in
    let told = resolve kept result.run_id result in
    record told {
      run_futures = pop told.run_futures result.run_id;
      run_requests = pop told.run_requests result.run_id;
    }

pub data Waiting : Type 0 where
  has_result : ExecutionResult → Waiting
  on_future : ℕ → Waiting
  key_error : Waiting

-- `wait_for_run` up to its await, which is of the shared future itself.
unfoldable pub wait_for_run : Coordinator → String → Waiting
wait_for_run c run_id = elim (get c.completed_results run_id) [
  | some result ↦ has_result result
  | none ↦ elim (get c.run_futures run_id) [ none ↦ key_error | some f ↦ on_future f ]
]

-- The cancellation of a task that awaits a future cancels the future, unless it is done.
unfoldable pub waiter_cancelled : Coordinator → ℕ → Coordinator
waiter_cancelled c f =
    if is_pending (get_elem? c.futures f)
    then record c { futures = set c.futures f abandoned }
    else c
