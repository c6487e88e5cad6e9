-- ===== src/Execution/Coordinator/Backends.antt =====
-- The task of a run's execution in services/execution_coordinator.py:
-- `_execute_backend_with_lifecycle` and `_run_backend_with_timeout`. A step leads from one await of
-- `backend.execute` to the next.
use portex.Common.{
  ℕ, Bool, true, false, not, ◌&&◌, ◌||◌, none, some, List, [], ◌∷◌, String, get_elem?, set,
  if◌then◌else◌,
}
use portex.Dict.{get, put}
use portex.Execution.Workspace.{commit_success, invalidate}
use portex.Execution.Requests.{
  ExecutionStatus, completed, failed, timeout, ExecutionResult, Outcome, returned_dict, returned,
  timed_out, resume_failed, runtime_error, other_error, interrupted,
}
use portex.Execution.Coordinator.{
  trying, retrying, finished, aborted, ExecutionState, Execution, Coordinator,
}
use portex.Execution.Coordinator.Steps.{
  Demand, cancel_backend, value_or, uses_workspace_session, resolve_session_id, plain_result,
}

-- `_mark_recovery_attempt`
abbrev pub mark_recovery_attempt : Coordinator → String → String → Coordinator
mark_recovery_attempt c run_id reason = elim (get c.run_snapshots run_id) [
  | none ↦ c
  | some snapshot ↦ record c {
    run_snapshots = put c.run_snapshots run_id (record snapshot {
      recovery_attempted = true;
      recovery_reason = some reason;
      recovery_succeeded = none;
    });
  }
]

-- `_mark_recovery_result`
abbrev pub mark_recovery_result : Coordinator → String → Bool → Coordinator
mark_recovery_result c run_id succeeded = elim (get c.run_snapshots run_id) [
  | none ↦ c
  | some snapshot ↦ record c {
    run_snapshots =
        put c.run_snapshots run_id (record snapshot { recovery_succeeded = some succeeded });
  }
]

-- What `_run_backend_with_timeout` comes to: a result, a `RuntimeError` with whether it is a
-- `SessionResumeFailedError`, or `CancelledError`.
pub data Attempt : Type 0 where
  result : ExecutionResult → Attempt
  failure : Bool → String → Attempt
  cancelled_error : Attempt

unfoldable pub run_backend_with_timeout : Execution → String → Outcome → Attempt × List Demand
run_backend_with_timeout e session_id (returned_dict raw) = (
  result
      (record (plain_result e.run_id e.request e.backend_name session_id
        (value_or raw.status completed)) {
          final_output = raw.final_output;
          error = raw.error;
          timeout_ms = raw.timeout_ms;
        }),
  [],
)
run_backend_with_timeout e session_id (returned r) = (result r, [])
run_backend_with_timeout e session_id timed_out = (
  result (record (plain_result e.run_id e.request e.backend_name session_id timeout) {
    timeout_ms = e.request.timeout_ms;
  }),
  cancel_backend e.backend_name e.run_id ∷ [],
)
run_backend_with_timeout e session_id (resume_failed message) = (failure true message, [])
run_backend_with_timeout e session_id (runtime_error message) = (failure false message, [])
run_backend_with_timeout e session_id (other_error message) = (
  result (record (plain_result e.run_id e.request e.backend_name session_id failed) {
    error = some message;
  }),
  [],
)
run_backend_with_timeout e session_id interrupted = (cancelled_error, [])

abbrev pub is_completed : ExecutionStatus → Bool
is_completed completed = true
is_completed _ = false

abbrev pub set_execution : Coordinator → ℕ → Execution → ExecutionState → Coordinator
set_execution c t e state = record c {
  executions = set c.executions t (record e { state = state });
}

-- The end of `_execute_backend_with_lifecycle`: the session is committed after a success.
unfoldable pub finish_execution : Coordinator → ℕ → Execution → ExecutionResult → Coordinator
finish_execution c t e r =
    let committed = record c {
      workspace_session_store =
          commit_success c.workspace_session_store e.workspace_key e.backend_name r.session_id;
    } in
    if uses_workspace_session e.backend_name && is_completed r.status
    then set_execution committed t e (finished r)
    else set_execution c t e (finished r)

abbrev pub failed_result : Execution → String → String → ExecutionResult
failed_result e session_id message =
    record (plain_result e.run_id e.request e.backend_name session_id failed) {
      error = some message;
    }

-- `_should_retry_session_resume`
abbrev pub should_retry_session_resume : Execution → Bool → Bool
should_retry_session_resume e is_resume_failed =
    if e.request.fresh_session || not (uses_workspace_session e.backend_name)
    then false
    else is_resume_failed

-- The retry, up to its await: the workspace's session is given up for a fresh one.
abbrev pub given_up : Coordinator → Execution → String → Coordinator
given_up c e message =
    let marked = mark_recovery_attempt c e.run_id message in
    record marked {
      workspace_session_store = invalidate marked.workspace_session_store e.workspace_key;
    }

abbrev pub retry_session : Coordinator → Execution → String → String → String × Coordinator
retry_session c e message digits =
    resolve_session_id (given_up c e message) e.request e.backend_name true digits

abbrev pub recovering : Coordinator → Execution → String → String → Coordinator
recovering c e message digits =
    let (session_id, c') = retry_session c e message digits in
    record c' { run_session_ids = put c'.run_session_ids e.run_id session_id }

unfoldable pub retry_execution : Coordinator → ℕ → Execution → String → String → Coordinator
retry_execution c t e message digits =
    set_execution (recovering c e message digits) t e
      (retrying (retry_session c e message digits).0)

unfoldable pub first_attempt : Coordinator → ℕ → Execution → String → Attempt → String → Coordinator
first_attempt c t e session_id (result r) digits = finish_execution c t e r
first_attempt c t e session_id (failure is_resume_failed message) digits =
    if should_retry_session_resume e is_resume_failed
    then retry_execution c t e message digits
    else set_execution c t e (finished (failed_result e session_id message))
first_attempt c t e session_id cancelled_error digits = set_execution c t e aborted

unfoldable pub second_attempt : Coordinator → ℕ → Execution → String → Attempt → Coordinator
second_attempt c t e session_id (result r) =
    finish_execution (mark_recovery_result c e.run_id true) t e r
second_attempt c t e session_id (failure _ message) =
    set_execution (mark_recovery_result c e.run_id false) t e
      (finished (failed_result e session_id message))
second_attempt c t e session_id cancelled_error = set_execution c t e aborted

-- A step of an execution: its backend's `execute` ends with that outcome.
unfoldable pub backend_step : Coordinator → ℕ → Outcome → String → Coordinator × List Demand
backend_step c t outcome digits = elim (get_elem? c.executions t) [
  | none ↦ (c, [])
  | some e ↦ elim e.state [
    | trying session_id ↦
        let (attempt, effects) = run_backend_with_timeout e session_id outcome in
        (first_attempt c t e session_id attempt digits, effects)
    | retrying session_id ↦
        let (attempt, effects) = run_backend_with_timeout e session_id outcome in
        (second_attempt c t e session_id attempt, effects)
    | finished _ ↦ (c, [])
    | aborted ↦ (c, [])
  ]
]
