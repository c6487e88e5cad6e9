-- ===== src/Execution/Coordinator/Recovery.antt =====
-- How `_execute_backend_with_lifecycle` of services/execution_coordinator.py ends, and the session
-- that its retry uses.
use text.Mathlib.TextEquality.{eq_iff}
use portex.Common.{
  ℕ, ◌≤◌, ◌-◌, ◌≡◌, refl, sym, ap, ◌∙◌, true, false, ◌&&◌, none, some, String, List, get_elem?, set,
  get_elem?-set, get_elem?-lt, arith, Option-cases, Bool-cases, inl, inr,
}
use portex.Dict.{get, get-put}
use portex.Execution.Workspace.{
  preview_session_id, preview_of, get_state, invalidate, invalidated, commit_success,
  default_new_session_id,
}
use portex.Execution.Requests.{ExecutionResult, Outcome}
use portex.Execution.Coordinator.{
  Coordinator, Execution, ExecutionState, trying, retrying, finished, aborted,
}
use portex.Execution.Coordinator.Steps.{uses_workspace_session, workspace_key, resolve_session_id}
use portex.Execution.Coordinator.Backends.{
  mark_recovery_attempt, mark_recovery_result, Attempt, result, failure, cancelled_error,
  run_backend_with_timeout, is_completed, set_execution, finish_execution, failed_result,
  should_retry_session_resume, given_up, retry_session, recovering, retry_execution, first_attempt,
  second_attempt, backend_step,
}
use portex.Execution.Coordinator.Kept.{core}
use portex.Execution.Coordinator.Kept.Calls.{core-resolve_session_id}
use portex.Execution.Coordinator.Kept.Outcomes.{
  core-mark_recovery_attempt, core-mark_recovery_result,
}

-- How many outcomes an execution may still wait for.
abbrev pub waits : ExecutionState → ℕ
waits (trying _) = 2
waits (retrying _) = 1
waits (finished _) = 0
waits aborted = 0

-- The executions after a step of one of them.
pub record Advanced (xs : List Execution) (t : ℕ) (e : Execution) (bound : ℕ) (ys : List Execution)
    : Type 0 where
  pub state : ExecutionState
  pub fewer : waits state ≤ bound
  pub executions_are : ys ≡ set xs t (record e { state = state })

module _ (c : Coordinator) (t : ℕ) (e : Execution) where
  set_execution-Advanced :
      (c' : Coordinator) (state : ExecutionState) (bound : ℕ)
      → core c' ≡ core c
      → waits state ≤ bound
      → Advanced c.executions t e bound (set_execution c' t e state).executions
  set_execution-Advanced c' state bound same fewer = record {
    state = state;
    fewer = fewer;
    executions_are = ap (λ k. set k.executions t (record e { state = state })) same;
  }

  finish_execution-Advanced :
      (c' : Coordinator) (r : ExecutionResult) (bound : ℕ)
      → core c' ≡ core c
      → Advanced c.executions t e bound (finish_execution c' t e r).executions
  unfolding finish_execution
  finish_execution-Advanced c' r bound same =
      elim (Bool-cases (uses_workspace_session e.backend_name && is_completed r.status)) [
        | inl b ↦
            rw (b, finish_execution)
              (set_execution-Advanced
                (record c' {
                  workspace_session_store =
                      commit_success c'.workspace_session_store e.workspace_key e.backend_name
                        r.session_id;
                })
                (finished r) bound same (omega arith))
        | inr b ↦
            rw (b, finish_execution)
              (set_execution-Advanced c' (finished r) bound same (omega arith))
      ]

  first_attempt-Advanced :
      (session_id : String) (attempt : Attempt) (digits : String)
      → Advanced c.executions t e 1 (first_attempt c t e session_id attempt digits).executions
  unfolding first_attempt retry_execution
  first_attempt-Advanced session_id (result r) digits = finish_execution-Advanced c r 1 refl
  first_attempt-Advanced session_id (failure is_resume_failed message) digits =
      elim (Bool-cases (should_retry_session_resume e is_resume_failed)) [
        | inl b ↦
            rw (b, first_attempt, retry_execution)
              (set_execution-Advanced (recovering c e message digits)
                (retrying (retry_session c e message digits).0) 1
                (core-resolve_session_id (given_up c e message) e.request e.backend_name true digits
                  ∙ core-mark_recovery_attempt c e.run_id message)
                (omega arith))
        | inr b ↦
            rw (b, first_attempt)
              (set_execution-Advanced c (finished (failed_result e session_id message)) 1 refl
                (omega arith))
      ]
  first_attempt-Advanced session_id cancelled_error digits =
      set_execution-Advanced c aborted 1 refl (omega arith)

  second_attempt-Advanced :
      (session_id : String) (attempt : Attempt)
      → Advanced c.executions t e 0 (second_attempt c t e session_id attempt).executions
  unfolding second_attempt
  second_attempt-Advanced session_id (result r) =
      finish_execution-Advanced (mark_recovery_result c e.run_id true) r 0
        (core-mark_recovery_result c e.run_id true)
  second_attempt-Advanced session_id (failure _ message) =
      set_execution-Advanced (mark_recovery_result c e.run_id false)
        (finished (failed_result e session_id message)) 0
        (core-mark_recovery_result c e.run_id false) (omega arith)
  second_attempt-Advanced session_id cancelled_error =
      set_execution-Advanced c aborted 0 refl (omega arith)

-- How many outcomes the execution at that reference may still wait for.
abbrev pub waits_at : Coordinator → ℕ → ℕ
waits_at c t = elim (get_elem? c.executions t) [ none ↦ 0 | some e ↦ waits e.state ]

Advanced-waits :
    (c c' : Coordinator) (t : ℕ) (e : Execution) (bound : ℕ)
    → get_elem? c.executions t ≡ some e
    → Advanced c.executions t e bound c'.executions
    → waits_at c' t ≤ bound
Advanced-waits c c' t e bound at a =
    let here : get_elem? c'.executions t ≡ some (record e { state = a.state }) =
      ap (λ xs. get_elem? xs t) a.executions_are
      ∙ ground (
        arith,
        get_elem?-set c.executions t (record e { state = a.state }) t,
        get_elem?-lt c.executions t e,
      ) in
    rw (here, waits_at) a.fewer

step_found :
    (c : Coordinator) (t : ℕ) (outcome : Outcome) (digits : String) (e : Execution)
    → get_elem? c.executions t ≡ some e
    → (state : ExecutionState) → e.state ≡ state
    → waits_at (backend_step c t outcome digits).0 t ≤ waits state - 1
unfolding backend_step
step_found c t outcome digits e at (trying session_id) h =
    rw (at, h, backend_step)
      (Advanced-waits c
        (first_attempt c t e session_id (run_backend_with_timeout e session_id outcome).0 digits) t
        e 1 at
        (first_attempt-Advanced c t e session_id (run_backend_with_timeout e session_id outcome).0
          digits))
step_found c t outcome digits e at (retrying session_id) h =
    rw (at, h, backend_step)
      (Advanced-waits c
        (second_attempt c t e session_id (run_backend_with_timeout e session_id outcome).0) t e 0 at
        (second_attempt-Advanced c t e session_id
          (run_backend_with_timeout e session_id outcome).0))
step_found c t outcome digits e at (finished r) h = rw (at, h, backend_step) (ground (arith, at, h))
step_found c t outcome digits e at aborted h = rw (at, h, backend_step) (ground (arith, at, h))

-- Each outcome of an execution's backend brings it nearer to its end: a new execution may wait for
-- two outcomes, one that is retried for one more, and after an outcome the number is at least one
-- less, or still 0.
pub backend_step-waits :
    (c : Coordinator) (t : ℕ) (outcome : Outcome) (digits : String)
    → waits_at (backend_step c t outcome digits).0 t ≤ waits_at c t - 1
unfolding backend_step
backend_step-waits c t outcome digits = elim (Option-cases (get_elem? c.executions t)) [
  | inl e ↦
      let unattended : waits_at c t ≡ 0 =
        ap (λ o. elim o [ none ↦ 0 | some x ↦ waits x.state ]) e in
      rw (e, backend_step) (omega (arith, unattended))
  | inr (e, at) ↦
      let before : waits_at c t ≡ waits e.state =
        ap (λ o. elim o [ none ↦ 0 | some x ↦ waits x.state ]) at in
      omega (arith, before, step_found c t outcome digits e at e.state refl)
]

preview_of-invalidate :
    (c : Coordinator) (key backend new_id : String)
    → preview_of (get_state (invalidate c.workspace_session_store key) key) key backend true new_id
      ≡ new_id
unfolding preview_of get_state invalidate
preview_of-invalidate c key backend new_id = ground (
  arith,
  get-put c.workspace_session_store key key (invalidated (get_state c.workspace_session_store key)),
  eq_iff key key,
)

setup-given_up :
    (c : Coordinator) (e : Execution) (message : String) → (given_up c e message).setup ≡ c.setup
setup-given_up c e message = elim (Option-cases (get c.run_snapshots e.run_id)) [
  | inl x ↦ rw (x, mark_recovery_attempt) refl
  | inr (snapshot, x) ↦ rw (x, mark_recovery_attempt) refl
]

-- The retry of an execution of the workspace-session backend, whose workspace key is that of its
-- request, uses a new session of its workspace, also when a fresh one was not asked for.
pub retry_session_lem :
    (c : Coordinator) (e : Execution) (message digits : String)
    → uses_workspace_session e.backend_name ≡ true
    → e.workspace_key ≡ workspace_key c e.request
    → (retry_session c e message digits).0 ≡ default_new_session_id e.workspace_key digits
unfolding resolve_session_id preview_session_id
retry_session_lem c e message digits uses key =
    let same : workspace_key (given_up c e message) e.request ≡ e.workspace_key =
      ap (λ k. k.resolve_workspace_key e.request.group_folder e.request.slot_id)
        (setup-given_up c e message)
      ∙ sym key in
    rw (uses, resolve_session_id, same)
      (preview_of-invalidate (mark_recovery_attempt c e.run_id message) e.workspace_key
        e.backend_name (default_new_session_id e.workspace_key digits))
