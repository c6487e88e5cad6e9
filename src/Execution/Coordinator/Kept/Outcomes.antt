-- ===== src/Execution/Coordinator/Kept/Outcomes.antt =====
-- The steps of executions in services/execution_coordinator.py change the core in those ways only.
use mathlib.Core.Path.{subst}
use portex.Common.{
  ℕ, ◌≡◌, refl, sym, ap, ◌∙◌, Bool, true, false, not, ◌&&◌, Option, none, some, String, get_elem?,
  set, Option-cases, Bool-cases, inl, inr,
}
use portex.Dict.{get}
use portex.Execution.Requests.{
  ExecutionStatus, completed, ExecutionResult, Outcome, returned_dict, returned, timed_out,
  resume_failed, runtime_error, other_error, interrupted,
}
use portex.Execution.Coordinator.{
  Coordinator, trying, retrying, finished, aborted, ExecutionState, Execution,
}
use portex.Execution.Coordinator.Steps.{value_or, uses_workspace_session}
use portex.Execution.Coordinator.Backends.{
  mark_recovery_attempt, mark_recovery_result, Attempt, result, failure, cancelled_error,
  run_backend_with_timeout, is_completed, set_execution, finish_execution, failed_result,
  should_retry_session_resume, given_up, retry_session, recovering, retry_execution, first_attempt,
  second_attempt, backend_step,
}
use portex.Execution.Coordinator.Histories.{is_live, is_live_opt, is_settled_outcome}
use portex.Execution.Coordinator.Kept.{Core, core, Kept, is_settled_state}
use portex.Execution.Coordinator.Kept.Calls.{core-resolve_session_id}

pub core-mark_recovery_attempt :
    (c : Coordinator) (run_id reason : String)
    → core (mark_recovery_attempt c run_id reason) ≡ core c
core-mark_recovery_attempt c run_id reason = elim (Option-cases (get c.run_snapshots run_id)) [
  | inl e ↦ rw (e, mark_recovery_attempt) refl
  | inr (snapshot, e) ↦ rw (e, mark_recovery_attempt) refl
]

pub core-mark_recovery_result :
    (c : Coordinator) (run_id : String) (succeeded : Bool)
    → core (mark_recovery_result c run_id succeeded) ≡ core c
core-mark_recovery_result c run_id succeeded = elim (Option-cases (get c.run_snapshots run_id)) [
  | inl e ↦ rw (e, mark_recovery_result) refl
  | inr (snapshot, e) ↦ rw (e, mark_recovery_result) refl
]

abbrev is_settled_attempt : Attempt → Bool
is_settled_attempt (result r) = not (is_live r.status)
is_settled_attempt _ = true

settled_status :
    (status : Option ExecutionStatus)
    → not (is_live_opt status) ≡ true
    → not (is_live (value_or status completed)) ≡ true
settled_status none h = refl
settled_status (some status) h = h

settled_attempt :
    (e : Execution) (session_id : String) (outcome : Outcome)
    → is_settled_outcome outcome ≡ true
    → is_settled_attempt (run_backend_with_timeout e session_id outcome).0 ≡ true
unfolding is_settled_outcome run_backend_with_timeout
settled_attempt e session_id (returned_dict raw) h = settled_status raw.status h
settled_attempt e session_id (returned r) h = h
settled_attempt e session_id timed_out h = refl
settled_attempt e session_id (resume_failed message) h = refl
settled_attempt e session_id (runtime_error message) h = refl
settled_attempt e session_id (other_error message) h = refl
settled_attempt e session_id interrupted h = refl

-- A step to another state of an execution, after changes outside the core.
module _ {ℓ} {strict : Bool} {P : Core → Type ℓ} (kept : Kept strict P) (c : Coordinator)
    (p : P (core c)) (t : ℕ) (e : Execution) (at : get_elem? c.executions t ≡ some e) where
  set_execution-kept :
      (c' : Coordinator) (state : ExecutionState)
      → core c' ≡ core c
      → (strict ≡ true → is_settled_state state ≡ true)
      → P (core (set_execution c' t e state))
  set_execution-kept c' state same settled =
      subst P
        (sym (
          ap {A = Core} {B = Core}
            (λ k. record k { executions = set k.executions t (record e { state = state }) }) same))
        (kept.advanced (core c) t e state at settled p)

  finish_execution-kept :
      (c' : Coordinator) (r : ExecutionResult)
      → core c' ≡ core c
      → (strict ≡ true → is_settled_attempt (result r) ≡ true)
      → P (core (finish_execution c' t e r))
  unfolding finish_execution
  finish_execution-kept c' r same settled =
      elim (Bool-cases (uses_workspace_session e.backend_name && is_completed r.status)) [
        | inl b ↦ rw (b, finish_execution) (set_execution-kept c' (finished r) same settled)
        | inr b ↦ rw (b, finish_execution) (set_execution-kept c' (finished r) same settled)
      ]

  retry_execution-kept : (message digits : String) → P (core (retry_execution c t e message digits))
  unfolding retry_execution
  retry_execution-kept message digits =
      set_execution-kept (recovering c e message digits)
        (retrying (retry_session c e message digits).0)
        (core-resolve_session_id (given_up c e message) e.request e.backend_name true digits
          ∙ core-mark_recovery_attempt c e.run_id message)
        (λ _. refl)

  first_attempt-kept :
      (session_id : String) (attempt : Attempt) (digits : String)
      → (strict ≡ true → is_settled_attempt attempt ≡ true)
      → P (core (first_attempt c t e session_id attempt digits))
  unfolding first_attempt
  first_attempt-kept session_id (result r) digits settled = finish_execution-kept c r refl settled
  first_attempt-kept session_id (failure is_resume_failed message) digits settled =
      elim (Bool-cases (should_retry_session_resume e is_resume_failed)) [
        | inl b ↦ rw (b, first_attempt) (retry_execution-kept message digits)
        | inr b ↦
            rw (b, first_attempt)
              (set_execution-kept c (finished (failed_result e session_id message)) refl
                (λ _. refl))
      ]
  first_attempt-kept session_id cancelled_error digits settled =
      set_execution-kept c aborted refl (λ _. refl)

  second_attempt-kept :
      (session_id : String) (attempt : Attempt)
      → (strict ≡ true → is_settled_attempt attempt ≡ true)
      → P (core (second_attempt c t e session_id attempt))
  unfolding second_attempt
  second_attempt-kept session_id (result r) settled =
      finish_execution-kept (mark_recovery_result c e.run_id true) r
        (core-mark_recovery_result c e.run_id true) settled
  second_attempt-kept session_id (failure _ message) settled =
      set_execution-kept (mark_recovery_result c e.run_id false)
        (finished (failed_result e session_id message)) (core-mark_recovery_result c e.run_id false)
        (λ _. refl)
  second_attempt-kept session_id cancelled_error settled =
      set_execution-kept c aborted refl (λ _. refl)

module _ {ℓ} {strict : Bool} {P : Core → Type ℓ} (kept : Kept strict P) (c : Coordinator)
    (p : P (core c)) where
  backend_step-found :
      (t : ℕ) (e : Execution) (outcome : Outcome) (digits : String)
      → (strict ≡ true → is_settled_outcome outcome ≡ true)
      → get_elem? c.executions t ≡ some e
      → (state : ExecutionState) → e.state ≡ state
      → P (core (backend_step c t outcome digits).0)
  unfolding backend_step
  backend_step-found t e outcome digits settled at (trying session_id) h =
      rw (at, h, backend_step)
        (first_attempt-kept kept c p t e at session_id
          (run_backend_with_timeout e session_id outcome).0 digits
          (λ s. settled_attempt e session_id outcome (settled s)))
  backend_step-found t e outcome digits settled at (retrying session_id) h =
      rw (at, h, backend_step)
        (second_attempt-kept kept c p t e at session_id
          (run_backend_with_timeout e session_id outcome).0
          (λ s. settled_attempt e session_id outcome (settled s)))
  backend_step-found t e outcome digits settled at (finished _) h = rw (at, h, backend_step) p
  backend_step-found t e outcome digits settled at aborted h = rw (at, h, backend_step) p

  pub backend_step-kept :
      (t : ℕ) (outcome : Outcome) (digits : String)
      → (strict ≡ true → is_settled_outcome outcome ≡ true)
      → P (core (backend_step c t outcome digits).0)
  unfolding backend_step
  backend_step-kept t outcome digits settled = elim (Option-cases (get_elem? c.executions t)) [
    | inl e ↦ rw (e, backend_step) p
    | inr (e, at) ↦ backend_step-found t e outcome digits settled at e.state refl
  ]
