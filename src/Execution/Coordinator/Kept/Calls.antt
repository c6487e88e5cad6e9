-- ===== src/Execution/Coordinator/Kept/Calls.antt =====
-- The methods `submit_execution` and `cancel` of services/execution_coordinator.py change the core
-- in those ways only.
use portex.Common.{
  ℕ, ◌≡◌, refl, Bool, String, get_elem?, length, arith, Option-cases, Bool-cases, inl, inr,
}
use portex.Dict.{get}
use portex.Execution.Requests.{
  queued, running, completed, failed, cancelled, timeout, ExecutionRequest,
}
use portex.Execution.Coordinator.{Coordinator, waiter_cancelled, is_pending}
use portex.Execution.Coordinator.Steps.{
  is_worker_over, ensure_worker, filed, run_id_of, submit_execution, uses_workspace_session,
  resolve_session_id, cancel, cancel_queued, marked_cancelled, cancelled_result, cancel_running,
}
use portex.Execution.Coordinator.Kept.{Core, core, Kept}

-- Looking a session up changes the store of sessions only.
pub core-resolve_session_id :
    (c : Coordinator) (request : ExecutionRequest) (backend : String) (fresh : Bool)
    (digits : String)
    → core (resolve_session_id c request backend fresh digits).1 ≡ core c
unfolding resolve_session_id
core-resolve_session_id c request backend fresh digits =
    elim (Bool-cases (uses_workspace_session backend)) [
      | inl e ↦ rw (e, resolve_session_id) refl
      | inr e ↦ rw (e, resolve_session_id) refl
    ]

module _ {ℓ} {strict : Bool} {P : Core → Type ℓ} (kept : Kept strict P) (c : Coordinator)
    (p : P (core c)) where
  pub ensure_worker-kept : (group_folder : String) → P (core (ensure_worker c group_folder))
  unfolding ensure_worker
  ensure_worker-kept group_folder = elim (Option-cases (get c.group_workers group_folder)) [
    | inl e ↦ rw (e, ensure_worker) (kept.hired (core c) group_folder (λ w h. ground arith) p)
    | inr (w, e) ↦ elim (Bool-cases (is_worker_over (get_elem? c.workers w))) [
      | inl over ↦
          rw (e, over, ensure_worker) (kept.hired (core c) group_folder (λ w' h. ground arith) p)
      | inr over ↦ rw (e, over, ensure_worker) p
    ]
  ]

  pub waiter-kept : (f : ℕ) → P (core (waiter_cancelled c f))
  unfolding waiter_cancelled
  waiter-kept f = elim (Bool-cases (is_pending (get_elem? c.futures f))) [
    | inl e ↦ rw (e, waiter_cancelled) p
    | inr e ↦ rw (e, waiter_cancelled) p
  ]

  pub resolve_session_id-kept :
      (request : ExecutionRequest) (backend : String) (fresh : Bool) (digits : String)
      → P (core (resolve_session_id c request backend fresh digits).1)
  resolve_session_id-kept request backend fresh digits =
      rw (core-resolve_session_id c request backend fresh digits) p

module _ {ℓ} {strict : Bool} {P : Core → Type ℓ} (kept : Kept strict P) (c : Coordinator)
    (p : P (core c)) where
  pub submit-kept :
      (request : ExecutionRequest) (fresh : String) (now : ℕ)
      → P (core (submit_execution c request fresh now).1)
  unfolding submit_execution
  submit-kept request fresh now =
      ensure_worker-kept kept (filed c request (run_id_of request fresh) now)
        (kept.filed (core c) (run_id_of request fresh) request (length c.futures) p)
        request.group_folder

  cancel_queued-kept :
      (run_id : String) (request : ExecutionRequest) (digits : String) (now : ℕ)
      → P (core (cancel_queued c run_id request digits now).1)
  unfolding cancel_queued
  cancel_queued-kept run_id request digits now =
      kept.stored _ _ now (λ _. refl)
        (resolve_session_id-kept kept c p request _ request.fresh_session digits)

  cancel_running-kept :
      (run_id : String) (request : ExecutionRequest) (digits : String) (now : ℕ)
      → P (core (cancel_running c run_id request digits now).1)
  unfolding cancel_running
  cancel_running-kept run_id request digits now =
      elim (Option-cases (get c.running_backends run_id)) [
        | inl e ↦
            rw (e, cancel_running)
              (resolve_session_id-kept kept c p request _ request.fresh_session digits)
        | inr (backend, e) ↦
            rw (e, cancel_running)
              (kept.stored (marked_cancelled c run_id request digits)
                (cancelled_result c run_id request digits) now (λ _. refl)
                (kept.marked _ run_id cancelled refl
                  (resolve_session_id-kept kept c p request _ request.fresh_session digits)))
      ]

  pub cancel-kept : (run_id digits : String) (now : ℕ) → P (core (cancel c run_id digits now).1)
  unfolding cancel
  cancel-kept run_id digits now = elim (Option-cases (get c.statuses run_id)) [
    | inl e ↦ rw (e, cancel) p
    | inr (queued, e) ↦ elim (Option-cases (get c.run_requests run_id)) [
      | inl r ↦ rw (e, r, cancel) p
      | inr (request, r) ↦ rw (e, r, cancel) (cancel_queued-kept run_id request digits now)
    ]
    | inr (running, e) ↦ elim (Option-cases (get c.run_requests run_id)) [
      | inl r ↦ rw (e, r, cancel) p
      | inr (request, r) ↦ rw (e, r, cancel) (cancel_running-kept run_id request digits now)
    ]
    | inr (completed, e) ↦ rw (e, cancel) p
    | inr (failed, e) ↦ rw (e, cancel) p
    | inr (cancelled, e) ↦ rw (e, cancel) p
    | inr (timeout, e) ↦ rw (e, cancel) p
  ]
