-- ===== src/Execution/Coordinator/Kept/All.antt =====
-- Every history of the coordinator in services/execution_coordinator.py keeps what those changes
-- keep.
use portex.Common.{◌≡◌, Bool, true, ◌&&◌, List, [], ◌∷◌, arith}
use portex.Execution.Coordinator.{Coordinator}
use portex.Execution.Coordinator.Histories.{
  Action, submit, cancel_run, worker, backend, waiter, perform, perform_all, is_settled_action,
  are_settled,
}
use portex.Execution.Coordinator.Kept.{Core, core, Kept}
use portex.Execution.Coordinator.Kept.Calls.{submit-kept, cancel-kept, waiter-kept}
use portex.Execution.Coordinator.Kept.Tasks.{worker_step-kept}
use portex.Execution.Coordinator.Kept.Outcomes.{backend_step-kept}

and_left : (a b : Bool) → (a && b) ≡ true → a ≡ true
and_left a b h = ground arith

and_right : (a b : Bool) → (a && b) ≡ true → b ≡ true
and_right a b h = ground arith

module _ {ℓ} {strict : Bool} {P : Core → Type ℓ} (kept : Kept strict P) where
  perform-kept :
      (a : Action) (c : Coordinator)
      → (strict ≡ true → is_settled_action a ≡ true)
      → P (core c)
      → P (core (perform a c))
  unfolding perform is_settled_action
  perform-kept (submit request fresh now) c settled p = submit-kept kept c p request fresh now
  perform-kept (cancel_run run_id digits now) c settled p = cancel-kept kept c p run_id digits now
  perform-kept (worker w digits now) c settled p = worker_step-kept kept c p w digits now
  perform-kept (backend t outcome digits) c settled p =
      backend_step-kept kept c p t outcome digits settled
  perform-kept (waiter f) c settled p = waiter-kept kept c p f

  pub perform_all-kept :
      (actions : List Action) (c : Coordinator)
      → (strict ≡ true → are_settled actions ≡ true)
      → P (core c)
      → P (core (perform_all actions c))
  unfolding perform_all are_settled
  perform_all-kept [] c settled p = p
  perform_all-kept (a ∷ actions) c settled p =
      perform_all-kept actions (perform a c)
        (λ s. and_right (is_settled_action a) (are_settled actions) (settled s))
        (perform-kept a c (λ s. and_left (is_settled_action a) (are_settled actions) (settled s)) p)
