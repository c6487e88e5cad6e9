-- ===== src/Execution/Coordinator/Histories.antt =====
-- What may happen to the coordinator of services/execution_coordinator.py, in any order: calls,
-- steps of its tasks, and backends that come to an end.
use portex.Common.{ℕ, Bool, true, false, not, ◌&&◌, Option, none, some, List, [], ◌∷◌, String}
use portex.Execution.Requests.{
  ExecutionStatus, queued, running, ExecutionRequest, Outcome, returned_dict, returned,
}
use portex.Execution.Coordinator.{Coordinator, waiter_cancelled}
use portex.Execution.Coordinator.Steps.{submit_execution, cancel}
use portex.Execution.Coordinator.Runs.{worker_step}
use portex.Execution.Coordinator.Backends.{backend_step}

pub data Action : Type 0 where
  submit : ExecutionRequest → String → ℕ → Action
  cancel_run : String → String → ℕ → Action
  worker : ℕ → String → ℕ → Action
  backend : ℕ → Outcome → String → Action
  waiter : ℕ → Action

unfoldable pub perform : Action → Coordinator → Coordinator
perform (submit request fresh now) c = (submit_execution c request fresh now).1
perform (cancel_run run_id digits now) c = (cancel c run_id digits now).1
perform (worker w digits now) c = worker_step c w digits now
perform (backend t outcome digits) c = (backend_step c t outcome digits).0
perform (waiter f) c = waiter_cancelled c f

unfoldable pub perform_all : List Action → Coordinator → Coordinator
perform_all [] c = c
perform_all (a ∷ actions) c = perform_all actions (perform a c)

-- The states of a run that is not over.
abbrev pub is_live : ExecutionStatus → Bool
is_live queued = true
is_live running = true
is_live _ = false

abbrev pub is_live_opt : Option ExecutionStatus → Bool
is_live_opt none = false
is_live_opt (some status) = is_live status

-- Whether the status that a backend answers with is one of a run that is over.
unfoldable pub is_settled_outcome : Outcome → Bool
is_settled_outcome (returned_dict raw) = not (is_live_opt raw.status)
is_settled_outcome (returned result) = not (is_live result.status)
is_settled_outcome _ = true

unfoldable pub is_settled_action : Action → Bool
is_settled_action (backend t outcome digits) = is_settled_outcome outcome
is_settled_action _ = true

unfoldable pub are_settled : List Action → Bool
are_settled [] = true
are_settled (a ∷ actions) = is_settled_action a && are_settled actions
