-- ===== src/Execution/Coordinator/Kept.antt =====
-- What of the coordinator in services/execution_coordinator.py its invariants are about, and the
-- few ways in which the steps change it. A property that these keep is kept by every history.
pub mod Calls
pub mod Tasks
pub mod Outcomes
pub mod All
use portex.Common.{
  ℕ, ◌≡◌, refl, Bool, true, false, not, Option, none, some, List, [], ◌∷◌, ◌++◌, String, length,
  get_elem?, set, Option-cases, Bool-cases, inl, inr,
}
use portex.Dict.{Dict, get, put, pop}
use portex.Execution.Requests.{ExecutionStatus, queued, running, ExecutionRequest, ExecutionResult}
use portex.Execution.Coordinator.{
  ready, done, WorkerState, Worker, trying, retrying, finished, aborted, ExecutionState, Execution,
  Coordinator, store_terminal_result,
}
use portex.Execution.Coordinator.Steps.{is_done, is_worker_over}
use portex.Execution.Coordinator.Histories.{is_live}

pub record Core : Type 0 where
  pub max_completed_runs : ℕ
  pub workers : List Worker
  pub group_workers : Dict ℕ
  pub executions : List Execution
  pub run_futures : Dict ℕ
  pub run_requests : Dict ExecutionRequest
  pub statuses : Dict ExecutionStatus
  pub completed_results : Dict ExecutionResult
  pub completed_order : List String

abbrev pub core : Coordinator → Core
core c = record {
  max_completed_runs = c.setup.max_completed_runs;
  workers = c.workers;
  group_workers = c.group_workers;
  executions = c.executions;
  run_futures = c.run_futures;
  run_requests = c.run_requests;
  statuses = c.statuses;
  completed_results = c.completed_results;
  completed_order = c.completed_order;
}

-- An execution that is not over, or whose result says that its run is.
abbrev pub is_settled_state : ExecutionState → Bool
is_settled_state (finished result) = not (is_live result.status)
is_settled_state _ = true

abbrev pub AreSettled : List Execution → Type 0
AreSettled executions =
    (t : ℕ) (e : Execution) → get_elem? executions t ≡ some e → is_settled_state e.state ≡ true

-- The changes that a property may be kept by. A strict one may count on settled results.
pub record Kept {ℓ} (strict : Bool) (P : Core → Type ℓ) : Type ℓ where
  pub settled : (k : Core) → P k → strict ≡ true → AreSettled k.executions
  pub stored :
      (c : Coordinator) (result : ExecutionResult) (now : ℕ)
      → (strict ≡ true → is_live result.status ≡ false)
      → P (core c)
      → P (core (store_terminal_result c result now))
  pub filed :
      (k : Core) (run_id : String) (request : ExecutionRequest) (f : ℕ)
      → P k
      → P (record k {
        run_futures = put k.run_futures run_id f;
        run_requests = put k.run_requests run_id request;
        statuses = put k.statuses run_id queued;
      })
  pub hired :
      (k : Core) (group_folder : String)
      → ((w : ℕ)
          → get k.group_workers group_folder ≡ some w
          → is_worker_over (get_elem? k.workers w) ≡ true)
      → P k
      → P (record k {
        workers = k.workers ++ record { group_folder = group_folder; state = ready } ∷ [];
        group_workers = put k.group_workers group_folder (length k.workers);
      })
  pub marked :
      (k : Core) (run_id : String) (status : ExecutionStatus)
      → is_live status ≡ false
      → P k
      → P (record k { statuses = put k.statuses run_id status })
  pub started :
      (k : Core) (run_id : String) (f : ℕ) (e : Execution)
      → get k.run_futures run_id ≡ some f
      → is_settled_state e.state ≡ true
      → P k
      → P (record k {
        statuses = put k.statuses run_id running;
        executions = k.executions ++ e ∷ [];
      })
  pub moved :
      (k : Core) (w : ℕ) (worker : Worker) (state : WorkerState)
      → get_elem? k.workers w ≡ some worker
      → is_done worker.state ≡ false
      → P k
      → P (record k { workers = set k.workers w (record worker { state = state }) })
  pub left :
      (k : Core) (w : ℕ) (worker : Worker)
      → get_elem? k.workers w ≡ some worker
      → is_done worker.state ≡ false
      → P k
      → P (record k {
        workers = set k.workers w (record worker { state = done });
        group_workers = pop k.group_workers worker.group_folder;
      })
  pub advanced :
      (k : Core) (t : ℕ) (e : Execution) (state : ExecutionState)
      → get_elem? k.executions t ≡ some e
      → (strict ≡ true → is_settled_state state ≡ true)
      → P k
      → P (record k { executions = set k.executions t (record e { state = state }) })
