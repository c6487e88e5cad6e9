-- ===== src/Execution/Tests.antt =====
-- The coordinator of services/execution_coordinator.py at concrete runs.
use portex.Common.{ℕ, ◌≡◌, refl, Bool, true, false, none, some, List, [], ◌∷◌, String, inr, arith}
use mathlib.Core.Bool.{false≢true}
use portex.Dict.{get, put}
use portex.Execution.Workspace.{preview_session_id}
use portex.Execution.Workspace.Log.{
  commit, invalidation, perform_all as perform_log, last_session, session_for,
  preview_session_id_lem,
}
use portex.Execution.Requests.{web, queued, running, completed, ExecutionRequest, ExecutionResult}
use portex.Execution.Coordinator.{
  Coordinator, pending, Worker, ready, awaiting, trying, finished, Execution, store_terminal_result,
  future_of, wait_for_run, key_error, waiter_cancelled, abandoned,
}
use portex.Execution.Coordinator.Steps.{
  ensure_worker, submit_execution, resolve_session_id, cancel, answer, plain_result,
}
use portex.Execution.Coordinator.Runs.{start_execution, execute_request, next_run, worker_step}
use portex.Execution.Coordinator.Backends.{set_execution}
use portex.Execution.Coordinator.Stored.{Stored, store_terminal_result-Stored}
use portex.Execution.Coordinator.Histories.{
  Action, submit, worker, perform, perform_all, are_settled, is_settled_action,
}
use portex.Execution.Coordinator.Kept.{core}
use portex.Execution.Coordinator.Bounded.{IsBounded, perform_all-IsBounded}
use portex.Execution.Coordinator.Workers.{AreSingle, perform_all-single}
use portex.Execution.Coordinator.Tracked.{IsTracked, perform_all-cancel}
use portex.Execution.Coordinator.Cancelled.{SameAnswers, cancel-stays}
use portex.Execution.Coordinator.Lost.{store_terminal_result-lost, waiter_cancelled-drops}
use portex.Execution.Coordinator.Monitor.{get_monitor_queue_snapshot}
use portex.Execution.Coordinator.Monitor.Counts.{
  active, shown, runs_in, get_monitor_queue_snapshot_lem,
}

abbrev start : Coordinator
start = record {
  setup = record {
    select_backend = λ request. inr "openai_runtime";
    has_backend = λ name. true;
    resolve_workspace_key = λ folder slot. folder;
    max_completed_runs = 1;
  };
  workspace_session_store = [];
  futures = [];
  workers = [];
  executions = [];
  group_queues = [];
  group_workers = [];
  run_futures = [];
  run_requests = [];
  statuses = [];
  running_backends = [];
  running_tasks = [];
  run_session_ids = [];
  cancelled_run_ids = [];
  completed_results = [];
  completed_order = [];
  run_snapshots = [];
}

abbrev request : ExecutionRequest
request = record {
  group_folder = "home";
  chat_jid = "c1";
  user_id = "alice";
  prompt = "hello";
  source = web;
  slot_id = "main";
  requested_mode = none;
  timeout_ms = none;
  fresh_session = false;
  request_id = some "r1";
  request_metadata = none;
}

abbrev begun : List Action
begun = submit request "u1" 5 ∷ worker 0 "d1" 6 ∷ []

abbrev awaited : Worker
awaited = record { group_folder = "home"; state = awaiting "r1" request 0 }

abbrev execution : Execution
execution = record {
  run_id = "r1";
  request = request;
  backend_name = "openai_runtime";
  workspace_key = "home";
  state = trying "home";
}

abbrev done_result : ExecutionResult
done_result = plain_result "r1" request "openai_runtime" "home" completed

start-IsBounded : IsBounded (core start)
unfolding get
start-IsBounded = record { within = omega arith; listed = λ run_id result h. absurd (ground arith) }

start-IsTracked : IsTracked (core start)
unfolding get
start-IsTracked = record {
  of_future = λ run_id h. absurd (false≢true h);
  of_status = λ run_id h. absurd (false≢true h);
  settled = λ t e h. absurd (ground arith);
}

perform_all-IsBounded_example : IsBounded (core (perform_all begun start))
perform_all-IsBounded_example = perform_all-IsBounded begun start start-IsBounded

perform_all-cancel_example :
    (b : Bool) × ((cancel (perform_all begun start) "r1" "d2" 7).0 ≡ answer b)
unfolding are_settled is_settled_action
perform_all-cancel_example = perform_all-cancel begun start refl start-IsTracked "r1" "d2" 7

store_terminal_result-Stored_example :
    Stored start done_result (store_terminal_result start done_result 7)
store_terminal_result-Stored_example = store_terminal_result-Stored start done_result 7

preview_session_id_lem_example :
    (preview_session_id
      (perform_log (commit "home" "openai_runtime" "s1" ∷ invalidation "home" ∷ []) [])
      "home"
      "openai_runtime"
      false
      "s2").0
    ≡ session_for
        (last_session (commit "home" "openai_runtime" "s1" ∷ invalidation "home" ∷ []) "home")
        "home"
        "openai_runtime"
        false
        "s2"
preview_session_id_lem_example =
    preview_session_id_lem (commit "home" "openai_runtime" "s1" ∷ invalidation "home" ∷ []) "home"
      "openai_runtime" false "s2"

-- The coordinator that waits for the backend of that run.
abbrev executing : Coordinator
executing = record start {
  futures = pending ∷ [];
  workers = awaited ∷ [];
  executions = execution ∷ [];
  group_queues = ("home", []) ∷ [];
  group_workers = ("home", 0) ∷ [];
  run_futures = ("r1", 0) ∷ [];
  run_requests = ("r1", request) ∷ [];
  statuses = ("r1", running) ∷ [];
  running_backends = ("r1", "openai_runtime") ∷ [];
  running_tasks = ("r1", 0) ∷ [];
  run_session_ids = ("r1", "home") ∷ [];
}

-- The coordinator before its worker's first step, with the run in the queue.
abbrev waiting : Coordinator
waiting = record start {
  futures = pending ∷ [];
  workers = record { group_folder = "home"; state = ready } ∷ [];
  group_queues = ("home", ("r1", request) ∷ []) ∷ [];
  group_workers = ("home", 0) ∷ [];
  run_futures = ("r1", 0) ∷ [];
  run_requests = ("r1", request) ∷ [];
  statuses = ("r1", queued) ∷ [];
}

start-AreSingle : AreSingle (core start)
start-AreSingle w here at live = absurd (ground arith)

perform_all-single_example : (◌≡◌ {A = ℕ} 0 0) × (◌≡◌ {A = String} "r1" "r1") × (◌≡◌ {A = ℕ} 0 0)
unfolding perform_all perform submit_execution ensure_worker worker_step next_run execute_request
    start_execution resolve_session_id future_of get put
perform_all-single_example =
    perform_all-single begun start start-AreSingle 0 0 awaited awaited "r1" "r1" request request 0 0
      refl refl refl refl refl

cancel-stays_example : SameAnswers (cancel executing "r1" "d2" 7).1 (
    worker_step
      (set_execution (cancel executing "r1" "d2" 7).1 0 execution (finished done_result))
      0
      "d3"
      8)
unfolding get
cancel-stays_example =
    cancel-stays executing "r1" request "openai_runtime" 0 awaited 0 execution
      (finished done_result) "d2" "d3" 7 8 refl refl refl refl refl refl

-- A coordinator that remembers one run, which has the id of the next one.
abbrev full : Coordinator
full = record start { completed_order = "r1" ∷ [] }

store_terminal_result-lost_example :
    wait_for_run (store_terminal_result full done_result 7) "r1" ≡ key_error
store_terminal_result-lost_example = store_terminal_result-lost full done_result 7 [] refl refl

waiter_cancelled-drops_example :
    worker_step (waiter_cancelled waiting 0) 0 "d1" 6 ≡ (record waiting {
      futures = abandoned ∷ [];
      group_queues = put (("home", ("r1", request) ∷ []) ∷ []) "home" [];
    })
unfolding get
waiter_cancelled-drops_example =
    waiter_cancelled-drops waiting 0 0 (record { group_folder = "home"; state = ready }) "r1"
      request [] "d1" 6 refl refl refl refl refl

get_monitor_queue_snapshot_lem_example :
    shown active (get_monitor_queue_snapshot executing) "home"
    ≡ runs_in active executing executing.run_requests "home"
get_monitor_queue_snapshot_lem_example = get_monitor_queue_snapshot_lem active executing "home"
