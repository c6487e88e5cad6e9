-- ===== src/Execution/Coordinator/Monitor.antt =====
-- The reads of services/execution_coordinator.py: a run's status and snapshot, the recent runs, and
-- the runs of each group for the monitor.
use portex.Common.{
  ℕ, ◌+◌, Bool, true, false, Option, none, some, List, [], ◌∷◌, String, leb, map, take, str_le,
  if◌then◌else◌,
}
use portex.Dict.{Dict, get, put, values}
use portex.Execution.Requests.{
  ExecutionStatus, queued, running, ExecutionRequest, ExecutionRunSnapshot,
}
use portex.Execution.Coordinator.{Coordinator}
use portex.Execution.Coordinator.Steps.{value_or}
pub mod Counts

-- The values that a group's dict holds while the runs are counted.
pub record GroupCount : Type 0 where
  pub queued_runs : ℕ
  pub running_runs : ℕ
  pub active_run_id : Option String
  pub active_backend : Option String

pub record MonitorQueueGroupSnapshot : Type 0 where
  pub group_id : String
  pub queued_runs : ℕ
  pub running_runs : ℕ
  pub active_run_id : Option String
  pub active_backend : Option String

abbrev pub no_runs : GroupCount
no_runs = record { queued_runs = 0; running_runs = 0; active_run_id = none; active_backend = none }

-- The counts of a group after one of its runs in that status.
unfoldable pub count_status : Coordinator → GroupCount → String → ExecutionStatus → GroupCount
count_status c current run_id queued = record current { queued_runs = current.queued_runs + 1 }
count_status c current run_id running = record current {
  running_runs = current.running_runs + 1;
  active_run_id = some run_id;
  active_backend = elim (get c.run_snapshots run_id) [
    | none ↦ none
    | some snapshot ↦ snapshot.backend
  ];
}
count_status c current run_id _ = current

abbrev pub is_counted : ExecutionStatus → Bool
is_counted queued = true
is_counted running = true
is_counted _ = false

-- A pass of the loop over the requests.
unfoldable pub count_run :
    Coordinator → Dict GroupCount → String → ExecutionRequest → Dict GroupCount
count_run c groups run_id request = elim (get c.statuses run_id) [
  | none ↦ groups
  | some status ↦
      let current : GroupCount = value_or (get groups request.group_folder) no_runs in
      if is_counted status
      then put groups request.group_folder (count_status c current run_id status)
      else groups
]

unfoldable pub count_runs : Coordinator → Dict ExecutionRequest → Dict GroupCount → Dict GroupCount
count_runs c [] groups = groups
count_runs c ((run_id, request) ∷ requests) groups =
    count_runs c requests (count_run c groups run_id request)

-- `sorted(groups.items())`: no two keys are the same, so the values are never compared.
unfoldable pub insert_group : String → GroupCount → Dict GroupCount → Dict GroupCount
insert_group key value [] = (key, value) ∷ []
insert_group key value ((k, v) ∷ groups) =
    let rest = insert_group key value groups in
    if str_le key k then (key, value) ∷ (k, v) ∷ groups else (k, v) ∷ rest

unfoldable pub sort_groups : Dict GroupCount → Dict GroupCount
sort_groups [] = []
sort_groups ((k, v) ∷ groups) = insert_group k v (sort_groups groups)

abbrev pub group_row : String × GroupCount → MonitorQueueGroupSnapshot
group_row entry = record {
  group_id = entry.0;
  queued_runs = entry.1.queued_runs;
  running_runs = entry.1.running_runs;
  active_run_id = entry.1.active_run_id;
  active_backend = entry.1.active_backend;
}

-- `get_monitor_queue_snapshot`
unfoldable pub get_monitor_queue_snapshot : Coordinator → List MonitorQueueGroupSnapshot
get_monitor_queue_snapshot c = map group_row (sort_groups (count_runs c c.run_requests []))

-- `get_status`
abbrev pub get_status : Coordinator → String → Option ExecutionStatus
get_status c run_id = get c.statuses run_id

-- `get_run_snapshot`, which answers with a copy.
abbrev pub get_run_snapshot : Coordinator → String → Option ExecutionRunSnapshot
get_run_snapshot c run_id = get c.run_snapshots run_id

-- The sort by the time of creation with `reverse=True`, which keeps runs of the same time in order.
abbrev pub insert_snapshot :
    ExecutionRunSnapshot → List ExecutionRunSnapshot → List ExecutionRunSnapshot
insert_snapshot x [] = x ∷ []
insert_snapshot x (y ∷ ys) =
    let rest = insert_snapshot x ys in
    if leb y.created_at x.created_at then x ∷ y ∷ ys else y ∷ rest

abbrev pub sort_snapshots : List ExecutionRunSnapshot → List ExecutionRunSnapshot
sort_snapshots [] = []
sort_snapshots (x ∷ xs) = insert_snapshot x (sort_snapshots xs)

-- `list_run_snapshots` with a limit that is not negative.
unfoldable pub list_run_snapshots : Coordinator → ℕ → List ExecutionRunSnapshot
list_run_snapshots c limit = take limit (sort_snapshots (values c.run_snapshots))
