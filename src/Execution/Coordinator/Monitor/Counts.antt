-- ===== src/Execution/Coordinator/Monitor/Counts.antt =====
-- The counts of the monitor in services/execution_coordinator.py are those of the runs.
use text.Mathlib.Text.{◌==◌ as str_eq}
use text.Mathlib.TextEquality.{eq_iff}
use text.Mathlib.TextPositions.{compare_refl}
use portex.Common.{
  ℕ, ◌+◌, ◌≡◌, refl, ap, ◌∙◌, Bool, true, false, ◌&&◌, Option, none, some, List, [], ◌∷◌, String,
  map, str_le, arith, Option-cases, Bool-cases, inl, inr, if◌then◌else◌,
}
use portex.Dict.{Dict, get, put, get-put}
use portex.Execution.Requests.{
  ExecutionStatus, queued, running, completed, failed, cancelled, timeout, ExecutionRequest,
}
use portex.Execution.Coordinator.{Coordinator}
use portex.Execution.Coordinator.Steps.{value_or}
use portex.Execution.Coordinator.Monitor.{
  GroupCount, MonitorQueueGroupSnapshot, no_runs, count_status, is_counted, count_run, count_runs,
  insert_group, sort_groups, group_row, get_monitor_queue_snapshot,
}

-- One of the two states that are counted.
pub data Counted : Type 0 where
  waiting : Counted
  active : Counted

abbrev pub count_of : Counted → GroupCount → ℕ
count_of waiting v = v.queued_runs
count_of active v = v.running_runs

abbrev pub row_count : Counted → MonitorQueueGroupSnapshot → ℕ
row_count waiting row = row.queued_runs
row_count active row = row.running_runs

-- The count that the monitor's rows show for a group, 0 if it has no row.
abbrev pub shown : Counted → List MonitorQueueGroupSnapshot → String → ℕ
shown which [] group = 0
shown which (row ∷ rows) group =
    if str_eq row.group_id group then row_count which row else shown which rows group

abbrev pub is_status : Counted → Option ExecutionStatus → Bool
is_status waiting (some queued) = true
is_status active (some running) = true
is_status _ _ = false

abbrev pub one_if : Bool → ℕ
one_if true = 1
one_if false = 0

-- How many runs of a group are in that state.
abbrev pub runs_in : Counted → Coordinator → Dict ExecutionRequest → String → ℕ
runs_in which c [] group = 0
runs_in which c ((run_id, request) ∷ requests) group =
    one_if (str_eq request.group_folder group && is_status which (get c.statuses run_id))
    + runs_in which c requests group

abbrev count_at : Counted → Dict GroupCount → String → ℕ
count_at which groups group = count_of which (value_or (get groups group) no_runs)

count_of-count_status :
    (which : Counted) (c : Coordinator) (current : GroupCount) (run_id : String)
    (status : ExecutionStatus)
    → count_of which (count_status c current run_id status)
      ≡ one_if (is_status which (some status)) + count_of which current
unfolding count_status
count_of-count_status waiting c current run_id queued = omega arith
count_of-count_status waiting c current run_id running = omega arith
count_of-count_status waiting c current run_id completed = omega arith
count_of-count_status waiting c current run_id failed = omega arith
count_of-count_status waiting c current run_id cancelled = omega arith
count_of-count_status waiting c current run_id timeout = omega arith
count_of-count_status active c current run_id queued = omega arith
count_of-count_status active c current run_id running = omega arith
count_of-count_status active c current run_id completed = omega arith
count_of-count_status active c current run_id failed = omega arith
count_of-count_status active c current run_id cancelled = omega arith
count_of-count_status active c current run_id timeout = omega arith

not_in_no_status : (which : Counted) → is_status which none ≡ false
not_in_no_status waiting = refl
not_in_no_status active = refl

not_in_other_status :
    (which : Counted) (status : ExecutionStatus)
    → is_counted status ≡ false
    → is_status which (some status) ≡ false
not_in_other_status waiting status h = ground arith
not_in_other_status active status h = ground arith

count_at-put :
    (which : Counted) (c : Coordinator) (groups : Dict GroupCount) (run_id folder : String)
    (status : ExecutionStatus) (group : String)
    → count_at which
        (put groups folder (count_status c (value_or (get groups folder) no_runs) run_id status))
        group
      ≡ one_if (str_eq folder group && is_status which (some status)) + count_at which groups group
count_at-put which c groups run_id folder status group =
    let current : GroupCount = value_or (get groups folder) no_runs in
    let looked_up : get (put groups folder (count_status c current run_id status)) group ≡ (
        if str_eq folder group
        then some (count_status c current run_id status)
        else get groups group) =
      get-put groups folder group (count_status c current run_id status) in
    elim (Bool-cases (str_eq folder group)) [
      | inl e ↦
          let same : folder ≡ group = ground (arith, eq_iff folder group) in
          rw (looked_up, e)
            (count_of-count_status which c current run_id status
              ∙ ap (λ g. one_if (is_status which (some status)) + count_at which groups g) same)
      | inr e ↦ rw (looked_up, e) (omega arith)
    ]

count_at-count_run :
    (which : Counted) (c : Coordinator) (groups : Dict GroupCount) (run_id : String)
    (request : ExecutionRequest) (group : String)
    → count_at which (count_run c groups run_id request) group
      ≡ one_if (str_eq request.group_folder group && is_status which (get c.statuses run_id))
        + count_at which groups group
unfolding count_run
count_at-count_run which c groups run_id request group =
    elim (Option-cases (get c.statuses run_id)) [
      | inl e ↦ rw (e, count_run) (ground (arith, not_in_no_status which))
      | inr (status, e) ↦ elim (Bool-cases (is_counted status)) [
        | inl counted ↦
            rw (e, counted, count_run)
              (count_at-put which c groups run_id request.group_folder status group)
        | inr other ↦
            rw (e, other, count_run) (ground (arith, not_in_other_status which status other))
      ]
    ]

count_at-count_runs :
    (which : Counted) (c : Coordinator) (requests : Dict ExecutionRequest)
    (groups : Dict GroupCount) (group : String)
    → count_at which (count_runs c requests groups) group
      ≡ runs_in which c requests group + count_at which groups group
unfolding count_runs
count_at-count_runs which c [] groups group = omega arith
count_at-count_runs which c ((run_id, request) ∷ requests) groups group = omega (
  arith,
  count_at-count_runs which c requests (count_run c groups run_id request) group,
  count_at-count_run which c groups run_id request group,
)

str_le_refl : (k : String) → str_le k k ≡ true
str_le_refl k = rw (compare_refl k, str_le) refl

-- A key that is not in order is another key.
other_key :
    (key k group : String) → str_le key k ≡ false → str_eq key group ≡ true → str_eq k group ≡ false
other_key key k group e h = elim (Bool-cases (str_eq k group)) [
  | inl same ↦
      let equal : k ≡ key = ground (arith, eq_iff k group, eq_iff key group) in
      let order : str_le key k ≡ true = rw (equal) (str_le_refl key) in absurd (ground arith)
  | inr differs ↦ differs
]

get-insert_group :
    (key : String) (value : GroupCount) (groups : Dict GroupCount) (group : String)
    → get (insert_group key value groups) group
      ≡ (if str_eq key group then some value else get groups group)
unfolding get insert_group
get-insert_group key value [] group = refl
get-insert_group key value ((k, v) ∷ groups) group = elim (Bool-cases (str_le key k)) [
  | inl e ↦ rw (e) refl
  | inr e ↦
      rw (e) (ground (arith, get-insert_group key value groups group, other_key key k group e))
]

get-sort_groups :
    (groups : Dict GroupCount) (group : String) → get (sort_groups groups) group ≡ get groups group
unfolding get sort_groups
get-sort_groups [] group = refl
get-sort_groups ((k, v) ∷ groups) group =
    get-insert_group k v (sort_groups groups) group
    ∙ ap (λ o. if str_eq k group then some v else o) (get-sort_groups groups group)

row_count-group_row :
    (which : Counted) (k : String) (v : GroupCount)
    → row_count which (group_row (k, v)) ≡ count_of which v
row_count-group_row waiting k v = refl
row_count-group_row active k v = refl

no_count : (which : Counted) → count_of which no_runs ≡ 0
no_count waiting = refl
no_count active = refl

shown-map :
    (which : Counted) (groups : Dict GroupCount) (group : String)
    → shown which (map group_row groups) group ≡ count_at which groups group
unfolding get
shown-map waiting [] group = refl
shown-map active [] group = refl
shown-map which ((k, v) ∷ groups) group = elim (Bool-cases (str_eq k group)) [
  | inl e ↦ rw (e) (row_count-group_row which k v)
  | inr e ↦ rw (e) (shown-map which groups group)
]

-- For every group, the monitor shows as many queued and as many running runs as there are requests
-- of the group in that status, and 0 for a group without a row.
pub get_monitor_queue_snapshot_lem :
    (which : Counted) (c : Coordinator) (group : String)
    → shown which (get_monitor_queue_snapshot c) group ≡ runs_in which c c.run_requests group
unfolding get_monitor_queue_snapshot get
get_monitor_queue_snapshot_lem which c group =
    shown-map which (sort_groups (count_runs c c.run_requests [])) group
    ∙ ap (λ o. count_of which (value_or o no_runs))
        (get-sort_groups (count_runs c c.run_requests []) group)
    ∙ omega (arith, count_at-count_runs which c c.run_requests [] group, no_count which)
