-- ===== src/Execution/Coordinator/Stored.antt =====
-- What `_store_terminal_result` of services/execution_coordinator.py makes of a coordinator.
use portex.Common.{
  ℕ, ◌≡◌, ◌≢◌, refl, sym, ap, ◌∙◌, false, Option, some, get_elem?, arith, none, List, [], ◌∷◌, ◌++◌,
  String, take, drop, if◌then◌else◌,
}
use text.Mathlib.TextEquality.{eq_iff}
use mathlib.Core.Path.{subst}
use portex.Dict.{get, put, pop, get-put}
use portex.Execution.Requests.{ExecutionResult, ExecutionRunSnapshot}
use portex.Execution.Coordinator.{Coordinator, evict, resolve, mark_terminal, store_terminal_result}
use portex.Execution.Coordinator.Completed.{
  has_id, excess, evict-completed_order, evict-completed_results, evict-statuses, evict-rest,
  mark_terminal-rest, resolve-rest, told_future, resolve-futures, evict-run_snapshots,
}

-- The order of the runs that are over, with a new one.
abbrev pub order_with : Coordinator → String → List String
order_with c run_id = c.completed_order ++ run_id ∷ []

-- The oldest runs in it, those over the limit.
abbrev pub stale_with : Coordinator → String → List String
stale_with c run_id =
    take (excess c.setup.max_completed_runs (order_with c run_id)) (order_with c run_id)

-- A snapshot that shows how its run ended.
pub record Shows (found : Option ExecutionRunSnapshot) (result : ExecutionResult) : Type 0 where
  pub snapshot : ExecutionRunSnapshot
  pub found_is : found ≡ some snapshot
  pub status_is : snapshot.status ≡ result.status
  pub output_is : snapshot.final_output ≡ result.final_output
  pub error_is : snapshot.error ≡ result.error
  pub session_is : snapshot.session_id ≡ some result.session_id
  pub has_ended : snapshot.finished_at ≢ none

-- What storing a result makes of a coordinator.
pub record Stored (c : Coordinator) (result : ExecutionResult) (c' : Coordinator) : Type 0 where
  pub setup_same : c'.setup ≡ c.setup
  pub workers_same : c'.workers ≡ c.workers
  pub group_workers_same : c'.group_workers ≡ c.group_workers
  pub executions_same : c'.executions ≡ c.executions
  pub cancelled_same : c'.cancelled_run_ids ≡ c.cancelled_run_ids
  pub run_futures_are : c'.run_futures ≡ pop c.run_futures result.run_id
  pub run_requests_are : c'.run_requests ≡ pop c.run_requests result.run_id
  pub order_is :
      c'.completed_order
      ≡ drop
          (excess c.setup.max_completed_runs (order_with c result.run_id))
          (order_with c result.run_id)
  pub results_are :
      (run_id : String)
      → get c'.completed_results run_id ≡ (
          if has_id run_id (stale_with c result.run_id)
          then none
          else get (put c.completed_results result.run_id result) run_id)
  pub statuses_are :
      (run_id : String)
      → get c'.statuses run_id ≡ (
          if has_id run_id (stale_with c result.run_id)
          then none
          else get (put c.statuses result.run_id result.status) run_id)
  pub futures_are :
      (f : ℕ)
      → get_elem? c'.futures f
        ≡ told_future (get c.run_futures result.run_id) f (get_elem? c.futures f) result
  pub snapshot_is :
      (snapshot : ExecutionRunSnapshot)
      → get c.run_snapshots result.run_id ≡ some snapshot
      → has_id result.run_id (stale_with c result.run_id) ≡ false
      → Shows (get c'.run_snapshots result.run_id) result

module _ (c : Coordinator) (result : ExecutionResult) (now : ℕ) where
  abbrev marked : Coordinator
  marked =
      mark_terminal
        (record c {
          statuses = put c.statuses result.run_id result.status;
          completed_results = put c.completed_results result.run_id result;
        })
        result now

  abbrev evicted : Coordinator
  evicted = evict (order_with c result.run_id) marked

  abbrev told : Coordinator
  told = resolve evicted result.run_id result

  abbrev marked_path : marked ≡ (record c {
    statuses = put c.statuses result.run_id result.status;
    completed_results = put c.completed_results result.run_id result;
    run_snapshots = marked.run_snapshots;
  })
  marked_path =
      mark_terminal-rest
        (record c {
          statuses = put c.statuses result.run_id result.status;
          completed_results = put c.completed_results result.run_id result;
        })
        result now

  told_path : told ≡ (record c {
    futures = told.futures;
    completed_order = evicted.completed_order;
    completed_results = evicted.completed_results;
    statuses = evicted.statuses;
    run_snapshots = evicted.run_snapshots;
  })
  told_path =
      resolve-rest evicted result.run_id result
      ∙ ap {A = Coordinator} {B = Coordinator} (λ k. record k { futures = told.futures })
          (evict-rest (order_with c result.run_id) marked)
      ∙ ap {A = Coordinator} {B = Coordinator}
          (λ k. record k {
            futures = told.futures;
            completed_order = evicted.completed_order;
            completed_results = evicted.completed_results;
            statuses = evicted.statuses;
            run_snapshots = evicted.run_snapshots;
          })
          marked_path

  marked-Shows :
      (snapshot : ExecutionRunSnapshot)
      → get c.run_snapshots result.run_id ≡ some snapshot
      → Shows (get marked.run_snapshots result.run_id) result
  unfolding mark_terminal
  marked-Shows snapshot found =
      let ended : ExecutionRunSnapshot = record snapshot {
        status = result.status;
        backend = some result.backend;
        session_id = some result.session_id;
        slot_id = result.slot_id;
        final_output = result.final_output;
        error = result.error;
        timeout_ms = result.timeout_ms;
        finished_at = some now;
      } in
      rw (found, mark_terminal)
        record {
          snapshot = ended;
          found_is = ground (
            arith,
            get-put c.run_snapshots result.run_id result.run_id ended,
            eq_iff result.run_id result.run_id,
          );
          status_is = refl;
          output_is = refl;
          error_is = refl;
          session_is = refl;
          has_ended = λ e. cc;
        }

  shown :
      (snapshot : ExecutionRunSnapshot)
      → get c.run_snapshots result.run_id ≡ some snapshot
      → has_id result.run_id (stale_with c result.run_id) ≡ false
      → Shows (get told.run_snapshots result.run_id) result
  shown snapshot found kept =
      let same : get told.run_snapshots result.run_id ≡ get marked.run_snapshots result.run_id =
        ap (λ k. get k.run_snapshots result.run_id) (resolve-rest evicted result.run_id result)
        ∙ evict-run_snapshots (order_with c result.run_id) marked result.run_id
        ∙ ap
            (λ k.
              if has_id result.run_id (
                take (excess k.setup.max_completed_runs (order_with c result.run_id))
                  (order_with c result.run_id))
              then none
              else get marked.run_snapshots result.run_id)
            marked_path
        ∙ rw (kept) refl in
      subst (λ found. Shows found result) (sym same) (marked-Shows snapshot found)

  -- Storing a result drops the oldest runs over the limit, the new one included if the limit is 0
  -- or if its id stands among the dropped ones, keeps every other result and status, takes the run
  -- out of the dicts of futures and requests, and leaves the setup, workers, executions and
  -- cancelled ids as they were; it resolves the future of the run, if that is pending, and no
  -- other; and the snapshot of the run, if it has one that is not dropped, shows the result and
  -- that the run is over.
  pub store_terminal_result-Stored : Stored c result (store_terminal_result c result now)
  unfolding store_terminal_result
  store_terminal_result-Stored = record {
    setup_same = ap (λ k. k.setup) told_path;
    workers_same = ap (λ k. k.workers) told_path;
    group_workers_same = ap (λ k. k.group_workers) told_path;
    executions_same = ap (λ k. k.executions) told_path;
    cancelled_same = ap (λ k. k.cancelled_run_ids) told_path;
    run_futures_are = ap (λ k. pop k.run_futures result.run_id) told_path;
    run_requests_are = ap (λ k. pop k.run_requests result.run_id) told_path;
    order_is =
        ap (λ k. k.completed_order) told_path
        ∙ evict-completed_order (order_with c result.run_id) marked
        ∙ ap
            (λ k.
              drop (excess k.setup.max_completed_runs (order_with c result.run_id))
                (order_with c result.run_id))
            marked_path;
    results_are = λ run_id.
        ap (λ k. get k.completed_results run_id) told_path
        ∙ evict-completed_results (order_with c result.run_id) marked run_id
        ∙ ap
            (λ k.
              if has_id run_id (
                take (excess k.setup.max_completed_runs (order_with c result.run_id))
                  (order_with c result.run_id))
              then none
              else get k.completed_results run_id)
            marked_path;
    statuses_are = λ run_id.
        ap (λ k. get k.statuses run_id) told_path
        ∙ evict-statuses (order_with c result.run_id) marked run_id
        ∙ ap
            (λ k.
              if has_id run_id (
                take (excess k.setup.max_completed_runs (order_with c result.run_id))
                  (order_with c result.run_id))
              then none
              else get k.statuses run_id)
            marked_path;
    futures_are = λ f.
        resolve-futures evicted result.run_id result f
        ∙ ap (λ k. told_future (get k.run_futures result.run_id) f (get_elem? k.futures f) result)
            (evict-rest (order_with c result.run_id) marked)
        ∙ ap (λ k. told_future (get k.run_futures result.run_id) f (get_elem? k.futures f) result)
            marked_path;
    snapshot_is = λ snapshot found kept. shown snapshot found kept;
  }
