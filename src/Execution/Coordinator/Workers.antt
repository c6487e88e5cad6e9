-- ===== src/Execution/Coordinator/Workers.antt =====
-- One worker for each group: services/execution_coordinator.py.
use text.Mathlib.TextEquality.{eq_iff}
use portex.Common.{
  ℕ, ◌≡◌, true, false, some, List, [], ◌∷◌, ◌++◌, String, length, get_elem?, set, get_elem?-set,
  get_elem?-push, get_elem?-lt, ◌==◌, arith, Bool-cases, inl, inr,
}
use portex.Dict.{Dict, get, put, pop, get-put, get-pop}
use portex.Execution.Requests.{ExecutionRequest}
use portex.Execution.Coordinator.{
  Coordinator, store_terminal_result, Worker, WorkerState, ready, awaiting, done,
}
use portex.Execution.Coordinator.Steps.{is_done, is_worker_over}
use portex.Execution.Coordinator.Stored.{Stored, store_terminal_result-Stored}
use portex.Execution.Coordinator.Histories.{Action, perform_all}
use portex.Execution.Coordinator.Kept.{Core, core, Kept}
use portex.Execution.Coordinator.Kept.All.{perform_all-kept}

-- A worker that is not over is the one that the dict has for its group.
abbrev pub HasOneWorker : List Worker → Dict ℕ → Type 0
HasOneWorker workers group_workers =
    (w : ℕ) (worker : Worker)
    → get_elem? workers w ≡ some worker
    → is_done worker.state ≡ false
    → get group_workers worker.group_folder ≡ some w

abbrev pub AreSingle : Core → Type 0
AreSingle k = HasOneWorker k.workers k.group_workers

hired_worker :
    (workers : List Worker) (group_workers : Dict ℕ) (group_folder : String)
    → ((w : ℕ)
        → get group_workers group_folder ≡ some w
        → is_worker_over (get_elem? workers w) ≡ true)
    → HasOneWorker workers group_workers
    → HasOneWorker
        (workers ++ record { group_folder = group_folder; state = ready } ∷ [])
        (put group_workers group_folder (length workers))
hired_worker workers group_workers group_folder over one w worker at live =
    elim (Bool-cases (w == length workers)) [
      | inl e ↦ ground (
        arith,
        get_elem?-push workers (record { group_folder = group_folder; state = ready }) w,
        get-put group_workers group_folder worker.group_folder (length workers),
        eq_iff group_folder worker.group_folder,
      )
      | inr e ↦
          let before : get_elem? workers w ≡ some worker = ground (
            arith,
            get_elem?-push workers (record { group_folder = group_folder; state = ready }) w,
          ) in
          ground (
            arith,
            one w worker before live,
            over w,
            get-put group_workers group_folder worker.group_folder (length workers),
            eq_iff group_folder worker.group_folder,
          )
    ]

moved_worker :
    (workers : List Worker) (group_workers : Dict ℕ) (w : ℕ) (worker : Worker) (state : WorkerState)
    → get_elem? workers w ≡ some worker
    → is_done worker.state ≡ false
    → HasOneWorker workers group_workers
    → HasOneWorker (set workers w (record worker { state = state })) group_workers
moved_worker workers group_workers w worker state at live one w' worker' at' live' =
    elim (Bool-cases (w == w')) [
      | inl e ↦ ground (
        arith,
        one w worker at live,
        get_elem?-set workers w (record worker { state = state }) w',
        get_elem?-lt workers w worker,
      )
      | inr e ↦
          one w' worker'
            (ground (arith, get_elem?-set workers w (record worker { state = state }) w')) live'
    ]

left_worker :
    (workers : List Worker) (group_workers : Dict ℕ) (w : ℕ) (worker : Worker)
    → get_elem? workers w ≡ some worker
    → is_done worker.state ≡ false
    → HasOneWorker workers group_workers
    → HasOneWorker
        (set workers w (record worker { state = done }))
        (pop group_workers worker.group_folder)
left_worker workers group_workers w worker at live one w' worker' at' live' =
    elim (Bool-cases (w == w')) [
      | inl e ↦ absurd (
          ground (
            arith,
            get_elem?-set workers w (record worker { state = done }) w',
            get_elem?-lt workers w worker,
          ))
      | inr e ↦
          let before : get_elem? workers w' ≡ some worker' =
            ground (arith, get_elem?-set workers w (record worker { state = done }) w') in
          ground (
            arith,
            one w worker at live,
            one w' worker' before live',
            get-pop group_workers worker.group_folder worker'.group_folder,
            eq_iff worker.group_folder worker'.group_folder,
          )
    ]

AreSingle-Kept : Kept false AreSingle
AreSingle-Kept = record {
  settled = λ k one h. absurd (ground arith);
  stored = λ c result now _ one.
      let s : Stored c result (store_terminal_result c result now) =
        store_terminal_result-Stored c result now in
      rw (s.workers_same, s.group_workers_same) one;
  filed = λ k run_id request f one. one;
  hired = λ k group_folder over one. hired_worker k.workers k.group_workers group_folder over one;
  marked = λ k run_id status over one. one;
  started = λ k run_id f e found settled one. one;
  moved = λ k w worker state at live one.
      moved_worker k.workers k.group_workers w worker state at live one;
  left = λ k w worker at live one. left_worker k.workers k.group_workers w worker at live one;
  advanced = λ k t e state at settled one. one;
}

-- From a coordinator where each worker that is not over is the one in the dict of its group, after
-- every sequence of submissions, cancellations, worker steps, backend outcomes and cancelled
-- waiters, two workers of one group that both await an execution are the same worker, which awaits
-- one execution.
pub perform_all-single :
    (actions : List Action) (c : Coordinator) (one : AreSingle (core c)) (w w' : ℕ)
    (worker worker' : Worker) (run_id run_id' : String) (request request' : ExecutionRequest)
    (t t' : ℕ)
    → get_elem? (perform_all actions c).workers w ≡ some worker
    → get_elem? (perform_all actions c).workers w' ≡ some worker'
    → worker.state ≡ awaiting run_id request t
    → worker'.state ≡ awaiting run_id' request' t'
    → worker.group_folder ≡ worker'.group_folder
    → (w ≡ w') × (run_id ≡ run_id') × (t ≡ t')
perform_all-single actions c one w w' worker worker' run_id run_id' request request' t t' at at' s
      s' g =
    let after : AreSingle (core (perform_all actions c)) =
      perform_all-kept AreSingle-Kept actions c (λ h. absurd (ground arith)) one in
    let first : get (perform_all actions c).group_workers worker.group_folder ≡ some w =
      after w worker at (ground arith) in
    let second : get (perform_all actions c).group_workers worker'.group_folder ≡ some w' =
      after w' worker' at' (ground arith) in
    let same : w ≡ w' = ground arith in
    let state : awaiting run_id request t ≡ awaiting run_id' request' t' = ground arith in
    (same, ground arith, ground arith)
