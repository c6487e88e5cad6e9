-- ===== src/Execution/Coordinator/Kept/Tasks.antt =====
-- The steps of workers and executions in services/execution_coordinator.py change the core in
-- those ways only.
use portex.Common.{
  ℕ, ◌≡◌, refl, sym, ap, ◌∙◌, Bool, true, false, not, some, List, [], ◌∷◌, ◌++◌, String, get_elem?,
  set, length, arith, Option-cases, Bool-cases, inl, inr, ◌⊎◌,
}
use mathlib.Core.Path.{subst}
use portex.Dict.{get, put}
use portex.Execution.Requests.{running, ExecutionRequest}
use portex.Execution.Coordinator.{
  Coordinator, is_pending, future_of, ready, awaiting, done, WorkerState, Worker, trying, retrying,
  finished, aborted, ExecutionState, Execution,
}
use portex.Execution.Coordinator.Steps.{is_done, workspace_key, resolve_session_id}
use portex.Execution.Coordinator.Runs.{
  mark_running, start_execution, execute_request, next_run, is_cancelled, set_worker,
  no_longer_running, end_execution, worker_step,
}
use portex.Execution.Coordinator.Kept.{Core, core, Kept, is_settled_state}
use portex.Execution.Coordinator.Kept.Calls.{core-resolve_session_id, resolve_session_id-kept}

eq_false : {b : Bool} → not b ≡ true → b ≡ false
eq_false {b} h = ground arith

-- A run whose future is open stands in the dict of futures.
future_of-pending :
    (c : Coordinator) (run_id : String)
    → is_pending (future_of c run_id) ≡ true
    → (f : ℕ) × (get c.run_futures run_id ≡ some f)
unfolding future_of
future_of-pending c run_id h = elim (Option-cases (get c.run_futures run_id)) [
  | inl e ↦ absurd (ground arith)
  | inr found ↦ found
]

sum-cases {ℓ} : {A B : Type ℓ} (s : A ⊎ B) → ((a : A) × (s ≡ inl a)) ⊎ ((b : B) × (s ≡ inr b))
sum-cases (inl a) = inl (a, refl)
sum-cases (inr b) = inr (b, refl)

core-mark_running :
    (c : Coordinator) (run_id backend session_id : String) (now : ℕ)
    → core (mark_running c run_id backend session_id now) ≡ core c
core-mark_running c run_id backend session_id now =
    elim (Option-cases (get c.run_snapshots run_id)) [
      | inl e ↦ rw (e, mark_running) refl
      | inr (snapshot, e) ↦ rw (e, mark_running) refl
    ]

-- The execution that is started, and the core after its start.
abbrev execution_of : Coordinator → String → ExecutionRequest → String → String → Execution
execution_of c run_id request backend digits = record {
  run_id = run_id;
  request = request;
  backend_name = backend;
  workspace_key = workspace_key c request;
  state = trying (resolve_session_id c request backend request.fresh_session digits).0;
}

abbrev launched : ℕ → Worker → String → ExecutionRequest → Execution → Core → Core
launched w worker run_id request e k = record k {
  workers =
      set k.workers w (record worker { state = awaiting run_id request (length k.executions) });
  executions = k.executions ++ e ∷ [];
}

marked_path :
    (c : Coordinator) (run_id : String) (request : ExecutionRequest) (backend digits : String)
    (now : ℕ)
    → core (
        mark_running
          (record (resolve_session_id c request backend request.fresh_session digits).1 {
            run_session_ids =
                put
                  (resolve_session_id c request backend request.fresh_session
                    digits).1.run_session_ids
                  run_id
                  (resolve_session_id c request backend request.fresh_session digits).0;
            statuses =
                put
                  (resolve_session_id c request backend request.fresh_session digits).1.statuses
                  run_id
                  running;
          })
          run_id
          backend
          (resolve_session_id c request backend request.fresh_session digits).0
          now)
      ≡ (record (core c) { statuses = put c.statuses run_id running })
marked_path c run_id request backend digits now =
    core-mark_running _ run_id backend _ now
    ∙ ap {A = Core} {B = Core} (λ k. record k { statuses = put k.statuses run_id running })
        (core-resolve_session_id c request backend request.fresh_session digits)

module _ {ℓ} {strict : Bool} {P : Core → Type ℓ} (kept : Kept strict P) (c : Coordinator)
    (p : P (core c)) (w : ℕ) (worker : Worker) (at : get_elem? c.workers w ≡ some worker)
    (live : is_done worker.state ≡ false) where
  start_execution-kept :
      (run_id : String) (request : ExecutionRequest) (backend digits : String) (now f : ℕ)
      → get c.run_futures run_id ≡ some f
      → P (core (start_execution c w worker run_id request backend digits now))
  unfolding start_execution
  start_execution-kept run_id request backend digits now f found =
      subst P
        (sym (
          ap (launched w worker run_id request (execution_of c run_id request backend digits))
            (marked_path c run_id request backend digits now)))
        (kept.moved _ w worker (awaiting run_id request (length c.executions)) at live (
          kept.started (core c) run_id f (execution_of c run_id request backend digits) found refl
            p))

  execute_request-kept :
      (run_id : String) (request : ExecutionRequest) (digits : String) (now f : ℕ)
      → get c.run_futures run_id ≡ some f
      → P (core (execute_request c w worker run_id request digits now))
  unfolding execute_request
  execute_request-kept run_id request digits now f found =
      elim (sum-cases (c.setup.select_backend request)) [
        | inl (message, e) ↦
            rw (e, execute_request)
              (kept.stored _ _ now (λ _. refl)
                (resolve_session_id-kept kept c p request _ request.fresh_session digits))
        | inr (backend, e) ↦ elim (Bool-cases (c.setup.has_backend backend)) [
          | inl b ↦
              rw (e, b, execute_request)
                (start_execution-kept run_id request backend digits now f found)
          | inr b ↦
              rw (e, b, execute_request)
                (kept.stored _ _ now (λ _. refl)
                  (resolve_session_id-kept kept c p request _ request.fresh_session digits))
        ]
      ]

abbrev shortened : Coordinator → Worker → List (String × ExecutionRequest) → Coordinator
shortened c worker rest = record c { group_queues = put c.group_queues worker.group_folder rest }

module _ {ℓ} {strict : Bool} {P : Core → Type ℓ} (kept : Kept strict P) (c : Coordinator)
    (p : P (core c)) (w : ℕ) (worker : Worker) (at : get_elem? c.workers w ≡ some worker)
    (live : is_done worker.state ≡ false) where
  next_run-kept : (digits : String) (now : ℕ) → P (core (next_run c w worker digits now))
  unfolding next_run
  next_run-kept digits now = elim (Option-cases (get c.group_queues worker.group_folder)) [
    | inl e ↦ rw (e, next_run) (kept.moved (core c) w worker done at live p)
    | inr ([], e) ↦ rw (e, next_run) (kept.left (core c) w worker at live p)
    | inr ((run_id, request) ∷ rest, e) ↦
        elim (Bool-cases (is_pending (future_of (shortened c worker rest) run_id))) [
          | inl waits ↦
              let (f, found) = future_of-pending (shortened c worker rest) run_id waits in
              rw (e, waits, next_run)
                (execute_request-kept kept (shortened c worker rest) p w worker at live run_id
                  request digits now f found)
          | inr over ↦ rw (e, over, next_run) p
        ]
  ]

  end_execution-kept :
      (run_id : String) (state : ExecutionState) (now : ℕ)
      → (strict ≡ true → is_settled_state state ≡ true)
      → P (core (end_execution c w worker run_id state now))
  unfolding end_execution
  end_execution-kept run_id (trying _) now settled = p
  end_execution-kept run_id (retrying _) now settled = p
  end_execution-kept run_id (finished result) now settled =
      elim (Bool-cases (is_cancelled c run_id)) [
        | inl e ↦ rw (e, end_execution) (kept.moved (core c) w worker ready at live p)
        | inr e ↦
            rw (e, end_execution)
              (kept.stored (set_worker (no_longer_running c run_id) w worker ready) result now
                (λ h. eq_false (settled h)) (kept.moved (core c) w worker ready at live p))
      ]
  end_execution-kept run_id aborted now settled = elim (Bool-cases (is_cancelled c run_id)) [
    | inl e ↦ rw (e, end_execution) (kept.moved (core c) w worker ready at live p)
    | inr e ↦ rw (e, end_execution) (kept.moved (core c) w worker done at live p)
  ]

module _ {ℓ} {strict : Bool} {P : Core → Type ℓ} (kept : Kept strict P) (c : Coordinator)
    (p : P (core c)) where
  worker_step-found :
      (w : ℕ) (worker : Worker)
      → get_elem? c.workers w ≡ some worker
      → (state : WorkerState) → worker.state ≡ state
      → (digits : String) (now : ℕ) → P (core (worker_step c w digits now))
  unfolding worker_step
  worker_step-found w worker at ready h digits now =
      rw (at, h, worker_step) (next_run-kept kept c p w worker at (ground arith) digits now)
  worker_step-found w worker at (awaiting run_id request t) h digits now =
      elim (Option-cases (get_elem? c.executions t)) [
        | inl e ↦ rw (at, h, e, worker_step) p
        | inr (execution, e) ↦
            rw (at, h, e, worker_step)
              (end_execution-kept kept c p w worker at (ground arith) run_id execution.state now
                (λ strict. kept.settled (core c) p strict t execution e))
      ]
  worker_step-found w worker at done h digits now = rw (at, h, worker_step) p

  pub worker_step-kept : (w : ℕ) (digits : String) (now : ℕ) → P (core (worker_step c w digits now))
  unfolding worker_step
  worker_step-kept w digits now = elim (Option-cases (get_elem? c.workers w)) [
    | inl e ↦ rw (e, worker_step) p
    | inr (worker, e) ↦ worker_step-found w worker e (worker.state) refl digits now
  ]
