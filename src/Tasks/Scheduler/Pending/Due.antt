-- ===== src/Tasks/Scheduler/Pending/Due.antt =====
-- What a pass of `run_pending` of services/scheduler.py leaves due.
use portex.Common.{
  ℕ, ◌≤◌, ◌≡◌, refl, sym, ap, ◌∙◌, Bool, true, false, not, ◌&&◌, ◌||◌, some, List, [], ==_iff, ◌∷◌,
  String, get_elem?, set, ◌==◌, arith, Bool-cases, Option-cases, inl, inr,
}
use portex.Dict.{put, pop}
use portex.Tasks.Schedule.{ScheduledTask, Cron}
use portex.Tasks.Scheduler.{Scheduler, is_running, begin_task, end_task, due_tasks}
use portex.Tasks.Scheduler.Order.{holds_ref, waits_at, due_tasks_lem}
use portex.Tasks.Scheduler.Histories.{perform_all}
use portex.Tasks.Scheduler.Pending.{Run, execute_task, run_tasks, run_pending}
use portex.Tasks.Scheduler.Pending.Marked.{
  AllRepeat, marked, not_due_before, waits_same, popped_same, waits_set, set-AllRepeat,
}

-- A run in which nobody else does anything.
abbrev pub quiet : (ℕ → Bool) → (ℕ → ℕ) → (ℕ → ℕ) → ℕ → Run
quiet success clock clock' r = record {
  meanwhile = [];
  success = success r;
  now = clock r;
  now' = clock' r;
}

-- What comes of one run at a reference.
record Passed (latest : ℕ) (s : Scheduler) (result : Bool × Scheduler) (now r : ℕ) (success : Bool)
    : Type 0 where
  raises_nothing : result.0 ≡ false
  tasks_same : result.1.tasks ≡ s.tasks
  running_same : (id : String) → is_running result.1 id ≡ is_running s id
  waits : (q : ℕ) → waits_at result.1 now q ≡ (waits_at s now q && not (r == q && success))
  repeat : AllRepeat latest result.1.objects

module _ (croniter : Cron) (success : ℕ → Bool) (clock clock' : ℕ → ℕ) (now latest : ℕ)
    (later : (r : ℕ) → now ≤ clock' r) (early : (r : ℕ) → clock' r ≤ latest) where
  abbrev runs : ℕ → Run
  runs = quiet success clock clock'

  -- The end of a run that began when its task was not running.
  ended :
      (s : Scheduler) (r : ℕ) (task : ScheduledTask) (b : Bool)
      → get_elem? s.objects r ≡ some task
      → is_running s task.id ≡ false
      → AllRepeat latest s.objects
      → Passed latest s
          (end_task croniter
            record s { running_task_ids = put s.running_task_ids task.id true }
            r
            b
            (clock r)
            (clock' r))
          now
          r
          b
  unfolding end_task
  ended s r task false at idle repeat =
      let idled : Scheduler = record s {
        running_task_ids = pop (put s.running_task_ids task.id true) task.id;
      } in
      let running_same : (id : String) → is_running idled id ≡ is_running s id =
        λ id. popped_same s.running_task_ids task.id id idle in
      rw (at, end_task)
        record {
          raises_nothing = refl;
          tasks_same = refl;
          running_same = running_same;
          waits = λ q. waits_same s idled now q refl running_same ∙ ground arith;
          repeat = repeat;
        }
  ended s r task true at idle repeat =
      let (task', marks, again, done) =
        marked croniter task latest (clock r) (clock' r) (early r) (repeat r task at) in
      let idled : Scheduler = record s {
        objects = set s.objects r task';
        running_task_ids = pop (put s.running_task_ids task.id true) task.id;
      } in
      let running_same : (id : String) → is_running idled id ≡ is_running s id =
        λ id. popped_same s.running_task_ids task.id id idle in
      rw (at, marks, end_task)
        record {
          raises_nothing = refl;
          tasks_same = refl;
          running_same = running_same;
          waits =
              waits_set s idled now r task task' at
                (not_due_before task' now (clock' r) (later r) done) refl running_same;
          repeat = set-AllRepeat latest s.objects r task' again repeat;
        }

  skipped :
      (s : Scheduler) (r q : ℕ)
      → waits_at s now r ≡ false
      → waits_at s now q ≡ (waits_at s now q && not (r == q && success r))
  skipped s r q h = elim (Bool-cases (r == q)) [
    | inl e ↦
        let same : waits_at s now q ≡ false = ap (waits_at s now) (sym ((==_iff r q).0 e)) ∙ h in
        rw (same) refl
    | inr e ↦ rw (e) (ground arith)
  ]

  executed :
      (s : Scheduler) (r : ℕ)
      → AllRepeat latest s.objects
      → Passed latest s (execute_task croniter (runs r) s r) now r (success r)
  unfolding execute_task begin_task perform_all
  executed s r repeat = elim (Option-cases (get_elem? s.objects r)) [
    | inl e ↦
        rw (e, execute_task, begin_task)
          record {
            raises_nothing = refl;
            tasks_same = refl;
            running_same = λ id. refl;
            waits = λ q. skipped s r q (rw (waits_at, e) refl);
            repeat = repeat;
          }
    | inr (task, e) ↦ elim (Bool-cases (is_running s task.id)) [
      | inl b ↦
          rw (e, b, execute_task, begin_task)
            record {
              raises_nothing = refl;
              tasks_same = refl;
              running_same = λ id. refl;
              waits = λ q. skipped s r q (rw (waits_at, e, b) (ground arith));
              repeat = repeat;
            }
      | inr b ↦ rw (e, b, execute_task, begin_task) (ended s r task (success r) e b repeat)
    ]
  ]

  joined :
      (waits same among here there : Bool)
      → (same ≡ true → here ≡ there)
      → (waits && not (same && here) && not (among && there))
        ≡ (waits && not ((same || among) && there))
  joined waits true among here there h = rw (h refl) (ground arith)
  joined waits false among here there h = ground arith

  passed :
      (s : Scheduler) (xs : List (ℕ × ScheduledTask))
      → AllRepeat latest s.objects
      → ((run_tasks croniter runs s xs).0 ≡ false)
        × ((run_tasks croniter runs s xs).1.tasks ≡ s.tasks)
        × ((id : String) → is_running (run_tasks croniter runs s xs).1 id ≡ is_running s id)
        × ((q : ℕ)
            → waits_at (run_tasks croniter runs s xs).1 now q
              ≡ (waits_at s now q && not (holds_ref q xs && success q)))
  unfolding run_tasks
  passed s [] repeat = (refl, refl, λ id. refl, λ q. ground arith)
  passed s (x ∷ xs) repeat =
      let one : Passed latest s (execute_task croniter (runs x.0) s x.0) now x.0 (success x.0) =
        executed s x.0 repeat in
      let rest = passed (execute_task croniter (runs x.0) s x.0).1 xs one.repeat in
      rw (one.raises_nothing, run_tasks)
        (
          rest.0,
          rest.1 ∙ one.tasks_same,
          λ id. rest.2 id ∙ one.running_same id,
          λ q.
              rest.3 q
              ∙ ap (λ b. b && not (holds_ref q xs && success q)) (one.waits q)
              ∙ joined (waits_at s now q) (x.0 == q) (holds_ref q xs) (success x.0) (success q)
                  (λ same. ap success ((==_iff x.0 q).0 same)),
        )

  -- Where all tasks are tasks for one run or interval tasks whose valid interval, added to the
  -- latest reading of the clock, is still a `datetime`, where the clock reads no time before that
  -- of the start after a run, and nobody else does anything meanwhile, a pass of `run_pending`
  -- raises nothing and leaves running what was running before; and the tasks that are due by the
  -- time of its start and idle after it are exactly those that were so before and whose executor
  -- ended with an exception.
  pub run_pending_lem :
      (s : Scheduler)
      → AllRepeat latest s.objects
      → ((run_pending croniter runs s now).0 ≡ false)
        × ((id : String) → is_running (run_pending croniter runs s now).1 id ≡ is_running s id)
        × ((r : ℕ)
            → holds_ref r (due_tasks (run_pending croniter runs s now).1 now)
              ≡ (holds_ref r (due_tasks s now) && not (success r)))
  unfolding run_pending
  run_pending_lem s repeat =
      let (raises_nothing, tasks_same, running_same, waits) = passed s (due_tasks s now) repeat in
      (
        raises_nothing,
        running_same,
        λ r.
            (due_tasks_lem (run_pending croniter runs s now).1 now).1 r
            ∙ rw (tasks_same, waits r, (due_tasks_lem s now).1 r) (ground arith),
      )
