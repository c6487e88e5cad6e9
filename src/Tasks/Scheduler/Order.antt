-- ===== src/Tasks/Scheduler/Order.antt =====
-- Which tasks `run_pending` of services/scheduler.py takes, and in which order.
use portex.Common.{
  str_le, ℕ, ◌≡◌, refl, sym, ap, ◌∙◌, Bool, true, false, not, ◌&&◌, ◌||◌, Option, none, some, List,
  [], ◌∷◌, get_elem?, keep_if, leb, ◌==◌, arith, ==_iff, Option-cases, Bool-cases, inl, inr,
}
use portex.Dict.{values}
use portex.Tasks.Schedule.{ScheduledTask, is_due}
use portex.Tasks.Scheduler.{
  Scheduler, key_le, time_le, insert_task, sort_tasks, objects_of, is_running, due_tasks,
}

abbrev pub holds_ref : ℕ → List (ℕ × ScheduledTask) → Bool
holds_ref r [] = false
holds_ref r (x ∷ xs) = x.0 == r || holds_ref r xs

abbrev pub has_value : ℕ → List ℕ → Bool
has_value r [] = false
has_value r (x ∷ xs) = x == r || has_value r xs

-- Whether a task is no later than another; no time is the latest.
abbrev pub run_le : Option ℕ → Option ℕ → Bool
run_le x none = true
run_le none (some y) = false
run_le (some x) (some y) = leb x y

-- In the order of their next runs.
abbrev pub first_after : Option ℕ → List (ℕ × ScheduledTask) → Bool
first_after time [] = true
first_after time (x ∷ xs) = run_le time x.1.next_run

abbrev pub is_ordered : List (ℕ × ScheduledTask) → Bool
is_ordered [] = true
is_ordered (x ∷ xs) = first_after x.1.next_run xs && is_ordered xs

time_le-run_le : (x y : Option ℕ) (tie : Bool) → time_le x y tie ≡ true → run_le x y ≡ true
time_le-run_le none none tie h = refl
time_le-run_le none (some y) tie h = h
time_le-run_le (some x) none tie h = refl
time_le-run_le (some x) (some y) tie h = ground arith

run_le-time_le : (x y : Option ℕ) (tie : Bool) → time_le x y tie ≡ false → run_le y x ≡ true
run_le-time_le none none tie h = refl
run_le-time_le none (some y) tie h = refl
run_le-time_le (some x) none tie h = absurd (ground arith)
run_le-time_le (some x) (some y) tie h = ground arith

key_le-run_le : (a b : ScheduledTask) → key_le a b ≡ true → run_le a.next_run b.next_run ≡ true
unfolding key_le
key_le-run_le a b h = time_le-run_le a.next_run b.next_run (str_le a.id b.id) h

run_le-key_le : (a b : ScheduledTask) → key_le a b ≡ false → run_le b.next_run a.next_run ≡ true
unfolding key_le
run_le-key_le a b h = run_le-time_le a.next_run b.next_run (str_le a.id b.id) h

holds_ref-insert_task :
    (x : ℕ × ScheduledTask) (xs : List (ℕ × ScheduledTask)) (r : ℕ)
    → holds_ref r (insert_task x xs) ≡ (x.0 == r || holds_ref r xs)
unfolding insert_task
holds_ref-insert_task x [] r = refl
holds_ref-insert_task x (y ∷ ys) r = elim (Bool-cases (key_le x.1 y.1)) [
  | inl e ↦ rw (e) refl
  | inr e ↦ rw (e) (ground (arith, holds_ref-insert_task x ys r))
]

holds_ref-sort_tasks :
    (xs : List (ℕ × ScheduledTask)) (r : ℕ) → holds_ref r (sort_tasks xs) ≡ holds_ref r xs
unfolding sort_tasks
holds_ref-sort_tasks [] r = refl
holds_ref-sort_tasks (x ∷ xs) r =
    holds_ref-insert_task x (sort_tasks xs) r ∙ ap (λ b. x.0 == r || b) (holds_ref-sort_tasks xs r)

first_after-insert_task :
    (time : Option ℕ) (x : ℕ × ScheduledTask) (xs : List (ℕ × ScheduledTask))
    → run_le time x.1.next_run ≡ true
    → first_after time xs ≡ true
    → first_after time (insert_task x xs) ≡ true
unfolding insert_task
first_after-insert_task time x [] h k = h
first_after-insert_task time x (y ∷ ys) h k = elim (Bool-cases (key_le x.1 y.1)) [
  | inl e ↦ rw (e) h
  | inr e ↦ rw (e) k
]

insert_task-is_ordered :
    (x : ℕ × ScheduledTask) (xs : List (ℕ × ScheduledTask))
    → is_ordered xs ≡ true
    → is_ordered (insert_task x xs) ≡ true
unfolding insert_task
insert_task-is_ordered x [] h = refl
insert_task-is_ordered x (y ∷ ys) h = elim (Bool-cases (key_le x.1 y.1)) [
  | inl e ↦ rw (e) (ground (arith, key_le-run_le x.1 y.1 e, h))
  | inr e ↦ rw (e) (
      ground (
        arith,
        insert_task-is_ordered x ys,
        first_after-insert_task y.1.next_run x ys (run_le-key_le x.1 y.1 e),
        h,
      ))
]

pub sort_tasks-is_ordered : (xs : List (ℕ × ScheduledTask)) → is_ordered (sort_tasks xs) ≡ true
unfolding sort_tasks
sort_tasks-is_ordered [] = refl
sort_tasks-is_ordered (x ∷ xs) = insert_task-is_ordered x (sort_tasks xs) (sort_tasks-is_ordered xs)

-- Whether the task at a reference is due and not running.
abbrev pub waits_at : Scheduler → ℕ → ℕ → Bool
waits_at s now r = elim (get_elem? s.objects r) [
  | none ↦ false
  | some task ↦ is_due task now && not (is_running s task.id)
]

taken_or :
    (same among taken waits : Bool)
    → (same ≡ true → waits ≡ taken)
    → (same && taken || (among && waits)) ≡ ((same || among) && waits)
taken_or same among taken waits h = ground arith

holds_ref-keep_if :
    (p : ℕ × ScheduledTask → Bool) (y : ℕ × ScheduledTask) (ys : List (ℕ × ScheduledTask)) (r : ℕ)
    → holds_ref r (keep_if p (y ∷ ys)) ≡ (y.0 == r && p y || holds_ref r (keep_if p ys))
holds_ref-keep_if p y ys r = elim (Bool-cases (p y)) [
  | inl e ↦ rw (e, keep_if) (ground arith)
  | inr e ↦ rw (e, keep_if) (ground arith)
]

objects_of-none :
    (objects : List ScheduledTask) (x : ℕ) (xs : List ℕ)
    → get_elem? objects x ≡ none
    → objects_of objects (x ∷ xs) ≡ objects_of objects xs
objects_of-none objects x xs e = rw (e, objects_of) refl

objects_of-some :
    (objects : List ScheduledTask) (x : ℕ) (xs : List ℕ) (task : ScheduledTask)
    → get_elem? objects x ≡ some task
    → objects_of objects (x ∷ xs) ≡ (x, task) ∷ objects_of objects xs
objects_of-some objects x xs task e = rw (e, objects_of) refl

waits_at-same :
    (s : Scheduler) (now x r : ℕ) (b : Bool)
    → waits_at s now x ≡ b
    → (x == r) ≡ true
    → waits_at s now r ≡ b
waits_at-same s now x r b h same = ap (waits_at s now) (sym ((==_iff x r).0 same)) ∙ h

abbrev is_taken : Scheduler → ℕ → ℕ × ScheduledTask → Bool
is_taken s now x = is_due x.1 now && not (is_running s x.1.id)

holds_ref-objects_of :
    (s : Scheduler) (now r : ℕ) (rs : List ℕ)
    → holds_ref r (keep_if (is_taken s now) (objects_of s.objects rs))
      ≡ (has_value r rs && waits_at s now r)
holds_ref-objects_of s now r [] = refl
holds_ref-objects_of s now r (x ∷ xs) = elim (Option-cases (get_elem? s.objects x)) [
  | inl e ↦
      let missing : waits_at s now x ≡ false = rw (e, waits_at) refl in
      ap (λ l. holds_ref r (keep_if (is_taken s now) l)) (objects_of-none s.objects x xs e)
      ∙ holds_ref-objects_of s now r xs
      ∙ ground (arith, waits_at-same s now x r false missing)
  | inr (task, e) ↦
      let here : waits_at s now x ≡ is_taken s now (x, task) = rw (e, waits_at) refl in
      ap (λ l. holds_ref r (keep_if (is_taken s now) l)) (objects_of-some s.objects x xs task e)
      ∙ holds_ref-keep_if (is_taken s now) (x, task) (objects_of s.objects xs) r
      ∙ ap (λ b. x == r && is_taken s now (x, task) || b) (holds_ref-objects_of s now r xs)
      ∙ taken_or (x == r) (has_value r xs) (is_taken s now (x, task)) (waits_at s now r)
          (waits_at-same s now x r (is_taken s now (x, task)) here)
]

-- The due tasks are exactly those in the dict that are due and not running, in the order of their
-- next runs.
pub due_tasks_lem :
    (s : Scheduler) (now : ℕ)
    → (is_ordered (due_tasks s now) ≡ true)
      × ((r : ℕ)
          → holds_ref r (due_tasks s now) ≡ (has_value r (values s.tasks) && waits_at s now r))
unfolding due_tasks
due_tasks_lem s now = (
  sort_tasks-is_ordered (
      keep_if (λ x. is_due x.1 now && not (is_running s x.1.id))
        (objects_of s.objects (values s.tasks))),
  λ r.
      holds_ref-sort_tasks
        (keep_if (λ x. is_due x.1 now && not (is_running s x.1.id))
          (objects_of s.objects (values s.tasks)))
        r
      ∙ holds_ref-objects_of s now r (values s.tasks),
)
