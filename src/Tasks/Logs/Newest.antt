-- ===== src/Tasks/Logs/Newest.antt =====
-- Which entries `list_logs` of services/task_log_service.py answers with.
use text.Mathlib.Text.{◌==◌ as str_eq}
use text.Mathlib.TextEquality.{eq_iff, IsScalar-prop}
use mathlib.Core.Bool.{Bool-set}
use mathlib.Core.Logic.Or
use mathlib.Core.List.{Mem, Perm, Pairwise, not-mem-nil, eq-or-mem_of_mem-cons}
use mathlib.Core.List.Perm
use mathlib.Core.List.Pairwise
use mathlib.Core.Path.{subst}
use mathlib.Core.HLevel.{prop→set}
use portex.Common.{
  ℕ, suc, ◌+◌, ◌≡◌, refl, sym, ap, ◌∙◌, Bool, true, false, ◌&&◌, ◌||◌, Option, List, [], ◌∷◌, ◌++◌,
  String, length, length-append, take, keep_if, ltb, leb, ◌==◌, arith, Bool-cases, inl, inr,
  if◌then◌else◌,
}
use portex.Clock.{Datetime}
use portex.Dict.{get}
use portex.Sort.{row_le, sort_rows}
use portex.Sort.Insertion.{sort_rows-Perm, sort_rows-IsOrdered, IsOrdered-unique}
use portex.Sort.Columns.{row_le-IsTotalOrder}
use portex.Tasks.Logs.{
  TaskRunLog, TaskLogService, no_logs, logs_of, push_log, new_log, logs_of-push_log, record_log,
  log_key, list_logs, reset_logs,
}

-- A call of the service that changes it.
pub data Action : Type 0 where
  entry : String → Datetime → ℕ → String → Option String → Option String → Action
  clear : Action

unfoldable pub perform : Action → TaskLogService → TaskLogService
perform (entry task_id run_at duration status result error) s =
    (record_log s task_id run_at duration status result error).0
perform clear s = reset_logs s

unfoldable pub perform_all : List Action → TaskLogService → TaskLogService
perform_all [] s = s
perform_all (a ∷ actions) s = perform_all actions (perform a s)

-- What was recorded since the last reset, of all tasks and in order, numbered from 1.
unfoldable pub recorded : List Action → List TaskRunLog → List TaskRunLog
recorded [] l = l
recorded (entry task_id run_at duration status result error ∷ actions) l =
    recorded actions
      (l ++ new_log (suc (length l)) task_id run_at duration status result error ∷ [])
recorded (clear ∷ actions) l = recorded actions []

abbrev pub of_task : String → List TaskRunLog → List TaskRunLog
of_task task_id = keep_if (λ log. str_eq log.task_id task_id)

-- An entry that ran later, or that was recorded later if both ran at one time.
abbrev pub is_newer : TaskRunLog → TaskRunLog → Bool
is_newer a b = ltb b.run_at a.run_at || (a.run_at == b.run_at && leb b.id a.id)

abbrev pub numbered : ℕ → List TaskRunLog → Bool
numbered n [] = true
numbered n (log ∷ l) = log.id == n && numbered (suc n) l

record Stands (s : TaskLogService) (l : List TaskRunLog) : Type 0 where
  next_id_is : s.next_id ≡ suc (length l)
  logs_are : (task_id : String) → logs_of s task_id ≡ of_task task_id l
  ids_are : numbered 1 l ≡ true

numbered-push :
    (n : ℕ) (l : List TaskRunLog) (log : TaskRunLog)
    → numbered n l ≡ true
    → log.id ≡ n + length l
    → numbered n (l ++ log ∷ []) ≡ true
numbered-push n [] log h e = ground (arith, h, e)
numbered-push n (x ∷ l) log h e = ground (arith, h, numbered-push (suc n) l log, e)

of_task-push :
    (task_id : String) (l : List TaskRunLog) (log : TaskRunLog)
    → of_task task_id (l ++ log ∷ [])
      ≡ (if str_eq log.task_id task_id then of_task task_id l ++ log ∷ [] else of_task task_id l)
of_task-push task_id [] log = elim (Bool-cases (str_eq log.task_id task_id)) [
  | inl e ↦ rw (e) refl
  | inr e ↦ rw (e) refl
]
of_task-push task_id (x ∷ l) log = elim (Bool-cases (str_eq x.task_id task_id)) [
  | inl e ↦ elim (Bool-cases (str_eq log.task_id task_id)) [
    | inl k ↦ rw (e, of_task-push task_id l log, k) refl
    | inr k ↦ rw (e, of_task-push task_id l log, k) refl
  ]
  | inr e ↦ rw (e) (of_task-push task_id l log)
]

if_pushed :
    (same : Bool) (log : TaskRunLog) (here there own other : List TaskRunLog)
    → (same ≡ true → here ≡ own)
    → there ≡ other
    → (if same then here ++ log ∷ [] else there) ≡ (if same then own ++ log ∷ [] else other)
if_pushed true log here there own other h k = ap (λ logs. logs ++ log ∷ []) (h refl)
if_pushed false log here there own other h k = k

push_log-Stands :
    (s : TaskLogService) (l : List TaskRunLog) (log : TaskRunLog)
    → Stands s l
    → log.id ≡ 1 + length l
    → Stands (push_log s log) (l ++ log ∷ [])
push_log-Stands s l log stands e = record {
  next_id_is = omega (arith, stands.next_id_is, length-append l (log ∷ []));
  logs_are = λ task_id.
      logs_of-push_log s log task_id
      ∙ if_pushed (str_eq log.task_id task_id) log (logs_of s log.task_id) (logs_of s task_id)
          (of_task task_id l) (of_task task_id l)
          (λ h. ap (logs_of s) ((eq_iff log.task_id task_id).0 h) ∙ stands.logs_are task_id)
          (stands.logs_are task_id)
      ∙ sym (of_task-push task_id l log);
  ids_are = numbered-push 1 l log stands.ids_are e;
}

no_logs-Stands : Stands no_logs []
unfolding get
no_logs-Stands = record { next_id_is = refl; logs_are = λ task_id. refl; ids_are = refl }

perform_all-Stands :
    (actions : List Action) (s : TaskLogService) (l : List TaskRunLog)
    → Stands s l
    → Stands (perform_all actions s) (recorded actions l)
unfolding perform_all perform recorded record_log
perform_all-Stands [] s l stands = stands
perform_all-Stands (clear ∷ actions) s l stands =
    perform_all-Stands actions no_logs [] no_logs-Stands
perform_all-Stands (entry task_id run_at duration status result error ∷ actions) s l stands =
    let log : ℕ → TaskRunLog = λ id. new_log id task_id run_at duration status result error in
    perform_all-Stands actions _ _ (
      subst (λ n. Stands (push_log s (log s.next_id)) (l ++ log n ∷ [])) stands.next_id_is
        (push_log-Stands s l (log s.next_id) stands (omega (arith, stands.next_id_is))))

is_newer_lem : (a b : TaskRunLog) → row_le log_key a b ≡ is_newer a b
is_newer_lem a b = ground arith

-- Ids from a number on, each larger than the one before it.
abbrev rising : ℕ → List TaskRunLog → Bool
rising n [] = true
rising n (log ∷ l) = leb n log.id && rising (suc log.id) l

rising-lower : (n : ℕ) (l : List TaskRunLog) → rising (suc n) l ≡ true → rising n l ≡ true
rising-lower n [] h = refl
rising-lower n (log ∷ l) h = ground (arith, h)

of_task-rising :
    (n : ℕ) (task_id : String) (l : List TaskRunLog)
    → numbered n l ≡ true
    → rising n (of_task task_id l) ≡ true
of_task-rising n task_id [] h = refl
of_task-rising n task_id (x ∷ l) h = elim (Bool-cases (str_eq x.task_id task_id)) [
  | inl e ↦
      let at : x.id ≡ n = ground (arith, h) in
      rw (e, at) (ground (arith, of_task-rising (suc n) task_id l (ground (arith, h))))
  | inr e ↦
      rw (e)
        (rising-lower n (of_task task_id l) (of_task-rising (suc n) task_id l (ground (arith, h))))
]

rising-le :
    (n : ℕ) (l : List TaskRunLog) (a : TaskRunLog) → rising n l ≡ true → Mem a l → leb n a.id ≡ true
rising-le n [] a h m = absurd (not-mem-nil m)
rising-le n (x ∷ l) a h m =
    Or.elim (Bool-set _ true) (eq-or-mem_of_mem-cons m)
      (λ same. ground (arith, h, ap (λ log. log.id) same))
      (λ k. ground (arith, h, rising-le (suc x.id) l a (ground (arith, h)) k))

TaskRunLog-IsSet : IsSet TaskRunLog
TaskRunLog-IsSet = hlevel (λ (n : ℕ). prop→set (IsScalar-prop n))

-- Two entries in a list with rising ids that have the same id are the same entry.
rising_unique :
    (n : ℕ) (l : List TaskRunLog) (a b : TaskRunLog)
    → rising n l ≡ true
    → Mem a l
    → Mem b l
    → a.id ≡ b.id
    → a ≡ b
rising_unique n [] a b h m k e = absurd (not-mem-nil m)
rising_unique n (x ∷ l) a b h m k e =
    let rest : rising (suc x.id) l ≡ true = ground (arith, h) in
    Or.elim (TaskRunLog-IsSet a b) (eq-or-mem_of_mem-cons m)
      (λ p.
        Or.elim (TaskRunLog-IsSet a b) (eq-or-mem_of_mem-cons k) (λ q. p ∙ sym q)
          (λ j. absurd (ground (arith, ap (λ log. log.id) p, e, rising-le (suc x.id) l b rest j))))
      (λ i.
        Or.elim (TaskRunLog-IsSet a b) (eq-or-mem_of_mem-cons k)
          (λ q. absurd (ground (arith, ap (λ log. log.id) q, e, rising-le (suc x.id) l a rest i)))
          (λ j. rising_unique (suc x.id) l a b rest i j e))

abbrev pub Newer : TaskRunLog → TaskRunLog → Type 0
Newer a b = is_newer a b ≡ true

newer_tie : (a b : TaskRunLog) → is_newer a b ≡ true → is_newer b a ≡ true → a.id ≡ b.id
newer_tie a b h k = ground (arith, h, k)

-- After any calls of `record_log` and `reset` on a new service, `list_logs` answers with the first
-- entries, as many as the limit says, of every list that holds exactly the entries recorded for
-- the task since the last reset, the newest first.
pub list_logs_lem :
    (actions : List Action) (task_id : String) (limit : ℕ) (l : List TaskRunLog)
    → Perm l (of_task task_id (recorded actions []))
    → Pairwise Newer l
    → list_logs (perform_all actions no_logs) task_id limit ≡ take limit l
unfolding list_logs
list_logs_lem actions task_id limit l p ordered =
    let stands = perform_all-Stands actions no_logs [] no_logs-Stands in
    let all : List TaskRunLog = of_task task_id (recorded actions []) in
    let le = row_le log_key in
    let order = row_le-IsTotalOrder log_key in
    let perm : Perm (sort_rows le all) all = sort_rows-Perm le all in
    ap (λ logs. take limit (sort_rows le logs)) (stands.logs_are task_id)
    ∙ ap (take limit) (
        IsOrdered-unique le order
          (λ a b m n h k.
            rising_unique 1 all a b (of_task-rising 1 task_id (recorded actions []) stands.ids_are)
              ((Perm.mem_iff perm).0 m) ((Perm.mem_iff perm).0 n)
              (newer_tie a b (sym (is_newer_lem a b) ∙ h) (sym (is_newer_lem b a) ∙ k)))
          (sort_rows-IsOrdered le order all) (Pairwise.imp (λ a b h. is_newer_lem a b ∙ h) ordered)
          (Perm.trans perm (Perm.symm p)))
