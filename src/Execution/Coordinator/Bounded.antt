-- ===== src/Execution/Coordinator/Bounded.antt =====
-- The record of the runs that are over in services/execution_coordinator.py stays within its limit.
use text.Mathlib.Text.{◌==◌ as str_eq}
use portex.Common.{
  ℕ, zero, suc, ◌≤◌, ◌≡◌, refl, sym, ap, ◌∙◌, true, false, ◌||◌, Option, none, some, List, [], ◌∷◌,
  ◌++◌, String, length, length-drop, take, drop, arith, if◌then◌else◌,
}
use portex.Dict.{get, get-put}
use portex.Execution.Requests.{ExecutionResult}
use portex.Execution.Coordinator.{Coordinator, store_terminal_result}
use portex.Execution.Coordinator.Completed.{has_id, excess}
use portex.Execution.Coordinator.Stored.{
  Stored, order_with, stale_with, store_terminal_result-Stored,
}
use portex.Execution.Coordinator.Histories.{Action, perform_all}
use portex.Execution.Coordinator.Kept.{Core, core, Kept}
use portex.Execution.Coordinator.Kept.All.{perform_all-kept}

-- At most as many runs as the limit, and each kept result is of one of them.
pub record IsBounded (k : Core) : Type 0 where
  pub within : length k.completed_order ≤ k.max_completed_runs
  pub listed :
      (run_id : String) (result : ExecutionResult)
      → get k.completed_results run_id ≡ some result
      → has_id run_id k.completed_order ≡ true

has_id-append :
    (run_id : String) (xs : List String) (y : String)
    → has_id run_id (xs ++ y ∷ []) ≡ (has_id run_id xs || str_eq y run_id)
has_id-append run_id [] y = ground arith
has_id-append run_id (x ∷ xs) y = ground (arith, has_id-append run_id xs y)

has_id-split :
    (run_id : String) (n : ℕ) (xs : List String)
    → has_id run_id xs ≡ (has_id run_id (take n xs) || has_id run_id (drop n xs))
has_id-split run_id zero xs = refl
has_id-split run_id (suc n) [] = refl
has_id-split run_id (suc n) (x ∷ xs) = ground (arith, has_id-split run_id n xs)

drop_within : (m : ℕ) (xs : List String) → length (drop (excess m xs) xs) ≤ m
drop_within m xs = ground (arith, length-drop (excess m xs) xs)

-- A result that is kept is of a run that stays in the order.
still_listed :
    (order : List String) (n : ℕ) (new run_id : String) (result r : ExecutionResult)
    (old : Option ExecutionResult)
    → (if has_id run_id (take n (order ++ new ∷ []))
        then none
        else (if str_eq new run_id then some result else old))
      ≡ some r
    → (old ≡ some r → has_id run_id order ≡ true)
    → has_id run_id (drop n (order ++ new ∷ [])) ≡ true
still_listed order n new run_id result r old h listed =
    ground (arith, has_id-append run_id order new, has_id-split run_id n (order ++ new ∷ []))

store_terminal_result-IsBounded :
    (c : Coordinator) (result : ExecutionResult) (now : ℕ)
    → IsBounded (core c)
    → IsBounded (core (store_terminal_result c result now))
store_terminal_result-IsBounded c result now b =
    let s : Stored c result (store_terminal_result c result now) =
      store_terminal_result-Stored c result now in
    record {
      within =
          rw (s.order_is, ap (λ k. k.max_completed_runs) s.setup_same)
            (drop_within c.setup.max_completed_runs (order_with c result.run_id));
      listed = λ run_id r h. rw (s.order_is) (
          still_listed c.completed_order
            (excess c.setup.max_completed_runs (order_with c result.run_id)) result.run_id run_id
            result r (get c.completed_results run_id)
            (sym (
                s.results_are run_id
                ∙ ap (λ o. if has_id run_id (stale_with c result.run_id) then none else o)
                    (get-put c.completed_results result.run_id run_id result))
              ∙ h)
            (b.listed run_id r));
    }

IsBounded-Kept : Kept false IsBounded
IsBounded-Kept = record {
  settled = λ k b h. absurd (ground arith);
  stored = λ c result now _ b. store_terminal_result-IsBounded c result now b;
  filed = λ k run_id request f b. record { within = b.within; listed = b.listed };
  hired = λ k group_folder over b. record { within = b.within; listed = b.listed };
  marked = λ k run_id status over b. record { within = b.within; listed = b.listed };
  started = λ k run_id f e found settled b. record { within = b.within; listed = b.listed };
  moved = λ k w worker state at live b. record { within = b.within; listed = b.listed };
  left = λ k w worker at live b. record { within = b.within; listed = b.listed };
  advanced = λ k t e state at settled b. record { within = b.within; listed = b.listed };
}

-- From a coordinator whose record of finished runs is within its limit, with a kept result only for
-- a run in the record, every sequence of submissions, cancellations, worker steps, backend outcomes
-- and cancelled waiters leaves it within the limit, with a kept result only for a run in the
-- record.
pub perform_all-IsBounded :
    (actions : List Action) (c : Coordinator)
    → IsBounded (core c)
    → IsBounded (core (perform_all actions c))
perform_all-IsBounded actions c b =
    perform_all-kept IsBounded-Kept actions c (λ h. absurd (ground arith)) b
