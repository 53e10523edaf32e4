-- ===== src/Store/Examples/Workflow.antt =====
-- The theorems on parking, the log, the dashboard and histories of calls, at the same tables.
use mathlib.Core.List.{Perm}
use el_pulpo_ai.Prelude.{
  pos, String, true, false, ◌≡◌, refl, ◌≢◌, Option, none, some, [], ◌∷◌, ◌++◌, holds, All, arith,
  ap, List, ℕ, zero, suc, inl, ◌+◌, ◌≤◌,
}
use el_pulpo_ai.Store.Row.{Db, Env, Task, TaskLogEntry, ok, pending}
use el_pulpo_ai.Store.Query.{find_task, count_rows, select_rows}
use el_pulpo_ai.Store.Query.Order.{Ordered}
use el_pulpo_ai.Store.Query.Reordered.{Reordered, swap, same}
use el_pulpo_ai.Store.Tasks.Pages.{pages_from, pages_list_all}
use el_pulpo_ai.Store.Tasks.{newer, status_is, PayloadCodec, NewTaskInput}
use el_pulpo_ai.Store.Claim.{claim_task, claim_order, claim_set}
use el_pulpo_ai.Store.Lifecycle.{report_result, reap_stale, stale, exhausted}
use el_pulpo_ai.Store.Logs.{append_check, append_write, new_entry}
use el_pulpo_ai.Store.Logs.Append.{late_append_lands}
use el_pulpo_ai.Store.Dashboard.{sort_queue_for_dashboard}
use el_pulpo_ai.Store.Dashboard.Sorted.{sort_queue_sorted}
use el_pulpo_ai.Store.History.{Call, claims, beats, reports, run, apply}
use el_pulpo_ai.Store.History.Invariant.{DbInv, RowInv}
use el_pulpo_ai.Store.History.Lifecycle.{Moved, apply-Moved}
use el_pulpo_ai.Store.History.Fence.{beats_by, apply-untouched}
use el_pulpo_ai.Store.History.Budget.{Budget, apply-Budget, failure_backs_off}
use el_pulpo_ai.Store.History.Drain.Measure.{attempts_left, is_overdrawn}
use el_pulpo_ai.Store.History.Drain.{granted, granted_bounded}
use el_pulpo_ai.Store.Examples.{env, later, waiting, working, db, newer_waiting, distinct}

abbrev codec : PayloadCodec
codec = record { instructions = λ s. some (some s); jsonb = λ s. some s }

abbrev input : NewTaskInput
input = record {
  name = "n";
  payload = some "go";
  priority = pos 1;
  max_attempts = pos 3;
  scheduled_for = none;
  jira_url = none;
  github_pr_url = none;
}

row_inv : All RowInv db.tasks
row_inv = (
  record {
    held_owner = λ e. refl;
    held_since = λ e. refl;
    held_beat = λ e. refl;
    released_owner = λ e. cc;
    released_since = λ e. cc;
    completion = refl;
    attempted = λ e. ground arith;
  },
  (
    record {
      held_owner = λ e. cc;
      held_since = λ e. cc;
      held_beat = λ e. cc;
      released_owner = λ e. refl;
      released_since = λ e. refl;
      completion = refl;
      attempted = λ e. cc;
    },
    (
      record {
        held_owner = λ e. cc;
        held_since = λ e. cc;
        held_beat = λ e. cc;
        released_owner = λ e. refl;
        released_since = λ e. refl;
        completion = refl;
        attempted = λ e. ground arith;
      },
      tt,
    ),
  ),
)

db_inv : DbInv db
db_inv = record { unique = distinct; rows_inv = row_inv }

abbrev ada : Option String
ada = some "ada"

abbrev bob : Option String
bob = some "bob"

not_bob : ada ≢ bob
unfolding holds
not_bob e = cc (ap (λ o. holds o "bob") e)

abbrev line : TaskLogEntry
line = record { id = 1; task_id = 2; message = "hello"; created_at = 100 }

apply-Moved_example :
    Moved working (find_task 2 (apply codec env (reports "ada" 2 true "") db).tasks)
unfolding find_task
apply-Moved_example = apply-Moved codec env (reports "ada" 2 true "") db 2 working distinct refl

apply-untouched_example : find_task 2 (apply codec env (beats "bob" 2) db).tasks ≡ some working
unfolding find_task
apply-untouched_example =
    apply-untouched codec env "bob" (beats "bob" 2) db 2 working (beats_by 2) refl not_bob

apply-Budget_example : Budget (claim_set 100 "ada" waiting)
unfolding find_task apply claim_task claim_set
apply-Budget_example =
    apply-Budget codec env (claims (λ t. false) "ada") db 1 waiting (claim_set 100 "ada" waiting)
      distinct refl refl refl
      (record { some_allowed = ground arith; within = ground arith; one_left = λ p. ground arith })

late_append_lands_example :
    (append_check later "ada" 2 db ≡ ok tt)
    × ((append_write later 2 "hello" (reap_stale env 10 db).0).1
        ≡ ok (new_entry later 2 "hello" (reap_stale env 10 db).0))
    × ((append_write later 2 "hello" (reap_stale env 10 db).0).0.logs
        ≡ (reap_stale env 10 db).0.logs ++ new_entry later 2 "hello" (reap_stale env 10 db).0 ∷ [])
    × ((u : Task) × (find_task 2 (append_write later 2 "hello" (reap_stale env 10 db).0).0.tasks
          ≡ some u)
        × (u.status ≡ pending)
        × (u.claimed_by ≡ none)
        × (u.last_heartbeat_at ≡ some 150))
unfolding find_task stale exhausted
late_append_lands_example =
    late_append_lands env later 10 2 "ada" "hello" db working
      (record { begun = refl; selected = refl; inserted = refl; updated = refl; committed = refl })
      refl refl (refl, refl) refl refl

sort_queue_sorted_example :
    Perm (sort_queue_for_dashboard (newer_waiting ∷ waiting ∷ [])) (newer_waiting ∷ waiting ∷ [])
    × Ordered claim_order (sort_queue_for_dashboard (newer_waiting ∷ waiting ∷ []))
sort_queue_sorted_example = sort_queue_sorted (newer_waiting ∷ waiting ∷ [])

failure_backs_off_example : (claim_set 150 "bob" waiting).id ≢ 2
unfolding find_task claim_task report_result holds
failure_backs_off_example =
    failure_backs_off env later (λ t. false) "ada" "bob" "no" 2 3 db working
      (claim_set 150 "bob" waiting) db_inv refl refl (refl, refl) refl (ground arith) (ground arith)
      refl

abbrev working_off : List (Env × Call)
working_off = (env, claims (λ t. false) "bob") ∷ (env, reports "ada" 2 true "") ∷ []

granted_bounded_example :
    granted codec working_off db + attempts_left (run codec working_off db).tasks
    ≤ attempts_left db.tasks + count_rows is_overdrawn db.tasks
granted_bounded_example = granted_bounded codec working_off db db_inv (refl, (refl, tt))

abbrev listed : Db
listed = record { tasks = newer_waiting ∷ waiting ∷ []; logs = []; next_log_id = 1 }

abbrev relisted : Db
relisted = record { tasks = waiting ∷ newer_waiting ∷ []; logs = []; next_log_id = 1 }

abbrev read_as : ℕ → Db
read_as zero = relisted
read_as (suc k) = listed

read_as-Reordered : (k : ℕ) → Reordered listed.tasks (read_as k).tasks
read_as-Reordered zero = swap
read_as-Reordered (suc k) = same listed.tasks

pages_list_all_example :
    Perm
      (pages_from (λ k. env) read_as (some pending) 1 0 3)
      (select_rows (status_is (some pending)) listed.tasks)
    × Ordered newer (pages_from (λ k. env) read_as (some pending) 1 0 3)
unfolding count_rows status_is select_rows newer
pages_list_all_example =
    pages_list_all (λ k. env) read_as listed (some pending) 1 (omega arith) (omega arith)
      (λ k n. refl) read_as-Reordered ((inl refl, tt), (tt, tt)) 3 (omega arith)
