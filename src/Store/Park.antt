-- ===== src/Store/Park.antt =====
-- The transitions around a pull request: internal/mastermind/store/open_pr.go, jira.go, finalize.go.
pub mod Replies
use el_pulpo_ai.Prelude.{
  ℕ, String, str_eq, Bool, true, false, ◌&&◌, Option, none, some, ◌==◌, if◌then◌else◌, holds,
}
use el_pulpo_ai.Store.Row.{
  Task, Db, Env, Result, ok, err, TaskStatus, pr_opened, review_requested, completed, failed,
  status_eq, empty_pr_url, invalid_transition,
}
use el_pulpo_ai.Store.Query.{by_id, exec_update}
use el_pulpo_ai.Store.Transitions.{role_worker, role_admin, allowed}
use el_pulpo_ai.Store.Tasks.{get_task_at, or_missing}
use el_pulpo_ai.Store.Lifecycle.{owner_only, non_empty}

-- WHERE id = $1 AND claimed_by = $2 AND status = ANY($4).
unfoldable pub owner_may : String → String → Task → Bool
owner_may w action t = holds t.claimed_by w && allowed role_worker action t.status

unfoldable pub open_pr_set : ℕ → String → Task → Task
open_pr_set now url t = record t {
  status = pr_opened;
  github_pr_url = some url;
  claimed_by = none;
  claimed_at = none;
  last_heartbeat_at = none;
  updated_at = now;
}

unfoldable pub open_pr : Env → String → ℕ → String → Db → Db × Result (Unit {0})
unfolding open_pr_set owner_may exec_update
open_pr env w i url db =
    if str_eq url ""
    then (db, err empty_pr_url)
    else owner_only
        (exec_update env 0 (by_id i (owner_may w "open_pr")) (open_pr_set env.now url) db)

unfoldable pub set_jira_url_set : ℕ → Option String → Task → Task
set_jira_url_set now url t = record t {
  jira_url = url;
  last_heartbeat_at = some now;
  updated_at = now;
}

unfoldable pub set_jira_url : Env → String → ℕ → String → Db → Db × Result (Unit {0})
unfolding set_jira_url_set owner_may exec_update
set_jira_url env w i url db = owner_only (
    exec_update env 0 (by_id i (owner_may w "set_jira_url"))
      (set_jira_url_set env.now (non_empty url)) db)

-- WHERE id = $1 AND status = ANY($n).
unfoldable pub admin_may : String → Task → Bool
admin_may action t = allowed role_admin action t.status

-- No row affected: ErrNotFound if GetTask says so, ErrInvalidTransition otherwise.
abbrev pub transition_only : Env → ℕ → Db × Result ℕ → Db × Result (Unit {0})
transition_only env i (db, ok n) =
    (db, if n == 0 then err (or_missing (get_task_at 1 env i db) invalid_transition) else ok tt)
transition_only env i (db, err e) = (db, err e)

unfoldable pub request_review_set : ℕ → Task → Task
request_review_set now t = record t { status = review_requested; updated_at = now }

unfoldable pub request_review : Env → ℕ → Db → Db × Result (Unit {0})
unfolding request_review_set admin_may exec_update get_task_at
request_review env i db =
    transition_only env i
      (exec_update env 0 (by_id i (admin_may "request_review")) (request_review_set env.now) db)

unfoldable pub target_status : Bool → TaskStatus
target_status true = completed
target_status false = failed

unfoldable pub error_param : Bool → String → Option String
error_param true msg = none
error_param false msg = non_empty msg

unfoldable pub coalesce_error : Option String → Option String → Option String
coalesce_error none old = old
coalesce_error (some e) old = some e

unfoldable pub finalize_set : ℕ → TaskStatus → Option String → Task → Task
unfolding coalesce_error
finalize_set now target error t = record t {
  status = target;
  completed_at = if status_eq target completed then some now else t.completed_at;
  last_error = coalesce_error error t.last_error;
  updated_at = now;
}

unfoldable pub finalize_task : Env → ℕ → Bool → String → Db → Db × Result (Unit {0})
unfolding finalize_set admin_may exec_update get_task_at target_status error_param
finalize_task env i success msg db = transition_only env i (
    exec_update env 0 (by_id i (admin_may "finalize"))
      (finalize_set env.now (target_status success) (error_param success msg)) db)
