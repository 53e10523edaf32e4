-- ===== src/Store/History.antt =====
-- The calls of the store that change its state, and sequences of them. AppendTaskLog reads the owner
-- first, and other calls can come before it writes: `writes_log` is what it writes, at any later time.
pub mod Change
pub mod Invariant
pub mod Lifecycle
pub mod Fence
pub mod Budget
pub mod Drain
pub mod Careful
use el_pulpo_ai.Prelude.{ℕ, String, Bool, Option, List, [], ◌∷◌}
use el_pulpo_ai.Store.Row.{Task, Db, Env}
use el_pulpo_ai.Store.Tasks.{PayloadCodec, NewTaskInput, create_task}
use el_pulpo_ai.Store.Edit.{
  UpdateTaskInput, update_task, update_task_links, delete_task, requeue_task,
}
use el_pulpo_ai.Store.Claim.{claim_task}
use el_pulpo_ai.Store.Lifecycle.{heartbeat, update_progress, report_result, reap_stale}
use el_pulpo_ai.Store.Park.{open_pr, set_jira_url, request_review, finalize_task}
use el_pulpo_ai.Store.Logs.{append_write}

pub data Call : Type 0 where
  creates : NewTaskInput → Call
  updates : ℕ → UpdateTaskInput → Call
  links : ℕ → Option String → Option String → Call
  deletes requeues : ℕ → Call
  claims : (Task → Bool) → String → Call
  beats : String → ℕ → Call
  notes : String → ℕ → String → Call
  reports : String → ℕ → Bool → String → Call
  reaps : ℕ → Call
  opens sets_jira : String → ℕ → String → Call
  reviews : ℕ → Call
  finalizes : ℕ → Bool → String → Call
  writes_log : ℕ → String → Call

-- The database after a call.
unfoldable pub apply : PayloadCodec → Env → Call → Db → Db
apply c env (creates input) db = (create_task c env input db).0
apply c env (updates i input) db = (update_task c env i input db).0
apply c env (links i jira pr) db = (update_task_links env i jira pr db).0
apply c env (deletes i) db = (delete_task env i db).0
apply c env (requeues i) db = (requeue_task env i db).0
apply c env (claims locked w) db = (claim_task env locked w db).0
apply c env (beats w i) db = (heartbeat env w i db).0
apply c env (notes w i note) db = (update_progress env w i note db).0
apply c env (reports w i success msg) db = (report_result env w i success msg db).0
apply c env (reaps visibility) db = (reap_stale env visibility db).0
apply c env (opens w i url) db = (open_pr env w i url db).0
apply c env (sets_jira w i url) db = (set_jira_url env w i url db).0
apply c env (reviews i) db = (request_review env i db).0
apply c env (finalizes i success msg) db = (finalize_task env i success msg db).0
apply c env (writes_log i message) db = (append_write env i message db).0

unfoldable pub run : PayloadCodec → List (Env × Call) → Db → Db
run c [] db = db
run c ((env, call) ∷ rest) db = run c rest (apply c env call db)

-- The database after the migrations.
unfoldable pub empty_db : Db
empty_db = record { tasks = []; logs = []; next_log_id = 1 }
