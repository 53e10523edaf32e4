-- ===== src/Store/Edit.antt =====
-- Editing, deleting and requeueing tasks, internal/mastermind/store/tasks.go.
pub mod Admin
use Prim.Native.Char.{code}
use mathlib.Core.Option
use el_pulpo_ai.Prelude.{
  ℕ, ℤ, pos, negsuc, String, str_eq, Bool, true, false, not, ◌&&◌, ◌||◌, Option, none, some, List,
  [], ◌∷◌, ◌++◌, ◌==◌, leb, ltb, if◌then◌else◌, take, drop,
}
use el_pulpo_ai.Store.Row.{
  Task, Db, Env, Result, ok, err, TaskStatus, pending, status_eq, is_pending, is_idle, StoreError,
  not_found, invalid_input, not_editable, not_deletable, not_requeueable, db_error,
}
use el_pulpo_ai.Store.Query.{
  find_task, by_id, has_id, select_rows, count_rows, order_by, query_update,
}
use el_pulpo_ai.Store.Tasks.{PayloadCodec, get_task_at, or_missing}

-- A nil payload is `none`, and keeps the payload (COALESCE).
pub record UpdateTaskInput : Type 0 where
  pub name : String
  pub priority : ℤ
  pub max_attempts : ℤ
  pub scheduled_for : Option ℕ
  pub payload : Option String
  pub jira_url : Option String
  pub github_pr_url : Option String

abbrev pub coalesce {ℓ} : {A : Type ℓ} → Option A → A → A
coalesce none a = a
coalesce (some b) a = b

unfoldable pub update_task_set : ℕ → UpdateTaskInput → Option String → Task → Task
update_task_set now input payload t = record t {
  name = input.name;
  priority = input.priority;
  max_attempts = input.max_attempts;
  scheduled_for = input.scheduled_for;
  payload = coalesce payload t.payload;
  jira_url = input.jira_url;
  github_pr_url = input.github_pr_url;
  updated_at = now;
}

unfoldable pub update_task_where : ℕ → Task → Bool
update_task_where i = by_id i (λ t. is_pending t.status)

-- The row of `UPDATE … RETURNING`, or the error of a write that touched no row.
abbrev pub returned : Env → ℕ → StoreError → Db × Result (Option Task) → Db × Result Task
returned env i e (db, ok (some t)) = (db, ok t)
returned env i e (db, ok none) = (db, err (or_missing (get_task_at 1 env i db) e))
returned env i e (db, err x) = (db, err x)

-- The payload parameter as JSONB: a text that is no JSON makes the statement fail.
unfoldable pub jsonb_param : PayloadCodec → Option String → Option (Option String)
jsonb_param c none = some none
jsonb_param c (some p) = Option.map some (c.jsonb p)

unfoldable pub update_task : PayloadCodec → Env → ℕ → UpdateTaskInput → Db → Db × Result Task
unfolding update_task_set update_task_where query_update get_task_at jsonb_param
update_task c env i input db = elim (jsonb_param c input.payload) [
  | none ↦ (db, err db_error)
  | some payload ↦
      returned env i not_editable
        (query_update env 0 (update_task_where i) (update_task_set env.now input payload) db)
]

unfoldable pub update_task_links_set : ℕ → Option String → Option String → Task → Task
update_task_links_set now jira pr t = record t {
  jira_url = jira;
  github_pr_url = pr;
  updated_at = now;
}

-- There is no second statement here: no row means ErrNotFound.
abbrev pub returned_or_missing : Db × Result (Option Task) → Db × Result Task
returned_or_missing (db, ok (some t)) = (db, ok t)
returned_or_missing (db, ok none) = (db, err not_found)
returned_or_missing (db, err e) = (db, err e)

unfoldable pub update_task_links : Env → ℕ → Option String → Option String → Db → Db × Result Task
unfolding update_task_links_set query_update
update_task_links env i jira pr db =
    returned_or_missing (query_update env 0 (has_id i) (update_task_links_set env.now jira pr) db)

unfoldable pub delete_task_where : ℕ → Task → Bool
delete_task_where i = by_id i (λ t. is_idle t.status)

-- ON DELETE CASCADE: the log entries of a deleted task go with it.
unfoldable pub delete_rows : (Task → Bool) → ℕ → Db → Db
unfolding select_rows
delete_rows p i db = record db {
  tasks = select_rows (λ t. not (p t)) db.tasks;
  logs = select_rows (λ e. not (e.task_id == i)) db.logs;
}

unfoldable pub delete_task : Env → ℕ → Db → Db × Result (Unit {0})
unfolding delete_task_where delete_rows count_rows get_task_at
delete_task env i db =
    if env.answers 0
    then (if count_rows (delete_task_where i) db.tasks == 0
        then (db, err (or_missing (get_task_at 1 env i db) not_deletable))
        else (delete_rows (delete_task_where i) i db, ok tt))
    else (db, err db_error)

unfoldable pub requeue_set : ℕ → Task → Task
requeue_set now t = record t {
  status = pending;
  claimed_by = none;
  claimed_at = none;
  last_heartbeat_at = none;
  completed_at = none;
  last_error = none;
  progress_note = none;
  github_pr_url = none;
  attempt_count = 0;
  scheduled_for = none;
  updated_at = now;
}

unfoldable pub requeue_where : ℕ → Task → Bool
requeue_where i = by_id i (λ t. is_idle t.status)

unfoldable pub requeue_task : Env → ℕ → Db → Db × Result Task
unfolding requeue_set requeue_where query_update get_task_at
requeue_task env i db =
    returned env i not_requeueable (query_update env 0 (requeue_where i) (requeue_set env.now) db)
