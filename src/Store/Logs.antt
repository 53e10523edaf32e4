-- ===== src/Store/Logs.antt =====
-- The append-only log of a task, internal/mastermind/store/logs.go. AppendTaskLog is a transaction
-- of five statements: BEGIN, SELECT, INSERT, UPDATE, COMMIT.
pub mod Append
use el_pulpo_ai.Prelude.{
  ℕ, suc, ℤ, pos, negsuc, String, Bool, not, ◌&&◌, ◌||◌, Option, none, some, List, [], ◌∷◌, ◌++◌,
  ◌==◌, ltb, if◌then◌else◌, holds, take,
}
use el_pulpo_ai.Store.Row.{
  Task, TaskLogEntry, Db, Env, Result, ok, err, is_held, not_owner, not_found, db_error,
}
use el_pulpo_ai.Store.Query.{find_task, has_id, update_rows, select_rows, order_by}
use el_pulpo_ai.Store.Lifecycle.{heartbeat_set}

unfoldable pub check_owner : String → Option Task → Result (Unit {0})
check_owner w none = err not_found
check_owner w (some t) =
    if not (holds t.claimed_by w) || not (is_held t.status) then err not_owner else ok tt

-- The first half: the SELECT of the owner and the status, and the test on them.
unfoldable pub append_check : Env → String → ℕ → Db → Result (Unit {0})
unfolding check_owner find_task
append_check env w i db =
    if env.answers 0 && env.answers 1 then check_owner w (find_task i db.tasks) else err db_error

unfoldable pub new_entry : Env → ℕ → String → Db → TaskLogEntry
new_entry env i message db = record {
  id = db.next_log_id;
  task_id = i;
  message = message;
  created_at = env.now;
}

-- A rolled-back INSERT has used up its number all the same.
abbrev pub take_number : Db → Db
take_number db = record db { next_log_id = suc db.next_log_id }

-- `task_id REFERENCES tasks(id)`.
unfoldable pub insert_entry : Env → ℕ → String → Db → Option Task → Db × Result TaskLogEntry
unfolding new_entry heartbeat_set update_rows
insert_entry env i message db none = (take_number db, err db_error)
insert_entry env i message db (some _) =
    if env.answers 3 && env.answers 4
    then (
      record db {
        tasks = update_rows (has_id i) (heartbeat_set env.now) db.tasks;
        logs = db.logs ++ new_entry env i message db ∷ [];
        next_log_id = suc db.next_log_id;
      },
      ok (new_entry env i message db),
    )
    else (take_number db, err db_error)

-- The second half: INSERT, UPDATE … WHERE id = $1, and COMMIT.
unfoldable pub append_write : Env → ℕ → String → Db → Db × Result TaskLogEntry
unfolding insert_entry find_task
append_write env i message db =
    if env.answers 2
    then insert_entry env i message db (find_task i db.tasks)
    else (db, err db_error)

unfoldable pub append_task_log : Env → String → ℕ → String → Db → Db × Result TaskLogEntry
unfolding append_check append_write
append_task_log env w i message db = elim (append_check env w i db) [
  | ok _ ↦ append_write env i message db
  | err e ↦ (db, err e)
]

-- ORDER BY id ASC.
unfoldable pub older_entry : TaskLogEntry → TaskLogEntry → Bool
older_entry a b = ltb a.id b.id

-- A limit that is not positive means no cap.
capped : ℤ → List TaskLogEntry → List TaskLogEntry
capped (pos n) es = if n == 0 then es else take n es
capped (negsuc n) es = es

unfoldable pub list_task_logs : Env → ℕ → ℤ → Db → Result (List TaskLogEntry)
unfolding older_entry capped select_rows order_by
list_task_logs env i limit db =
    if env.answers 0
    then ok (capped limit (order_by older_entry (select_rows (λ e. e.task_id == i) db.logs)))
    else err db_error
