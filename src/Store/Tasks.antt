-- ===== src/Store/Tasks.antt =====
-- Creating, reading and listing tasks, internal/mastermind/store/tasks.go.
pub mod Pages
use Prim.Native.Char.{code}
use el_pulpo_ai.Prelude.{
  ℕ, ℤ, pos, negsuc, String, str_eq, Bool, true, false, not, ◌&&◌, ◌||◌, Option, none, some, List,
  [], ◌∷◌, ◌++◌, ◌==◌, ltb, if◌then◌else◌, take, drop, is_space,
}
use el_pulpo_ai.Store.Row.{
  Task, Db, Env, Result, ok, err, TaskStatus, pending, status_eq, StoreError, not_found,
  invalid_input, db_error,
}
use el_pulpo_ai.Store.Query.{find_task, select_rows, count_rows, order_by}

-- What the store relies on for payloads: encoding/json's decoding of the field `instructions`
-- (`none` if the text is no JSON object that fits, `some none` if the field is missing or null),
-- and the database's reading of a text as JSONB.
pub record PayloadCodec : Type 0 where
  pub instructions : String → Option (Option String)
  pub jsonb : String → Option String

-- `strings.TrimSpace(s) == ""`.
unfoldable pub is_blank : String → Bool
is_blank String.[] = true
is_blank (String.◌∷◌ c s) = is_space (code c) && is_blank s

-- A nil payload is `none`.
pub record NewTaskInput : Type 0 where
  pub name : String
  pub payload : Option String
  pub priority : ℤ
  pub max_attempts : ℤ
  pub scheduled_for : Option ℕ
  pub jira_url : Option String
  pub github_pr_url : Option String

unfoldable pub check_instructions : Option (Option String) → Bool
check_instructions none = false
check_instructions (some none) = false
check_instructions (some (some s)) = not (is_blank s)

-- The texts of the errors are left out: `true` is the nil error.
unfoldable pub validate_create_input : PayloadCodec → Option String → Bool
unfolding check_instructions
validate_create_input c none = false
validate_create_input c (some p) =
    if str_eq p "" then false else check_instructions (c.instructions p)

-- `if in.MaxAttempts <= 0 { in.MaxAttempts = 3 }`.
unfoldable pub default_attempts : ℤ → ℤ
default_attempts (pos n) = if n == 0 then pos 3 else pos n
default_attempts (negsuc n) = pos 3

unfoldable pub payload_or_empty : Option String → String
payload_or_empty none = "{}"
payload_or_empty (some p) = p

-- The row that the INSERT makes, with the defaults of the other columns.
unfoldable pub new_row : Env → NewTaskInput → String → Task
unfolding default_attempts
new_row env input payload = record {
  id = env.fresh_id;
  name = input.name;
  payload = payload;
  priority = input.priority;
  status = pending;
  scheduled_for = input.scheduled_for;
  attempt_count = 0;
  max_attempts = default_attempts input.max_attempts;
  claimed_by = none;
  claimed_at = none;
  last_heartbeat_at = none;
  completed_at = none;
  last_error = none;
  progress_note = none;
  jira_url = input.jira_url;
  github_pr_url = input.github_pr_url;
  created_at = env.now;
  updated_at = env.now;
}

-- A key that is taken violates the primary key.
unfoldable pub insert_row : Task → Db → Option Task → Db × Result Task
insert_row t db none = (record db { tasks = db.tasks ++ t ∷ [] }, ok t)
insert_row t db (some _) = (db, err db_error)

unfoldable pub insert_task : Env → NewTaskInput → Db → Option String → Db × Result Task
unfolding insert_row new_row find_task
insert_task env input db none = (db, err db_error)
insert_task env input db (some p) =
    insert_row (new_row env input p) db (find_task env.fresh_id db.tasks)

unfoldable pub create_task : PayloadCodec → Env → NewTaskInput → Db → Db × Result Task
unfolding validate_create_input insert_task payload_or_empty
create_task c env input db =
    if validate_create_input c input.payload
    then (if env.answers 0
        then insert_task env input db (c.jsonb (payload_or_empty input.payload))
        else (db, err db_error))
    else (db, err invalid_input)

abbrev pub found : StoreError → Option Task → Result Task
found e none = err e
found e (some t) = ok t

-- The n-th statement of the call.
unfoldable pub get_task_at : ℕ → Env → ℕ → Db → Result Task
unfolding find_task
get_task_at n env i db =
    if env.answers n then found not_found (find_task i db.tasks) else err db_error

unfoldable pub get_task : Env → ℕ → Db → Result Task
unfolding get_task_at
get_task = get_task_at 0

-- After a write that touched no row: ErrNotFound if GetTask says so, the given error otherwise.
abbrev pub or_missing : Result Task → StoreError → StoreError
or_missing (err not_found) e = not_found
or_missing _ e = e

pub record ListTasksFilter : Type 0 where
  pub status : Option TaskStatus
  pub limit : ℤ
  pub offset : ℤ

pub record TasksPage : Type 0 where
  pub items : List Task
  pub total : ℕ

-- `if f.Limit <= 0 || f.Limit > 500 { f.Limit = 50 }`.
unfoldable pub page_limit : ℤ → ℕ
page_limit (pos n) = if n == 0 || ltb 500 n then 50 else n
page_limit (negsuc n) = 50

unfoldable pub status_is : Option TaskStatus → Task → Bool
status_is none t = true
status_is (some s) t = status_eq t.status s

-- ORDER BY created_at DESC.
unfoldable pub newer : Task → Task → Bool
newer a b = ltb b.created_at a.created_at

-- PostgreSQL refuses a negative OFFSET.
unfoldable pub page_rows : ℕ → ℤ → List Task → Result (List Task)
page_rows limit (pos n) ts = ok (take limit (drop n ts))
page_rows limit (negsuc n) ts = err db_error

unfoldable pub with_total : Env → ℕ → Result (List Task) → Result TasksPage
with_total env n (ok ts) =
    if env.answers 1 then ok (record { items = ts; total = n }) else err db_error
with_total env n (err e) = err e

unfoldable pub list_tasks : Env → ListTasksFilter → Db → Result TasksPage
unfolding page_limit status_is newer page_rows with_total select_rows count_rows order_by
list_tasks env f db =
    if env.answers 0
    then with_total env (count_rows (status_is f.status) db.tasks) (
        page_rows (page_limit f.limit) f.offset
          (order_by newer (select_rows (status_is f.status) db.tasks)))
    else err db_error
