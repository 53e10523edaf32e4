-- ===== src/Grpc/Admin.antt =====
-- The AdminService, internal/mastermind/grpcserver/admin.go.
pub mod Created
use Prim.Native.String
use Prim.Native.Char.{code}
use el_pulpo_ai.Prelude.{
  ℕ, suc, ◌+◌, ℤ, pos, negsuc, String, str_eq, Bool, true, false, ◌||◌, Option, none, some, List,
  [], ◌∷◌, map, ltb, if◌then◌else◌,
}
use el_pulpo_ai.Store.Row.{
  Task, TaskLogEntry, Db, Env, Result, ok, err, TaskStatus, pending, claimed, in_progress,
  pr_opened, review_requested, completed, failed,
}
use el_pulpo_ai.Store.Transitions.{status_name}
use el_pulpo_ai.Store.Tasks.{
  PayloadCodec, NewTaskInput, create_task, get_task, get_task_at, ListTasksFilter, TasksPage,
  list_tasks,
}
use el_pulpo_ai.Store.Edit.{delete_task, requeue_task}
use el_pulpo_ai.Store.Lifecycle.{non_empty}
use el_pulpo_ai.Store.Park.{request_review, finalize_task}
use el_pulpo_ai.Store.Logs.{list_task_logs}
use el_pulpo_ai.Store.Workers.{WorkerInfo, list_workers}
use el_pulpo_ai.Store.Dashboard.{after}
use el_pulpo_ai.Grpc.Status.{
  Code, invalid_argument, internal, Reply, response, failure, Mastermind, UuidCodec, Outcome,
  success, failed_with, no_outcome, create_code, get_code, cancel_code, retry_code, transition_code,
  reply_by,
}
use el_pulpo_ai.Grpc.Server.{refused, served, parsed, nothing}

-- The bytes of a code point in UTF-8.
abbrev utf8_size : ℕ → ℕ
utf8_size c =
    if ltb c 0x80 then 1 else (if ltb c 0x800 then 2 else (if ltb c 0x10000 then 3 else 4))

-- `len(s)`, the number of bytes.
unfoldable pub byte_len : String → ℕ
byte_len String.[] = 0
byte_len (String.◌∷◌ c s) = utf8_size (code c) + byte_len s

abbrev pub max_name_len : ℕ
max_name_len = 200

pub record CreateTaskRequest : Type 0 where
  pub name : String
  pub payload : String
  pub priority : ℤ
  pub max_attempts : ℤ
  pub scheduled_for : Option ℕ
  pub jira_url : String
  pub github_pr_url : String

pub record TaskDetail : Type 0 where
  pub id : String
  pub name : String
  pub payload : String
  pub priority : ℤ
  pub status : String
  pub attempt_count : ℕ
  pub max_attempts : ℤ
  pub created_at : ℕ
  pub updated_at : ℕ
  pub scheduled_for : Option ℕ
  pub claimed_by : String
  pub claimed_at : Option ℕ
  pub last_heartbeat_at : Option ℕ
  pub completed_at : Option ℕ
  pub last_error : String
  pub jira_url : String
  pub github_pr_url : String

-- A NULL text becomes the empty string.
abbrev or_empty : Option String → String
or_empty none = ""
or_empty (some s) = s

-- The progress note is not part of the detail.
unfoldable pub to_task_detail : UuidCodec → Task → TaskDetail
unfolding status_name
to_task_detail u t = record {
  id = u.print t.id;
  name = t.name;
  payload = t.payload;
  priority = t.priority;
  status = status_name t.status;
  attempt_count = t.attempt_count;
  max_attempts = t.max_attempts;
  created_at = t.created_at;
  updated_at = t.updated_at;
  scheduled_for = t.scheduled_for;
  claimed_by = or_empty t.claimed_by;
  claimed_at = t.claimed_at;
  last_heartbeat_at = t.last_heartbeat_at;
  completed_at = t.completed_at;
  last_error = or_empty t.last_error;
  jira_url = or_empty t.jira_url;
  github_pr_url = or_empty t.github_pr_url;
}

-- `n < 0 || n > limit`.
abbrev pub out_of_range : ℕ → ℤ → Bool
out_of_range limit (pos n) = ltb limit n
out_of_range limit (negsuc n) = true

-- The checks on a request of CreateTask; `json_valid` is json.Unmarshal into any value.
unfoldable pub valid_create : (String → Bool) → CreateTaskRequest → Bool
unfolding byte_len
valid_create json_valid r =
    if str_eq r.name ""
    then false
    else (if ltb max_name_len (byte_len r.name)
        then false
        else (if out_of_range 50 r.max_attempts
            then false
            else (if str_eq r.payload "" then true else json_valid r.payload)))

unfoldable pub create_input : CreateTaskRequest → NewTaskInput
create_input r = record {
  name = r.name;
  payload = non_empty r.payload;
  priority = r.priority;
  max_attempts = r.max_attempts;
  scheduled_for = r.scheduled_for;
  jira_url = non_empty r.jira_url;
  github_pr_url = non_empty r.github_pr_url;
}

unfoldable pub known_status : String → Option TaskStatus
known_status s =
    if str_eq s "pending"
    then some pending
    else (if str_eq s "claimed"
        then some claimed
        else (if str_eq s "in_progress"
            then some in_progress
            else (if str_eq s "pr_opened"
                then some pr_opened
                else (if str_eq s "review_requested"
                    then some review_requested
                    else (if str_eq s "completed"
                        then some completed
                        else (if str_eq s "failed" then some failed else none))))))

pub record LogItem : Type 0 where
  pub id : ℕ
  pub task_id : String
  pub message : String
  pub created_at : ℕ

pub record ListTasksResponse : Type 0 where
  pub items : List TaskDetail
  pub total : ℕ

-- Of a text that names no status the filter does not exist.
pub status_filter : String → Option (Option TaskStatus)
unfolding known_status
status_filter s = if str_eq s "" then some none else chosen (known_status s)
  where
    chosen : Option TaskStatus → Option (Option TaskStatus)
    chosen none = none
    chosen (some t) = some (some t)

abbrev pub is_negative : ℤ → Bool
is_negative (pos n) = false
is_negative (negsuc n) = true

module _ (u : UuidCodec) (env : Env) where
  detail : Task → TaskDetail
  detail = to_task_detail u

  unfoldable pub admin_create_task :
      PayloadCodec
      → (String → Bool)
      → CreateTaskRequest
      → Mastermind
      → Mastermind × Reply TaskDetail
  unfolding valid_create create_input detail to_task_detail
  admin_create_task c json_valid r s =
      if valid_create json_valid r
      then served s (reply_by create_code detail) (create_task c env (create_input r) s.db)
      else refused s

  unfoldable pub admin_get_task : String → Mastermind → Mastermind × Reply TaskDetail
  unfolding detail to_task_detail
  admin_get_task id s =
      parsed s (u.parse id) (λ i. (s, reply_by get_code detail (get_task env i s.db)))

  log_item : TaskLogEntry → LogItem
  log_item e = record {
    id = e.id;
    task_id = u.print e.task_id;
    message = e.message;
    created_at = e.created_at;
  }

  logs_of : ℕ → ℤ → Db → Result Task → Reply (List LogItem)
  unfolding log_item
  logs_of i limit db (ok t) =
      reply_by (λ e. internal) (map log_item) (list_task_logs (after 1 env) i limit db)
  logs_of i limit db (err e) = failure (get_code e)

  unfoldable pub admin_list_task_logs : String → ℤ → Mastermind → Mastermind × Reply (List LogItem)
  unfolding logs_of
  admin_list_task_logs id limit s = parsed s (u.parse id) (λ i.
      if out_of_range 10000 limit
      then refused s
      else (s, logs_of i limit s.db (get_task env i s.db)))

  unfoldable pub admin_cancel_task : String → Mastermind → Mastermind × Reply (Unit {0})
  admin_cancel_task id s =
      parsed s (u.parse id) (λ i. served s (reply_by cancel_code nothing) (delete_task env i s.db))

  unfoldable pub admin_retry_task : String → Mastermind → Mastermind × Reply TaskDetail
  unfolding detail to_task_detail
  admin_retry_task id s =
      parsed s (u.parse id) (λ i. served s (reply_by retry_code detail) (requeue_task env i s.db))

  unfoldable pub admin_list_workers :
      (String → String → Bool) → Mastermind → Mastermind × Reply (List WorkerInfo)
  admin_list_workers collate s =
      (s, reply_by (λ e. internal) (λ ws. ws) (list_workers collate env s.db))

  -- The task as it is read again after the transition.
  unfoldable pub read_back : Mastermind → ℕ → Db × Result (Unit {0}) → Mastermind × Reply TaskDetail
  unfolding detail to_task_detail
  read_back s i (db, ok x) =
      (record s { db = db }, reply_by (λ e. internal) detail (get_task_at 1 env i db))
  read_back s i (db, err e) = (record s { db = db }, failure (transition_code e))

  unfoldable pub admin_request_review : String → Mastermind → Mastermind × Reply TaskDetail
  unfolding read_back
  admin_request_review id s = parsed s (u.parse id) (λ i. read_back s i (request_review env i s.db))

  unfoldable pub admin_finalize_task : String → Outcome → Mastermind → Mastermind × Reply TaskDetail
  unfolding read_back
  admin_finalize_task id no_outcome s = refused s
  admin_finalize_task id success s =
      parsed s (u.parse id) (λ i. read_back s i (finalize_task env i true "" s.db))
  admin_finalize_task id (failed_with msg) s =
      parsed s (u.parse id) (λ i. read_back s i (finalize_task env i false msg s.db))

  page_of : TasksPage → ListTasksResponse
  unfolding detail to_task_detail
  page_of p = record { items = map detail p.items; total = p.total }

  unfoldable pub list_with :
      ℤ → ℤ → Option (Option TaskStatus) → Mastermind → Mastermind × Reply ListTasksResponse
  unfolding page_of
  list_with limit offset none s = refused s
  list_with limit offset (some f) s = (
    s,
    reply_by (λ e. internal) page_of
        (list_tasks env (record { status = f; limit = limit; offset = offset }) s.db),
  )

  unfoldable pub admin_list_tasks :
      ℤ → ℤ → String → Mastermind → Mastermind × Reply ListTasksResponse
  unfolding list_with status_filter
  admin_list_tasks limit offset status s =
      if out_of_range 500 limit
      then refused s
      else (if is_negative offset
          then refused s
          else list_with limit offset (status_filter status) s)
