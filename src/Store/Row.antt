-- ===== src/Store/Row.antt =====
-- The rows of the `tasks` and `task_logs` tables (migrations/, internal/mastermind/store/tasks.go
-- and logs.go), the errors of the store, and what a call is given from outside.
-- Times are microseconds, the resolution of TIMESTAMPTZ; a UUID is a number.
use el_pulpo_ai.Prelude.{ℕ, ℤ, String, Bool, true, false, Option, List}

pub data TaskStatus : Type 0 where
  pending claimed in_progress pr_opened review_requested completed failed : TaskStatus

abbrev pub is_pending : TaskStatus → Bool
is_pending pending = true
is_pending _ = false

-- `status IN ('claimed','in_progress')`: a worker holds the task.
abbrev pub is_held : TaskStatus → Bool
is_held claimed = true
is_held in_progress = true
is_held _ = false

-- `status IN ('pending','completed','failed')`.
abbrev pub is_idle : TaskStatus → Bool
is_idle pending = true
is_idle completed = true
is_idle failed = true
is_idle _ = false

abbrev pub status_eq : TaskStatus → TaskStatus → Bool
status_eq pending pending = true
status_eq claimed claimed = true
status_eq in_progress in_progress = true
status_eq pr_opened pr_opened = true
status_eq review_requested review_requested = true
status_eq completed completed = true
status_eq failed failed = true
status_eq _ _ = false

pub record Task : Type 0 where
  pub id : ℕ
  pub name : String
  pub payload : String
  pub priority : ℤ
  pub status : TaskStatus
  pub scheduled_for : Option ℕ
  pub attempt_count : ℕ
  pub max_attempts : ℤ
  pub claimed_by : Option String
  pub claimed_at : Option ℕ
  pub last_heartbeat_at : Option ℕ
  pub completed_at : Option ℕ
  pub last_error : Option String
  pub progress_note : Option String
  pub jira_url : Option String
  pub github_pr_url : Option String
  pub created_at : ℕ
  pub updated_at : ℕ

pub record TaskLogEntry : Type 0 where
  pub id : ℕ
  pub task_id : ℕ
  pub message : String
  pub created_at : ℕ

-- `next_log_id` is the sequence behind the BIGSERIAL column.
pub record Db : Type 0 where
  pub tasks : List Task
  pub logs : List TaskLogEntry
  pub next_log_id : ℕ

pub data StoreError : Type 0 where
  not_found invalid_input not_editable not_deletable not_requeueable not_owner : StoreError
  empty_pr_url invalid_transition agent_not_found db_error : StoreError

pub data Result {ℓ} (A : Type ℓ) : Type ℓ where
  ok : A → Result A
  err : StoreError → Result A

-- What a call meets: the time of `now()`, the value of `gen_random_uuid()`, and whether the database
-- answers the call's n-th statement. A statement that is not answered changes nothing and gives an
-- error.
pub record Env : Type 0 where
  pub now : ℕ
  pub fresh_id : ℕ
  pub answers : ℕ → Bool
