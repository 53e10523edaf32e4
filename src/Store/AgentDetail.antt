-- ===== src/Store/AgentDetail.antt =====
-- One worker in detail, internal/mastermind/store/agent_detail.go. The epoch is time 0.
use el_pulpo_ai.Prelude.{
  ℕ, ℤ, pos, negsuc, String, Bool, ◌&&◌, Option, none, some, List, [], ◌∷◌, map, ◌==◌, ltb,
  if◌then◌else◌, holds, take,
}
use el_pulpo_ai.Store.Row.{
  Task, TaskLogEntry, Db, Env, Result, ok, err, is_held, agent_not_found, db_error,
}
use el_pulpo_ai.Store.Query.{select_rows, count_rows, order_by, find_task}
use el_pulpo_ai.Store.Edit.{coalesce}
use el_pulpo_ai.Store.Claim.{first}
use el_pulpo_ai.Store.Workers.{WorkerInfo, summary}
use el_pulpo_ai.Store.Dashboard.{after, recent_claim, newer_entry, reverse_onto}

pub record AgentLog : Type 0 where
  pub entry : TaskLogEntry
  pub task_name : String

pub record AgentRecentTask : Type 0 where
  pub task : Task
  pub last_activity : ℕ

pub record AgentDetail : Type 0 where
  pub info : WorkerInfo
  pub current_task : Option Task
  pub recent_tasks : List AgentRecentTask
  pub logs : List AgentLog
  pub generated_at : ℕ

-- The aggregates have no row, and the agent is not found, if no task names the worker.
unfoldable pub worker_info : Env → String → Db → Result WorkerInfo
unfolding count_rows summary
worker_info env w db =
    if env.answers 0
    then (if count_rows (λ t. holds t.claimed_by w) db.tasks == 0
        then err agent_not_found
        else ok (summary db.tasks w))
    else err db_error

unfoldable pub worker_current_task : Env → String → Db → Result (Option Task)
unfolding select_rows order_by recent_claim
worker_current_task env w db =
    if env.answers 0
    then ok (
        first (
          order_by recent_claim
            (select_rows (λ t. holds t.claimed_by w && is_held t.status) db.tasks)))
    else err db_error

-- GREATEST of the two times.
unfoldable pub last_activity_of : Task → ℕ
last_activity_of t =
    let done = coalesce t.completed_at 0 in
    let since = coalesce t.claimed_at 0 in if ltb done since then since else done

unfoldable pub more_recent : AgentRecentTask → AgentRecentTask → Bool
more_recent a b = ltb b.last_activity a.last_activity

recent_of : Task → AgentRecentTask
unfolding last_activity_of
recent_of t = record { task = t; last_activity = last_activity_of t }

unfoldable pub worker_recent_tasks : Env → String → ℕ → Db → Result (List AgentRecentTask)
unfolding select_rows order_by more_recent recent_of
worker_recent_tasks env w limit db =
    if env.answers 0
    then ok (
        take limit
          (order_by more_recent (map recent_of (select_rows (λ t. holds t.claimed_by w) db.tasks))))
    else err db_error

-- The join: an entry with the row of its task, if that names the worker.
join_log : String → TaskLogEntry → Option Task → List AgentLog → List AgentLog
join_log w e none rest = rest
join_log w e (some t) rest =
    if holds t.claimed_by w then record { entry = e; task_name = t.name } ∷ rest else rest

join_logs : String → List Task → List TaskLogEntry → List AgentLog
unfolding join_log find_task
join_logs w ts [] = []
join_logs w ts (e ∷ es) = join_log w e (find_task e.task_id ts) (join_logs w ts es)

newer_log : AgentLog → AgentLog → Bool
unfolding newer_entry
newer_log a b = newer_entry a.entry b.entry

unfoldable pub worker_log_tail : Env → String → ℕ → Db → Result (List AgentLog)
unfolding join_logs newer_log reverse_onto order_by
worker_log_tail env w limit db =
    if env.answers 0
    then ok (reverse_onto [] (take limit (order_by newer_log (join_logs w db.tasks db.logs))))
    else err db_error

-- A limit that is not positive gives the default.
unfoldable pub limit_or : ℕ → ℤ → ℕ
limit_or default (pos n) = if n == 0 then default else n
limit_or default (negsuc n) = default

unfoldable pub get_agent_detail : Env → ℕ → String → ℤ → ℤ → Db → Result AgentDetail
unfolding limit_or worker_info worker_current_task worker_recent_tasks worker_log_tail
get_agent_detail env now w recent_limit tail_limit db = elim (worker_info env w db) [
  | err e ↦ err e
  | ok info ↦ elim (worker_current_task (after 1 env) w db) [
    | err e ↦ err e
    | ok current ↦ elim (worker_recent_tasks (after 2 env) w (limit_or 10 recent_limit) db) [
      | err e ↦ err e
      | ok recent ↦ elim (worker_log_tail (after 3 env) w (limit_or 500 tail_limit) db) [
        | err e ↦ err e
        | ok logs ↦ ok (record {
          info = info;
          current_task = current;
          recent_tasks = recent;
          logs = logs;
          generated_at = now;
        })
      ]
    ]
  ]
]
