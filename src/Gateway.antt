-- ===== src/Gateway.antt =====
-- The gRPC server of cmd/mastermind/main.go: every call of the TaskService and the AdminService goes
-- through the interceptor, with the policy that `run` builds, to its handler.
pub mod Access
pub mod Modest
pub mod Effects
pub mod Remote
use el_pulpo_ai.Prelude.{
  ℕ, ℤ, String, str_eq, Bool, true, false, Option, none, some, List, [], ◌∷◌, if◌then◌else◌,
}
use el_pulpo_ai.Store.Row.{Task, Env}
use el_pulpo_ai.Store.Tasks.{PayloadCodec}
use el_pulpo_ai.Store.Workers.{WorkerInfo}
use el_pulpo_ai.Grpc.Status.{Reply, response, failure, Mastermind, UuidCodec, Outcome}
use el_pulpo_ai.Grpc.Server.{
  ClaimedTask, serve_claim_task, serve_heartbeat, serve_append_log, serve_update_progress,
  serve_report_result, serve_set_jira_url, serve_open_pr,
}
use el_pulpo_ai.Grpc.Admin.{
  CreateTaskRequest, TaskDetail, LogItem, ListTasksResponse, admin_create_task, admin_get_task,
  admin_list_tasks, admin_list_task_logs, admin_cancel_task, admin_retry_task, admin_list_workers,
  admin_request_review, admin_finalize_task,
}
use el_pulpo_ai.Auth.{Incoming, per_method_interceptor}

-- The libraries behind the handlers, and the rows that other transactions hold locked.
pub record Libraries : Type 0 where
  pub uuid : UuidCodec
  pub payloads : PayloadCodec
  pub json_valid : String → Bool
  pub collate : String → String → Bool
  pub locked : Task → Bool

-- The tokens of the configuration.
pub record TokenConfig : Type 0 where
  pub worker_token : String
  pub admin_token : String

-- A call with the fields of its request.
pub data Rpc : Type 0 where
  rpc_claim_task : String → Rpc
  rpc_heartbeat : (worker_id task_id : String) → Rpc
  rpc_report_result : (worker_id task_id : String) → Outcome → Rpc
  rpc_update_progress rpc_append_log rpc_set_jira_url rpc_open_pr :
      (worker_id task_id text : String) → Rpc
  rpc_create_task : CreateTaskRequest → Rpc
  rpc_get_task rpc_cancel_task rpc_retry_task rpc_request_review : String → Rpc
  rpc_list_tasks : (limit offset : ℤ) → String → Rpc
  rpc_list_task_logs : String → ℤ → Rpc
  rpc_list_workers : Rpc
  rpc_finalize_task : String → Outcome → Rpc

-- info.FullMethod.
unfoldable pub full_method : Rpc → String
full_method (rpc_claim_task w) = "/elpulpo.tasks.v1.TaskService/ClaimTask"
full_method (rpc_heartbeat w i) = "/elpulpo.tasks.v1.TaskService/Heartbeat"
full_method (rpc_report_result w i o) = "/elpulpo.tasks.v1.TaskService/ReportResult"
full_method (rpc_update_progress w i text) = "/elpulpo.tasks.v1.TaskService/UpdateProgress"
full_method (rpc_append_log w i text) = "/elpulpo.tasks.v1.TaskService/AppendLog"
full_method (rpc_set_jira_url w i text) = "/elpulpo.tasks.v1.TaskService/SetJiraURL"
full_method (rpc_open_pr w i text) = "/elpulpo.tasks.v1.TaskService/OpenPR"
full_method (rpc_create_task r) = "/elpulpo.tasks.v1.AdminService/CreateTask"
full_method (rpc_get_task i) = "/elpulpo.tasks.v1.AdminService/GetTask"
full_method (rpc_list_tasks limit offset status) = "/elpulpo.tasks.v1.AdminService/ListTasks"
full_method (rpc_list_task_logs i limit) = "/elpulpo.tasks.v1.AdminService/ListTaskLogs"
full_method (rpc_cancel_task i) = "/elpulpo.tasks.v1.AdminService/CancelTask"
full_method (rpc_retry_task i) = "/elpulpo.tasks.v1.AdminService/RetryTask"
full_method rpc_list_workers = "/elpulpo.tasks.v1.AdminService/ListWorkers"
full_method (rpc_request_review i) = "/elpulpo.tasks.v1.AdminService/RequestReview"
full_method (rpc_finalize_task i o) = "/elpulpo.tasks.v1.AdminService/FinalizeTask"

-- The map from methods to tokens.
unfoldable pub policy : TokenConfig → List (String × String)
policy cfg =
    ("/elpulpo.tasks.v1.TaskService/ClaimTask", cfg.worker_token)
    ∷ ("/elpulpo.tasks.v1.TaskService/Heartbeat", cfg.worker_token)
    ∷ ("/elpulpo.tasks.v1.TaskService/ReportResult", cfg.worker_token)
    ∷ ("/elpulpo.tasks.v1.TaskService/UpdateProgress", cfg.worker_token)
    ∷ ("/elpulpo.tasks.v1.TaskService/AppendLog", cfg.worker_token)
    ∷ ("/elpulpo.tasks.v1.TaskService/SetJiraURL", cfg.worker_token)
    ∷ ("/elpulpo.tasks.v1.TaskService/OpenPR", cfg.worker_token)
    ∷ ("/elpulpo.tasks.v1.AdminService/CreateTask", cfg.admin_token)
    ∷ ("/elpulpo.tasks.v1.AdminService/GetTask", cfg.admin_token)
    ∷ ("/elpulpo.tasks.v1.AdminService/ListTasks", cfg.admin_token)
    ∷ ("/elpulpo.tasks.v1.AdminService/ListTaskLogs", cfg.admin_token)
    ∷ ("/elpulpo.tasks.v1.AdminService/CancelTask", cfg.admin_token)
    ∷ ("/elpulpo.tasks.v1.AdminService/RetryTask", cfg.admin_token)
    ∷ ("/elpulpo.tasks.v1.AdminService/ListWorkers", cfg.admin_token)
    ∷ ("/elpulpo.tasks.v1.AdminService/RequestReview", cfg.admin_token)
    ∷ ("/elpulpo.tasks.v1.AdminService/FinalizeTask", cfg.admin_token)
    ∷ []

unfoldable pub lookup : String → List (String × String) → Option String
lookup k [] = none
lookup k ((j, v) ∷ m) = if str_eq j k then some v else lookup k m

pub data RpcAnswer : Type 0 where
  empty : Unit {0} → RpcAnswer
  task : ClaimedTask → RpcAnswer
  log_id : ℕ → RpcAnswer
  detail : TaskDetail → RpcAnswer
  page : ListTasksResponse → RpcAnswer
  log_items : List LogItem → RpcAnswer
  workers : List WorkerInfo → RpcAnswer

abbrev pub answered :
    {A : Type 0} → (A → RpcAnswer) → Mastermind × Reply A → Mastermind × Reply RpcAnswer
answered f (s, response a) = (s, response (f a))
answered f (s, failure code) = (s, failure code)

module _ (lib : Libraries) (env : Env) where
  -- The handler that is registered for the method.
  unfoldable pub serve : Rpc → Mastermind → Mastermind × Reply RpcAnswer
  serve (rpc_claim_task w) s = answered task (serve_claim_task lib.uuid env lib.locked w s)
  serve (rpc_heartbeat w i) s = answered empty (serve_heartbeat lib.uuid env w i s)
  serve (rpc_report_result w i o) s = answered empty (serve_report_result lib.uuid env w i o s)
  serve (rpc_update_progress w i text) s =
      answered empty (serve_update_progress lib.uuid env w i text s)
  serve (rpc_append_log w i text) s = answered log_id (serve_append_log lib.uuid env w i text s)
  serve (rpc_set_jira_url w i text) s = answered empty (serve_set_jira_url lib.uuid env w i text s)
  serve (rpc_open_pr w i text) s = answered empty (serve_open_pr lib.uuid env w i text s)
  serve (rpc_create_task r) s =
      answered detail (admin_create_task lib.uuid env lib.payloads lib.json_valid r s)
  serve (rpc_get_task i) s = answered detail (admin_get_task lib.uuid env i s)
  serve (rpc_list_tasks limit offset status) s =
      answered page (admin_list_tasks lib.uuid env limit offset status s)
  serve (rpc_list_task_logs i limit) s =
      answered log_items (admin_list_task_logs lib.uuid env i limit s)
  serve (rpc_cancel_task i) s = answered empty (admin_cancel_task lib.uuid env i s)
  serve (rpc_retry_task i) s = answered detail (admin_retry_task lib.uuid env i s)
  serve rpc_list_workers s = answered workers (admin_list_workers lib.uuid env lib.collate s)
  serve (rpc_request_review i) s = answered detail (admin_request_review lib.uuid env i s)
  serve (rpc_finalize_task i o) s = answered detail (admin_finalize_task lib.uuid env i o s)

  unfoldable pub gateway : TokenConfig → Incoming → Rpc → Mastermind → Mastermind × Reply RpcAnswer
  unfolding per_method_interceptor
  gateway cfg md rpc s =
      per_method_interceptor md (serve rpc) s (lookup (full_method rpc) (policy cfg))
