-- ===== src/Gateway/Effects.antt =====
-- What a call of the two services does to the database: nothing, or one call of the store.
use el_pulpo_ai.Prelude.{ℕ, ℤ, String, str_eq, true, false, refl, Option, none, some}
use el_pulpo_ai.Store.Row.{Env, TaskLogEntry, ok, err}
use el_pulpo_ai.Store.History.{
  creates, deletes, requeues, claims, beats, notes, reports, opens, sets_jira, reviews, finalizes,
  writes_log, apply,
}
use el_pulpo_ai.Store.Tasks.{create_task}
use el_pulpo_ai.Store.Edit.{delete_task, requeue_task}
use el_pulpo_ai.Store.Claim.{claim_task}
use el_pulpo_ai.Store.Lifecycle.{heartbeat, update_progress, report_result}
use el_pulpo_ai.Store.Park.{open_pr, set_jira_url, request_review, finalize_task}
use el_pulpo_ai.Store.Logs.{append_task_log, append_check, append_write}
use el_pulpo_ai.Grpc.Status.{
  failure, Mastermind, Outcome, success, failed_with, no_outcome, invalid_argument, unauthenticated,
  unimplemented, owner_code, append_code, open_pr_code, create_code, cancel_code, retry_code,
  reply_by,
}
use el_pulpo_ai.Grpc.Server.{
  served, nothing, serve_claim_task, serve_heartbeat, serve_append_log, serve_update_progress,
  serve_report_result, serve_set_jira_url, serve_open_pr,
}
use el_pulpo_ai.Grpc.Admin.{
  CreateTaskRequest, to_task_detail, admin_create_task, admin_get_task, create_input, valid_create,
  admin_list_tasks, admin_list_task_logs, admin_cancel_task, admin_retry_task, admin_list_workers,
  admin_request_review, admin_finalize_task, out_of_range, is_negative, status_filter,
}
use el_pulpo_ai.Auth.{Incoming, has_token, per_method_interceptor}
use el_pulpo_ai.Gateway.{
  Libraries, TokenConfig, Rpc, rpc_claim_task, rpc_heartbeat, rpc_report_result,
  rpc_update_progress, rpc_append_log, rpc_set_jira_url, rpc_open_pr, rpc_create_task, rpc_get_task,
  rpc_list_tasks, rpc_list_task_logs, rpc_cancel_task, rpc_retry_task, rpc_list_workers,
  rpc_request_review, rpc_finalize_task, serve, gateway, full_method, policy, lookup, task, empty,
  log_id, detail, page, log_items, workers,
}
use el_pulpo_ai.Gateway.Modest.{
  Modest, unchanged, either, parsed_lem, by_call, answered_lem, claimed_lem, reported_lem,
  read_back_lem, list_lem,
}

module _ (lib : Libraries) (env : Env) (s : Mastermind) where
  claim_lem :
      (w : String) → Modest lib.payloads env s (serve_claim_task lib.uuid env lib.locked w s)
  unfolding serve_claim_task apply
  claim_lem w =
      either (str_eq w "") (unchanged (failure invalid_argument))
        (claimed_lem lib.uuid (claim_task env lib.locked w s.db) (claims lib.locked w) refl)

  heartbeat_lem : (w i : String) → Modest lib.payloads env s (serve_heartbeat lib.uuid env w i s)
  unfolding serve_heartbeat apply
  heartbeat_lem w i =
      (parsed_lem (lib.uuid.parse i) _
        (λ n. by_call (reply_by owner_code nothing) (heartbeat env w n s.db) (beats w n) refl))

  report_lem :
      (w i : String) (o : Outcome)
      → Modest lib.payloads env s (serve_report_result lib.uuid env w i o s)
  unfolding serve_report_result apply
  report_lem w i no_outcome = unchanged (failure invalid_argument)
  report_lem w i success =
      (parsed_lem (lib.uuid.parse i) _
        (λ n. reported_lem true (report_result env w n true "" s.db) (reports w n true "") refl))
  report_lem w i (failed_with msg) =
      (parsed_lem (lib.uuid.parse i) _ (λ n.
        reported_lem false (report_result env w n false msg s.db) (reports w n false msg) refl))

  progress_lem :
      (w i text : String)
      → Modest lib.payloads env s (serve_update_progress lib.uuid env w i text s)
  unfolding serve_update_progress apply
  progress_lem w i text = either (str_eq w "") (unchanged (failure invalid_argument)) (
      parsed_lem (lib.uuid.parse i) _ (λ n.
        by_call (reply_by owner_code nothing) (update_progress env w n text s.db) (notes w n text)
          refl))

  -- Nothing if the check refuses, and what the write does otherwise.
  line_lem :
      (w : String) (n : ℕ) (text : String)
      → Modest lib.payloads env s (
          served s
            (reply_by append_code (λ (e : TaskLogEntry). e.id))
            (append_task_log env w n text s.db))
  unfolding append_task_log apply
  line_lem w n text =
      elim (append_check env w n s.db)
        as (λ x. Modest lib.payloads env s (
          served s (reply_by append_code (λ (e : TaskLogEntry). e.id))
            (elim x [ ok _ ↦ append_write env n text s.db | err e ↦ (s.db, err e) ]))) [
              | ok _ ↦
                  by_call (reply_by append_code (λ (e : TaskLogEntry). e.id))
                    (append_write env n text s.db) (writes_log n text) refl
              | err e ↦ unchanged _
            ]

  append_lem :
      (w i text : String) → Modest lib.payloads env s (serve_append_log lib.uuid env w i text s)
  unfolding serve_append_log apply
  append_lem w i text = either (str_eq w "") (unchanged (failure invalid_argument)) (
      either (str_eq text "") (unchanged (failure invalid_argument))
        (parsed_lem (lib.uuid.parse i) _ (λ n. line_lem w n text)))

  jira_lem :
      (w i text : String) → Modest lib.payloads env s (serve_set_jira_url lib.uuid env w i text s)
  unfolding serve_set_jira_url apply
  jira_lem w i text = either (str_eq w "") (unchanged (failure invalid_argument)) (
      parsed_lem (lib.uuid.parse i) _ (λ n.
        by_call (reply_by owner_code nothing) (set_jira_url env w n text s.db) (sets_jira w n text)
          refl))

  open_lem : (w i text : String) → Modest lib.payloads env s (serve_open_pr lib.uuid env w i text s)
  unfolding serve_open_pr apply
  open_lem w i text = either (str_eq w "") (unchanged (failure invalid_argument)) (
      either (str_eq text "") (unchanged (failure invalid_argument)) (
        parsed_lem (lib.uuid.parse i) _ (λ n.
          by_call (reply_by open_pr_code nothing) (open_pr env w n text s.db) (opens w n text)
            refl)))

  create_lem :
      (r : CreateTaskRequest)
      → Modest lib.payloads env s (admin_create_task lib.uuid env lib.payloads lib.json_valid r s)
  unfolding admin_create_task apply
  create_lem r =
      either (valid_create lib.json_valid r)
        (by_call (reply_by create_code (to_task_detail lib.uuid))
          (create_task lib.payloads env (create_input r) s.db) (creates (create_input r)) refl)
        (unchanged (failure invalid_argument))

  get_lem : (i : String) → Modest lib.payloads env s (admin_get_task lib.uuid env i s)
  unfolding admin_get_task apply
  get_lem i = (parsed_lem (lib.uuid.parse i) _ (λ n. unchanged _))

  page_lem :
      (limit offset : ℤ) (status : String)
      → Modest lib.payloads env s (admin_list_tasks lib.uuid env limit offset status s)
  unfolding admin_list_tasks apply
  page_lem limit offset status =
      either (out_of_range 500 limit) (unchanged (failure invalid_argument)) (
        either (is_negative offset) (unchanged (failure invalid_argument))
          (list_lem lib.uuid limit offset (status_filter status)))

  logs_lem :
      (i : String) (limit : ℤ)
      → Modest lib.payloads env s (admin_list_task_logs lib.uuid env i limit s)
  unfolding admin_list_task_logs apply
  logs_lem i limit =
      (parsed_lem (lib.uuid.parse i) _ (λ n.
        either (out_of_range 10000 limit) (unchanged (failure invalid_argument)) (unchanged _)))

  cancel_lem : (i : String) → Modest lib.payloads env s (admin_cancel_task lib.uuid env i s)
  unfolding admin_cancel_task apply
  cancel_lem i =
      (parsed_lem (lib.uuid.parse i) _
        (λ n. by_call (reply_by cancel_code nothing) (delete_task env n s.db) (deletes n) refl))

  retry_lem : (i : String) → Modest lib.payloads env s (admin_retry_task lib.uuid env i s)
  unfolding admin_retry_task apply
  retry_lem i =
      (parsed_lem (lib.uuid.parse i) _ (λ n.
        by_call (reply_by retry_code (to_task_detail lib.uuid)) (requeue_task env n s.db)
          (requeues n) refl))

  review_lem : (i : String) → Modest lib.payloads env s (admin_request_review lib.uuid env i s)
  unfolding admin_request_review apply
  review_lem i =
      (parsed_lem (lib.uuid.parse i) _
        (λ n. read_back_lem lib.uuid n (request_review env n s.db) (reviews n) refl))

  finalize_lem :
      (i : String) (o : Outcome)
      → Modest lib.payloads env s (admin_finalize_task lib.uuid env i o s)
  unfolding admin_finalize_task apply
  finalize_lem i no_outcome = unchanged (failure invalid_argument)
  finalize_lem i success =
      (parsed_lem (lib.uuid.parse i) _ (λ n.
        read_back_lem lib.uuid n (finalize_task env n true "" s.db) (finalizes n true "") refl))
  finalize_lem i (failed_with msg) =
      (parsed_lem (lib.uuid.parse i) _ (λ n.
        read_back_lem lib.uuid n (finalize_task env n false msg s.db) (finalizes n false msg) refl))

  -- Every call of the two services leaves the database as it was, or as one call of the store does.
  serve-Modest : (rpc : Rpc) → Modest lib.payloads env s (serve lib env rpc s)
  unfolding serve admin_list_workers
  serve-Modest (rpc_claim_task w) = answered_lem task _ (claim_lem w)
  serve-Modest (rpc_heartbeat w i) = answered_lem empty _ (heartbeat_lem w i)
  serve-Modest (rpc_report_result w i o) = answered_lem empty _ (report_lem w i o)
  serve-Modest (rpc_update_progress w i text) = answered_lem empty _ (progress_lem w i text)
  serve-Modest (rpc_append_log w i text) = answered_lem log_id _ (append_lem w i text)
  serve-Modest (rpc_set_jira_url w i text) = answered_lem empty _ (jira_lem w i text)
  serve-Modest (rpc_open_pr w i text) = answered_lem empty _ (open_lem w i text)
  serve-Modest (rpc_create_task r) = answered_lem detail _ (create_lem r)
  serve-Modest (rpc_get_task i) = answered_lem detail _ (get_lem i)
  serve-Modest (rpc_list_tasks limit offset status) =
      answered_lem page _ (page_lem limit offset status)
  serve-Modest (rpc_list_task_logs i limit) = answered_lem log_items _ (logs_lem i limit)
  serve-Modest (rpc_cancel_task i) = answered_lem empty _ (cancel_lem i)
  serve-Modest (rpc_retry_task i) = answered_lem detail _ (retry_lem i)
  serve-Modest rpc_list_workers = answered_lem workers _ (unchanged _)
  serve-Modest (rpc_request_review i) = answered_lem detail _ (review_lem i)
  serve-Modest (rpc_finalize_task i o) = answered_lem detail _ (finalize_lem i o)

pub gateway-Modest :
    (lib : Libraries) (env : Env) (cfg : TokenConfig) (md : Incoming) (rpc : Rpc) (s : Mastermind)
    → Modest lib.payloads env s (gateway lib env cfg md rpc s)
unfolding gateway per_method_interceptor
gateway-Modest lib env cfg md rpc s = guarded (lookup (full_method rpc) (policy cfg))
  where
    guarded :
        (o : Option String)
        → Modest lib.payloads env s (per_method_interceptor md (serve lib env rpc) s o)
    guarded none = unchanged (failure unimplemented)
    guarded (some expected) =
        either (has_token expected md) (serve-Modest lib env s rpc)
          (unchanged (failure unauthenticated))
