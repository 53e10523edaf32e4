-- ===== src/Grpc/Server.antt =====
-- The worker-facing TaskService, internal/mastermind/grpcserver/server.go. A handler takes the
-- fields of its request and gives the state of the mastermind after the call, and the reply.
use el_pulpo_ai.Prelude.{
  ℕ, suc, String, str_eq, Bool, true, false, Option, none, some, if◌then◌else◌,
}
use el_pulpo_ai.Store.Row.{Task, Db, Env, Result, ok, err}
use el_pulpo_ai.Store.Claim.{claim_task}
use el_pulpo_ai.Store.Lifecycle.{heartbeat, update_progress, report_result}
use el_pulpo_ai.Store.Park.{open_pr, set_jira_url}
use el_pulpo_ai.Store.Logs.{append_task_log}
use el_pulpo_ai.Grpc.Status.{
  invalid_argument, absent, internal, Reply, response, failure, Metrics, Mastermind, UuidCodec,
  Outcome, success, failed_with, no_outcome, owner_code, append_code, open_pr_code, reply_by,
}

-- pb.Task.
pub record ClaimedTask : Type 0 where
  pub id : String
  pub name : String
  pub payload : String

abbrev pub refused {ℓ} : {B : Type ℓ} → Mastermind → Mastermind × Reply B
refused s = (s, failure invalid_argument)

-- A call of the store that no counter follows.
abbrev pub served {ℓ κ} :
    {A : Type ℓ} {B : Type κ}
    → Mastermind
    → (Result A → Reply B)
    → Db × Result A
    → Mastermind × Reply B
served s f (db, r) = (record s { db = db }, f r)

-- A handler's `uuid.Parse`, with the rest of the handler.
abbrev pub parsed {ℓ} :
    {B : Type ℓ} → Mastermind → Option ℕ → (ℕ → Mastermind × Reply B) → Mastermind × Reply B
parsed s none k = refused s
parsed s (some i) k = k i

abbrev pub nothing {ℓ} : {A : Type ℓ} → A → Unit {0}
nothing a = tt

unfoldable pub claimed_reply :
    UuidCodec → Metrics → Db × Result (Option Task) → Mastermind × Reply ClaimedTask
claimed_reply u m (db, err e) = (
  record { db = db; metrics = record m { claimed_error = suc m.claimed_error } },
  failure internal,
)
claimed_reply u m (db, ok none) =
    (record { db = db; metrics = record m { claimed_empty = suc m.claimed_empty } }, failure absent)
claimed_reply u m (db, ok (some t)) = (
  record { db = db; metrics = record m { claimed_success = suc m.claimed_success } },
  response (record { id = u.print t.id; name = t.name; payload = t.payload }),
)

-- The counters after a report: of success, and of a failure that is terminal.
unfoldable pub count_report : Bool → Result Bool → Metrics → Metrics
count_report true (ok terminal) m = record m { completed_total = suc m.completed_total }
count_report false (ok true) m = record m { failed_reported = suc m.failed_reported }
count_report false (ok false) m = m
count_report won (err e) m = m

unfoldable pub reported : Mastermind → Bool → Db × Result Bool → Mastermind × Reply (Unit {0})
unfolding count_report
reported s won (db, r) =
    (record { db = db; metrics = count_report won r s.metrics }, reply_by owner_code nothing r)

module _ (u : UuidCodec) (env : Env) where
  unfoldable pub serve_claim_task :
      (Task → Bool) → String → Mastermind → Mastermind × Reply ClaimedTask
  unfolding claimed_reply
  serve_claim_task locked worker_id s =
      if str_eq worker_id ""
      then refused s
      else claimed_reply u s.metrics (claim_task env locked worker_id s.db)

  unfoldable pub serve_heartbeat : String → String → Mastermind → Mastermind × Reply (Unit {0})
  serve_heartbeat worker_id task_id s =
      parsed s (u.parse task_id)
        (λ i. served s (reply_by owner_code nothing) (heartbeat env worker_id i s.db))

  unfoldable pub serve_append_log : String → String → String → Mastermind → Mastermind × Reply ℕ
  serve_append_log worker_id task_id message s =
      if str_eq worker_id ""
      then refused s
      else (if str_eq message ""
          then refused s
          else parsed s (u.parse task_id) (λ i.
            served s (reply_by append_code (λ e. e.id))
              (append_task_log env worker_id i message s.db)))

  unfoldable pub serve_update_progress :
      String → String → String → Mastermind → Mastermind × Reply (Unit {0})
  serve_update_progress worker_id task_id note s =
      if str_eq worker_id ""
      then refused s
      else parsed s (u.parse task_id)
          (λ i. served s (reply_by owner_code nothing) (update_progress env worker_id i note s.db))

  unfoldable pub serve_report_result :
      String → String → Outcome → Mastermind → Mastermind × Reply (Unit {0})
  unfolding reported
  serve_report_result worker_id task_id no_outcome s = refused s
  serve_report_result worker_id task_id success s =
      parsed s (u.parse task_id) (λ i. reported s true (report_result env worker_id i true "" s.db))
  serve_report_result worker_id task_id (failed_with msg) s =
      parsed s (u.parse task_id)
        (λ i. reported s false (report_result env worker_id i false msg s.db))

  unfoldable pub serve_set_jira_url :
      String → String → String → Mastermind → Mastermind × Reply (Unit {0})
  serve_set_jira_url worker_id task_id url s =
      if str_eq worker_id ""
      then refused s
      else parsed s (u.parse task_id)
          (λ i. served s (reply_by owner_code nothing) (set_jira_url env worker_id i url s.db))

  unfoldable pub serve_open_pr :
      String → String → String → Mastermind → Mastermind × Reply (Unit {0})
  serve_open_pr worker_id task_id url s =
      if str_eq worker_id ""
      then refused s
      else (if str_eq url ""
          then refused s
          else parsed s (u.parse task_id)
              (λ i. served s (reply_by open_pr_code nothing) (open_pr env worker_id i url s.db)))
