-- ===== src/Store/Examples.antt =====
-- The theorems of the store at concrete tables: one task in work, one waiting, one parked.
mod Workflow
use el_pulpo_ai.Prelude.{pos, true, false, ◌≡◌, refl, ◌≢◌, none, some, [], ◌∷◌, ◌==◌, arith}
use el_pulpo_ai.Store.Row.{Task, Db, Env, err, pending, in_progress, pr_opened, not_owner}
use el_pulpo_ai.Store.Query.{find_task}
use el_pulpo_ai.Store.Claim.{claim_task, claim_set}
use el_pulpo_ai.Store.Claim.Order.{Claimed, claim_task-Claimed, claims_differ}
use el_pulpo_ai.Store.Lifecycle.{heartbeat, update_progress, report_result, reap_stale, stale}
use el_pulpo_ai.Store.Query.Laws.{Unique}
use el_pulpo_ai.Store.Lifecycle.Reap.{reaped_refused, heartbeat_protects}

abbrev pub env : Env
env = record { now = 100; fresh_id = 9; answers = λ n. true }

abbrev pub later : Env
later = record { now = 150; fresh_id = 10; answers = λ n. true }

abbrev pub waiting : Task
waiting = record {
  id = 1;
  name = "waiting";
  payload = "{}";
  priority = pos 0;
  status = pending;
  scheduled_for = none;
  attempt_count = 0;
  max_attempts = pos 3;
  claimed_by = none;
  claimed_at = none;
  last_heartbeat_at = none;
  completed_at = none;
  last_error = none;
  progress_note = none;
  jira_url = none;
  github_pr_url = none;
  created_at = 5;
  updated_at = 5;
}

abbrev pub working : Task
working = record waiting {
  id = 2;
  status = in_progress;
  attempt_count = 1;
  claimed_by = some "ada";
  claimed_at = some 10;
  last_heartbeat_at = some 20;
}

abbrev pub parked : Task
parked = record waiting {
  id = 3;
  status = pr_opened;
  attempt_count = 1;
  github_pr_url = some "https://example.org/pull/1";
}

abbrev last_try : Task
last_try = record working { attempt_count = 3 }

abbrev pub table : Task → Db
table t = record { tasks = t ∷ waiting ∷ parked ∷ []; logs = []; next_log_id = 1 }

abbrev pub db : Db
db = table working

pub distinct : Unique db.tasks
distinct = ((ground arith, (ground arith, tt)), ((ground arith, tt), (tt, tt)))

claim_task-Claimed_example :
    Claimed env (λ t. false) "bob" db (claim_task env (λ t. false) "bob" db)
claim_task-Claimed_example = claim_task-Claimed env (λ t. false) "bob" db refl distinct

abbrev pub newer_waiting : Task
newer_waiting = record waiting { id = 2; created_at = 7 }

abbrev pub two_waiting : Db
two_waiting = table newer_waiting

claims_differ_example : (claim_set 100 "ada" waiting).id ≢ (claim_set 150 "bob" newer_waiting).id
unfolding claim_task
claims_differ_example =
    claims_differ env later (λ t. false) (λ t. t.id == 1) "ada" "bob" two_waiting
      (claim_set 100 "ada" waiting) (claim_set 150 "bob" newer_waiting) distinct refl refl
      (λ t e. ground arith)

abbrev reaped_db : Db
reaped_db = (reap_stale env 10 db).0

reaped_refused_example :
    (heartbeat later "ada" 2 reaped_db ≡ (reaped_db, err not_owner))
    × (update_progress later "ada" 2 "n" reaped_db ≡ (reaped_db, err not_owner))
    × (report_result later "ada" 2 true "m" reaped_db ≡ (reaped_db, err not_owner))
    × (report_result later "ada" 2 false "m" reaped_db ≡ (reaped_db, err not_owner))
unfolding find_task stale
reaped_refused_example =
    reaped_refused env later 10 2 "ada" "n" "m" db working refl refl distinct refl refl

heartbeat_protects_example :
    find_task 2 (reap_stale later 60 (heartbeat env "ada" 2 db).0).0.tasks
    ≡ find_task 2 (heartbeat env "ada" 2 db).0.tasks
unfolding find_task
heartbeat_protects_example =
    heartbeat_protects env later 60 2 "ada" db working refl refl refl (refl, refl) (ground arith)

-- The waiting task has a line in its log, and is deleted with it.
abbrev logged : Db
logged = record db {
  logs = record { id = 1; task_id = 1; message = "m"; created_at = 5 } ∷ [];
  next_log_id = 2;
}
