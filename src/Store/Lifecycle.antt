-- ===== src/Store/Lifecycle.antt =====
-- What the holder of a claim reports, and the reaper's statement,
-- internal/mastermind/store/lifecycle.go.
pub mod Owner
pub mod Replies
pub mod Reap
use el_pulpo_ai.Prelude.{
  ℕ, suc, ◌+◌, ◌*◌, pos_part, String, str_eq, Bool, true, false, ◌&&◌, Option, none, some, List, [],
  ◌∷◌, map, ◌==◌, leb, ltb, if◌then◌else◌, holds,
}
use el_pulpo_ai.Store.Row.{
  Task, Db, Env, Result, ok, err, TaskStatus, pending, claimed, in_progress, completed, failed,
  status_eq, is_held, is_pending, not_owner, db_error,
}
use el_pulpo_ai.Store.Query.{by_id, exec_update, query_update, update_rows, select_rows, count_rows}

-- WHERE id = $1 AND claimed_by = $2 AND status IN ('claimed','in_progress').
unfoldable pub held_by : String → Task → Bool
held_by w t = holds t.claimed_by w && is_held t.status

-- CASE WHEN status = 'claimed' THEN 'in_progress' ELSE status END.
abbrev pub started : TaskStatus → TaskStatus
started claimed = in_progress
started s = s

-- No row affected means ErrNotOwner.
abbrev pub owner_only : Db × Result ℕ → Db × Result (Unit {0})
owner_only (db, ok n) = (db, if n == 0 then err not_owner else ok tt)
owner_only (db, err e) = (db, err e)

unfoldable pub heartbeat_set : ℕ → Task → Task
heartbeat_set now t = record t {
  last_heartbeat_at = some now;
  status = started t.status;
  updated_at = now;
}

unfoldable pub heartbeat : Env → String → ℕ → Db → Db × Result (Unit {0})
unfolding heartbeat_set held_by exec_update
heartbeat env w i db =
    owner_only (exec_update env 0 (by_id i (held_by w)) (heartbeat_set env.now) db)

-- An empty text is NULL.
abbrev pub non_empty : String → Option String
non_empty s = if str_eq s "" then none else some s

unfoldable pub progress_set : ℕ → Option String → Task → Task
progress_set now note t = record t {
  progress_note = note;
  last_heartbeat_at = some now;
  status = started t.status;
  updated_at = now;
}

unfoldable pub update_progress : Env → String → ℕ → String → Db → Db × Result (Unit {0})
unfolding progress_set held_by exec_update
update_progress env w i note db =
    owner_only (exec_update env 0 (by_id i (held_by w)) (progress_set env.now (non_empty note)) db)

unfoldable pub complete_set : ℕ → Task → Task
complete_set now t = record t {
  status = completed;
  completed_at = some now;
  last_error = none;
  updated_at = now;
}

-- attempt_count >= max_attempts: a negative maximum is reached at once.
unfoldable pub exhausted : Task → Bool
exhausted t = leb (pos_part t.max_attempts) t.attempt_count

-- make_interval(secs => attempt_count * 30), in microseconds.
abbrev pub backoff : ℕ → ℕ
backoff attempts = attempts * 30 * 1000000

-- The SET clause that ReportResult and ReapStale share: six CASEs on the attempts.
unfoldable pub retry_or_fail : ℕ → String → Task → Task
unfolding exhausted
retry_or_fail now reason t =
    if exhausted t
    then record t { status = failed; last_error = some reason; updated_at = now }
    else record t {
      status = pending;
      scheduled_for = some (now + backoff t.attempt_count);
      claimed_by = none;
      claimed_at = none;
      last_heartbeat_at = none;
      last_error = some reason;
      updated_at = now;
    }

-- Success is never the terminal failure.
abbrev pub success_flag : Db × Result (Unit {0}) → Db × Result Bool
success_flag (db, ok _) = (db, ok false)
success_flag (db, err e) = (db, err e)

-- The success branch.
unfoldable pub report_success : Env → String → ℕ → Db → Db × Result Bool
unfolding complete_set held_by exec_update
report_success env w i db =
    success_flag (owner_only (exec_update env 0 (by_id i (held_by w)) (complete_set env.now) db))

-- RETURNING status tells a retry from a terminal failure.
abbrev pub failure_flag : Db × Result (Option Task) → Db × Result Bool
failure_flag (db, ok (some t)) = (db, ok (status_eq t.status failed))
failure_flag (db, ok none) = (db, err not_owner)
failure_flag (db, err e) = (db, err e)

-- The failure branch.
unfoldable pub report_failure : Env → String → ℕ → String → Db → Db × Result Bool
unfolding retry_or_fail held_by query_update
report_failure env w i msg db =
    failure_flag (query_update env 0 (by_id i (held_by w)) (retry_or_fail env.now msg) db)

-- The result is the flag `terminal`.
unfoldable pub report_result : Env → String → ℕ → Bool → String → Db → Db × Result Bool
unfolding report_success report_failure
report_result env w i success msg db =
    if success then report_success env w i db else report_failure env w i msg db

pub record ReapOutcome : Type 0 where
  pub requeued : ℕ
  pub failed : ℕ

-- `last_heartbeat_at < now() - visibility`: NULL is never before.
unfoldable pub expired : ℕ → ℕ → Option ℕ → Bool
expired now visibility none = false
expired now visibility (some at) = ltb (at + visibility) now

unfoldable pub stale : ℕ → ℕ → Task → Bool
unfolding expired
stale now visibility t = is_held t.status && expired now visibility t.last_heartbeat_at

-- The loop over the returned rows.
unfoldable pub tally : ReapOutcome → List Task → ReapOutcome
tally out [] = out
tally out (t ∷ ts) =
    tally
      (if status_eq t.status failed
        then record out { failed = suc out.failed }
        else record out { requeued = suc out.requeued })
      ts

abbrev pub lease_expired : String
lease_expired = "lease expired"

unfoldable pub reap_stale : Env → ℕ → Db → Db × Result ReapOutcome
unfolding stale retry_or_fail update_rows select_rows tally
reap_stale env visibility db =
    if env.answers 0
    then (
      record db {
        tasks =
            update_rows (stale env.now visibility) (retry_or_fail env.now lease_expired) db.tasks;
      },
      ok (
          tally (record { requeued = 0; failed = 0 })
            (map (retry_or_fail env.now lease_expired)
              (select_rows (stale env.now visibility) db.tasks))),
    )
    else (db, err db_error)

unfoldable pub count_pending : Env → Db → Result ℕ
unfolding count_rows
count_pending env db =
    if env.answers 0 then ok (count_rows (λ t. is_pending t.status) db.tasks) else err db_error
