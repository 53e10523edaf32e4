-- ===== src/Store/History/Budget.antt =====
-- The attempt budget, and the delay before a retry.
use el_pulpo_ai.Prelude.{
  ℕ, ◌+◌, ◌*◌, ◌<◌, ◌≤◌, pos, pos_part, String, Bool, true, false, not, ◌≡◌, ◌≢◌, subst, ◌⊎◌, inl,
  inr, Option, none, some, arith, Bool-cases,
}
use el_pulpo_ai.Store.Row.{Task, Db, Env, ok, pending, is_pending}
use el_pulpo_ai.Store.Query.{find_task}
use el_pulpo_ai.Store.Query.Laws.{
  Unique, find-update, find-append, find-select, find-All, guarded, row_update,
}
use el_pulpo_ai.Store.Tasks.{PayloadCodec}
use el_pulpo_ai.Store.Edit.{update_task_set, update_task_links_set, requeue_set, delete_task_where}
use el_pulpo_ai.Store.Claim.{claim_set, eligible, claim_task}
use el_pulpo_ai.Store.Claim.Order.{claim_Took}
use el_pulpo_ai.Store.Lifecycle.{
  heartbeat_set, progress_set, complete_set, retry_or_fail, stale, report_result,
}
use el_pulpo_ai.Store.Lifecycle.Owner.{Holds}
use el_pulpo_ai.Store.Lifecycle.Replies.{failure_accepted}
use el_pulpo_ai.Store.Park.{open_pr_set, set_jira_url_set, request_review_set, finalize_set}
use el_pulpo_ai.Store.History.{Call, apply}
use el_pulpo_ai.Store.History.Change.{
  RowStep, Change, edited, linked, requeued, taken, beaten, logged, noted, done, given_up, reaped,
  parked, ticketed, reviewed, finalized, same, rows, inserted, deleted,
}
use el_pulpo_ai.Store.History.Change.Rows.{report_result-Change}
use el_pulpo_ai.Store.History.Change.Tables.{apply-Change}
use el_pulpo_ai.Store.History.Invariant.{DbInv, Change-DbInv}

-- Never more attempts than the maximum, and one left while the task waits in the queue.
pub record Budget (t : Task) : Type 0 where
  pub some_allowed : 0 < pos_part t.max_attempts
  pub within : t.attempt_count ≤ pos_part t.max_attempts
  pub one_left : is_pending t.status ≡ true → t.attempt_count < pos_part t.max_attempts

RowStep-Budget :
    {now : ℕ} {t u : Task} → RowStep now t u → u.max_attempts ≡ t.max_attempts → Budget t → Budget u
unfolding update_task_set update_task_links_set requeue_set claim_set heartbeat_set progress_set
    complete_set retry_or_fail stale open_pr_set set_jira_url_set request_review_set finalize_set
    eligible
RowStep-Budget (edited input p h e) m v = ground arith
RowStep-Budget (linked jira pr e) m v = ground arith
RowStep-Budget (requeued h e) m v = ground arith
RowStep-Budget (taken w h e) m v = ground arith
RowStep-Budget (beaten w h e) m v = ground arith
RowStep-Budget (logged e) m v = ground arith
RowStep-Budget (noted w text h e) m v = ground arith
RowStep-Budget (done w h e) m v = ground arith
RowStep-Budget (given_up w msg h e) m v = ground arith
RowStep-Budget (reaped age msg h e) m v = ground arith
RowStep-Budget (parked w url o h e) m v = ground arith
RowStep-Budget (ticketed w url h e) m v = ground arith
RowStep-Budget (reviewed h e) m v = ground arith
RowStep-Budget (finalized target error a b h e) m v = ground arith

-- What a task is after a change that finds it again.
abbrev Kept : Task → Option Task → Type 0
Kept t none = Unit {0}
Kept t (some u) = u.max_attempts ≡ t.max_attempts → Budget u

Change-Kept :
    {now : ℕ} {db db' : Db} (i : ℕ) (t : Task)
    → Change now db db'
    → Unique db.tasks
    → find_task i db.tasks ≡ some t
    → Budget t
    → Kept t (find_task i db'.tasks)
Change-Kept i t (same e) u h v = rw (e, h) (λ m. v)
Change-Kept {now} {db} i t (rows p f k steps e) u h v =
    rw (e, find-update p f k i db.tasks, h) (updated (Bool-cases (p t)))
  where
    updated :
        (p t ≡ true) ⊎ (p t ≡ false)
        → (row_update p f t).max_attempts ≡ t.max_attempts
        → Budget (row_update p f t)
    updated (inl q) = rw q (λ m. RowStep-Budget (find-All _ i db.tasks steps h q) m v)
    updated (inr q) = rw q (λ m. v)
Change-Kept {now} {db} i t (inserted x n free e) u h v = rw (e, find-append i x db.tasks h) (λ m. v)
Change-Kept {now} {db} i t (deleted j e) u h v =
    rw (e, find-select _ i db.tasks u, h) (kept (Bool-cases (delete_task_where j t)))
  where
    kept :
        (delete_task_where j t ≡ true) ⊎ (delete_task_where j t ≡ false)
        → Kept t (guarded (λ t. not (delete_task_where j t)) (some t))
    kept (inl q) = rw q tt
    kept (inr q) = rw q (λ m. v)

-- On a table with a primary key, a call that keeps a task and its maximum keeps it within its
-- budget: not more attempts than the maximum, and one left while it is pending.
pub apply-Budget :
    (c : PayloadCodec) (env : Env) (call : Call) (db : Db) (i : ℕ) (t u : Task)
    → Unique db.tasks
    → find_task i db.tasks ≡ some t
    → find_task i (apply c env call db).tasks ≡ some u
    → u.max_attempts ≡ t.max_attempts
    → Budget t
    → Budget u
apply-Budget c env call db i t u k h h' m v =
    subst (Kept t) h' (Change-Kept i t (apply-Change c env call db k) k h v) m

-- On a well-formed table, a task that its holder has reported as failed, with attempts left, is
-- not the one that the next claim takes before 30 seconds for each attempt so far have passed.
pub failure_backs_off :
    (env env' : Env) (locked : Task → Bool) (w w' msg : String) (i m : ℕ) (db : Db) (t a : Task)
    → DbInv db
    → env.answers 0 ≡ true
    → find_task i db.tasks ≡ some t
    → Holds w t
    → t.max_attempts ≡ pos m
    → t.attempt_count < m
    → env'.now < env.now + t.attempt_count * 30 * 1000000
    → (claim_task env' locked w' (report_result env w i false msg db).0).1 ≡ ok (some a)
    → a.id ≢ i
failure_backs_off env env' locked w w' msg i m db t a v up h held e lt soon got again =
    let (_, row) = (failure_accepted env w i db up t h held msg m e).0 lt in
    let w_f = Change-DbInv (report_result-Change env w i db false msg) v in
    let (c, p, took) = claim_Took env' locked w' _ a (w_f.unique) got in
    let there = took.was_there in
    let fit = took.claimable in
    let id_c : c.id ≡ i = unfold claim_set in ground arith in
    let row_c : find_task c.id (report_result env w i false msg db).0.tasks
        ≡ some (record t {
          status = pending;
          scheduled_for = some (env.now + t.attempt_count * 30 * 1000000);
          claimed_by = none;
          claimed_at = none;
          last_heartbeat_at = none;
          last_error = some msg;
          updated_at = env.now;
        }) =
      rw id_c row in
    unfold eligible in ground arith
