-- ===== src/Store/Lifecycle/Reap.antt =====
-- The reaper's statement: which claims it takes back, what it reports, and what it leaves alone.
use el_pulpo_ai.Prelude.{
  ℕ, suc, ◌+◌, ◌≤◌, String, Bool, true, false, not, ◌&&◌, ◌≡◌, inl, inr, some, List, [], ◌∷◌, map,
  arith, Bool-cases, if_both,
}
use el_pulpo_ai.Store.Row.{Task, Db, Env, Result, ok, err, not_owner}
use el_pulpo_ai.Store.Query.{find_task, select_rows, count_rows, set_row}
use el_pulpo_ai.Store.Query.Laws.{Unique, find-update, row_update, update-Unique}
use el_pulpo_ai.Store.Lifecycle.{
  held_by, heartbeat, exhausted, retry_or_fail, stale, reap_stale, lease_expired, ReapOutcome,
  tally, update_progress, report_result,
}
use el_pulpo_ai.Store.Lifecycle.Owner.{Holds, retry_or_fail-KeepsId}
use el_pulpo_ai.Store.Lifecycle.Replies.{NotHeld-refused, heartbeat_accepted}

pub reap_rows :
    (env : Env) (visibility i : ℕ) (db : Db)
    → env.answers 0 ≡ true
    → find_task i (reap_stale env visibility db).0.tasks
      ≡ set_row
          (row_update (stale env.now visibility) (retry_or_fail env.now lease_expired))
          (find_task i db.tasks)
unfolding reap_stale
reap_rows env visibility i db up = rw up (
    find-update (stale env.now visibility) _ (retry_or_fail-KeepsId env.now lease_expired) i
      db.tasks)

tally_counts :
    (now : ℕ) (p : Task → Bool) (out : ReapOutcome) (ts : List Task)
    → let r = tally out (map (retry_or_fail now lease_expired) (select_rows p ts)) in
      (r.failed ≡ out.failed + count_rows (λ t. p t && exhausted t) ts)
      × (r.requeued ≡ out.requeued + count_rows (λ t. p t && not (exhausted t)) ts)
unfolding tally select_rows count_rows retry_or_fail exhausted
tally_counts now p out [] = (omega arith, omega arith)
tally_counts now p out (t ∷ ts) = ground (
  arith,
  tally_counts now p out ts,
  tally_counts now p (record out { failed = suc out.failed }) ts,
  tally_counts now p (record out { requeued = suc out.requeued }) ts,
)

-- If the database answers, the outcome counts the rows that were stale: as failed those whose
-- attempts are exhausted, as requeued the others.
pub reap_stale_counts :
    (env : Env) (visibility : ℕ) (db : Db)
    → env.answers 0 ≡ true
    → (reap_stale env visibility db).1
      ≡ ok (record {
        requeued = count_rows (λ t. stale env.now visibility t && not (exhausted t)) db.tasks;
        failed = count_rows (λ t. stale env.now visibility t && exhausted t) db.tasks;
      })
unfolding reap_stale
reap_stale_counts env visibility db up = rw up (
    ground (
      arith,
      tally_counts env.now (stale env.now visibility) (record { requeued = 0; failed = 0 })
          db.tasks,
    ))

reap_Unique :
    (env : Env) (visibility : ℕ) (db : Db)
    → Unique db.tasks
    → Unique (reap_stale env visibility db).0.tasks
unfolding reap_stale
reap_Unique env visibility db u =
    if_both (λ (r : Db × Result ReapOutcome). Unique r.0.tasks) (env.answers 0)
      (update-Unique _ _ (retry_or_fail-KeepsId env.now lease_expired) db.tasks u) u

reaped_released :
    (now : ℕ) (w reason : String) (t : Task) → held_by w (retry_or_fail now reason t) ≡ false
unfolding held_by retry_or_fail
reaped_released now w reason t = elim (Bool-cases (exhausted t)) [
  | inl e ↦ rw e (ground arith)
  | inr e ↦ rw e (ground arith)
]

-- On a table with a primary key, once a task's lease has run out and the reaper's statement was
-- answered, a heartbeat, a note and both results, whoever sends them and if their statements are
-- answered too, are refused with ErrNotOwner and change nothing.
pub reaped_refused :
    (env env' : Env) (visibility i : ℕ) (w note msg : String) (db : Db) (t : Task)
    → env.answers 0 ≡ true
    → env'.answers 0 ≡ true
    → Unique db.tasks
    → find_task i db.tasks ≡ some t
    → stale env.now visibility t ≡ true
    → let db' = (reap_stale env visibility db).0 in
      (heartbeat env' w i db' ≡ (db', err not_owner))
      × (update_progress env' w i note db' ≡ (db', err not_owner))
      × (report_result env' w i true msg db' ≡ (db', err not_owner))
      × (report_result env' w i false msg db' ≡ (db', err not_owner))
reaped_refused env env' visibility i w note msg db t up up' u e s =
    NotHeld-refused env' w i (reap_stale env visibility db).0 up' note msg
      (reap_Unique env visibility db u)
      (rw (reap_rows env visibility i db up, e)
        (rw s (rw (reaped_released env.now w lease_expired t))))

-- If the holder's heartbeat and the reaper's statement are both answered, and no more than the
-- visibility timeout passes between them, the reaper leaves the task as the heartbeat has written
-- it.
pub heartbeat_protects :
    (env env' : Env) (visibility i : ℕ) (w : String) (db : Db) (t : Task)
    → env.answers 0 ≡ true
    → env'.answers 0 ≡ true
    → find_task i db.tasks ≡ some t
    → Holds w t
    → env'.now ≤ env.now + visibility
    → let db' = (heartbeat env w i db).0 in
      find_task i (reap_stale env' visibility db').0.tasks ≡ find_task i db'.tasks
heartbeat_protects env env' visibility i w db t up up' e held soon =
    let (_, row) = heartbeat_accepted env w i db up t e held in
    rw (reap_rows env' visibility i _ up', row) (unfold stale in ground arith)
