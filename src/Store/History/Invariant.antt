-- ===== src/Store/History/Invariant.antt =====
-- The well-formedness of the table: claims, completion times, attempts and the primary key.
use el_pulpo_ai.Prelude.{
  ℕ, ◌<◌, Bool, true, false, ◌≡◌, sym, subst, none, List, [], ◌∷◌, is_some, All, All-map, All-both,
  All-append, arith,
}
use el_pulpo_ai.Store.Row.{
  Task, Db, Env, TaskStatus, pending, pr_opened, review_requested, completed, is_pending, is_held,
  status_eq,
}
use el_pulpo_ai.Store.Query.Laws.{Unique, update-Unique, update-All, append-Unique, select-Unique}
use el_pulpo_ai.Store.Query.Order.{select-All}
use el_pulpo_ai.Store.Tasks.{PayloadCodec}
use el_pulpo_ai.Store.Edit.{update_task_set, update_task_links_set, requeue_set}
use el_pulpo_ai.Store.Claim.{claim_set, eligible}
use el_pulpo_ai.Store.Lifecycle.{heartbeat_set, progress_set, complete_set, retry_or_fail, stale}
use el_pulpo_ai.Store.Park.{open_pr_set, set_jira_url_set, request_review_set, finalize_set}
use el_pulpo_ai.Store.History.{Call, apply, run, empty_db}
use el_pulpo_ai.Store.History.Change.{
  RowStep, Change, IsNew, edited, linked, requeued, taken, beaten, logged, noted, done, given_up,
  reaped, parked, ticketed, reviewed, finalized, same, rows, inserted, deleted,
}
use el_pulpo_ai.Store.History.Change.Tables.{apply-Change}

-- Waiting in the queue or for an administrator: no worker holds the task.
abbrev pub is_released : TaskStatus → Bool
is_released pending = true
is_released pr_opened = true
is_released review_requested = true
is_released _ = false

pub record RowInv (t : Task) : Type 0 where
  pub held_owner : is_held t.status ≡ true → is_some t.claimed_by ≡ true
  pub held_since : is_held t.status ≡ true → is_some t.claimed_at ≡ true
  pub held_beat : is_held t.status ≡ true → is_some t.last_heartbeat_at ≡ true
  pub released_owner : is_released t.status ≡ true → t.claimed_by ≡ none
  pub released_since : is_released t.status ≡ true → t.claimed_at ≡ none
  pub completion : is_some t.completed_at ≡ status_eq t.status completed
  pub attempted : is_pending t.status ≡ false → 0 < t.attempt_count

RowStep-RowInv : {now : ℕ} {t u : Task} → RowStep now t u → RowInv t → RowInv u
unfolding update_task_set update_task_links_set requeue_set claim_set heartbeat_set progress_set
    complete_set retry_or_fail stale open_pr_set set_jira_url_set request_review_set finalize_set
    eligible
RowStep-RowInv (edited input p h e) v = subst RowInv (sym e) (ground arith)
RowStep-RowInv (linked jira pr e) v = subst RowInv (sym e) (ground arith)
RowStep-RowInv (requeued h e) v = subst RowInv (sym e) (ground arith)
RowStep-RowInv (taken w h e) v = subst RowInv (sym e) (ground arith)
RowStep-RowInv (beaten w h e) v = subst RowInv (sym e) (ground arith)
RowStep-RowInv (logged e) v = subst RowInv (sym e) (ground arith)
RowStep-RowInv (noted w text h e) v = subst RowInv (sym e) (ground arith)
RowStep-RowInv (done w h e) v = subst RowInv (sym e) (ground arith)
RowStep-RowInv (given_up w msg h e) v = subst RowInv (sym e) (ground arith)
RowStep-RowInv (reaped age msg h e) v = subst RowInv (sym e) (ground arith)
RowStep-RowInv (parked w url o h e) v = subst RowInv (sym e) (ground arith)
RowStep-RowInv (ticketed w url h e) v = subst RowInv (sym e) (ground arith)
RowStep-RowInv (reviewed h e) v = subst RowInv (sym e) (ground arith)
RowStep-RowInv (finalized target error a b h e) v = subst RowInv (sym e) (ground arith)

IsNew-RowInv : {t : Task} → IsNew t → RowInv t
IsNew-RowInv n = ground arith

pub record DbInv (db : Db) : Type 0 where
  pub unique : Unique db.tasks
  pub rows_inv : All RowInv db.tasks

pub Change-DbInv : {now : ℕ} {db db' : Db} → Change now db db' → DbInv db → DbInv db'
Change-DbInv (same e) v = record {
  unique = subst Unique (sym e) v.unique;
  rows_inv = subst (All RowInv) (sym e) v.rows_inv;
}
Change-DbInv {now} {db} (rows p f k steps e) v = record {
  unique = subst Unique (sym e) (update-Unique p f k db.tasks v.unique);
  rows_inv = subst (All RowInv) (sym e) (
      update-All p f RowInv db.tasks (
        All-map _ _ db.tasks (λ t h. (h.1, λ q. RowStep-RowInv (h.0 q) h.1))
          (All-both _ _ db.tasks steps v.rows_inv)));
}
Change-DbInv {now} {db} (inserted t n free e) v = record {
  unique = subst Unique (sym e) (append-Unique t db.tasks v.unique free);
  rows_inv =
      subst (All RowInv) (sym e)
        (All-append RowInv db.tasks (t ∷ []) v.rows_inv (IsNew-RowInv n, tt));
}
Change-DbInv {now} {db} (deleted i e) v = record {
  unique = subst Unique (sym e) (select-Unique _ db.tasks v.unique);
  rows_inv =
      subst (All RowInv) (sym e)
        (All-map _ RowInv _ (λ t h. h.0) (select-All RowInv _ db.tasks v.rows_inv));
}

-- Every call keeps the primary key and the well-formedness of every row.
pub apply-DbInv :
    (c : PayloadCodec) (env : Env) (call : Call) (db : Db) → DbInv db → DbInv (apply c env call db)
apply-DbInv c env call db v = Change-DbInv (apply-Change c env call db v.unique) v

run-DbInv :
    (c : PayloadCodec) (history : List (Env × Call)) (db : Db) → DbInv db → DbInv (run c history db)
unfolding run
run-DbInv c [] db v = v
run-DbInv c ((env, call) ∷ rest) db v =
    run-DbInv c rest (apply c env call db) (apply-DbInv c env call db v)

-- After any history of calls on the empty database, no two rows share an id and every row is well
-- formed.
pub run_empty-DbInv :
    (c : PayloadCodec) (history : List (Env × Call)) → DbInv (run c history empty_db)
unfolding empty_db
run_empty-DbInv c history = run-DbInv c history _ (record { unique = tt; rows_inv = tt })
