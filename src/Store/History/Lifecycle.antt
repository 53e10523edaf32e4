-- ===== src/Store/History/Lifecycle.antt =====
-- The life cycle of a task: the edges between the seven states by the table of transitions, those beside it,
-- and the calls along them.
use el_pulpo_ai.Prelude.{
  ℕ, true, false, not, ◌≡◌, refl, ◌∙◌, ◌⊎◌, inl, inr, Option, none, some, arith, Bool-cases,
}
use el_pulpo_ai.Store.Row.{
  Task, Db, Env, TaskStatus, pending, claimed, in_progress, pr_opened, review_requested, completed,
  failed, is_pending, is_held, is_idle,
}
use el_pulpo_ai.Store.Query.{find_task}
use el_pulpo_ai.Store.Query.Laws.{
  Unique, find-update, find-select, find-append, find-All, guarded, row_update,
}
use el_pulpo_ai.Store.Transitions.{
  is_parked, allowed, role_worker, role_admin, allowed-finalize, allowed-retry,
}
use el_pulpo_ai.Store.Tasks.{PayloadCodec}
use el_pulpo_ai.Store.Edit.{update_task_set, update_task_links_set, requeue_set, delete_task_where}
use el_pulpo_ai.Store.Claim.{claim_set, eligible}
use el_pulpo_ai.Store.Lifecycle.{heartbeat_set, progress_set, complete_set, retry_or_fail, stale}
use el_pulpo_ai.Store.Park.{open_pr_set, set_jira_url_set, request_review_set, finalize_set}
use el_pulpo_ai.Store.History.{Call, apply}
use el_pulpo_ai.Store.History.Change.{
  RowStep, Change, edited, linked, requeued, taken, beaten, logged, noted, done, given_up, reaped,
  parked, ticketed, reviewed, finalized, same, rows, inserted, deleted,
}
use el_pulpo_ai.Store.History.Change.Tables.{apply-Change}

infix 40 ◌⟶◌
pub data ◌⟶◌ : TaskStatus → TaskStatus → Type 0 where
  stay : {s : TaskStatus} → s ⟶ s
  claim : pending ⟶ claimed
  start : claimed ⟶ in_progress
  complete : {s : TaskStatus} → allowed role_worker "complete" s ≡ true → s ⟶ completed
  -- A report of success before any sign of work, which the table of transitions excludes.
  early_complete : claimed ⟶ completed
  -- The end of a lease or a report of failure; the table has the latter from in_progress only.
  exhaust : {s : TaskStatus} → is_held s ≡ true → s ⟶ failed
  retry : {s : TaskStatus} → is_held s ≡ true → s ⟶ pending
  park : {s : TaskStatus} → allowed role_worker "open_pr" s ≡ true → s ⟶ pr_opened
  review : {s : TaskStatus} → allowed role_admin "request_review" s ≡ true → s ⟶ review_requested
  settle :
      {s u : TaskStatus}
      → allowed role_admin "finalize" s ≡ true
      → is_idle u ≡ true
      → is_pending u ≡ false
      → s ⟶ u
  requeue : {s : TaskStatus} → allowed role_admin "retry" s ≡ true → s ⟶ pending

completes : (s : TaskStatus) → is_held s ≡ true → s ⟶ completed
unfolding allowed
completes claimed h = early_complete
completes in_progress h = complete refl
completes pending h = cc
completes pr_opened h = cc
completes review_requested h = cc
completes completed h = cc
completes failed h = cc

parks : in_progress ⟶ pr_opened
unfolding allowed
parks = park refl

reviews_it : pr_opened ⟶ review_requested
unfolding allowed
reviews_it = review refl

settles : (s u : TaskStatus) → is_parked s ≡ true → is_idle u ≡ true → is_pending u ≡ false → s ⟶ u
settles s u h = settle (allowed-finalize s ∙ h)

requeues_it : (s : TaskStatus) → is_idle s ≡ true → s ⟶ pending
requeues_it s h = requeue (allowed-retry s ∙ h)

ruleset edges =
    (stay, claim, start, completes, exhaust, retry, parks, reviews_it, settles, requeues_it)

RowStep-edge : {now : ℕ} {t u : Task} → RowStep now t u → t.status ⟶ u.status
unfolding update_task_set update_task_links_set requeue_set claim_set heartbeat_set progress_set
    complete_set retry_or_fail stale open_pr_set set_jira_url_set request_review_set finalize_set
    eligible
RowStep-edge (edited input p h e) = grind (arith, edges)
RowStep-edge (linked jira pr e) = grind (arith, edges)
RowStep-edge (requeued h e) = grind (arith, edges)
RowStep-edge (taken w h e) = grind (arith, edges)
RowStep-edge (beaten w h e) = grind (arith, edges)
RowStep-edge (logged e) = grind (arith, edges)
RowStep-edge (noted w text h e) = grind (arith, edges)
RowStep-edge (done w h e) = grind (arith, edges)
RowStep-edge (given_up w msg h e) = grind (arith, edges)
RowStep-edge (reaped age msg h e) = grind (arith, edges)
RowStep-edge (parked w url o h e) = grind (arith, edges)
RowStep-edge (ticketed w url h e) = grind (arith, edges)
RowStep-edge (reviewed h e) = grind (arith, edges)
RowStep-edge (finalized target error a b h e) = grind (arith, edges)

-- What a call makes of the row with an id: it moves along an edge, or an idle row is deleted.
abbrev pub Moved : Task → Option Task → Type 0
Moved t none = is_idle t.status ≡ true
Moved t (some u) = t.status ⟶ u.status

Change-Moved :
    {now : ℕ} {db db' : Db} (i : ℕ) (t : Task)
    → Change now db db'
    → Unique db.tasks
    → find_task i db.tasks ≡ some t
    → Moved t (find_task i db'.tasks)
Change-Moved i t (same e) u h = rw (e, h) stay
Change-Moved {now} {db} i t (rows p f k steps e) u h =
    rw (e, find-update p f k i db.tasks, h) (updated (Bool-cases (p t)))
  where
    updated : (p t ≡ true) ⊎ (p t ≡ false) → t.status ⟶ (row_update p f t).status
    updated (inl q) = rw q (RowStep-edge (find-All _ i db.tasks steps h q))
    updated (inr q) = rw q stay
Change-Moved {now} {db} i t (inserted x n free e) u h = rw (e, find-append i x db.tasks h) stay
Change-Moved {now} {db} i t (deleted j e) u h =
    rw (e, find-select (λ t. not (delete_task_where j t)) i db.tasks u, h)
      (kept (Bool-cases (delete_task_where j t)))
  where
    kept :
        (delete_task_where j t ≡ true) ⊎ (delete_task_where j t ≡ false)
        → Moved t (guarded (λ t. not (delete_task_where j t)) (some t))
    kept (inl q) = rw q (unfold delete_task_where in ground arith)
    kept (inr q) = rw q stay

-- On a table with a primary key, every call leaves a task in its state, moves it along a transition of
-- allowedFrom, claims it from the queue, starts it, takes it from a worker back into the queue or to
-- failed, or completes it straight from claimed, which allowedFrom excludes; or it deletes the task, and
-- then it was pending, completed or failed.
pub apply-Moved :
    (c : PayloadCodec) (env : Env) (call : Call) (db : Db) (i : ℕ) (t : Task)
    → Unique db.tasks
    → find_task i db.tasks ≡ some t
    → Moved t (find_task i (apply c env call db).tasks)
apply-Moved c env call db i t u h = Change-Moved i t (apply-Change c env call db u) u h
