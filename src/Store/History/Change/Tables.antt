-- ===== src/Store/History/Change/Tables.antt =====
-- The calls whose shape rests on the primary key or on a SELECT, and the shape of every call.
use el_pulpo_ai.Prelude.{
  ℕ, zero, suc, ◌<◌, ℤ, pos, negsuc, String, Bool, ◌&&◌, ◌≡◌, refl, inl, inr, Option, none, some,
  ◌==◌, All-of, All-map, arith, Option-cases, holds_iff, if_both,
}
use el_pulpo_ai.Store.Row.{Task, TaskLogEntry, Db, Env, Result, ok, err}
use el_pulpo_ai.Store.Query.{find_task, has_id, count_rows}
use el_pulpo_ai.Store.Query.Laws.{Unique}
use el_pulpo_ai.Store.Tasks.{
  PayloadCodec, NewTaskInput, create_task, validate_create_input, payload_or_empty, insert_task,
  insert_row, new_row, default_attempts,
}
use el_pulpo_ai.Store.Edit.{
  UpdateTaskInput, delete_task_where, update_task, update_task_links, delete_task, requeue_task,
  returned_or_missing, jsonb_param,
}
use el_pulpo_ai.Store.Edit.Admin.{returned-state}
use el_pulpo_ai.Store.Claim.{claim_task}
use el_pulpo_ai.Store.Claim.Order.{choice_eligible}
use el_pulpo_ai.Store.Lifecycle.{heartbeat_set}
use el_pulpo_ai.Store.Lifecycle.Owner.{Holds}
use el_pulpo_ai.Store.Logs.{append_write, append_check, check_owner, insert_entry}
use el_pulpo_ai.Store.History.{
  Call, creates, updates, links, deletes, requeues, claims, beats, notes, reports, reaps, opens,
  sets_jira, reviews, finalizes, writes_log, apply,
}
use el_pulpo_ai.Store.History.Change.{
  Change, IsNew, edited, linked, requeued, taken, logged, same, rows, inserted, deleted,
}
use el_pulpo_ai.Store.History.Change.Rows.{
  query-Change, heartbeat-Change, update_progress-Change, report_result-Change, open_pr-Change,
  set_jira_url-Change, reap_stale-Change, request_review-Change, finalize_task-Change,
}

default_attempts_pos : (m : ℤ) → (n : ℕ) × (default_attempts m ≡ pos n) × (0 < n)
unfolding default_attempts
default_attempts_pos (pos zero) = (3, refl, omega arith)
default_attempts_pos (pos (suc m)) = (suc m, ground arith, omega arith)
default_attempts_pos (negsuc m) = (3, refl, omega arith)

new_row-IsNew : (env : Env) (input : NewTaskInput) (p : String) → IsNew (new_row env input p)
unfolding new_row
new_row-IsNew env input p = record {
  is_new_pending = refl;
  unclaimed = refl;
  no_claim_time = refl;
  no_heartbeat = refl;
  not_completed = refl;
  no_attempt = refl;
  budget = default_attempts_pos input.max_attempts;
}

insert_task-Change :
    (env : Env) (input : NewTaskInput) (db : Db) (p : Option String)
    → Change env.now db (insert_task env input db p).0
unfolding insert_task
insert_task-Change env input db none = same refl
insert_task-Change env input db (some p) = elim (Option-cases (find_task env.fresh_id db.tasks)) [
  | inl e ↦ rw (e, insert_row) (inserted (new_row env input p) (new_row-IsNew env input p) e refl)
  | inr (t, e) ↦ rw (e, insert_row) (same refl)
]

create_task-Change :
    (c : PayloadCodec) (env : Env) (input : NewTaskInput) (db : Db)
    → Change env.now db (create_task c env input db).0
unfolding create_task
create_task-Change c env input db =
    let P = λ (r : Db × Result Task). Change env.now db r.0 in
    if_both P (validate_create_input c input.payload)
      (if_both P (env.answers 0)
        (insert_task-Change env input db (c.jsonb (payload_or_empty input.payload))) (same refl))
      (same refl)

update_task-Change :
    (c : PayloadCodec) (env : Env) (i : ℕ) (input : UpdateTaskInput) (db : Db)
    → Change env.now db (update_task c env i input db).0
unfolding update_task
update_task-Change c env i input db = elim (Option-cases (jsonb_param c input.payload)) [
  | inl e ↦ rw (e, update_task) (same refl)
  | inr (p, e) ↦
      rw (e, update_task)
        (rw (returned-state env i _ _) (
          query-Change env _ _ db (λ t. refl) 0
            (All-of _ db.tasks (λ t h. edited input p (ground arith) refl))))
]

pub returned_or_missing-state : (x : Db × Result (Option Task)) → (returned_or_missing x).0 ≡ x.0
returned_or_missing-state (db, ok none) = refl
returned_or_missing-state (db, ok (some t)) = refl
returned_or_missing-state (db, err e) = refl

update_task_links-Change :
    (env : Env) (i : ℕ) (jira pr : Option String) (db : Db)
    → Change env.now db (update_task_links env i jira pr db).0
unfolding update_task_links
update_task_links-Change env i jira pr db =
    rw (returned_or_missing-state _)
      (query-Change env _ _ db (λ t. refl) 0 (All-of _ db.tasks (λ t h. linked jira pr refl)))

delete_task-Change : (env : Env) (i : ℕ) (db : Db) → Change env.now db (delete_task env i db).0
unfolding delete_task
delete_task-Change env i db =
    let P = λ (r : Db × Result (Unit {0})). Change env.now db r.0 in
    if_both P (env.answers 0)
      (if_both P (count_rows (delete_task_where i) db.tasks == 0) (same refl) (deleted i refl))
      (same refl)

requeue_task-Change : (env : Env) (i : ℕ) (db : Db) → Change env.now db (requeue_task env i db).0
unfolding requeue_task
requeue_task-Change env i db = rw (returned-state env i _ _) (
    query-Change env _ _ db (λ t. refl) 0 (All-of _ db.tasks (λ t h. requeued (ground arith) refl)))

claim_task-Change :
    (env : Env) (locked : Task → Bool) (w : String) (db : Db)
    → Unique db.tasks
    → Change env.now db (claim_task env locked w db).0
unfolding claim_task
claim_task-Change env locked w db u =
    query-Change env _ _ db (λ t. refl) 0
      (All-map _ _ db.tasks (λ t fit h. taken w (fit h) refl)
        (choice_eligible env.now locked db.tasks _ u refl))

check_owner-Holds :
    (w : String) (o : Option Task) → check_owner w o ≡ ok tt → (t : Task) × (o ≡ some t) × Holds w t
unfolding check_owner
check_owner-Holds w none h = absurd (cc h)
check_owner-Holds w (some t) h =
    (t, refl, ((holds_iff t.claimed_by w).0 (ground arith), ground arith))

pub append_check-Holds :
    (env : Env) (w : String) (i : ℕ) (db : Db)
    → append_check env w i db ≡ ok tt
    → (t : Task) × (find_task i db.tasks ≡ some t) × Holds w t
unfolding append_check
append_check-Holds env w i db h = check_owner-Holds w (find_task i db.tasks) (ground arith)

append_write-Change :
    (env : Env) (i : ℕ) (message : String) (db : Db)
    → Change env.now db (append_write env i message db).0
unfolding append_write insert_entry
append_write-Change env i message db =
    if_both P (env.answers 2) (line_lem (find_task i db.tasks)) (same refl)
  where
    P : Db × Result TaskLogEntry → Type 0
    P r = Change env.now db r.0

    line_lem : (o : Option Task) → P (insert_entry env i message db o)
    line_lem none = same refl
    line_lem (some c) =
        if_both P (env.answers 3 && env.answers 4)
          (rows (has_id i) (heartbeat_set env.now) (λ t. refl)
            (All-of _ db.tasks (λ t h. logged refl)) refl)
          (same refl)

-- Every call leaves the rows alone, moves rows along the transition relation, inserts a new row, or
-- deletes an idle one.
pub apply-Change :
    (c : PayloadCodec) (env : Env) (call : Call) (db : Db)
    → Unique db.tasks
    → Change env.now db (apply c env call db)
unfolding apply
apply-Change c env (creates input) db u = create_task-Change c env input db
apply-Change c env (updates i input) db u = update_task-Change c env i input db
apply-Change c env (links i jira pr) db u = update_task_links-Change env i jira pr db
apply-Change c env (deletes i) db u = delete_task-Change env i db
apply-Change c env (requeues i) db u = requeue_task-Change env i db
apply-Change c env (claims locked w) db u = claim_task-Change env locked w db u
apply-Change c env (beats w i) db u = heartbeat-Change env w i db
apply-Change c env (notes w i note) db u = update_progress-Change env w i db note
apply-Change c env (reports w i success msg) db u = report_result-Change env w i db success msg
apply-Change c env (reaps visibility) db u = reap_stale-Change env visibility db
apply-Change c env (opens w i url) db u = open_pr-Change env w i db url
apply-Change c env (sets_jira w i url) db u = set_jira_url-Change env w i db url
apply-Change c env (reviews i) db u = request_review-Change env i db
apply-Change c env (finalizes i success msg) db u = finalize_task-Change env i db success msg
apply-Change c env (writes_log i message) db u = append_write-Change env i message db
