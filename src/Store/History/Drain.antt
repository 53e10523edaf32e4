-- ===== src/Store/History/Drain.antt =====
-- Histories that only work a table off, and the claims that they are granted.
pub mod Measure
use el_pulpo_ai.Prelude.{
  ℕ, suc, str_eq, ◌+◌, ◌-◌, ◌<◌, ◌≤◌, pos_part, String, Bool, true, false, not, ◌&&◌, ◌≡◌, refl,
  subst, Option, none, some, List, [], ◌∷◌, leb, if◌then◌else◌, if_both, All, All-map, All-of,
  arith, ◌==◌, Bool-cases, inl, inr,
}
use el_pulpo_ai.Store.Row.{
  Task, TaskLogEntry, Db, Env, Result, ok, err, TaskStatus, pending, is_pending,
}
use el_pulpo_ai.Store.Query.{
  update_rows, select_rows, count_rows, first_row, exec_update, query_update, set_row, has_id,
  find_task,
}
use el_pulpo_ai.Store.Query.Laws.{Unique, Unique-same}
use el_pulpo_ai.Store.Tasks.{PayloadCodec}
use el_pulpo_ai.Store.Edit.{
  update_task_links, update_task_links_set, delete_task, delete_rows, delete_task_where,
  returned_or_missing,
}
use el_pulpo_ai.Store.Claim.{claim_task, claim_set, claim_choice, is_choice, eligible}
use el_pulpo_ai.Store.Claim.Order.{choice_eligible}
use el_pulpo_ai.Store.Lifecycle.{
  heartbeat, heartbeat_set, update_progress, progress_set, report_result, complete_set,
  retry_or_fail, exhausted, reap_stale, lease_expired, ReapOutcome,
}
use el_pulpo_ai.Store.Lifecycle.Owner.{owner_only-state, success_flag-state, failure_flag-state}
use el_pulpo_ai.Store.Park.{
  open_pr, open_pr_set, set_jira_url, set_jira_url_set, request_review, request_review_set,
  finalize_task, finalize_set, target_status,
}
use el_pulpo_ai.Store.Park.Replies.{transition_only-state}
use el_pulpo_ai.Store.Logs.{append_task_log, append_write, append_check, insert_entry, new_entry}
use el_pulpo_ai.Store.History.Change.Tables.{returned_or_missing-state, apply-Change}
use el_pulpo_ai.Store.History.Invariant.{DbInv, apply-DbInv, Change-DbInv}
use el_pulpo_ai.Store.History.{
  Call, creates, updates, links, deletes, requeues, claims, beats, notes, reports, reaps, opens,
  sets_jira, reviews, finalizes, writes_log, apply, run,
}
use el_pulpo_ai.Store.History.Drain.Measure.{
  claim_left, complete_left, finalize_left, granted-le-count, granted_by, heartbeat_left, left,
  linked_left, parked_left, progress_left, retry_left, reviewed_left, select-total, take-total,
  ticketed_left, total_left, total_split, attempts_left, is_overdrawn, update-total,
}

-- The calls that neither add work nor give it new attempts.
abbrev pub works_off : Call → Bool
works_off (creates input) = false
works_off (updates i input) = false
works_off (requeues i) = false
works_off _ = true

abbrev pub grants : Env → Call → Db → ℕ
grants env (claims locked w) db = granted_by (claim_task env locked w db).1
grants env _ db = 0

-- The claims of a history that are answered with a task.
unfoldable pub granted : PayloadCodec → List (Env × Call) → Db → ℕ
granted c [] db = 0
granted c ((env, call) ∷ rest) db = grants env call db + granted c rest (apply c env call db)

module _ (env : Env) (db : Db) where
  abbrev Less : Db → Type 0
  Less db' = total_left db'.tasks ≤ total_left db.tasks

  no_change : Less db
  no_change = omega arith

  exec-Less :
      (p : Task → Bool) (f : Task → Task)
      → ((t : Task) → left (f t) ≤ left t)
      → Less (exec_update env 0 p f db).0
  unfolding exec_update
  exec-Less p f h =
      if_both (λ (r : Db × Result ℕ). Less r.0) (env.answers 0) (update-total p f db.tasks h)
        no_change

  query-Less :
      (p : Task → Bool) (f : Task → Task)
      → ((t : Task) → left (f t) ≤ left t)
      → Less (query_update env 0 p f db).0
  unfolding query_update
  query-Less p f h =
      if_both (λ (r : Db × Result (Option Task)). Less r.0) (env.answers 0)
        (update-total p f db.tasks h) no_change

  report-Less :
      (w : String) (i : ℕ) (success : Bool) (msg : String)
      → Less (report_result env w i success msg db).0
  unfolding report_result
  report-Less w i true msg =
      rw (success_flag-state _, owner_only-state _) (exec-Less _ _ (complete_left env.now))
  report-Less w i false msg = rw (failure_flag-state _) (query-Less _ _ (retry_left env.now msg))

  links-Less : (i : ℕ) (jira pr : Option String) → Less (update_task_links env i jira pr db).0
  unfolding update_task_links
  links-Less i jira pr =
      rw (returned_or_missing-state _) (query-Less _ _ (linked_left env.now jira pr))

  beats-Less : (w : String) (i : ℕ) → Less (heartbeat env w i db).0
  unfolding heartbeat
  beats-Less w i = rw (owner_only-state _) (exec-Less _ _ (heartbeat_left env.now))

  notes-Less : (w : String) (i : ℕ) (text : String) → Less (update_progress env w i text db).0
  unfolding update_progress
  notes-Less w i text = rw (owner_only-state _) (exec-Less _ _ (progress_left env.now _))

  jira-Less : (w : String) (i : ℕ) (url : String) → Less (set_jira_url env w i url db).0
  unfolding set_jira_url
  jira-Less w i url = rw (owner_only-state _) (exec-Less _ _ (ticketed_left env.now _))

  review-Less : (i : ℕ) → Less (request_review env i db).0
  unfolding request_review
  review-Less i = rw (transition_only-state env i _) (exec-Less _ _ (reviewed_left env.now))

  finalize-Less :
      (i : ℕ) (success : Bool) (msg : String) → Less (finalize_task env i success msg db).0
  unfolding finalize_task
  finalize-Less i success msg =
      rw (transition_only-state env i _) (exec-Less _ _ (finalize_left env.now success _))

  reap-Less : (visibility : ℕ) → Less (reap_stale env visibility db).0
  unfolding reap_stale
  reap-Less visibility =
      if_both (λ (r : Db × Result ReapOutcome). Less r.0) (env.answers 0)
        (update-total _ _ db.tasks (retry_left env.now lease_expired)) no_change

  open_pr-Less : (w url : String) (i : ℕ) → Less (open_pr env w i url db).0
  unfolding open_pr
  open_pr-Less w url i =
      if_both (λ (r : Db × Result (Unit {0})). Less r.0) (str_eq url "") no_change
        (rw (owner_only-state _) (exec-Less _ (open_pr_set env.now url) (parked_left env.now url)))

  insert-Less :
      (i : ℕ) (message : String) (o : Option Task) → Less (insert_entry env i message db o).0
  unfolding insert_entry
  insert-Less i message none = no_change
  insert-Less i message (some t) =
      if_both (λ (r : Db × Result TaskLogEntry). Less r.0) (env.answers 3 && env.answers 4)
        (update-total (has_id i) (heartbeat_set env.now) db.tasks (heartbeat_left env.now))
        no_change

  append-Less : (i : ℕ) (message : String) → Less (append_write env i message db).0
  unfolding append_write
  append-Less i message =
      if_both (λ (r : Db × Result TaskLogEntry). Less r.0) (env.answers 2)
        (insert-Less i message (find_task i db.tasks)) no_change

  delete-Less : (i : ℕ) → Less (delete_task env i db).0
  unfolding delete_task delete_rows
  delete-Less i =
      if_both P (env.answers 0)
        (if_both P (count_rows (delete_task_where i) db.tasks == 0) no_change
          (select-total (λ t. not (delete_task_where i t)) db.tasks))
        no_change
    where
      P : Db × Result (Unit {0}) → Type 0
      P r = Less r.0

  claim-Less :
      (locked : Task → Bool) (w : String)
      → Unique db.tasks
      → let (db', r) = claim_task env locked w db in
        granted_by r + total_left db'.tasks ≤ total_left db.tasks
  unfolding claim_task
  claim-Less locked w u =
      if_both
        (λ (r : Db × Result (Option Task)).
          granted_by r.1 + total_left r.0.tasks ≤ total_left db.tasks)
        (env.answers 0) (answered (claim_choice env.now locked db.tasks) refl) (omega arith)
    where
      answered :
          (o : Option Task)
          → claim_choice env.now locked db.tasks ≡ o
          → granted_by (ok (set_row (claim_set env.now w) (first_row (is_choice o) db.tasks)))
              + total_left (update_rows (is_choice o) (claim_set env.now w) db.tasks)
            ≤ total_left db.tasks
      answered o e = omega (
        arith,
        granted-le-count (is_choice o) (claim_set env.now w) db.tasks,
        take-total (is_choice o) (claim_set env.now w) db.tasks (
            All-map _ _ db.tasks (λ t fit h. claim_left env.now w t (fit h))
              (choice_eligible env.now locked db.tasks o u e)),
      )

  -- What a call that works off grants, the table has allowed before and no longer allows.
  works_off-Less :
      (c : PayloadCodec) (call : Call)
      → works_off call ≡ true
      → Unique db.tasks
      → grants env call db + total_left (apply c env call db).tasks ≤ total_left db.tasks
  unfolding apply
  works_off-Less c (creates input) h u = cc
  works_off-Less c (updates i input) h u = cc
  works_off-Less c (requeues i) h u = cc
  works_off-Less c (links i jira pr) h u = omega (arith, links-Less i jira pr)
  works_off-Less c (deletes i) h u = omega (arith, delete-Less i)
  works_off-Less c (claims locked w) h u = claim-Less locked w u
  works_off-Less c (beats w i) h u = omega (arith, beats-Less w i)
  works_off-Less c (notes w i text) h u = omega (arith, notes-Less w i text)
  works_off-Less c (reports w i success msg) h u = omega (arith, report-Less w i success msg)
  works_off-Less c (reaps visibility) h u = omega (arith, reap-Less visibility)
  works_off-Less c (opens w i url) h u = omega (arith, open_pr-Less w url i)
  works_off-Less c (sets_jira w i url) h u = omega (arith, jira-Less w i url)
  works_off-Less c (reviews i) h u = omega (arith, review-Less i)
  works_off-Less c (finalizes i success msg) h u = omega (arith, finalize-Less i success msg)
  works_off-Less c (writes_log i message) h u = omega (arith, append-Less i message)

abbrev AllOff : List (Env × Call) → Type 0
AllOff = All (λ (x : Env × Call). works_off x.1 ≡ true)

total_bounded :
    (c : PayloadCodec) (history : List (Env × Call)) (db : Db)
    → DbInv db
    → AllOff history
    → granted c history db + total_left (run c history db).tasks ≤ total_left db.tasks
unfolding granted run
total_bounded c [] db v h = omega arith
total_bounded c ((env, call) ∷ rest) db v h = omega (
  arith,
  works_off-Less env db c call h.0 v.unique,
  total_bounded c rest (apply c env call db) (apply-DbInv c env call db v) h.1,
)

-- From a well-formed table on, as long as no task is created, edited or requeued, whatever the workers,
-- the reaper, the administrators and the network do: the claims that are granted and the attempts that
-- are left at the end are no more than the attempts left at the start and one for each pending task that
-- had none left.
pub granted_bounded :
    (c : PayloadCodec) (history : List (Env × Call)) (db : Db)
    → DbInv db
    → AllOff history
    → granted c history db + attempts_left (run c history db).tasks
      ≤ attempts_left db.tasks + count_rows is_overdrawn db.tasks
granted_bounded c history db v h = omega (
  arith,
  total_bounded c history db v h,
  total_split db.tasks,
  total_split (run c history db).tasks,
)
