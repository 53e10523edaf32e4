-- ===== src/Store/Logs/Append.antt =====
-- Appending to the log: the gate on the claim, and what may come between the gate and the write.
-- AppendTaskLog reads the claim by a plain SELECT, which locks no row, so that another transaction
-- can commit before the INSERT.
use el_pulpo_ai.Prelude.{
  ℕ, suc, String, true, false, ◌≡◌, refl, ap, inl, inr, ◌∙◌, Option, none, some, [], ◌∷◌, ◌++◌,
  arith, Bool-cases, holds, holds_iff,
}
use el_pulpo_ai.Store.Row.{
  Task, Db, Env, ok, err, StoreError, pending, in_progress, is_held, not_owner, not_found,
}
use el_pulpo_ai.Store.Query.{find_task, has_id, set_row}
use el_pulpo_ai.Store.Query.Laws.{find-update, find_id, row_update}
use el_pulpo_ai.Store.Lifecycle.{
  heartbeat_set, stale, retry_or_fail, exhausted, reap_stale, lease_expired,
}
use el_pulpo_ai.Store.Lifecycle.Owner.{Holds, heartbeat_set-KeepsId}
use el_pulpo_ai.Store.Lifecycle.Reap.{reap_rows}
use el_pulpo_ai.Store.Logs.{
  append_check, append_write, append_task_log, check_owner, insert_entry, new_entry,
}

-- The five statements of the transaction are answered.
pub record Answers (env : Env) : Type 0 where
  pub begun : env.answers 0 ≡ true
  pub selected : env.answers 1 ≡ true
  pub inserted : env.answers 2 ≡ true
  pub updated : env.answers 3 ≡ true
  pub committed : env.answers 4 ≡ true

-- The reply to a caller without the claim.
abbrev pub refusal : Option Task → StoreError
refusal none = not_found
refusal (some t) = not_owner

check_refused :
    (w : String) (o : Option Task)
    → ((t : Task) → o ≡ some t → ¬ Holds w t)
    → check_owner w o ≡ err (refusal o)
unfolding check_owner
check_refused w none h = refl
check_refused w (some t) h = elim (Bool-cases (holds t.claimed_by w)) [
  | inl e ↦ elim (Bool-cases (is_held t.status)) [
    | inl f ↦ absurd (h t refl ((holds_iff t.claimed_by w).0 e, f))
    | inr f ↦ ground arith
  ]
  | inr e ↦ ground arith
]

-- If the database answers, a caller that does not hold the task writes nothing: the reply is
-- ErrNotFound if there is no such task and ErrNotOwner otherwise, and the database is as before.
append_refused :
    (env : Env) (w : String) (i : ℕ) (message : String) (db : Db)
    → Answers env
    → ((t : Task) → find_task i db.tasks ≡ some t → ¬ Holds w t)
    → append_task_log env w i message db ≡ (db, err (refusal (find_task i db.tasks)))
unfolding append_task_log
append_refused env w i message db up h =
    let checked : append_check env w i db ≡ err (refusal (find_task i db.tasks)) =
      unfold append_check in rw (up.begun, up.selected) (check_refused w _ h) in
    rw (checked, append_task_log)

-- What the second half leaves when it finds the task: the entry stands at the end of the log under
-- the next number, and the row has the time of a heartbeat.
append_written :
    (env : Env) (i : ℕ) (message : String) (db : Db) (t : Task)
    → Answers env
    → find_task i db.tasks ≡ some t
    → let (db', reply) = append_write env i message db in
      let e = new_entry env i message db in
      (reply ≡ ok e)
      × (db'.logs ≡ db.logs ++ e ∷ [])
      × (db'.next_log_id ≡ suc db.next_log_id)
      × (find_task i db'.tasks ≡ some (heartbeat_set env.now t))
unfolding append_write insert_entry
append_written env i message db t up h =
    let row : set_row (row_update (has_id i) (heartbeat_set env.now)) (some t)
        ≡ some (heartbeat_set env.now t) =
      ground (arith, find_id i db.tasks {t = t} h) in
    rw (up.inserted, h, up.updated, up.committed)
      (
        refl,
        refl,
        refl,
        rw
            (
              find-update (has_id i) (heartbeat_set env.now) (heartbeat_set-KeepsId env.now) i
                  db.tasks,
              h,
            )
            row,
      )

check_accepted : (w : String) (t : Task) → Holds w t → check_owner w (some t) ≡ ok tt
unfolding check_owner
check_accepted w t h = ground (arith, (holds_iff t.claimed_by w).1 h.0)

passed_check :
    (env : Env) (w : String) (i : ℕ) (db : Db) (t : Task)
    → Answers env
    → find_task i db.tasks ≡ some t
    → Holds w t
    → append_check env w i db ≡ ok tt
unfolding append_check
passed_check env w i db t up h held = rw (up.begun, up.selected, h) (check_accepted w t held)

-- If the database answers all five statements, the holder's line is appended to the log under the
-- next number, the log before it is kept, and the task is in progress with a new lease.
pub append_accepted :
    (env : Env) (w : String) (i : ℕ) (message : String) (db : Db) (t : Task)
    → Answers env
    → find_task i db.tasks ≡ some t
    → Holds w t
    → let (db', reply) = append_task_log env w i message db in
      let e = new_entry env i message db in
      (reply ≡ ok e)
      × (db'.logs ≡ db.logs ++ e ∷ [])
      × (db'.next_log_id ≡ suc db.next_log_id)
      × (find_task i db'.tasks
          ≡ some (record t {
            last_heartbeat_at = some env.now;
            status = in_progress;
            updated_at = env.now;
          }))
unfolding append_task_log
append_accepted env w i message db t up h held =
    let (reply, logs, next, row) = append_written env i message db t up h in
    let beat : heartbeat_set env.now t ≡ record t {
      last_heartbeat_at = some env.now;
      status = in_progress;
      updated_at = env.now;
    } =
      unfold heartbeat_set in ground arith in
    rw (passed_check env w i db t up h held, append_task_log)
      (reply, logs, next, row ∙ ap some beat)

-- If the holder's lease has run out with attempts left, and the reaper takes the task back between
-- the two halves, the line is written all the same, and the task, in the queue and claimed by
-- nobody, gets the time of a heartbeat.
pub late_append_lands :
    (env env' : Env) (visibility i : ℕ) (w message : String) (db : Db) (t : Task)
    → Answers env'
    → env.answers 0 ≡ true
    → find_task i db.tasks ≡ some t
    → Holds w t
    → stale env.now visibility t ≡ true
    → exhausted t ≡ false
    → let db' = (reap_stale env visibility db).0 in
      let (db'', reply) = append_write env' i message db' in
      (append_check env' w i db ≡ ok tt)
      × (reply ≡ ok (new_entry env' i message db'))
      × (db''.logs ≡ db'.logs ++ new_entry env' i message db' ∷ [])
      × ((u : Task) × (find_task i db''.tasks ≡ some u)
          × (u.status ≡ pending)
          × (u.claimed_by ≡ none)
          × (u.last_heartbeat_at ≡ some env'.now))
late_append_lands env env' visibility i w message db t up' up h held old spare =
    let row : find_task i (reap_stale env visibility db).0.tasks
        ≡ some (retry_or_fail env.now lease_expired t) =
      rw (reap_rows env visibility i db up, h) (rw old) in
    let (reply, logs, _, beaten) = append_written env' i message _ _ up' row in
    (
      passed_check env' w i db t up' h held,
      reply,
      logs,
      (
        heartbeat_set env'.now (retry_or_fail env.now lease_expired t),
        beaten,
        unfold heartbeat_set retry_or_fail in rw spare,
        unfold heartbeat_set retry_or_fail in rw spare,
        unfold heartbeat_set in refl,
      ),
    )
