-- ===== src/Store/Lifecycle/Replies.antt =====
-- The replies of the worker-facing statements, to the holder of the claim and to anybody else.
use el_pulpo_ai.Prelude.{
  ℕ, ◌+◌, ◌*◌, ◌<◌, ◌≤◌, pos, String, true, false, ◌≡◌, refl, ◌∙◌, none, some, arith,
}
use el_pulpo_ai.Store.Row.{
  Task, Db, Env, ok, err, pending, in_progress, completed, failed, not_owner,
}
use el_pulpo_ai.Store.Query.{find_task}
use el_pulpo_ai.Store.Query.Laws.{Unique, guarded}
use el_pulpo_ai.Store.Lifecycle.{
  held_by, heartbeat_set, heartbeat, progress_set, update_progress, non_empty, complete_set,
  report_result, retry_or_fail,
}
use el_pulpo_ai.Store.Lifecycle.Owner.{
  Holds, Holds-held_by, exec_hit, exec_miss, query_hit, query_miss, owner_only-state,
  success_flag-state, failure_flag-state, heartbeat_set-KeepsId, complete_set-KeepsId,
  retry_or_fail-KeepsId, success_flag-ok, failure_flag-ok,
}

-- Nobody, or somebody else, holds the task with the id.
abbrev pub NotHeld : String → ℕ → Db → Type 0
NotHeld w i db = guarded (held_by w) (find_task i db.tasks) ≡ none

module _ (env : Env) (w : String) (i : ℕ) (db : Db) (up : env.answers 0 ≡ true) where
  -- On a table with a primary key and a database that answers, of a caller that does not hold the
  -- task, the heartbeat, the progress note and both results are refused with ErrNotOwner, and the
  -- database is as before.
  pub NotHeld-refused :
      (note msg : String)
      → Unique db.tasks
      → NotHeld w i db
      → (heartbeat env w i db ≡ (db, err not_owner))
        × (update_progress env w i note db ≡ (db, err not_owner))
        × (report_result env w i true msg db ≡ (db, err not_owner))
        × (report_result env w i false msg db ≡ (db, err not_owner))
  unfolding heartbeat update_progress report_result
  NotHeld-refused note msg u h = (
    rw (exec_miss env i (held_by w) (heartbeat_set env.now) db up u h),
    rw (exec_miss env i (held_by w) (progress_set env.now (non_empty note)) db up u h),
    rw (exec_miss env i (held_by w) (complete_set env.now) db up u h),
    rw (query_miss env i (held_by w) (retry_or_fail env.now msg) db up u h),
  )

  module _ (t : Task) (there : find_task i db.tasks ≡ some t) (held : Holds w t) where
    -- The holder's heartbeat, if the database answers it, is accepted; the task is in progress
    -- from then on, with a new lease, and otherwise unchanged.
    pub heartbeat_accepted :
        ((heartbeat env w i db).1 ≡ ok tt)
        × (find_task i (heartbeat env w i db).0.tasks
            ≡ some (record t {
              last_heartbeat_at = some env.now;
              status = in_progress;
              updated_at = env.now;
            }))
    unfolding heartbeat
    heartbeat_accepted =
        let (reply, row) =
          exec_hit env i (held_by w) (heartbeat_set env.now) db up t (heartbeat_set-KeepsId env.now)
            there (Holds-held_by w t held) in
        (reply, rw (owner_only-state _, row) (unfold heartbeat_set in ground arith))

    -- The holder's note is accepted, and does what a heartbeat does.
    pub progress_accepted :
        (note : String)
        → let (db', reply) = update_progress env w i note db in
          (reply ≡ ok tt)
          × (find_task i db'.tasks
              ≡ some (record t {
                progress_note = non_empty note;
                last_heartbeat_at = some env.now;
                status = in_progress;
                updated_at = env.now;
              }))
    unfolding update_progress
    progress_accepted note =
        let f = progress_set env.now (non_empty note) in
        let (reply, row) =
          exec_hit env i (held_by w) f db up t (λ t. unfold progress_set in refl) there
            (Holds-held_by w t held) in
        (reply, rw (owner_only-state _, row) (unfold progress_set in ground arith))

    -- The holder's report of success, if the database answers it, completes the task at that time
    -- and clears its last error; the reply is "not terminal".
    pub success_accepted :
        (msg : String)
        → ((report_result env w i true msg db).1 ≡ ok false)
          × (find_task i (report_result env w i true msg db).0.tasks
              ≡ some (record t {
                status = completed;
                completed_at = some env.now;
                last_error = none;
                updated_at = env.now;
              }))
    unfolding report_result
    success_accepted msg =
        let (reply, row) =
          exec_hit env i (held_by w) (complete_set env.now) db up t (complete_set-KeepsId env.now)
            there (Holds-held_by w t held) in
        (
          success_flag-ok _ reply,
          rw (success_flag-state _, owner_only-state _, row) (unfold complete_set in refl),
        )

    pub failure_accepted :
        (msg : String) (m : ℕ)
        → t.max_attempts ≡ pos m
        → let (db', reply) = report_result env w i false msg db in
          (t.attempt_count < m
            → (reply ≡ ok false)
              × (find_task i db'.tasks
                  ≡ some (record t {
                    status = pending;
                    scheduled_for = some (env.now + t.attempt_count * 30 * 1000000);
                    claimed_by = none;
                    claimed_at = none;
                    last_heartbeat_at = none;
                    last_error = some msg;
                    updated_at = env.now;
                  })))
          × (m ≤ t.attempt_count
              → (reply ≡ ok true)
                × (find_task i db'.tasks
                    ≡ some (record t {
                      status = failed;
                      last_error = some msg;
                      updated_at = env.now;
                    })))
    unfolding report_result
    failure_accepted msg m e =
        let (reply, row) =
          query_hit env i (held_by w) (retry_or_fail env.now msg) db up t
            (retry_or_fail-KeepsId env.now msg) there (Holds-held_by w t held) in
        let flag = failure_flag-ok _ _ reply in
        (
          λ lt. (
            flag ∙ unfold retry_or_fail in ground arith,
            rw (failure_flag-state _, row) (unfold retry_or_fail in ground arith),
          ),
          λ le. (
            flag ∙ unfold retry_or_fail in ground arith,
            rw (failure_flag-state _, row) (unfold retry_or_fail in ground arith),
          ),
        )
