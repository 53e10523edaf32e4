-- ===== src/Store/Park/Replies.antt =====
-- The transitions around a pull request, branch by branch.
use el_pulpo_ai.Prelude.{
  ℕ, String, str_eq, Bool, true, false, ◌≡◌, refl, ◌∙◌, none, some, if◌then◌else◌, holds_iff, arith,
}
use el_pulpo_ai.Store.Row.{
  Task, Db, Env, Result, ok, err, in_progress, pr_opened, review_requested, completed, failed,
  not_owner, invalid_transition,
}
use el_pulpo_ai.Store.Query.{find_task, by_id, exec_update}
use el_pulpo_ai.Store.Query.Laws.{KeepsId, Unique, guarded}
use el_pulpo_ai.Store.Transitions.{
  is_parked, allowed-open_pr, allowed-request_review, allowed-finalize,
}
use el_pulpo_ai.Store.Edit.Admin.{unfit, refused_reply}
use el_pulpo_ai.Store.Lifecycle.{owner_only, non_empty}
use el_pulpo_ai.Store.Lifecycle.Owner.{exec_hit, exec_miss, owner_only-state}
use el_pulpo_ai.Store.Park.{
  owner_may, admin_may, open_pr, open_pr_set, request_review, request_review_set, finalize_task,
  finalize_set, transition_only, target_status, error_param,
}

pub transition_only-state :
    (env : Env) (i : ℕ) (x : Db × Result ℕ) → (transition_only env i x).0 ≡ x.0
transition_only-state env i (db, ok n) = refl
transition_only-state env i (db, err e) = refl

-- Both wrappers take a write that touched a row for a success.
transition_only-ok :
    (env : Env) (i : ℕ) (x : Db × Result ℕ)
    → (owner_only x).1 ≡ ok tt
    → (transition_only env i x).1 ≡ ok tt
transition_only-ok env i (db, ok n) h = ground arith
transition_only-ok env i (db, err e) h = cc

module _ (env : Env) (i : ℕ) (db : Db) (up : env.answers 0 ≡ true) where
  -- An administrator's statement whose guard holds of the row.
  transition_hit :
      (g : Task → Bool) (f : Task → Task) (t : Task)
      → KeepsId f
      → find_task i db.tasks ≡ some t
      → g t ≡ true
      → let (db', reply) = transition_only env i (exec_update env 0 (by_id i g) f db) in
        (reply ≡ ok tt) × (find_task i db'.tasks ≡ some (f t))
  transition_hit g f t k h may =
      let x = exec_update env 0 (by_id i g) f db in
      let (reply, row) = exec_hit env i g f db up t k h may in
      (transition_only-ok env i x reply, rw (transition_only-state env i x, row))

  -- The holder of a task in progress opens a pull request with a URL, and the database answers:
  -- the task is parked with the URL, and the claim is released.
  open_pr_accepted :
      (w url : String) (t : Task)
      → str_eq url "" ≡ false
      → find_task i db.tasks ≡ some t
      → t.claimed_by ≡ some w
      → t.status ≡ in_progress
      → let (db', reply) = open_pr env w i url db in
        (reply ≡ ok tt)
        × (find_task i db'.tasks
            ≡ some (record t {
              status = pr_opened;
              github_pr_url = some url;
              claimed_by = none;
              claimed_at = none;
              last_heartbeat_at = none;
              updated_at = env.now;
            }))
  unfolding open_pr
  open_pr_accepted w url t given h owner working =
      let may : owner_may w "open_pr" t ≡ true =
        unfold owner_may in
        ground (arith, (holds_iff t.claimed_by w).1 owner, allowed-open_pr t.status) in
      let (reply, row) =
        exec_hit env i (owner_may w "open_pr") (open_pr_set env.now url) db up t
          (λ t. unfold open_pr_set in refl) h may in
      rw given (reply, rw (owner_only-state _, row) (unfold open_pr_set in refl))

  -- On a table with a primary key and a database that answers, opening a pull request with a URL
  -- for a task that is not in progress or not the caller's is refused with ErrNotOwner, and the
  -- database is as before.
  pub open_pr_refused :
      (w url : String)
      → str_eq url "" ≡ false
      → Unique db.tasks
      → guarded (owner_may w "open_pr") (find_task i db.tasks) ≡ none
      → open_pr env w i url db ≡ (db, err not_owner)
  unfolding open_pr
  open_pr_refused w url given u h =
      rw given (rw (exec_miss env i (owner_may w "open_pr") (open_pr_set env.now url) db up u h))

  -- If the database answers, a review can be requested of a task with an open pull request;
  -- nothing else of it changes but the time of the update.
  request_review_accepted :
      (t : Task)
      → find_task i db.tasks ≡ some t
      → t.status ≡ pr_opened
      → let (db', reply) = request_review env i db in
        (reply ≡ ok tt)
        × (find_task i db'.tasks
            ≡ some (record t { status = review_requested; updated_at = env.now }))
  unfolding request_review
  request_review_accepted t h opened =
      let (reply, row) =
        transition_hit (admin_may "request_review") (request_review_set env.now) t
          (λ t. unfold request_review_set in refl) h
          (unfold admin_may in ground (arith, allowed-request_review t.status)) in
      (reply, row ∙ unfold request_review_set in refl)

  module _ (t : Task) (there : find_task i db.tasks ≡ some t) (parked : is_parked t.status ≡ true)
      (msg : String) where
    may_finalize : admin_may "finalize" t ≡ true
    unfolding admin_may
    may_finalize = allowed-finalize t.status ∙ parked

    -- If the database answers, finalizing a parked task with success completes it and keeps its
    -- last error; with a failure it fails for good, whatever attempts it has left, and the last
    -- error is the message, if one is given.
    finalize_accepted :
        let (db', reply) = finalize_task env i true msg db in
        let (db'', reply') = finalize_task env i false msg db in
        (reply ≡ ok tt)
        × (find_task i db'.tasks
            ≡ some (record t {
              status = completed;
              completed_at = some env.now;
              updated_at = env.now;
            }))
        × (reply' ≡ ok tt)
        × (find_task i db''.tasks
            ≡ some (record t {
              status = failed;
              last_error = if str_eq msg "" then t.last_error else some msg;
              updated_at = env.now;
            }))
    unfolding finalize_task
    finalize_accepted =
        let (reply, row) =
          transition_hit (admin_may "finalize") (finalize_set env.now completed none) t
            (λ t. unfold finalize_set in refl) there may_finalize in
        let (reply', row') =
          transition_hit (admin_may "finalize") (finalize_set env.now failed (non_empty msg)) t
            (λ t. unfold finalize_set in refl) there may_finalize in
        (
          reply,
          row ∙ unfold finalize_set in refl,
          reply',
          row' ∙ unfold finalize_set in ground arith,
        )

  module _ (up' : env.answers 1 ≡ true) (u : Unique db.tasks) where
    -- On a table with a primary key and a database that answers, a review of a task that has no
    -- open pull request is refused with ErrInvalidTransition, of an unknown id with ErrNotFound,
    -- and the database is as before.
    review_refused :
        guarded (admin_may "request_review") (find_task i db.tasks) ≡ none
        → request_review env i db ≡ (db, err (unfit invalid_transition (find_task i db.tasks)))
    unfolding request_review
    review_refused h =
        rw (exec_miss env i (admin_may "request_review") (request_review_set env.now) db up u h)
          (rw (refused_reply env i db up up' u invalid_transition))

    -- On a table with a primary key and a database that answers, finalizing a task that is not
    -- parked is refused with ErrInvalidTransition, an unknown id with ErrNotFound, and the
    -- database is as before.
    finalize_refused :
        (success : Bool) (msg : String)
        → guarded (admin_may "finalize") (find_task i db.tasks) ≡ none
        → finalize_task env i success msg db
          ≡ (db, err (unfit invalid_transition (find_task i db.tasks)))
    unfolding finalize_task
    finalize_refused success msg h =
        rw
          (exec_miss env i (admin_may "finalize")
            (finalize_set env.now (target_status success) (error_param success msg)) db up u h)
          (rw (refused_reply env i db up up' u invalid_transition))
