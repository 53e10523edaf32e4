-- ===== src/Store/History/Change/Rows.antt =====
-- The calls that update rows, and their shapes.
use el_pulpo_ai.Prelude.{
  ℕ, String, str_eq, Bool, true, false, ◌≡◌, refl, inl, inr, some, All, All-of, arith, Bool-cases,
  holds_iff,
}
use el_pulpo_ai.Store.Row.{Task, Db, Env, in_progress, pr_opened, is_pending, is_idle}
use el_pulpo_ai.Store.Query.{exec_update, query_update, by_id}
use el_pulpo_ai.Store.Query.Laws.{KeepsId}
use el_pulpo_ai.Store.Transitions.{
  is_parked, allowed-open_pr, allowed-set_jira_url, allowed-request_review, allowed-finalize,
}
use el_pulpo_ai.Store.Lifecycle.{
  lease_expired, held_by, heartbeat, update_progress, report_result, reap_stale,
}
use el_pulpo_ai.Store.Lifecycle.Owner.{
  Holds, held_by-Holds, owner_only-state, success_flag-state, failure_flag-state,
  retry_or_fail-KeepsId,
}
use el_pulpo_ai.Store.Park.{
  target_status, owner_may, admin_may, open_pr, set_jira_url, request_review, finalize_task,
}
use el_pulpo_ai.Store.Park.Replies.{transition_only-state}
use el_pulpo_ai.Store.History.Change.{
  RowStep, Change, beaten, noted, done, given_up, reaped, parked, ticketed, reviewed, finalized,
  same, rows,
}

module _ (env : Env) (p : Task → Bool) (f : Task → Task) (db : Db) (k : KeepsId f) where
  exec-Change :
      (n : ℕ)
      → ((t : Task) → p t ≡ true → RowStep env.now t (f t))
      → Change env.now db (exec_update env n p f db).0
  unfolding exec_update
  exec-Change n step = elim (Bool-cases (env.answers n)) [
    | inl e ↦ rw e (rows p f k (All-of _ db.tasks step) refl)
    | inr e ↦ rw e (same refl)
  ]

  pub query-Change :
      (n : ℕ)
      → All (λ (t : Task). p t ≡ true → RowStep env.now t (f t)) db.tasks
      → Change env.now db (query_update env n p f db).0
  unfolding query_update
  query-Change n step = elim (Bool-cases (env.answers n)) [
    | inl e ↦ rw e (rows p f k step refl)
    | inr e ↦ rw e (same refl)
  ]

-- The WHERE clause of a holder's statement.
by_holder : (w : String) (i : ℕ) (t : Task) → by_id i (held_by w) t ≡ true → Holds w t
by_holder w i t h = held_by-Holds w t (ground arith)

module _ (env : Env) (w : String) (i : ℕ) (db : Db) where
  pub heartbeat-Change : Change env.now db (heartbeat env w i db).0
  unfolding heartbeat
  heartbeat-Change =
      rw (owner_only-state _)
        (exec-Change env _ _ db (λ t. refl) 0 (λ t h. beaten w (by_holder w i t h) refl))

  pub update_progress-Change :
      (note : String) → Change env.now db (update_progress env w i note db).0
  unfolding update_progress
  update_progress-Change note =
      rw (owner_only-state _)
        (exec-Change env _ _ db (λ t. refl) 0 (λ t h. noted w _ (by_holder w i t h) refl))

  pub report_result-Change :
      (success : Bool) (msg : String) → Change env.now db (report_result env w i success msg db).0
  unfolding report_result
  report_result-Change true msg =
      rw (success_flag-state _, owner_only-state _)
        (exec-Change env _ _ db (λ t. refl) 0 (λ t h. done w (by_holder w i t h) refl))
  report_result-Change false msg = rw (failure_flag-state _) (
      query-Change env _ _ db (retry_or_fail-KeepsId env.now msg) 0
        (All-of _ db.tasks (λ t h. given_up w msg (by_holder w i t h) refl)))

  pub open_pr-Change : (url : String) → Change env.now db (open_pr env w i url db).0
  unfolding open_pr
  open_pr-Change url = elim (Bool-cases (str_eq url "")) [
    | inl e ↦ rw e (same refl)
    | inr e ↦
        rw (e, owner_only-state _)
          (exec-Change env _ _ db (λ t. refl) 0 (λ t h. parked w url (owner t h) (status t h) refl))
  ]
    where
      owner : (t : Task) → by_id i (owner_may w "open_pr") t ≡ true → t.claimed_by ≡ some w
      owner t h = (holds_iff t.claimed_by w).0 (ground arith)

      status : (t : Task) → by_id i (owner_may w "open_pr") t ≡ true → t.status ≡ in_progress
      status t h = ground (arith, allowed-open_pr t.status)

  pub set_jira_url-Change : (url : String) → Change env.now db (set_jira_url env w i url db).0
  unfolding set_jira_url
  set_jira_url-Change url =
      rw (owner_only-state _)
        (exec-Change env _ _ db (λ t. refl) 0 (λ t h. ticketed w _ (owner t h) refl))
    where
      owner : (t : Task) → by_id i (owner_may w "set_jira_url") t ≡ true → Holds w t
      owner t h = (
        (holds_iff t.claimed_by w).0 (ground arith),
        ground (arith, allowed-set_jira_url t.status),
      )

pub reap_stale-Change :
    (env : Env) (visibility : ℕ) (db : Db) → Change env.now db (reap_stale env visibility db).0
unfolding reap_stale
reap_stale-Change env visibility db = elim (Bool-cases (env.answers 0)) [
  | inl e ↦ rw e (
      rows _ _ (retry_or_fail-KeepsId env.now lease_expired)
        (All-of _ db.tasks (λ t h. reaped visibility lease_expired h refl)) refl)
  | inr e ↦ rw e (same refl)
]

module _ (env : Env) (i : ℕ) (db : Db) where
  pub request_review-Change : Change env.now db (request_review env i db).0
  unfolding request_review
  request_review-Change =
      rw (transition_only-state env i _)
        (exec-Change env _ _ db (λ t. refl) 0 (λ t h. reviewed (status t h) refl))
    where
      status : (t : Task) → by_id i (admin_may "request_review") t ≡ true → t.status ≡ pr_opened
      status t h = ground (arith, allowed-request_review t.status)

  pub finalize_task-Change :
      (success : Bool) (msg : String) → Change env.now db (finalize_task env i success msg db).0
  unfolding finalize_task
  finalize_task-Change success msg = rw (transition_only-state env i _) (
      exec-Change env _ _ db (λ t. refl) 0
        (λ t h. finalized _ _ (idle success) (settled success) (status t h) refl))
    where
      idle : (b : Bool) → is_idle (target_status b) ≡ true
      idle true = refl
      idle false = refl

      settled : (b : Bool) → is_pending (target_status b) ≡ false
      settled true = refl
      settled false = refl

      status : (t : Task) → by_id i (admin_may "finalize") t ≡ true → is_parked t.status ≡ true
      status t h = ground (arith, allowed-finalize t.status)
