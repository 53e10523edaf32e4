-- ===== src/Store/History/Change.antt =====
-- What a call may do to the table: the transition relation of a row, and the four shapes of a call.
pub mod Rows
pub mod Tables
use el_pulpo_ai.Prelude.{
  ℕ, pos, ◌<◌, ℤ, String, Bool, true, false, not, ◌≡◌, Option, none, some, List, [], ◌∷◌, ◌++◌, All,
}
use el_pulpo_ai.Store.Row.{
  Task, Db, Env, TaskStatus, pending, in_progress, pr_opened, is_pending, is_idle, is_held,
  status_eq,
}
use el_pulpo_ai.Store.Query.{update_rows, select_rows, find_task}
use el_pulpo_ai.Store.Query.Laws.{KeepsId}
use el_pulpo_ai.Store.Transitions.{is_parked}
use el_pulpo_ai.Store.Edit.{
  UpdateTaskInput, update_task_set, update_task_links_set, requeue_set, delete_task_where,
}
use el_pulpo_ai.Store.Claim.{eligible, claim_set}
use el_pulpo_ai.Store.Lifecycle.{heartbeat_set, progress_set, complete_set, retry_or_fail, stale}
use el_pulpo_ai.Store.Lifecycle.Owner.{Holds}
use el_pulpo_ai.Store.Park.{open_pr_set, set_jira_url_set, request_review_set, finalize_set}

-- One row, before and after, at a time.
pub data RowStep (now : ℕ) (t u : Task) : Type 0 where
  edited :
      (input : UpdateTaskInput) (payload : Option String)
      → is_pending t.status ≡ true
      → u ≡ update_task_set now input payload t
      → RowStep now t u
  linked : (jira pr : Option String) → u ≡ update_task_links_set now jira pr t → RowStep now t u
  requeued : is_idle t.status ≡ true → u ≡ requeue_set now t → RowStep now t u
  taken : (w : String) → eligible now t ≡ true → u ≡ claim_set now w t → RowStep now t u
  beaten : (w : String) → Holds w t → u ≡ heartbeat_set now t → RowStep now t u
  logged : u ≡ heartbeat_set now t → RowStep now t u
  noted :
      (w : String) (note : Option String)
      → Holds w t
      → u ≡ progress_set now note t
      → RowStep now t u
  done : (w : String) → Holds w t → u ≡ complete_set now t → RowStep now t u
  given_up : (w msg : String) → Holds w t → u ≡ retry_or_fail now msg t → RowStep now t u
  reaped :
      (visibility : ℕ) (msg : String)
      → stale now visibility t ≡ true
      → u ≡ retry_or_fail now msg t
      → RowStep now t u
  parked :
      (w url : String)
      → t.claimed_by ≡ some w
      → t.status ≡ in_progress
      → u ≡ open_pr_set now url t
      → RowStep now t u
  ticketed :
      (w : String) (url : Option String)
      → Holds w t
      → u ≡ set_jira_url_set now url t
      → RowStep now t u
  reviewed : t.status ≡ pr_opened → u ≡ request_review_set now t → RowStep now t u
  finalized :
      (target : TaskStatus) (error : Option String)
      → is_idle target ≡ true
      → is_pending target ≡ false
      → is_parked t.status ≡ true
      → u ≡ finalize_set now target error t
      → RowStep now t u

-- A row as CreateTask inserts it.
pub record IsNew (t : Task) : Type 0 where
  pub is_new_pending : t.status ≡ pending
  pub unclaimed : t.claimed_by ≡ none
  pub no_claim_time : t.claimed_at ≡ none
  pub no_heartbeat : t.last_heartbeat_at ≡ none
  pub not_completed : t.completed_at ≡ none
  pub no_attempt : t.attempt_count ≡ 0
  pub budget : (m : ℕ) × (t.max_attempts ≡ pos m) × (0 < m)

pub data Change (now : ℕ) (db db' : Db) : Type 0 where
  same : db'.tasks ≡ db.tasks → Change now db db'
  rows :
      (p : Task → Bool) (f : Task → Task)
      → KeepsId f
      → All (λ (t : Task). p t ≡ true → RowStep now t (f t)) db.tasks
      → db'.tasks ≡ update_rows p f db.tasks
      → Change now db db'
  inserted :
      (t : Task)
      → IsNew t
      → find_task t.id db.tasks ≡ none
      → db'.tasks ≡ db.tasks ++ t ∷ []
      → Change now db db'
  deleted :
      (i : ℕ)
      → db'.tasks ≡ select_rows (λ t. not (delete_task_where i t)) db.tasks
      → Change now db db'
