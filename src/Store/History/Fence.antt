-- ===== src/Store/History/Fence.antt =====
-- Fencing: the calls of a worker, and the tasks of others. A line of the log is not fenced by the statement that
-- writes it, and is left out.
use el_pulpo_ai.Prelude.{
  ℕ, String, str_eq, Bool, true, false, ◌≡◌, refl, ◌≢◌, inl, inr, Option, some, arith, Bool-cases,
  holds, holds_iff, if_both,
}
use el_pulpo_ai.Store.Row.{Task, Db, Env, Result}
use el_pulpo_ai.Store.Query.{find_task, exec_update, query_update, by_id}
use el_pulpo_ai.Store.Query.Laws.{KeepsId, find-update}
use el_pulpo_ai.Store.Tasks.{PayloadCodec}
use el_pulpo_ai.Store.Lifecycle.{held_by, heartbeat, update_progress, report_result, heartbeat_set}
use el_pulpo_ai.Store.Lifecycle.Owner.{
  owner_only-state, success_flag-state, failure_flag-state, heartbeat_set-KeepsId,
  retry_or_fail-KeepsId,
}
use el_pulpo_ai.Store.Park.{owner_may, open_pr, set_jira_url}
use el_pulpo_ai.Store.History.{Call, beats, notes, reports, opens, sets_jira, apply}

-- The calls of a worker about a task that it has claimed.
pub data ByHolder (w : String) : Call → Type 0 where
  beats_by : (i : ℕ) → ByHolder w (beats w i)
  notes_by : (i : ℕ) (note : String) → ByHolder w (notes w i note)
  reports_by : (i : ℕ) (success : Bool) (msg : String) → ByHolder w (reports w i success msg)
  opens_by : (i : ℕ) (url : String) → ByHolder w (opens w i url)
  sets_jira_by : (i : ℕ) (url : String) → ByHolder w (sets_jira w i url)

not_holds : (o : Option String) (w : String) → o ≢ some w → holds o w ≡ false
not_holds o w h = elim (Bool-cases (holds o w)) [
  | inl e ↦ absurd (h ((holds_iff o w).0 e))
  | inr e ↦ e
]

module _ (env : Env) (i : ℕ) (db : Db) (t : Task) (h : find_task i db.tasks ≡ some t) where
  exec-untouched :
      (n : ℕ) (p : Task → Bool) (f : Task → Task)
      → KeepsId f
      → p t ≡ false
      → find_task i (exec_update env n p f db).0.tasks ≡ some t
  unfolding exec_update
  exec-untouched n p f k e = elim (Bool-cases (env.answers n)) [
    | inl q ↦ rw (q, find-update p f k i db.tasks, h) (rw e)
    | inr q ↦ rw q h
  ]

  query-untouched :
      (n : ℕ) (p : Task → Bool) (f : Task → Task)
      → KeepsId f
      → p t ≡ false
      → find_task i (query_update env n p f db).0.tasks ≡ some t
  unfolding query_update
  query-untouched n p f k e = elim (Bool-cases (env.answers n)) [
    | inl q ↦ rw (q, find-update p f k i db.tasks, h) (rw e)
    | inr q ↦ rw q h
  ]

  module _ (w : String) (other : t.claimed_by ≢ some w) where
    not_held : (j : ℕ) → by_id j (held_by w) t ≡ false
    unfolding held_by
    not_held j = ground (arith, not_holds t.claimed_by w other)

    not_owned : (j : ℕ) (a : String) → by_id j (owner_may w a) t ≡ false
    unfolding owner_may
    not_owned j a = ground (arith, not_holds t.claimed_by w other)

-- A heartbeat, note, result, pull request or ticket of a worker leaves every task that it has not
-- claimed as it is, whoever else holds it.
pub apply-untouched :
    (c : PayloadCodec) (env : Env) (w : String) (call : Call) (db : Db) (i : ℕ) (t : Task)
    → ByHolder w call
    → find_task i db.tasks ≡ some t
    → t.claimed_by ≢ some w
    → find_task i (apply c env call db).tasks ≡ some t
unfolding apply heartbeat update_progress report_result open_pr set_jira_url
apply-untouched c env w call db i t (beats_by j) h o = rw (owner_only-state _) (
    exec-untouched env i db t h 0 _ (heartbeat_set env.now) (heartbeat_set-KeepsId env.now)
      (not_held env i db t h w o j))
apply-untouched c env w call db i t (notes_by j note) h o =
    rw (owner_only-state _)
      (exec-untouched env i db t h 0 _ _ (λ t. refl) (not_held env i db t h w o j))
apply-untouched c env w call db i t (reports_by j true msg) h o =
    rw (success_flag-state _, owner_only-state _)
      (exec-untouched env i db t h 0 _ _ (λ t. refl) (not_held env i db t h w o j))
apply-untouched c env w call db i t (reports_by j false msg) h o = rw (failure_flag-state _) (
    query-untouched env i db t h 0 _ _ (retry_or_fail-KeepsId env.now msg)
      (not_held env i db t h w o j))
apply-untouched c env w call db i t (opens_by j url) h o =
    if_both (λ (r : Db × Result (Unit {0})). find_task i r.0.tasks ≡ some t) (str_eq url "") h
      (rw (owner_only-state _)
        (exec-untouched env i db t h 0 _ _ (λ t. refl) (not_owned env i db t h w o j "open_pr")))
apply-untouched c env w call db i t (sets_jira_by j url) h o =
    rw (owner_only-state _)
      (exec-untouched env i db t h 0 _ _ (λ t. refl) (not_owned env i db t h w o j "set_jira_url"))
