-- ===== src/Store/Edit/Admin.antt =====
-- The administrator's requeue and delete, branch by branch.
use el_pulpo_ai.Prelude.{ℕ, true, ◌≡◌, refl, ◌∙◌, Option, none, some, arith}
use el_pulpo_ai.Store.Row.{
  Task, Db, Env, Result, ok, err, StoreError, is_idle, not_found, not_requeueable, not_deletable,
}
use el_pulpo_ai.Store.Query.{find_task, count_rows}
use el_pulpo_ai.Store.Query.Laws.{Unique, guarded, first-by_id}
use el_pulpo_ai.Store.Tasks.{or_missing, get_task_at, found}
use el_pulpo_ai.Store.Edit.{requeue_task, delete_task, delete_task_where, requeue_set, returned}
use el_pulpo_ai.Store.Claim.{eligible}
use el_pulpo_ai.Store.Lifecycle.Owner.{query_hit, query_miss, count_none}

-- The reply to a write that no row was fit for.
abbrev pub unfit : StoreError → Option Task → StoreError
unfit e none = not_found
unfit e (some t) = e

found-unfit : (e : StoreError) (o : Option Task) → or_missing (found not_found o) e ≡ unfit e o
found-unfit e none = refl
found-unfit e (some t) = refl

pub returned-state :
    (env : Env) (i : ℕ) (e : StoreError) (x : Db × Result (Option Task))
    → (returned env i e x).0 ≡ x.0
returned-state env i e (db, ok none) = refl
returned-state env i e (db, ok (some t)) = refl
returned-state env i e (db, err x) = refl

returned-ok :
    (env : Env) (i : ℕ) (e : StoreError) (x : Db × Result (Option Task)) {t : Task}
    → x.1 ≡ ok (some t)
    → (returned env i e x).1 ≡ ok t
returned-ok env i e (db, ok none) h = cc
returned-ok env i e (db, ok (some u)) h = ground arith
returned-ok env i e (db, err x) h = cc

module _ (env : Env) (i : ℕ) (db : Db) (up : env.answers 0 ≡ true) (up' : env.answers 1 ≡ true)
    (u : Unique db.tasks) where
  pub refused_reply :
      (e : StoreError) → or_missing (get_task_at 1 env i db) e ≡ unfit e (find_task i db.tasks)
  unfolding get_task_at
  refused_reply e = rw up' (found-unfit e (find_task i db.tasks))

  -- On a table with a primary key and a database that answers, a requeue of a pending, completed
  -- or failed task puts it back into the queue as `requeue_set` says, and it is eligible at any
  -- time.
  pub requeue_accepted :
      (t : Task)
      → find_task i db.tasks ≡ some t
      → is_idle t.status ≡ true
      → let (db', reply) = requeue_task env i db in
        (reply ≡ ok (requeue_set env.now t))
        × (find_task i db'.tasks ≡ some (requeue_set env.now t))
        × ((now : ℕ) → eligible now (requeue_set env.now t) ≡ true)
  unfolding requeue_task
  requeue_accepted t h idle =
      let (reply, row) =
        query_hit env i (λ t. is_idle t.status) (requeue_set env.now) db up t
          (λ t. unfold requeue_set in refl) h idle in
      (
        returned-ok env i not_requeueable _ reply,
        rw (returned-state env i not_requeueable _, row),
        λ now. unfold eligible requeue_set in refl,
      )

  -- On a table with a primary key and a database that answers, the requeue of any other task is
  -- refused with ErrNotRequeueable, of an unknown id with ErrNotFound, and the database is as
  -- before.
  pub requeue_refused :
      guarded (λ t. is_idle t.status) (find_task i db.tasks) ≡ none
      → requeue_task env i db ≡ (db, err (unfit not_requeueable (find_task i db.tasks)))
  unfolding requeue_task
  requeue_refused h =
      rw (query_miss env i (λ t. is_idle t.status) (requeue_set env.now) db up u h)
        (rw (refused_reply not_requeueable))

  -- On a table with a primary key and a database that answers, the delete of any other task is
  -- refused with ErrNotDeletable, of an unknown id with ErrNotFound, and the database is as
  -- before.
  pub delete_refused :
      guarded (λ t. is_idle t.status) (find_task i db.tasks) ≡ none
      → delete_task env i db ≡ (db, err (unfit not_deletable (find_task i db.tasks)))
  unfolding delete_task
  delete_refused h =
      let none_fit : count_rows (delete_task_where i) db.tasks ≡ 0 =
        unfold delete_task_where in
        count_none _ db.tasks (first-by_id i (λ t. is_idle t.status) db.tasks u ∙ h) in
      rw (up, none_fit) (rw (refused_reply not_deletable))
