-- ===== src/Store/Lifecycle/Owner.antt =====
-- What the holder of a claim gets, and what anybody else gets.
use el_pulpo_ai.Prelude.{
  ℕ, String, Bool, true, false, ◌≡◌, refl, ◌∙◌, Option, none, some, List, [], ◌∷◌, arith, holds_iff,
}
use el_pulpo_ai.Store.Row.{Task, Db, Env, Result, ok, err, failed, is_held, status_eq}
use el_pulpo_ai.Store.Query.{first_row, count_rows, find_task, by_id, exec_update, query_update}
use el_pulpo_ai.Store.Query.Laws.{
  KeepsId, Unique, find-update, find_id, first-by_id, guarded, update_none, count_some,
}
use el_pulpo_ai.Store.Lifecycle.{
  held_by, success_flag, failure_flag, owner_only, heartbeat_set, complete_set, retry_or_fail,
}

-- The caller's claim on a row.
abbrev pub Holds : String → Task → Type 0
Holds w t = (t.claimed_by ≡ some w) × (is_held t.status ≡ true)

pub Holds-held_by : (w : String) (t : Task) → Holds w t → held_by w t ≡ true
unfolding held_by
Holds-held_by w t h = ground (arith, (holds_iff t.claimed_by w).1 h.0)

pub held_by-Holds : (w : String) (t : Task) → held_by w t ≡ true → Holds w t
unfolding held_by
held_by-Holds w t h = ((holds_iff t.claimed_by w).0 (ground arith), ground arith)

pub found_first :
    (i : ℕ) (g : Task → Bool) (ts : List Task) (t : Task)
    → find_task i ts ≡ some t
    → g t ≡ true
    → first_row (by_id i g) ts ≡ some t
unfolding find_task
found_first i g [] t e h = absurd (cc e)
found_first i g (x ∷ xs) t e h = ground (arith, found_first i g xs t)

pub count_none : (p : Task → Bool) (ts : List Task) → first_row p ts ≡ none → count_rows p ts ≡ 0
unfolding first_row count_rows
count_none p [] h = refl
count_none p (t ∷ ts) h = ground (arith, count_none p ts)

module _ (env : Env) (i : ℕ) (g : Task → Bool) (f : Task → Task) (db : Db)
    (up : env.answers 0 ≡ true) where
  -- A statement by id whose guard holds of the row.
  pub exec_hit :
      (t : Task)
      → KeepsId f
      → find_task i db.tasks ≡ some t
      → g t ≡ true
      → ((owner_only (exec_update env 0 (by_id i g) f db)).1 ≡ ok tt)
        × (find_task i (exec_update env 0 (by_id i g) f db).0.tasks ≡ some (f t))
  unfolding exec_update
  exec_hit t k e h = (
    rw up (rw (count_some (by_id i g) db.tasks (found_first i g db.tasks t e h))),
    rw (up, find-update (by_id i g) f k i db.tasks, e)
        (ground (arith, find_id i db.tasks {t = t} e)),
  )

  -- A statement by id that finds no row for which its guard holds.
  pub exec_miss :
      Unique db.tasks
      → guarded g (find_task i db.tasks) ≡ none
      → exec_update env 0 (by_id i g) f db ≡ (db, ok 0)
  unfolding exec_update
  exec_miss u h =
      let m = first-by_id i g db.tasks u ∙ h in
      rw (up, update_none (by_id i g) f db.tasks m, count_none (by_id i g) db.tasks m)

  pub query_hit :
      (t : Task)
      → KeepsId f
      → find_task i db.tasks ≡ some t
      → g t ≡ true
      → ((query_update env 0 (by_id i g) f db).1 ≡ ok (some (f t)))
        × (find_task i (query_update env 0 (by_id i g) f db).0.tasks ≡ some (f t))
  unfolding query_update
  query_hit t k e h = (
    rw (up, found_first i g db.tasks t e h),
    rw (up, find-update (by_id i g) f k i db.tasks, e)
        (ground (arith, find_id i db.tasks {t = t} e)),
  )

  pub query_miss :
      Unique db.tasks
      → guarded g (find_task i db.tasks) ≡ none
      → query_update env 0 (by_id i g) f db ≡ (db, ok none)
  unfolding query_update
  query_miss u h =
      let m = first-by_id i g db.tasks u ∙ h in rw (up, update_none (by_id i g) f db.tasks m, m)

-- The replies hand on the database that the statement leaves.
pub owner_only-state : (x : Db × Result ℕ) → (owner_only x).0 ≡ x.0
owner_only-state (db, ok n) = refl
owner_only-state (db, err e) = refl

pub success_flag-state : (x : Db × Result (Unit {0})) → (success_flag x).0 ≡ x.0
success_flag-state (db, ok n) = refl
success_flag-state (db, err e) = refl

pub failure_flag-state : (x : Db × Result (Option Task)) → (failure_flag x).0 ≡ x.0
failure_flag-state (db, ok none) = refl
failure_flag-state (db, ok (some t)) = refl
failure_flag-state (db, err e) = refl

pub heartbeat_set-KeepsId : (now : ℕ) → KeepsId (heartbeat_set now)
unfolding heartbeat_set
heartbeat_set-KeepsId now t = refl

pub complete_set-KeepsId : (now : ℕ) → KeepsId (complete_set now)
unfolding complete_set
complete_set-KeepsId now t = refl

pub retry_or_fail-KeepsId : (now : ℕ) (msg : String) → KeepsId (retry_or_fail now msg)
unfolding retry_or_fail
retry_or_fail-KeepsId now msg t = ground arith

pub success_flag-ok : (x : Db × Result (Unit {0})) → x.1 ≡ ok tt → (success_flag x).1 ≡ ok false
success_flag-ok (db, ok n) e = refl
success_flag-ok (db, err y) e = cc

pub failure_flag-ok :
    (x : Db × Result (Option Task)) (t : Task)
    → x.1 ≡ ok (some t)
    → (failure_flag x).1 ≡ ok (status_eq t.status failed)
failure_flag-ok (db, ok none) t e = cc
failure_flag-ok (db, ok (some u)) t e = ground arith
failure_flag-ok (db, err y) t e = cc
