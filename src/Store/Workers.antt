-- ===== src/Store/Workers.antt =====
-- The workers as the tasks table shows them, internal/mastermind/store/workers.go.
use el_pulpo_ai.Prelude.{
  ℕ, String, str_eq, Bool, true, false, not, ◌&&◌, ◌||◌, Option, none, some, List, [], ◌∷◌, map,
  ltb, if◌then◌else◌, holds,
}
use el_pulpo_ai.Store.Row.{
  Task, Db, Env, Result, ok, err, completed, failed, status_eq, is_held, db_error,
}
use el_pulpo_ai.Store.Query.{select_rows, count_rows, order_by}

pub record WorkerInfo : Type 0 where
  pub id : String
  pub active_tasks : ℕ
  pub completed_tasks : ℕ
  pub failed_tasks : ℕ
  pub last_seen_at : Option ℕ

has_name : String → List String → Bool
has_name w [] = false
has_name w (v ∷ vs) = str_eq v w || has_name w vs

add_owner : Option String → List String → List String
unfolding has_name
add_owner none ws = ws
add_owner (some w) ws = if has_name w ws then ws else w ∷ ws

-- GROUP BY claimed_by, without the rows where it is NULL.
unfoldable pub owners : List Task → List String
unfolding add_owner
owners [] = []
owners (t ∷ ts) = add_owner t.claimed_by (owners ts)

-- COALESCE.
abbrev pub or_else {ℓ} : {A : Type ℓ} → Option A → Option A → Option A
or_else none b = b
or_else (some a) b = some a

unfoldable pub seen_at : Task → Option ℕ
seen_at t = or_else t.last_heartbeat_at (or_else t.claimed_at t.completed_at)

-- MAX, which passes over NULL.
later : Option ℕ → Option ℕ → Option ℕ
later none b = b
later (some a) none = some a
later (some a) (some b) = if ltb a b then some b else some a

unfoldable pub max_seen : List Task → Option ℕ
unfolding later seen_at
max_seen [] = none
max_seen (t ∷ ts) = later (seen_at t) (max_seen ts)

-- The aggregates of one group.
unfoldable pub summary : List Task → String → WorkerInfo
unfolding count_rows select_rows max_seen
summary ts w = record {
  id = w;
  active_tasks = count_rows (λ t. holds t.claimed_by w && is_held t.status) ts;
  completed_tasks = count_rows (λ t. holds t.claimed_by w && status_eq t.status completed) ts;
  failed_tasks = count_rows (λ t. holds t.claimed_by w && status_eq t.status failed) ts;
  last_seen_at = max_seen (select_rows (λ t. holds t.claimed_by w) ts);
}

-- `last_seen_at DESC NULLS LAST`, with the next key where the times agree.
seen_before : Option ℕ → Option ℕ → Bool → Bool
seen_before none none tie = tie
seen_before none (some b) tie = false
seen_before (some a) none tie = true
seen_before (some a) (some b) tie = ltb b a || (not (ltb a b) && tie)

-- The order of texts under the database's collation is given.
unfoldable pub worker_order : (String → String → Bool) → WorkerInfo → WorkerInfo → Bool
unfolding seen_before
worker_order collate a b = seen_before a.last_seen_at b.last_seen_at (collate a.id b.id)

unfoldable pub list_workers : (String → String → Bool) → Env → Db → Result (List WorkerInfo)
unfolding summary owners worker_order order_by
list_workers collate env db =
    if env.answers 0
    then ok (order_by (worker_order collate) (map (summary db.tasks) (owners db.tasks)))
    else err db_error
