-- ===== src/Store/Query.antt =====
-- The SQL statements that the store issues, over the table as a list of rows: UPDATE with its WHERE
-- and RETURNING clauses, DELETE, SELECT by id, count(*), ORDER BY. Where rows tie under ORDER BY,
-- PostgreSQL may choose any order; here they keep the order of the table.
pub mod Laws
pub mod Order
pub mod Reordered
use el_pulpo_ai.Prelude.{
  ℕ, suc, Bool, true, false, not, ◌&&◌, Option, none, some, List, [], ◌∷◌, ◌==◌, if◌then◌else◌,
}
use el_pulpo_ai.Store.Row.{Task, Db, Env, Result, ok, err, db_error}

module _ {ℓ} {A : Type ℓ} where
  -- UPDATE … SET … WHERE: `p` is the WHERE clause, `f` the SET clause.
  unfoldable pub update_rows : (A → Bool) → (A → A) → List A → List A
  update_rows p f [] = []
  update_rows p f (t ∷ ts) = (if p t then f t else t) ∷ update_rows p f ts

  -- The first row that a WHERE clause selects.
  unfoldable pub first_row : (A → Bool) → List A → Option A
  first_row p [] = none
  first_row p (t ∷ ts) = if p t then some t else first_row p ts

  -- SELECT … WHERE.
  unfoldable pub select_rows : (A → Bool) → List A → List A
  select_rows p [] = []
  select_rows p (t ∷ ts) = let rest = select_rows p ts in if p t then t ∷ rest else rest

  -- count(*), and RowsAffected.
  unfoldable pub count_rows : (A → Bool) → List A → ℕ
  count_rows p [] = 0
  count_rows p (t ∷ ts) = let rest = count_rows p ts in if p t then suc rest else rest

  -- ORDER BY, by the test "comes strictly before".
  unfoldable pub place : (A → A → Bool) → A → List A → List A
  place before x [] = x ∷ []
  place before x (y ∷ ys) =
      let rest = y ∷ place before x ys in if before y x then rest else x ∷ y ∷ ys

  unfoldable pub order_by : (A → A → Bool) → List A → List A
  unfolding place
  order_by before [] = []
  order_by before (x ∷ xs) = place before x (order_by before xs)

-- WHERE id = $1.
abbrev pub has_id : ℕ → Task → Bool
has_id i t = t.id == i

-- WHERE id = $1 AND ….
abbrev pub by_id : ℕ → (Task → Bool) → Task → Bool
by_id i g t = t.id == i && g t

unfoldable pub find_task : ℕ → List Task → Option Task
unfolding first_row
find_task i ts = first_row (has_id i) ts

-- pool.Exec of an UPDATE, as the n-th statement of a call: the number of rows affected.
unfoldable pub exec_update : Env → ℕ → (Task → Bool) → (Task → Task) → Db → Db × Result ℕ
unfolding update_rows count_rows
exec_update env n p f db =
    if env.answers n
    then (record db { tasks = update_rows p f db.tasks }, ok (count_rows p db.tasks))
    else (db, err db_error)

abbrev pub set_row : (Task → Task) → Option Task → Option Task
set_row f none = none
set_row f (some t) = some (f t)

-- pool.QueryRow of an UPDATE … RETURNING: the first row that is returned, `none` for ErrNoRows.
unfoldable pub query_update :
    Env → ℕ → (Task → Bool) → (Task → Task) → Db → Db × Result (Option Task)
unfolding update_rows first_row
query_update env n p f db =
    if env.answers n
    then (record db { tasks = update_rows p f db.tasks }, ok (set_row f (first_row p db.tasks)))
    else (db, err db_error)
