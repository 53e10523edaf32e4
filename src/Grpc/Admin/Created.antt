-- ===== src/Grpc/Admin/Created.antt =====
-- What an administrator gets who creates a task: the row as it can be read again; and the names of the statuses.
use el_pulpo_ai.Prelude.{
  ℕ, String, Bool, true, ◌≡◌, refl, sym, ap, subst, ◌∙◌, ◌↔◌, eq_iff, Option, none, some, List, [],
  ◌∷◌, ◌++◌, if_both, arith,
}
use el_pulpo_ai.Store.Row.{
  Task, Db, Env, Result, ok, err, TaskStatus, pending, claimed, in_progress, pr_opened,
  review_requested, completed, failed,
}
use el_pulpo_ai.Store.Query.{find_task}
use el_pulpo_ai.Store.Transitions.{status_name}
use el_pulpo_ai.Store.Tasks.{
  PayloadCodec, NewTaskInput, new_row, insert_row, insert_task, create_task, validate_create_input,
  payload_or_empty, get_task, get_task_at,
}
use el_pulpo_ai.Grpc.Status.{Reply, response, Mastermind, UuidCodec, create_code, reply_by}
use el_pulpo_ai.Grpc.Server.{served}
use el_pulpo_ai.Grpc.Admin.{
  CreateTaskRequest, TaskDetail, to_task_detail, valid_create, create_input, known_status,
  admin_create_task, admin_get_task,
}

find_last :
    (t : Task) (ts : List Task) → find_task t.id ts ≡ none → find_task t.id (ts ++ t ∷ []) ≡ some t
unfolding find_task
find_last t [] h = ground arith
find_last t (x ∷ xs) h = ground (arith, find_last t xs)

-- A reply with a row stands for a row of the table.
abbrev Stored : Task → Db × Result Task → Type 0
Stored t r = r.1 ≡ ok t → find_task t.id r.0.tasks ≡ some t

row_Stored :
    (t x : Task) (db : Db) (o : Option Task)
    → find_task x.id db.tasks ≡ o
    → Stored t (insert_row x db o)
unfolding insert_row
row_Stored t x db none free e =
    let same : x ≡ t = ground arith in
    subst (λ y. find_task y.id (db.tasks ++ x ∷ []) ≡ some y) same (find_last x db.tasks free)
row_Stored t x db (some y) free e = cc

task_Stored :
    (t : Task) (env : Env) (input : NewTaskInput) (db : Db) (o : Option String)
    → Stored t (insert_task env input db o)
unfolding insert_task new_row
task_Stored t env input db none e = cc
task_Stored t env input db (some p) e = row_Stored t (new_row env input p) db _ refl e

create_Stored :
    (c : PayloadCodec) (env : Env) (input : NewTaskInput) (db : Db) (t : Task)
    → Stored t (create_task c env input db)
unfolding create_task
create_Stored c env input db t =
    if_both (Stored t) (validate_create_input c input.payload)
      (if_both (Stored t) (env.answers 0)
        (task_Stored t env input db (c.jsonb (payload_or_empty input.payload))) (λ e. cc))
      (λ e. cc)

get_found :
    (u : UuidCodec) (env : Env) (t : Task) (s : Mastermind)
    → env.answers 0 ≡ true
    → u.parse (u.print t.id) ≡ some t.id
    → find_task t.id s.db.tasks ≡ some t
    → admin_get_task u env (u.print t.id) s ≡ (s, response (to_task_detail u t))
unfolding admin_get_task get_task get_task_at
get_found u env t s up reads h = rw reads (rw (up, h))

module _ (u : UuidCodec) (env : Env) (c : PayloadCodec) (json_valid : String → Bool)
    (r : CreateTaskRequest) (s : Mastermind) (d : TaskDetail) where
  -- What an accepted request says of the store: the row behind the reply, and that it is stored.
  Behind : Mastermind × Reply TaskDetail → Type 0
  Behind o =
      o.1 ≡ response d
      → (t : Task) × (d ≡ to_task_detail u t) × (find_task t.id o.0.db.tasks ≡ some t)

  served-Behind :
      (x : Db × Result Task)
      → ((t : Task) → Stored t x)
      → Behind (served s (reply_by create_code (to_task_detail u)) x)
  unfolding Behind
  served-Behind (db, ok t) h e = (t, ground arith, h t refl)
  served-Behind (db, err x) h e = cc

  read_again :
      (env' : Env) (o : Mastermind × Reply TaskDetail)
      → env'.answers 0 ≡ true
      → ((i : ℕ) → u.parse (u.print i) ≡ some i)
      → Behind o
      → o.1 ≡ response d
      → admin_get_task u env' d.id o.0 ≡ (o.0, response d)
  unfolding Behind to_task_detail
  read_again env' o up reads b e =
      let (t, same, stored) = b e in
      let id : u.print t.id ≡ d.id = ap (λ (x : TaskDetail). x.id) (sym same) in
      subst (λ i. admin_get_task u env' i o.0 ≡ (o.0, response d)) id
        (get_found u env' t o.0 up (reads t.id) stored ∙ ap (λ x. (o.0, response x)) (sym same))

  create-Behind : Behind (admin_create_task u env c json_valid r s)
  unfolding admin_create_task Behind
  create-Behind =
      if_both Behind (valid_create json_valid r)
        (served-Behind (create_task c env (create_input r) s.db)
          (λ t. create_Stored c env (create_input r) s.db t))
        (λ e. cc)

  -- A task whose creation was accepted can be read again at once by the id of the reply, and the
  -- detail is the one of the reply, if the printed form of a UUID is read as that UUID.
  pub created_is_found :
      (env' : Env)
      → env'.answers 0 ≡ true
      → ((i : ℕ) → u.parse (u.print i) ≡ some i)
      → (admin_create_task u env c json_valid r s).1 ≡ response d
      → let (s', reply) = admin_create_task u env c json_valid r s in
        admin_get_task u env' d.id s' ≡ (s', response d)
  created_is_found env' up reads e =
      read_again env' (admin_create_task u env c json_valid r s) up reads create-Behind e

  pub created_id :
      (admin_create_task u env c json_valid r s).1 ≡ response d → (i : ℕ) × (d.id ≡ u.print i)
  unfolding Behind to_task_detail
  created_id e =
      let (t, same, stored) = create-Behind e in (t.id, ap (λ (x : TaskDetail). x.id) same)

name_read : (t : TaskStatus) → known_status (status_name t) ≡ some t
unfolding known_status status_name
name_read pending = refl
name_read claimed = refl
name_read in_progress = refl
name_read pr_opened = refl
name_read review_requested = refl
name_read completed = refl
name_read failed = refl

read_name : (t : TaskStatus) (name : String) → known_status name ≡ some t → name ≡ status_name t
unfolding known_status status_name
read_name t name e = ground (
  arith,
  eq_iff name "pending",
  eq_iff name "claimed",
  eq_iff name "in_progress",
  eq_iff name "pr_opened",
  eq_iff name "review_requested",
  eq_iff name "completed",
  eq_iff name "failed",
)

-- The names of the statuses that the filter of ListTasks reads are those that a detail shows.
status_names :
    (t : TaskStatus) (name : String) → (known_status name ≡ some t) ↔ (name ≡ status_name t)
status_names t name = (read_name t name, λ e. ap known_status e ∙ name_read t)
