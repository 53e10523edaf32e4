-- ===== src/Store/History/Careful.antt =====
-- The calls of the store one by one: what each leaves behind if it is answered with an error.
use el_pulpo_ai.Prelude.{
  ℕ, String, str_eq, Bool, true, false, ◌≡◌, refl, ap, sym, ◌∙◌, ◌==◌, Option, none, some,
  if◌then◌else◌, if_both, arith,
}
use el_pulpo_ai.Store.Row.{
  Task, Db, Env, Result, ok, err, StoreError, not_owner, not_editable, not_requeueable, db_error,
  invalid_input, empty_pr_url,
}
use el_pulpo_ai.Store.Query.{
  update_rows, first_row, count_rows, exec_update, query_update, has_id, by_id, find_task, set_row,
}
use el_pulpo_ai.Store.Query.Laws.{update_none, count_zero}
use mathlib.Core.Bool.{true≢false}
use el_pulpo_ai.Store.Tasks.{
  PayloadCodec, NewTaskInput, create_task, insert_task, insert_row, new_row, validate_create_input,
  payload_or_empty,
}
use el_pulpo_ai.Store.Edit.{
  UpdateTaskInput, update_task, update_task_links, update_task_where, update_task_set,
  update_task_links_set, delete_task, delete_rows, delete_task_where, requeue_task, requeue_where,
  requeue_set, returned, returned_or_missing, jsonb_param,
}
use el_pulpo_ai.Store.Claim.{claim_task, claim_choice, claim_set, is_choice}
use el_pulpo_ai.Store.Lifecycle.{
  heartbeat, update_progress, report_result, report_success, report_failure, reap_stale, owner_only,
  success_flag, failure_flag, held_by, heartbeat_set, progress_set, non_empty, complete_set,
  retry_or_fail,
}
use el_pulpo_ai.Store.Park.{
  open_pr, set_jira_url, request_review, finalize_task, transition_only, owner_may, admin_may,
  open_pr_set, set_jira_url_set, request_review_set, finalize_set, target_status, error_param,
}

abbrev pub is_err : {A : Type 0} → Result A → Bool
is_err (ok a) = false
is_err (err e) = true

-- An error leaves the database as it was.
pub record Careful {A : Type 0} (db : Db) (x : Db × Result A) : Type 0 where
  pub kept : is_err x.1 ≡ true → x.0 ≡ db

module _ {A : Type 0} {db : Db} where
  pub either :
      (b : Bool) {x y : Db × Result A}
      → Careful db x
      → Careful db y
      → Careful db (if b then x else y)
  either b = if_both (Careful db) b

  failing : (e : StoreError) → Careful {A = A} db (db, err e)
  failing e = record { kept = λ h. refl }

  succeeding : (db' : Db) (a : A) → Careful db (db', ok a)
  succeeding db' a = record { kept = λ h. cc }

-- A write that touches no row.
module _ (p : Task → Bool) (f : Task → Task) (db : Db) where
  untouched : first_row p db.tasks ≡ none → record db { tasks = update_rows p f db.tasks } ≡ db
  untouched h = ap (λ ts. record db { tasks = ts }) (update_none p f db.tasks h)

  uncounted :
      (count_rows p db.tasks == 0) ≡ true → record db { tasks = update_rows p f db.tasks } ≡ db
  uncounted h = untouched (count_zero p db.tasks (ground arith))

err_if :
    (b : Bool) (e : StoreError)
    → is_err {A = Unit {0}} (if b then err e else ok tt) ≡ true
    → b ≡ true
err_if true e h = refl
err_if false e h = cc

module _ (env : Env) (p : Task → Bool) (f : Task → Task) (db : Db) where
  written : Db
  written = record db { tasks = update_rows p f db.tasks }

  by_count :
      (e : StoreError)
      → Careful {A = Unit {0}} db (written, if count_rows p db.tasks == 0 then err e else ok tt)
  unfolding written
  by_count e = record { kept = λ h. uncounted p f db (err_if (count_rows p db.tasks == 0) e h) }

  owned : Careful db (owner_only (exec_update env 0 p f db))
  unfolding exec_update written
  owned =
      if_both (λ x. Careful db (owner_only x)) (env.answers 0) (by_count not_owner)
        (failing db_error)

  moved : (i : ℕ) → Careful db (transition_only env i (exec_update env 0 p f db))
  unfolding exec_update written
  moved i =
      if_both (λ x. Careful db (transition_only env i x)) (env.answers 0) (by_count _)
        (failing db_error)

  -- A reading of the row that is returned, which makes an error of a missing one alone.
  module _ {B : Type 0} (read : Db × Result (Option Task) → Db × Result B)
      (lost : (d : Db) → (read (d, ok none)).0 ≡ d)
      (gone : (d : Db) (e : StoreError) → (read (d, err e)).0 ≡ d)
      (won : (d : Db) (t : Task) → is_err (read (d, ok (some t))).1 ≡ false) where
    by_row :
        (o : Option Task) → first_row p db.tasks ≡ o → Careful db (read (written, ok (set_row f o)))
    unfolding written
    by_row none h = record {
      kept = λ x. lost (record db { tasks = update_rows p f db.tasks }) ∙ untouched p f db h;
    }
    by_row (some t) h = record {
      kept = λ x.
          absurd (true≢false (sym x ∙ won (record db { tasks = update_rows p f db.tasks }) (f t)));
    }

    read_row : Careful db (read (query_update env 0 p f db))
    unfolding query_update written
    read_row =
        if_both (λ x. Careful db (read x)) (env.answers 0) (by_row (first_row p db.tasks) refl)
          (record { kept = λ h. gone db db_error })

  given_back : (i : ℕ) (e : StoreError) → Careful db (returned env i e (query_update env 0 p f db))
  given_back i e = read_row (returned env i e) (λ d. refl) (λ d x. refl) (λ d t. refl)

  flagged : Careful db (failure_flag (query_update env 0 p f db))
  flagged = read_row failure_flag (λ d. refl) (λ d x. refl) (λ d t. refl)

  linked : Careful db (returned_or_missing (query_update env 0 p f db))
  linked = read_row returned_or_missing (λ d. refl) (λ d x. refl) (λ d t. refl)

  chosen : Careful db (query_update env 0 p f db)
  unfolding query_update
  chosen = either (env.answers 0) (succeeding _ _) (failing db_error)

pub succeeded : (db : Db) (x : Db × Result (Unit {0})) → Careful db x → Careful db (success_flag x)
succeeded db (db', ok u) k = succeeding db' false
succeeded db (db', err e) k = record { kept = λ h. k.kept refl }

module _ (c : PayloadCodec) (env : Env) (db : Db) where
  create_row : (t : Task) (o : Option Task) → Careful db (insert_row t db o)
  unfolding insert_row
  create_row t none = succeeding _ t
  create_row t (some u) = failing db_error

  create_text : (input : NewTaskInput) (o : Option String) → Careful db (insert_task env input db o)
  unfolding insert_task
  create_text input none = failing db_error
  create_text input (some p) = create_row (new_row env input p) (find_task env.fresh_id db.tasks)

  pub create-Careful : (input : NewTaskInput) → Careful db (create_task c env input db)
  unfolding create_task
  create-Careful input =
      either (validate_create_input c input.payload)
        (either (env.answers 0) (create_text input (c.jsonb (payload_or_empty input.payload)))
          (failing db_error))
        (failing invalid_input)

  pub update-Careful : (i : ℕ) (input : UpdateTaskInput) → Careful db (update_task c env i input db)
  unfolding update_task
  update-Careful i input =
      elim (jsonb_param c input.payload)
        as (λ o. Careful {A = Task} db (elim o [
          | none ↦ (db, err db_error)
          | some payload ↦
              returned env i not_editable (
                query_update env 0 (update_task_where i) (update_task_set env.now input payload) db)
        ])) [
          | none ↦ failing db_error
          | some payload ↦
              given_back env (update_task_where i) (update_task_set env.now input payload) db i
                not_editable
        ]

  pub links-Careful :
      (i : ℕ) (jira pr : Option String) → Careful db (update_task_links env i jira pr db)
  unfolding update_task_links
  links-Careful i jira pr = linked env (has_id i) (update_task_links_set env.now jira pr) db

  pub delete-Careful : (i : ℕ) → Careful db (delete_task env i db)
  unfolding delete_task
  delete-Careful i =
      either (env.answers 0)
        (either (count_rows (delete_task_where i) db.tasks == 0) (failing _)
          (succeeding (delete_rows (delete_task_where i) i db) tt))
        (failing db_error)

  pub requeue-Careful : (i : ℕ) → Careful db (requeue_task env i db)
  unfolding requeue_task
  requeue-Careful i = given_back env (requeue_where i) (requeue_set env.now) db i not_requeueable

  pub review-Careful : (i : ℕ) → Careful db (request_review env i db)
  unfolding request_review
  review-Careful i =
      moved env (by_id i (admin_may "request_review")) (request_review_set env.now) db i

  pub finalize-Careful :
      (i : ℕ) (success : Bool) (msg : String) → Careful db (finalize_task env i success msg db)
  unfolding finalize_task
  finalize-Careful i success msg =
      moved env (by_id i (admin_may "finalize"))
        (finalize_set env.now (target_status success) (error_param success msg)) db i

  pub claim-Careful : (locked : Task → Bool) (w : String) → Careful db (claim_task env locked w db)
  unfolding claim_task
  claim-Careful locked w =
      chosen env (is_choice (claim_choice env.now locked db.tasks)) (claim_set env.now w) db

  pub heartbeat-Careful : (w : String) (i : ℕ) → Careful db (heartbeat env w i db)
  unfolding heartbeat
  heartbeat-Careful w i = owned env (by_id i (held_by w)) (heartbeat_set env.now) db

  pub progress-Careful :
      (w : String) (i : ℕ) (text : String) → Careful db (update_progress env w i text db)
  unfolding update_progress
  progress-Careful w i text =
      owned env (by_id i (held_by w)) (progress_set env.now (non_empty text)) db

  pub report-Careful :
      (w : String) (i : ℕ) (success : Bool) (msg : String)
      → Careful db (report_result env w i success msg db)
  unfolding report_result report_success report_failure
  report-Careful w i success msg =
      either success (succeeded db _ (owned env (by_id i (held_by w)) (complete_set env.now) db))
        (flagged env (by_id i (held_by w)) (retry_or_fail env.now msg) db)

  pub reap-Careful : (visibility : ℕ) → Careful db (reap_stale env visibility db)
  unfolding reap_stale
  reap-Careful visibility = either (env.answers 0) (succeeding _ _) (failing db_error)

  pub open-Careful : (w : String) (i : ℕ) (url : String) → Careful db (open_pr env w i url db)
  unfolding open_pr
  open-Careful w i url =
      either (str_eq url "") (failing empty_pr_url)
        (owned env (by_id i (owner_may w "open_pr")) (open_pr_set env.now url) db)

  pub jira-Careful : (w : String) (i : ℕ) (url : String) → Careful db (set_jira_url env w i url db)
  unfolding set_jira_url
  jira-Careful w i url =
      owned env (by_id i (owner_may w "set_jira_url")) (set_jira_url_set env.now (non_empty url)) db
