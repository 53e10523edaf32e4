-- ===== src/Http/Tasks.antt =====
-- The handlers that change tasks, internal/mastermind/httpserver/handlers.go: one function for each,
-- from the state of the mastermind to the state after it and the response.
use el_pulpo_ai.Prelude.{
  ℕ, String, str_eq, Bool, true, false, Option, none, some, if◌then◌else◌, trim_space, cut_slash,
  after_prefix, or_else,
}
use el_pulpo_ai.Store.Row.{
  Task, Db, Env, Result, ok, err, StoreError, not_found, invalid_input, not_editable, not_deletable,
  not_requeueable, invalid_transition,
}
use el_pulpo_ai.Store.Tasks.{NewTaskInput, create_task, get_task}
use el_pulpo_ai.Store.Edit.{
  UpdateTaskInput, update_task, update_task_links, delete_task, requeue_task,
}
use el_pulpo_ai.Store.Park.{request_review, finalize_task}
use el_pulpo_ai.Store.Dashboard.{after}
use el_pulpo_ai.Grpc.Status.{Mastermind}
use el_pulpo_ai.IssueRefs.{validate_jira, validate_pr}
use el_pulpo_ai.Http.{
  Verb, get, post, other_verb, PostedForm, Request, TaskForm, tasks_edit, Response, plain, redirect,
  page, aborted, WebLibraries,
}
use el_pulpo_ai.Http.Form.{ParsedForm, accepted, rejected, panicked, parse_task_form, link_field}
use el_pulpo_ai.Http.Pages.{
  missing_or, tasks_list_handler, tasks_fragment_handler, new_page, on_task, detail_page, task_url,
  read_only,
}

abbrev pub update_status : StoreError → ℕ
update_status not_found = 404
update_status _ = 500

abbrev pub delete_status : StoreError → ℕ
delete_status not_found = 404
delete_status not_deletable = 409
delete_status _ = 500

abbrev pub requeue_status : StoreError → ℕ
requeue_status not_found = 404
requeue_status not_requeueable = 409
requeue_status _ = 500

abbrev pub transition_status : StoreError → ℕ
transition_status not_found = 404
transition_status invalid_transition = 409
transition_status _ = 500

-- A store call, and what becomes of its reply.
abbrev pub then_reply {ℓ} :
    {A : Type ℓ}
    → Mastermind
    → (A → Response)
    → (StoreError → Response)
    → Db × Result A
    → Mastermind × Response
then_reply s done failed (db, ok a) = (record s { db = db }, done a)
then_reply s done failed (db, err e) = (record s { db = db }, failed e)

module _ {O : Type 0} (lib : WebLibraries O) (env : Env) where
  unfoldable pub create_failed : TaskForm → StoreError → Response
  unfolding new_page
  create_failed f invalid_input = page 400 (new_page lib env f true)
  create_failed f _ = page 500 (new_page lib env f true)

  unfoldable pub create_parsed : Mastermind → ParsedForm → Mastermind × Response
  unfolding create_failed new_page
  create_parsed s panicked = (s, aborted)
  create_parsed s (rejected f) = (s, page 400 (new_page lib env f true))
  create_parsed s (accepted f input) =
      then_reply s (λ t. redirect 303 "/tasks") (create_failed f)
        (create_task lib.payloads env input s.db)

  unfoldable pub tasks_create : Request → Mastermind → Mastermind × Response
  unfolding create_parsed parse_task_form
  tasks_create r s = create_parsed s (parse_task_form lib r.form)

  unfoldable pub tasks_collection : Request → Verb → Mastermind → Mastermind × Response
  unfolding tasks_list_handler tasks_create
  tasks_collection r get s = (s, tasks_list_handler lib env r s)
  tasks_collection r post s = tasks_create r s
  tasks_collection r other_verb s = (s, plain 405)

  -- A page on the task that is read, or the error.
  unfoldable pub render_detail_error : ℕ → ℕ → Mastermind → Response
  unfolding on_task detail_page
  render_detail_error code i s =
      on_task lib env (λ t. page code (detail_page lib env s.db i t "" true)) (get_task env i s.db)

  unfoldable pub edit_input : NewTaskInput → UpdateTaskInput
  edit_input input = record {
    name = input.name;
    priority = input.priority;
    max_attempts = input.max_attempts;
    scheduled_for = input.scheduled_for;
    payload = input.payload;
    jira_url = input.jira_url;
    github_pr_url = input.github_pr_url;
  }

  -- The form comes back without its task.
  unfoldable pub update_failed : TaskForm → StoreError → Response
  update_failed f not_editable =
      page 409 (tasks_edit (record { form = f; task = none; has_error = true }))
  update_failed f e = plain (missing_or 500 e)

  unfoldable pub update_parsed : ℕ → Mastermind → ParsedForm → Mastermind × Response
  unfolding update_failed edit_input task_url
  update_parsed i s panicked = (s, aborted)
  update_parsed i s (rejected f) = (s, plain 400)
  update_parsed i s (accepted f input) =
      then_reply s (λ t. redirect 303 (task_url lib env i)) (update_failed f)
        (update_task lib.payloads env i (edit_input input) s.db)

  unfoldable pub tasks_update : Request → ℕ → Mastermind → Mastermind × Response
  unfolding update_parsed parse_task_form
  tasks_update r i s = update_parsed i s (parse_task_form lib r.form)

  unfoldable pub links_checked :
      ℕ → Mastermind → Option (Option String) → Option (Option String) → Mastermind × Response
  unfolding render_detail_error task_url
  links_checked i s none pr = (s, render_detail_error 400 i s)
  links_checked i s (some jira) none = (s, render_detail_error 400 i s)
  links_checked i s (some jira) (some pr) =
      then_reply s (λ t. redirect 303 (task_url lib env i)) (λ e. plain (update_status e))
        (update_task_links env i jira pr s.db)

  unfoldable pub links_form : ℕ → Mastermind → Option PostedForm → Mastermind × Response
  unfolding links_checked link_field
  links_form i s none = (s, plain 400)
  links_form i s (some f) =
      links_checked i s (link_field validate_jira (trim_space (f.value "jira_url")))
        (link_field validate_pr (trim_space (f.value "github_pr_url")))

  unfoldable pub tasks_update_links : Request → ℕ → Mastermind → Mastermind × Response
  unfolding links_form
  tasks_update_links r i s = links_form i s r.form

  unfoldable pub tasks_delete : ℕ → Mastermind → Mastermind × Response
  tasks_delete i s =
      then_reply s (λ x. redirect 303 "/tasks") (λ e. plain (delete_status e))
        (delete_task env i s.db)

  unfoldable pub tasks_request_review : ℕ → Mastermind → Mastermind × Response
  unfolding task_url
  tasks_request_review i s =
      then_reply s (λ x. redirect 303 (task_url lib env i)) (λ e. plain (transition_status e))
        (request_review env i s.db)

  unfoldable pub finalize_as : ℕ → Bool → String → Mastermind → Mastermind × Response
  unfolding task_url
  finalize_as i success message s =
      then_reply s (λ x. redirect 303 (task_url lib env i)) (λ e. plain (transition_status e))
        (finalize_task env i success message s.db)

  unfoldable pub finalize_form : ℕ → Mastermind → Option PostedForm → Mastermind × Response
  unfolding finalize_as
  finalize_form i s none = (s, plain 400)
  finalize_form i s (some f) =
      if str_eq (f.body_value "outcome") "success"
      then finalize_as i true (f.body_value "message") s
      else (if str_eq (f.body_value "outcome") "failure"
          then finalize_as i false (f.body_value "message") s
          else (s, plain 400))

  unfoldable pub tasks_finalize : Request → ℕ → Mastermind → Mastermind × Response
  unfolding finalize_form
  tasks_finalize r i s = finalize_form i s r.form

  -- htmx gets the list, which is read after the requeue.
  unfoldable pub requeue_reply : Request → ℕ → Mastermind → Db × Result Task → Mastermind × Response
  unfolding task_url tasks_fragment_handler
  requeue_reply r i s (db, err e) = (record s { db = db }, plain (requeue_status e))
  requeue_reply r i s (db, ok t) =
      let s' : Mastermind = record s { db = db } in
      (
        s',
        if r.is_htmx
            then tasks_fragment_handler lib env (after 1 env) r s'
            else redirect 303 (task_url lib env i),
      )

  unfoldable pub tasks_requeue : Request → ℕ → Mastermind → Mastermind × Response
  unfolding requeue_reply
  tasks_requeue r i s = requeue_reply r i s (requeue_task env i s.db)

  unfoldable pub posted : Request → ℕ → String → Mastermind → Mastermind × Response
  unfolding tasks_update tasks_delete tasks_requeue tasks_update_links tasks_request_review
      tasks_finalize
  posted r i verb s =
      if str_eq verb ""
      then tasks_update r i s
      else (if str_eq verb "delete"
          then tasks_delete i s
          else (if str_eq verb "requeue"
              then tasks_requeue r i s
              else (if str_eq verb "links"
                  then tasks_update_links r i s
                  else (if str_eq verb "request-review"
                      then tasks_request_review i s
                      else (if str_eq verb "finalize"
                          then tasks_finalize r i s
                          else (s, plain 404))))))

  unfoldable pub member_by : Request → Verb → Option ℕ → String → Mastermind → Mastermind × Response
  unfolding posted read_only
  member_by r v none verb s = (s, plain 404)
  member_by r get (some i) verb s = (s, read_only lib env i verb s)
  member_by r post (some i) verb s = posted r i verb s
  member_by r other_verb (some i) verb s = (s, plain 404)

  -- The path after "/tasks/" is an id, and a verb after a slash.
  unfoldable pub tasks_member : Request → Mastermind → Mastermind × Response
  unfolding member_by
  tasks_member r s =
      let (id, verb) = cut_slash (or_else (after_prefix "/tasks/" r.path) "") in
      member_by r r.verb (lib.uuid.parse id) verb s
