-- ===== src/Http/Pages.antt =====
-- The pages on tasks that change nothing, internal/mastermind/httpserver/handlers.go: one function for each
-- handler, from the state of the mastermind to the response.
use mathlib.Core.Option
use Prim.Native.String
use el_pulpo_ai.Prelude.{
  ℕ, pos, String, str_eq, Bool, false, Option, none, some, List, [], if◌then◌else◌,
}
use el_pulpo_ai.Store.Row.{
  Task, TaskLogEntry, Db, Env, Result, ok, err, TaskStatus, StoreError, not_found, db_error,
}
use el_pulpo_ai.Store.Tasks.{get_task, list_tasks, TasksPage}
use el_pulpo_ai.Store.Logs.{list_task_logs}
use el_pulpo_ai.Store.Dashboard.{after}
use el_pulpo_ai.Grpc.Status.{Mastermind}
use el_pulpo_ai.Grpc.Admin.{known_status}
use el_pulpo_ai.Http.{
  Verb, get, Request, TaskForm, ListPage, View, tasks_list, tasks_fragment, tasks_new, tasks_edit,
  tasks_detail, Response, plain, page, cut_off, WebLibraries,
}
use el_pulpo_ai.Http.Form.{no_form, form_from_task, instructions_from}

-- The error a handler has for each error of its store call.
abbrev pub missing_or : ℕ → StoreError → ℕ
missing_or code not_found = 404
missing_or code _ = code

-- An unknown status makes the enum comparison of the query fail.
unfoldable pub list_by : Env → Option (Option TaskStatus) → Db → Result TasksPage
list_by env none db = err db_error
list_by env (some f) db = list_tasks env (record { status = f; limit = pos 200; offset = pos 0 }) db

unfoldable pub status_named : String → Option (Option TaskStatus)
status_named s = if str_eq s "" then some none else Option.map some (known_status s)

-- An error is logged, and the page is empty.
unfoldable pub list_page : String → Result TasksPage → ListPage
list_page status (ok p) = record { items = p.items; total = p.total; current_status = status }
list_page status (err e) = record { items = []; total = 0; current_status = status }

unfoldable pub logs_or_none : Result (List TaskLogEntry) → List TaskLogEntry
logs_or_none (ok ls) = ls
logs_or_none (err e) = []

module _ {O : Type 0} (lib : WebLibraries O) (env : Env) where
  -- ExecuteTemplate with the status 200.
  unfoldable pub rendered : View → Response
  rendered v = if lib.renders v then page 200 v else cut_off v

  unfoldable pub build_list_data : Env → Request → Db → ListPage
  unfolding list_page list_by status_named
  build_list_data e r db = list_page r.status_query (list_by e (status_named r.status_query) db)

  unfoldable pub tasks_list_handler : Request → Mastermind → Response
  unfolding rendered build_list_data
  tasks_list_handler r s = rendered (tasks_list (build_list_data env r s.db))

  unfoldable pub tasks_fragment_handler : Env → Request → Mastermind → Response
  unfolding rendered build_list_data
  tasks_fragment_handler e r s = rendered (tasks_fragment (build_list_data e r s.db))

  unfoldable pub new_page : TaskForm → Bool → View
  new_page f e = tasks_new (record { form = f; task = none; has_error = e })

  unfoldable pub blank_form : TaskForm
  blank_form = record no_form { max_attempts = pos 3; payload = "{}" }

  unfoldable pub tasks_new_form : Verb → Response
  unfolding rendered new_page blank_form
  tasks_new_form get = rendered (new_page blank_form false)
  tasks_new_form _ = plain 405

  unfoldable pub on_task : (Task → Response) → Result Task → Response
  on_task f (ok t) = f t
  on_task f (err e) = plain (missing_or 500 e)

  unfoldable pub detail_page : Db → ℕ → Task → String → Bool → View
  unfolding logs_or_none
  detail_page db i t instructions e = tasks_detail (record {
    task = t;
    instructions = instructions;
    logs = logs_or_none (list_task_logs (after 1 env) i (pos 500) db);
    has_error = e;
  })

  unfoldable pub tasks_detail_handler : ℕ → Mastermind → Response
  unfolding on_task detail_page rendered instructions_from
  tasks_detail_handler i s =
      on_task (λ t. rendered (detail_page s.db i t (instructions_from lib t.payload) false))
        (get_task env i s.db)

  -- The instructions are not shown beside an error.
  unfoldable pub tasks_edit_form : ℕ → Mastermind → Response
  unfolding on_task rendered form_from_task
  tasks_edit_form i s =
      on_task
        (λ t.
          rendered
            (tasks_edit (record { form = form_from_task lib t; task = some t; has_error = false })))
        (get_task env i s.db)

  unfoldable pub task_url : ℕ → String
  task_url i = String.◌++◌ "/tasks/" (lib.uuid.print i)

  unfoldable pub read_only : ℕ → String → Mastermind → Response
  unfolding tasks_detail_handler tasks_edit_form
  read_only i verb s =
      if str_eq verb ""
      then tasks_detail_handler i s
      else (if str_eq verb "edit" then tasks_edit_form i s else plain 404)
