-- ===== src/Http/Form.antt =====
-- The task form, internal/mastermind/httpserver/handlers.go: parseTaskForm, formFromTask and
-- instructionsFrom.
use el_pulpo_ai.Prelude.{
  ℕ, ℤ, pos, negsuc, String, str_eq, Bool, Option, none, some, if◌then◌else◌, ◌==◌, trim_space,
  atoi,
}
use el_pulpo_ai.Store.Row.{Task}
use el_pulpo_ai.Store.Tasks.{NewTaskInput}
use el_pulpo_ai.IssueRefs.{validate_jira, validate_pr}
use el_pulpo_ai.Http.{PostedForm, TaskForm, WebLibraries}

-- The form with the input for the store, the form with an error, or a write into a nil map.
pub data ParsedForm : Type 0 where
  accepted : TaskForm → NewTaskInput → ParsedForm
  rejected : TaskForm → ParsedForm
  panicked : ParsedForm

abbrev pub no_form : TaskForm
no_form = record {
  name = "";
  priority = pos 0;
  max_attempts = pos 0;
  scheduled_for = "";
  instructions = "";
  payload = "";
  jira_url = "";
  github_pr_url = "";
}

-- A number that may be left out, then 0.
unfoldable pub number_field : String → Option ℤ
number_field s = if str_eq s "" then some (pos 0) else atoi s

-- `if f.MaxAttempts <= 0 { f.MaxAttempts = 3 }`.
unfoldable pub at_least_one : ℤ → ℤ
at_least_one (pos n) = if n == 0 then pos 3 else pos n
at_least_one (negsuc n) = pos 3

-- A link that may be left out: `none` is the error, `some none` the nil pointer.
unfoldable pub link_field : (String → Bool) → String → Option (Option String)
link_field valid s = if str_eq s "" then some none else (if valid s then some (some s) else none)

abbrev pub carried : Option (Option String) → String
carried (some (some s)) = s
carried _ = ""

abbrev pub timed : Option ℕ → Option (Option ℕ)
timed none = none
timed (some t) = some (some t)

module _ {O : Type 0} (lib : WebLibraries O) where
  unfoldable pub instructions_from : String → String
  instructions_from payload =
      if str_eq payload "" then "" else carried (lib.payloads.instructions payload)

  -- The spliced payload: an error, the write into a nil map, or the text.
  unfoldable pub spliced : TaskForm → Option (Option O) → Option (Option String)
  spliced f none = some none
  spliced f (some none) = none
  spliced f (some (some o)) = some (lib.objects.print_with f.instructions o)

  unfoldable pub payload_field : TaskForm → Option (Option String)
  unfolding spliced
  payload_field f =
      if str_eq f.instructions ""
      then some (some f.payload)
      else spliced f (lib.objects.decode f.payload)

  unfoldable pub time_field : String → Option (Option ℕ)
  time_field s = if str_eq s "" then some none else timed (lib.parse_local s)

  unfoldable pub with_time : TaskForm → NewTaskInput → Option (Option ℕ) → ParsedForm
  with_time f input none = rejected f
  with_time f input (some t) = accepted f (record input { scheduled_for = t })

  unfoldable pub with_links :
      TaskForm → String → Option (Option String) → Option (Option String) → ParsedForm
  unfolding with_time time_field
  with_links f payload none pr = rejected f
  with_links f payload (some jira) none = rejected f
  with_links f payload (some jira) (some pr) =
      let input : NewTaskInput = record {
        name = f.name;
        payload = some payload;
        priority = f.priority;
        max_attempts = f.max_attempts;
        scheduled_for = none;
        jira_url = jira;
        github_pr_url = pr;
      } in
      with_time f input (time_field f.scheduled_for)

  unfoldable pub with_payload : TaskForm → Option (Option String) → ParsedForm
  unfolding with_links link_field
  with_payload f none = panicked
  with_payload f (some none) = rejected f
  with_payload f (some (some payload)) =
      with_links f payload (link_field validate_jira f.jira_url)
        (link_field validate_pr f.github_pr_url)

  -- From the numbers on: the defaults, and the checks in their order.
  unfoldable pub checked : TaskForm → ParsedForm
  unfolding with_payload payload_field at_least_one
  checked f =
      let filled : TaskForm = record f {
        max_attempts = at_least_one f.max_attempts;
        payload = if str_eq f.payload "" then "{}" else f.payload;
      } in
      if lib.json_valid filled.payload
      then with_payload filled (payload_field filled)
      else rejected filled

  unfoldable pub with_attempts : TaskForm → Option ℤ → ParsedForm
  unfolding checked
  with_attempts f none = rejected f
  with_attempts f (some n) = checked (record f { max_attempts = n })

  unfoldable pub with_priority : TaskForm → String → Option ℤ → ParsedForm
  unfolding with_attempts number_field
  with_priority f attempts none = rejected f
  with_priority f attempts (some n) =
      with_attempts (record f { priority = n }) (number_field attempts)

  unfoldable pub parse_task_form : Option PostedForm → ParsedForm
  unfolding with_priority number_field
  parse_task_form none = rejected no_form
  parse_task_form (some r) =
      let f : TaskForm = record {
        name = r.value "name";
        priority = pos 0;
        max_attempts = pos 0;
        scheduled_for = r.value "scheduled_for";
        instructions = r.body_value "instructions";
        payload = r.value "payload";
        jira_url = trim_space (r.value "jira_url");
        github_pr_url = trim_space (r.value "github_pr_url");
      } in
      with_priority f (r.value "max_attempts") (number_field (r.value "priority"))

  abbrev or_blank : Option String → String
  or_blank none = ""
  or_blank (some s) = s

  abbrev shown_time : Option ℕ → String
  shown_time none = ""
  shown_time (some t) = lib.format_local t

  unfoldable pub form_from_task : Task → TaskForm
  unfolding instructions_from
  form_from_task t = record {
    name = t.name;
    priority = t.priority;
    max_attempts = t.max_attempts;
    scheduled_for = shown_time t.scheduled_for;
    instructions = instructions_from t.payload;
    payload = t.payload;
    jira_url = or_blank t.jira_url;
    github_pr_url = or_blank t.github_pr_url;
  }
