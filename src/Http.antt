-- ===== src/Http.antt =====
-- The admin UI, internal/mastermind/httpserver: what its handlers read of a request, and what they
-- reply. The templates are files of their own: a page is the data that its template is given.
pub mod Form
pub mod Pages
pub mod Tasks
pub mod Dashboard
pub mod Initials
pub mod Routes
pub mod Effects
pub mod Access
use el_pulpo_ai.Prelude.{ℕ, ℤ, String, Bool, Option, List}
use el_pulpo_ai.Store.Row.{Task, TaskLogEntry, TaskStatus}
use el_pulpo_ai.Store.Tasks.{PayloadCodec}
use el_pulpo_ai.Store.Dashboard.{DashboardWorker}
use el_pulpo_ai.Store.AgentDetail.{AgentDetail}
use el_pulpo_ai.Grpc.Status.{UuidCodec}
use el_pulpo_ai.Auth.{Credentials}

pub data Verb : Type 0 where
  get post other_verb : Verb

-- The parsed form: FormValue, of the body first and then of the query, and PostFormValue.
pub record PostedForm : Type 0 where
  pub value : String → String
  pub body_value : String → String

-- `form` is `none` if ParseForm fails.
pub record Request : Type 0 where
  pub verb : Verb
  pub path : String
  pub raw_path : String
  pub status_query : String
  pub is_htmx : Bool
  pub credentials : Credentials
  pub form : Option PostedForm

pub record TaskForm : Type 0 where
  pub name : String
  pub priority : ℤ
  pub max_attempts : ℤ
  pub scheduled_for : String
  pub instructions : String
  pub payload : String
  pub jira_url : String
  pub github_pr_url : String

-- The list of statuses is always that of all seven; the status asked for stays a text.
pub record ListPage : Type 0 where
  pub items : List Task
  pub total : ℕ
  pub current_status : String

pub record FormPage : Type 0 where
  pub form : TaskForm
  pub task : Option Task
  pub has_error : Bool

pub record DetailPage : Type 0 where
  pub task : Task
  pub instructions : String
  pub logs : List TaskLogEntry
  pub has_error : Bool

pub record DashboardPage : Type 0 where
  pub queue : List Task
  pub workers : List DashboardWorker
  pub busy_count : ℕ
  pub idle_count : ℕ
  pub offline_count : ℕ

-- The pages by the names of their templates.
pub data View : Type 0 where
  tasks_list tasks_fragment : ListPage → View
  tasks_new tasks_edit : FormPage → View
  tasks_detail : DetailPage → View
  dashboard dashboard_fragment : DashboardPage → View
  agent_detail agent_detail_fragment : String → AgentDetail → View

-- `plain` is a status with a text, `cut_off` a page whose template fails, followed by the text of an
-- error; `aborted` is a handler that panics, which ends the connection. The metrics and the files
-- are a library's.
pub data Response : Type 0 where
  plain : ℕ → Response
  redirect : ℕ → String → Response
  page : ℕ → View → Response
  cut_off : View → Response
  aborted : Response
  metrics_text : Response
  file : String → Response

-- encoding/json on objects: `none` if the text is none, `some none` for null, which leaves a nil map;
-- and an object printed with its key "instructions" set.
pub record ObjectCodec (O : Type 0) : Type 0 where
  pub decode : String → Option (Option O)
  pub print_with : String → O → Option String

-- The libraries behind the handlers: where ServeMux redirects a path that it cleans, time.ParseInLocation and Format of the local time without
-- seconds, url.PathUnescape, and whether a template can show what it is given.
pub record WebLibraries (O : Type 0) : Type 0 where
  pub uuid : UuidCodec
  pub payloads : PayloadCodec
  pub objects : ObjectCodec O
  pub json_valid : String → Bool
  pub collate : String → String → Bool
  pub parse_local : String → Option ℕ
  pub format_local : ℕ → String
  pub path_unescape : String → Option String
  pub cleaned : String → Option String
  pub renders : View → Bool
