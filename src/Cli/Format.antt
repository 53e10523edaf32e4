-- ===== src/Cli/Format.antt =====
-- What elpulpo prints, internal/cli/format.go and workers.go: the rows of its tables and the fields of its
-- JSON, before text/tabwriter and encoding/json lay them out.
use el_pulpo_ai.Prelude.{
  ℕ, ℤ, String, str_eq, Option, none, some, List, [], ◌∷◌, ◌++◌, map, length, if◌then◌else◌, Bool,
  true, false, ◌==◌,
}
use el_pulpo_ai.Store.Workers.{WorkerInfo}
use el_pulpo_ai.Grpc.Admin.{TaskDetail, ListTasksResponse}

-- %s, %d, "%d / %d" (in a table "%d/%d") and a time by RFC 3339, in UTC.
pub data Cell : Type 0 where
  words : String → Cell
  integer : ℤ → Cell
  natural : ℕ → Cell
  attempts : ℕ → ℤ → Cell
  instant : ℕ → Cell

abbrev pub Row : Type 0
Row = String × Cell

-- A JSON value of the payload is J.
pub data Field (J : Type 0) : Type 0 where
  cell : Cell → Field J
  value : J → Field J

abbrev pub Object : Type 0 → Type 0
Object J = List (String × Field J)

-- The lines of a list: the cells of each row.
pub data Output (J : Type 0) : Type 0 where
  usage_text : Output J
  message : String → Output J
  block : (heading : String) → List Row → Output J
  object : Object J → Output J
  objects : List (Object J) → Option ℕ → Output J
  nothing_listed : Option ℕ → Output J
  table : List (List Cell) → Option ℕ → Output J

-- `if v != "" { … }`, and the same for a timestamp.
abbrev pub shown : {A : Type 0} → String → (Cell → A) → String → List (String × A)
shown label f s = if str_eq s "" then [] else (label, f (words s)) ∷ []

abbrev pub shown_time : {A : Type 0} → String → (Cell → A) → Option ℕ → List (String × A)
shown_time label f none = []
shown_time label f (some t) = (label, f (instant t)) ∷ []

unfoldable pub or_dash : String → String
or_dash s = if str_eq s "" then "-" else s

abbrev plain_cell : Cell → Cell
plain_cell c = c

unfoldable pub task_rows : (String → String) → TaskDetail → List Row
task_rows compact t =
    ("ID", words t.id)
    ∷ ("Name", words t.name)
    ∷ ("Status", words t.status)
    ∷ ("Priority", integer t.priority)
    ∷ ("Attempts", attempts t.attempt_count t.max_attempts)
    ∷ (shown "Claimed by" plain_cell t.claimed_by
        ++ (shown_time "Scheduled for" plain_cell t.scheduled_for
            ++ (shown_time "Last heartbeat" plain_cell t.last_heartbeat_at
                ++ (shown_time "Completed" plain_cell t.completed_at
                    ++ (shown "Last error" plain_cell t.last_error
                        ++ (shown "JIRA" plain_cell t.jira_url
                            ++ (shown "GitHub PR" plain_cell t.github_pr_url
                                ++ (("Created", instant t.created_at)
                                    ∷ ("Updated", instant t.updated_at)
                                    ∷ (if str_eq t.payload ""
                                        then []
                                        else ("Payload", words (compact t.payload)) ∷ [])))))))))

-- encoding/json: a value decoded, a text without its white space (as it is, if it is no JSON), the objects
-- of the flags, and whether a text is any value at all.
pub record JsonLibraries (J O : Type 0) : Type 0 where
  pub decode : String → Option J
  pub compact : String → String
  pub decode_object : String → Option (Option O)
  pub print_with : String → O → Option String
  pub print_alone : String → Option String

-- A payload that is no JSON stands as its text.
abbrev payload_field : {J : Type 0} → String → Option J → Field J
payload_field raw none = cell (words raw)
payload_field raw (some v) = value v

module _ {J O : Type 0} (json : JsonLibraries J O) where
  unfoldable pub proto_task_to_json : TaskDetail → Object J
  proto_task_to_json t =
      ("id", cell (words t.id))
      ∷ ("name", cell (words t.name))
      ∷ ("priority", cell (integer t.priority))
      ∷ ("status", cell (words t.status))
      ∷ ("attempt_count", cell (natural t.attempt_count))
      ∷ ("max_attempts", cell (integer t.max_attempts))
      ∷ ("created_at", cell (instant t.created_at))
      ∷ ("updated_at", cell (instant t.updated_at))
      ∷ ((if str_eq t.payload ""
            then []
            else ("payload", payload_field t.payload (json.decode t.payload)) ∷ [])
          ++ (shown "claimed_by" cell t.claimed_by
              ++ (shown "last_error" cell t.last_error
                  ++ (shown "jira_url" cell t.jira_url
                      ++ (shown "github_pr_url" cell t.github_pr_url
                          ++ (shown_time "scheduled_for" cell t.scheduled_for
                              ++ (shown_time "claimed_at" cell t.claimed_at
                                  ++ (shown_time "last_heartbeat_at" cell t.last_heartbeat_at
                                      ++ shown_time "completed_at" cell t.completed_at))))))))

  -- A task as JSON, or as a heading and its rows.
  unfoldable pub emit_task : (as_json : Bool) → String → TaskDetail → Output J
  unfolding proto_task_to_json task_rows
  emit_task true heading t = object (proto_task_to_json t)
  emit_task false heading t = block heading (task_rows json.compact t)

  unfoldable pub task_line : TaskDetail → List Cell
  unfolding or_dash
  task_line t =
      words t.id
      ∷ words t.status
      ∷ words t.name
      ∷ integer t.priority
      ∷ attempts t.attempt_count t.max_attempts
      ∷ words (or_dash t.claimed_by)
      ∷ instant t.updated_at
      ∷ []

  -- The list of the tasks, and the number of all.
  unfoldable pub render_tasks : (as_json : Bool) → ListTasksResponse → Output J
  unfolding proto_task_to_json task_line
  render_tasks true p = objects (map (proto_task_to_json) p.items) (some p.total)
  render_tasks false p =
      if length p.items == 0
      then nothing_listed (some p.total)
      else table (map task_line p.items) (some p.total)

  abbrev seen_cell : Option ℕ → Cell
  seen_cell none = words "-"
  seen_cell (some t) = instant t

  unfoldable pub worker_line : WorkerInfo → List Cell
  worker_line w =
      words w.id
      ∷ natural w.active_tasks
      ∷ natural w.completed_tasks
      ∷ natural w.failed_tasks
      ∷ seen_cell w.last_seen_at
      ∷ []

  unfoldable pub worker_object : WorkerInfo → Object J
  worker_object w =
      ("id", cell (words w.id))
      ∷ ("active_tasks", cell (natural w.active_tasks))
      ∷ ("completed_tasks", cell (natural w.completed_tasks))
      ∷ ("failed_tasks", cell (natural w.failed_tasks))
      ∷ shown_time "last_seen_at" cell w.last_seen_at

  unfoldable pub render_workers : (as_json : Bool) → List WorkerInfo → Output J
  unfolding worker_line worker_object
  render_workers true items = objects (map worker_object items) none
  render_workers false [] = nothing_listed none
  render_workers false (w ∷ ws) = table (map worker_line (w ∷ ws)) none
