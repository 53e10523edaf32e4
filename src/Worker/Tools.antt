-- ===== src/Worker/Tools.antt =====
-- The MCP tools of a worker, internal/worker/mcpserver/tools.go, as functions on the world. Of a reply
-- the texts are left out: what counts is whether it is an error, and the structured result.
pub mod Idempotent
use el_pulpo_ai.Prelude.{ℕ, String, str_eq, Option, none, some, if◌then◌else◌}
use el_pulpo_ai.Grpc.Status.{Mastermind, UuidCodec}
use el_pulpo_ai.Worker.Client.{
  WorkerError, already_have_task, missing_argument, Answer, got, error, Trip, ClientTask, Ending,
  opening, completing, failing,
}
use el_pulpo_ai.Worker.State.{
  World, current_task, state_progress, state_append_log, state_set_jira_url, state_end, claim_next,
}

-- encoding/json's view of a payload: values `J`, decoding, the empty object, a text as a value, and the
-- field `instructions` of an object if it is a text.
pub record PayloadReader (J : Type 0) : Type 0 where
  pub decode : String → Option J
  pub empty_object : J
  pub of_text : String → J
  pub instructions_of : J → Option String

-- The two links of a TaskView are never set.
pub record TaskView (J : Type 0) : Type 0 where
  pub id : String
  pub name : String
  pub worker_id : String
  pub instructions : String
  pub payload : J

pub data ToolReply {ℓ} (V : Type ℓ) : Type ℓ where
  result : V → ToolReply V
  tool_error : WorkerError → ToolReply V

abbrev pub tool_reply {ℓ} : {V : Type ℓ} → Answer V → ToolReply V
tool_reply (got v) = result v
tool_reply (error e) = tool_error e

abbrev pub replied {ℓ} : {V : Type ℓ} → World × Answer V → World × ToolReply V
replied (w, a) = (w, tool_reply a)

module _ {J : Type 0} (p : PayloadReader J) (u : UuidCodec) (worker_id : String) where
  view_of : ClientTask → J → String → TaskView J
  view_of t payload instructions = record {
    id = t.id;
    name = t.name;
    worker_id = worker_id;
    instructions = instructions;
    payload = payload;
  }

  instructed : ClientTask → J → Option String → TaskView J
  unfolding view_of
  instructed t j none = view_of t j ""
  instructed t j (some s) = view_of t j s

  decoded : ClientTask → Option J → TaskView J
  unfolding instructed view_of
  decoded t none = view_of t (p.of_text t.payload) ""
  decoded t (some j) = instructed t j (p.instructions_of j)

  unfoldable pub view_from_task : ClientTask → TaskView J
  unfolding decoded view_of
  view_from_task t =
      if str_eq t.payload "" then view_of t p.empty_object "" else decoded t (p.decode t.payload)

  -- A task at hand is no error; a state that refuses a claim has one.
  abbrev pub at_hand : Option ClientTask → ToolReply (TaskView J)
  at_hand none = tool_error already_have_task
  at_hand (some t) = result (view_from_task t)

  unfoldable pub claim_reply : World × Answer ClientTask → World × ToolReply (TaskView J)
  claim_reply (w, got t) = (w, result (view_from_task t))
  claim_reply (w, error already_have_task) = (w, at_hand w.current)
  claim_reply (w, error e) = (w, tool_error e)

  unfoldable pub claim_next_tool : Trip → Trip → World → World × ToolReply (TaskView J)
  unfolding claim_reply
  claim_next_tool x y w = claim_reply (claim_next u worker_id x y w)

  abbrev viewed : Answer ClientTask → ToolReply (TaskView J)
  viewed (got t) = result (view_from_task t)
  viewed (error e) = tool_error e

  unfoldable pub get_current_tool : World → ToolReply (TaskView J)
  get_current_tool w = viewed (current_task w)

module _ (u : UuidCodec) (worker_id : String) where
  unfoldable pub update_progress_tool :
      Trip → String → String → World → World × ToolReply (Unit {0})
  update_progress_tool x id note w = replied (state_progress u worker_id x id note w)

  unfoldable pub append_log_tool : Trip → String → String → World → World × ToolReply ℕ
  append_log_tool x id message w =
      if str_eq message ""
      then (w, tool_error missing_argument)
      else replied (state_append_log u worker_id x id message w)

  unfoldable pub set_jira_url_tool : Trip → String → String → World → World × ToolReply (Unit {0})
  set_jira_url_tool x id url w =
      if str_eq url ""
      then (w, tool_error missing_argument)
      else replied (state_set_jira_url u worker_id x id url w)

  unfoldable pub open_pr_tool : Trip → String → String → World → World × ToolReply (Unit {0})
  open_pr_tool x id url w =
      if str_eq url ""
      then (w, tool_error missing_argument)
      else replied (state_end u worker_id x (opening url) id w)

  unfoldable pub complete_task_tool : Trip → String → World → World × ToolReply (Unit {0})
  complete_task_tool x id w = replied (state_end u worker_id x completing id w)

  unfoldable pub fail_task_tool : Trip → String → String → World → World × ToolReply (Unit {0})
  fail_task_tool x id message w =
      if str_eq message ""
      then (w, tool_error missing_argument)
      else replied (state_end u worker_id x (failing message) id w)
