-- ===== src/AdminMcp.antt =====
-- The MCP server of the mastermind, internal/mcpserver/tools.go: tools that call the AdminService over
-- the network with the administrator's token. Texts of results are left out, but for the kind of
-- message that a tool's error carries.

pub mod Created
use el_pulpo_ai.Prelude.{
  ℕ, ℤ, String, str_eq, Option, none, some, List, [], ◌∷◌, map, if◌then◌else◌,
}
use el_pulpo_ai.Grpc.Status.{
  Code, invalid_argument, absent, unauthenticated, unavailable, Reply, response, failure,
  Mastermind, success, failed_with,
}
use el_pulpo_ai.Grpc.Admin.{CreateTaskRequest, TaskDetail as ProtoDetail}
use el_pulpo_ai.Auth.{request_metadata}
use el_pulpo_ai.Gateway.{
  Libraries, TokenConfig, Rpc, RpcAnswer, gateway, detail, page, rpc_create_task, rpc_get_task,
  rpc_list_tasks, rpc_request_review, rpc_finalize_task,
}
use el_pulpo_ai.Gateway.Remote.{admin_call}
use el_pulpo_ai.Worker.Client.{Trip, Fate, answered, request_lost, reply_lost}

-- encoding/json on values of any kind: decoding, encoding and the empty object.
pub record ValueCodec (J : Type 0) : Type 0 where
  pub decode : String → Option J
  pub encode : J → Option String
  pub empty_object : J

-- A time that is missing or not valid is left out.
pub record TaskDetail (J : Type 0) : Type 0 where
  pub id : String
  pub name : String
  pub payload : J
  pub priority : ℤ
  pub status : String
  pub scheduled_for : Option ℕ
  pub attempt_count : ℕ
  pub max_attempts : ℤ
  pub claimed_by : String
  pub claimed_at : Option ℕ
  pub last_heartbeat_at : Option ℕ
  pub completed_at : Option ℕ
  pub last_error : String
  pub jira_url : String
  pub github_pr_url : String
  pub created_at : ℕ
  pub updated_at : ℕ

pub record CreateTaskInput (J : Type 0) : Type 0 where
  pub name : String
  pub payload : Option J
  pub priority : ℤ
  pub max_attempts : ℤ
  pub scheduled_for : Option ℕ
  pub jira_url : String
  pub github_pr_url : String

pub record ListTasksOutput (J : Type 0) : Type 0 where
  pub items : List (TaskDetail J)
  pub total : ℕ

-- The message: that of the mastermind, one of toolErr's own, or that of finalize_task.
pub data ErrorText : Type 0 where
  from_server rejected_token unreachable internal_error bad_outcome : ErrorText

pub data ToolResult {ℓ} (V : Type ℓ) : Type ℓ where
  structured : V → ToolResult V
  tool_error : ErrorText → ToolResult V

unfoldable pub tool_err : Code → ErrorText
tool_err invalid_argument = from_server
tool_err absent = from_server
tool_err unauthenticated = rejected_token
tool_err unavailable = unreachable
tool_err _ = internal_error

module _ {J : Type 0} (j : ValueCodec J) where
  abbrev decoded_or_empty : Option J → J
  decoded_or_empty none = j.empty_object
  decoded_or_empty (some v) = v

  unfoldable pub from_proto_task : ProtoDetail → TaskDetail J
  from_proto_task p = record {
    id = p.id;
    name = p.name;
    payload = if str_eq p.payload "" then j.empty_object else decoded_or_empty (j.decode p.payload);
    priority = p.priority;
    status = p.status;
    scheduled_for = p.scheduled_for;
    attempt_count = p.attempt_count;
    max_attempts = p.max_attempts;
    claimed_by = p.claimed_by;
    claimed_at = p.claimed_at;
    last_heartbeat_at = p.last_heartbeat_at;
    completed_at = p.completed_at;
    last_error = p.last_error;
    jira_url = p.jira_url;
    github_pr_url = p.github_pr_url;
    created_at = p.created_at;
    updated_at = p.updated_at;
  }

  -- The answer to a call that gives a task; the others do not occur.
  unfoldable pub task_result : Mastermind × Reply RpcAnswer → Mastermind × ToolResult (TaskDetail J)
  unfolding from_proto_task tool_err
  task_result (s, response (detail d)) = (s, structured (from_proto_task d))
  task_result (s, response _) = (s, tool_error internal_error)
  task_result (s, failure code) = (s, tool_error (tool_err code))

  unfoldable pub list_result :
      Mastermind × Reply RpcAnswer → Mastermind × ToolResult (ListTasksOutput J)
  unfolding from_proto_task tool_err
  list_result (s, response (page p)) =
      (s, structured (record { items = map from_proto_task p.items; total = p.total }))
  list_result (s, response _) = (s, tool_error internal_error)
  list_result (s, failure code) = (s, tool_error (tool_err code))

  module _ (lib : Libraries) (cfg : TokenConfig) (token : String) where
    unfoldable pub create_request : CreateTaskInput J → String → CreateTaskRequest
    create_request input payload = record {
      name = input.name;
      payload = payload;
      priority = input.priority;
      max_attempts = input.max_attempts;
      scheduled_for = input.scheduled_for;
      jira_url = input.jira_url;
      github_pr_url = input.github_pr_url;
    }

    unfoldable pub encoded : Option J → Option String
    encoded none = some ""
    encoded (some v) = j.encode v

    unfoldable pub create_with :
        Trip
        → CreateTaskInput J
        → Mastermind
        → Option String
        → Mastermind × ToolResult (TaskDetail J)
    unfolding task_result admin_call create_request
    create_with x input s none = (s, tool_error (tool_err invalid_argument))
    create_with x input s (some payload) =
        task_result (admin_call lib cfg token x (rpc_create_task (create_request input payload)) s)

    unfoldable pub create_task_tool :
        Trip → CreateTaskInput J → Mastermind → Mastermind × ToolResult (TaskDetail J)
    unfolding create_with encoded
    create_task_tool x input s = create_with x input s (encoded input.payload)

    unfoldable pub get_task_tool :
        Trip → String → Mastermind → Mastermind × ToolResult (TaskDetail J)
    unfolding task_result admin_call
    get_task_tool x id s = task_result (admin_call lib cfg token x (rpc_get_task id) s)

    unfoldable pub list_tasks_tool :
        Trip → String → ℤ → ℤ → Mastermind → Mastermind × ToolResult (ListTasksOutput J)
    unfolding list_result admin_call
    list_tasks_tool x status limit offset s =
        list_result (admin_call lib cfg token x (rpc_list_tasks limit offset status) s)

    unfoldable pub request_review_tool :
        Trip → String → Mastermind → Mastermind × ToolResult (TaskDetail J)
    unfolding task_result admin_call
    request_review_tool x id s = task_result (admin_call lib cfg token x (rpc_request_review id) s)

    unfoldable pub finalize_task_tool :
        Trip → String → String → String → Mastermind → Mastermind × ToolResult (TaskDetail J)
    unfolding task_result admin_call
    finalize_task_tool x id outcome message s =
        if str_eq outcome "success"
        then task_result (admin_call lib cfg token x (rpc_finalize_task id success) s)
        else (if str_eq outcome "failure"
            then task_result
                (admin_call lib cfg token x (rpc_finalize_task id (failed_with message)) s)
            else (s, tool_error bad_outcome))
