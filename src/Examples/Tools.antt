-- ===== src/Examples/Tools.antt =====
-- The theorem on the tools of the mastermind's MCP server at a concrete task.
use el_pulpo_ai.Prelude.{ℕ, zero, suc, pos, String, true, false, ◌≡◌, refl, ap, none, some, arith}
use el_pulpo_ai.Store.Tasks.{create_task, is_blank}
use el_pulpo_ai.Store.History.{empty_db}
use el_pulpo_ai.Grpc.Status.{Mastermind}
use el_pulpo_ai.Grpc.Admin.{byte_len, admin_create_task}
use el_pulpo_ai.Gateway.{Libraries, TokenConfig, serve, gateway, lookup, policy, full_method}
use el_pulpo_ai.Auth.{request_metadata}
use el_pulpo_ai.Worker.Client.{Trip, answered}
use el_pulpo_ai.Gateway.Remote.{admin_call}
use el_pulpo_ai.AdminMcp.{
  ValueCodec, TaskDetail, CreateTaskInput, structured, create_task_tool, create_with, get_task_tool,
  task_result, from_proto_task,
}
use el_pulpo_ai.AdminMcp.Created.{created_is_got}

-- Numbers written in unary stand in for UUIDs.
abbrev pub unary : ℕ → String
unary zero = ""
unary (suc n) = String.◌∷◌ "x" (unary n)

abbrev pub libraries : Libraries
libraries = record {
  uuid = record { parse = λ s. some (byte_len s); print = unary };
  payloads = record { instructions = λ s. some (some s); jsonb = λ s. some s };
  json_valid = λ s. true;
  collate = λ a b. true;
  locked = λ t. false;
}

pub unary_reads : (i : ℕ) → libraries.uuid.parse (libraries.uuid.print i) ≡ some i
unfolding byte_len
unary_reads i = ap some (counted i)
  where
    counted : (n : ℕ) → byte_len (unary n) ≡ n
    counted zero = refl
    counted (suc n) = omega (arith, counted n)

abbrev pub tokens : TokenConfig
tokens = record { worker_token = "w"; admin_token = "a" }

-- A JSON value is its text.
abbrev texts : ValueCodec String
texts = record { decode = λ s. some s; encode = λ s. some s; empty_object = "{}" }

abbrev pub trip : Trip
trip = record {
  env = record { now = 100; fresh_id = 2; answers = λ n. true };
  locked = λ t. false;
  fate = answered;
}

abbrev pub nothing_yet : Mastermind
nothing_yet = record {
  db = empty_db;
  metrics = record {
    claimed_success = 0;
    claimed_empty = 0;
    claimed_error = 0;
    completed_total = 0;
    failed_reported = 0;
    failed_reaped = 0;
    reaped_total = 0;
  };
}

abbrev input : CreateTaskInput String
input = record {
  name = "n";
  payload = some "go";
  priority = pos 1;
  max_attempts = pos 2;
  scheduled_for = none;
  jira_url = "";
  github_pr_url = "";
}

abbrev shown : TaskDetail String
shown = record {
  id = "xx";
  name = "n";
  payload = "go";
  priority = pos 1;
  status = "pending";
  scheduled_for = none;
  attempt_count = 0;
  max_attempts = pos 2;
  claimed_by = "";
  claimed_at = none;
  last_heartbeat_at = none;
  completed_at = none;
  last_error = "";
  jira_url = "";
  github_pr_url = "";
  created_at = 100;
  updated_at = 100;
}

created_is_got_example :
    let s' = (create_task_tool texts libraries tokens "a" trip input nothing_yet).0 in
    get_task_tool texts libraries tokens "a" trip "xx" s' ≡ (s', structured shown)
unfolding create_task_tool create_with admin_call gateway serve task_result from_proto_task
    admin_create_task create_task is_blank lookup policy full_method request_metadata empty_db
created_is_got_example =
    created_is_got texts libraries tokens trip refl refl unary_reads trip nothing_yet input shown
      refl
