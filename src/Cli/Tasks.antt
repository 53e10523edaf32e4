-- ===== src/Cli/Tasks.antt =====
-- The commands on tasks, internal/cli/tasks.go, up to the call of the AdminService: what a command line
-- asks for, and how the reply is printed.
pub mod Finalize
pub mod Every
use Prim.Native.String
use el_pulpo_ai.Prelude.{
  ℕ, ℤ, pos, String, str_eq, Bool, true, false, not, ◌&&◌, Option, none, some, is_some, List, [],
  ◌∷◌, if◌then◌else◌, after_prefix,
}
use el_pulpo_ai.Grpc.Status.{Outcome, success, failed_with}
use el_pulpo_ai.Grpc.Admin.{CreateTaskRequest, TaskDetail}
use el_pulpo_ai.Gateway.{
  Rpc, RpcAnswer, detail, page, rpc_create_task, rpc_get_task, rpc_list_tasks, rpc_cancel_task,
  rpc_retry_task, rpc_request_review, rpc_finalize_task,
}
use el_pulpo_ai.Cli.Flags.{
  FlagKind, text_flag, number_flag, switch_flag, FlagSet, Settings, FlagLibraries, Parsed, parsed,
  refused, parse_flags, text_of, number_of, switch_of,
}
use el_pulpo_ai.Cli.Numbers.{to_int32}
use el_pulpo_ai.Cli.Command.{
  Mistake, usage, bad_flags, unknown_command, missing_name, unreadable, bad_json, bad_time,
  bad_outcome, Command, mistaken, calling, Terminal, and_then, settled, one_argument, json_flag,
  joined, as_json, emitted,
}
use el_pulpo_ai.Cli.Format.{Output, message, JsonLibraries, emit_task, render_tasks}

abbrev create_flags : FlagSet
create_flags =
    ("name", text_flag)
    ∷ ("payload", text_flag)
    ∷ ("instructions", text_flag)
    ∷ ("priority", number_flag)
    ∷ ("max-attempts", number_flag)
    ∷ ("scheduled-for", text_flag)
    ∷ ("jira-url", text_flag)
    ∷ ("github-pr-url", text_flag)
    ∷ ("json", switch_flag)
    ∷ []

abbrev list_flags : FlagSet
list_flags =
    ("status", text_flag)
    ∷ ("limit", number_flag)
    ∷ ("offset", number_flag)
    ∷ ("json", switch_flag)
    ∷ []

abbrev pub finalize_flags : FlagSet
finalize_flags = ("success", switch_flag) ∷ ("fail", text_flag) ∷ ("json", switch_flag) ∷ []

-- `strings.HasPrefix(a, "-")`.
abbrev pub has_dash : String → Bool
has_dash a = is_some (after_prefix "-" a)

-- The first argument that is no flag, and the others.
unfoldable pub extract_id : String → List String → String × List String
extract_id id [] = (id, [])
extract_id id (a ∷ rest) =
    let taken = not (has_dash a) && str_eq id "" in
    let (id', others) = extract_id (if taken then a else id) rest in
    (id', if taken then others else a ∷ others)

-- Exactly one of --success and --fail.
unfoldable pub chosen_outcome : Bool → String → Option Outcome
chosen_outcome true reason = if str_eq reason "" then some success else none
chosen_outcome false reason = if str_eq reason "" then none else some (failed_with reason)

unfoldable pub create_task_request : Settings → String → Option ℕ → CreateTaskRequest
unfolding text_of number_of to_int32
create_task_request set payload scheduled_for = record {
  name = text_of "name" "" set;
  payload = payload;
  priority = to_int32 (number_of "priority" (pos 0) set);
  max_attempts = to_int32 (number_of "max-attempts" (pos 0) set);
  scheduled_for = scheduled_for;
  jira_url = text_of "jira-url" "" set;
  github_pr_url = text_of "github-pr-url" "" set;
}

module _ {J O : Type 0} (term : Terminal J O) where
  unfoldable pub read_payload : Option String → String → Option String
  read_payload stdin v =
      if str_eq v "-"
      then stdin
      else elim (after_prefix "@" v) [ some path ↦ term.read_file path | none ↦ some v ]

  abbrev merged_object : String → Option (Option O) → Option String
  merged_object raw (some (some o)) = term.json.print_with raw o
  merged_object raw _ = none

  -- The instructions alone, or set in the object of the payload, which may not be null.
  unfoldable pub merge_instructions : String → String → Option String
  merge_instructions payload raw =
      if str_eq payload ""
      then term.json.print_alone raw
      else merged_object raw (term.json.decode_object payload)

  unfoldable pub valid_json : String → Option String
  valid_json raw = if is_some (term.json.decode raw) then some raw else none

  -- `--payload`: empty if it is not given.
  unfoldable pub payload_with : String → (String → Command J) → Command J
  unfolding read_payload valid_json
  payload_with v next =
      if str_eq v ""
      then next ""
      else and_then (read_payload term.stdin v) unreadable
          (λ raw. and_then (valid_json raw) bad_json next)

  -- The standard input is at its end once --payload has read it.
  abbrev pub left_on_stdin : String → Option String
  left_on_stdin payload_flag = if str_eq payload_flag "-" then some "" else term.stdin

  unfoldable pub instructions_with : String → String → String → (String → Command J) → Command J
  unfolding read_payload merge_instructions
  instructions_with payload_flag v payload next =
      if str_eq v ""
      then next payload
      else and_then (read_payload (left_on_stdin payload_flag) v) unreadable
          (λ raw. and_then (merge_instructions payload raw) bad_json next)

  abbrev at_time : Option ℕ → (Option ℕ → Command J) → Command J
  at_time o next = and_then o bad_time (λ t. next (some t))

  unfoldable pub time_with : String → (Option ℕ → Command J) → Command J
  time_with v next = if str_eq v "" then next none else at_time (term.parse_time v) next

  unfoldable pub create_command : Settings → Command J
  unfolding create_task_request emitted text_of
  create_command set =
      if str_eq (text_of "name" "" set) ""
      then mistaken missing_name
      else payload_with (text_of "payload" "" set) (λ given.
        instructions_with (text_of "payload" "" set) (text_of "instructions" "" set) given
          (λ payload. time_with (text_of "scheduled-for" "" set) (λ t.
            calling (rpc_create_task (create_task_request set payload t))
              (emitted term set (λ d. joined "created task " d.id (joined " (" d.name ")"))))))

  unfoldable pub run_tasks_create : List String → Command J
  unfolding create_command parse_flags
  run_tasks_create args =
      settled (parse_flags term.flags create_flags args) (λ set rest. create_command set)

  unfoldable pub run_tasks_get : List String → Command J
  unfolding emitted parse_flags
  run_tasks_get args =
      settled (parse_flags term.flags json_flag args)
        (λ set. one_argument (λ id. calling (rpc_get_task id) (emitted term set (λ d. ""))))

  abbrev listed : Settings → RpcAnswer → Option (Output J)
  listed set (page p) = some (render_tasks term.json (as_json term set) p)
  listed set _ = none

  unfoldable pub run_tasks_list : List String → Command J
  unfolding as_json render_tasks parse_flags text_of number_of to_int32
  run_tasks_list args = settled (parse_flags term.flags list_flags args) (λ set rest.
      calling
        (rpc_list_tasks (to_int32 (number_of "limit" (pos 50) set))
          (to_int32 (number_of "offset" (pos 0) set)) (text_of "status" "" set))
        (listed set))

  unfoldable pub run_tasks_cancel : List String → Command J
  unfolding parse_flags
  run_tasks_cancel args = settled (parse_flags term.flags [] args) (λ set. one_argument (λ id.
      calling (rpc_cancel_task id) (λ answer. some (message (String.◌++◌ "cancelled task " id)))))

  unfoldable pub run_tasks_retry : List String → Command J
  unfolding emitted parse_flags
  run_tasks_retry args = settled (parse_flags term.flags json_flag args) (λ set.
      one_argument (λ id.
        calling (rpc_retry_task id) (emitted term set (λ d. String.◌++◌ "requeued task " id))))

  unfoldable pub run_tasks_request_review : List String → Command J
  unfolding emitted parse_flags
  run_tasks_request_review args = settled (parse_flags term.flags json_flag args) (λ set.
      one_argument (λ id.
        calling (rpc_request_review id)
          (emitted term set (λ d. joined "requested review for " d.id (joined " (" d.status ")")))))

  unfoldable pub finalize_with : String → Settings → Command J
  unfolding emitted chosen_outcome text_of switch_of
  finalize_with id set =
      and_then (chosen_outcome (switch_of "success" false set) (text_of "fail" "" set)) bad_outcome
        (λ o.
          calling (rpc_finalize_task id o)
            (emitted term set (λ d. joined "finalized " d.id (joined " (" d.status ")"))))

  unfoldable pub finalize_from : String × List String → Command J
  unfolding finalize_with parse_flags
  finalize_from (id, args) =
      if str_eq id ""
      then mistaken usage
      else settled (parse_flags term.flags finalize_flags args) (λ set rest. finalize_with id set)

  unfoldable pub run_tasks_finalize : List String → Command J
  unfolding finalize_from extract_id
  run_tasks_finalize args = finalize_from (extract_id "" args)

  unfoldable pub run_tasks : List String → Command J
  unfolding run_tasks_create run_tasks_get run_tasks_list run_tasks_cancel run_tasks_retry
      run_tasks_request_review run_tasks_finalize
  run_tasks [] = mistaken usage
  run_tasks (sub ∷ rest) =
      if str_eq sub "create"
      then run_tasks_create rest
      else (if str_eq sub "get"
          then run_tasks_get rest
          else (if str_eq sub "list"
              then run_tasks_list rest
              else (if str_eq sub "cancel"
                  then run_tasks_cancel rest
                  else (if str_eq sub "retry"
                      then run_tasks_retry rest
                      else (if str_eq sub "request-review"
                          then run_tasks_request_review rest
                          else (if str_eq sub "finalize"
                              then run_tasks_finalize rest
                              else mistaken unknown_command))))))
