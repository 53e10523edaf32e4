-- ===== src/Examples/Cli.antt =====
-- The theorems on the command elpulpo at concrete command lines.
use el_pulpo_ai.Prelude.{
  ℕ, zero, suc, pos, ap, str_eq, String, Bool, true, false, ◌≡◌, ◌≢◌, refl, none, some, List, [],
  ◌∷◌, ◌++◌, after_prefix,
}
use el_pulpo_ai.Grpc.Status.{success, failed_with}
use el_pulpo_ai.Grpc.Admin.{byte_len, admin_create_task}
use el_pulpo_ai.Store.Tasks.{create_task, is_blank}
use el_pulpo_ai.Store.History.{empty_db}
use el_pulpo_ai.Auth.{request_metadata}
use el_pulpo_ai.Gateway.{rpc_finalize_task, serve, gateway, lookup, policy, full_method}
use el_pulpo_ai.System.{grpc_libraries}
use el_pulpo_ai.Examples.{web, login, world}
use el_pulpo_ai.Examples.Tools.{libraries, unary_reads, tokens, trip, nothing_yet}
use el_pulpo_ai.Cli.Flags.{FlagLibraries, Settings, text, number, classify, plain}
use el_pulpo_ai.Cli.Flags.Spelling.{apart, joined_short, spell}
use el_pulpo_ai.Config.{loaded, not_empty}
use el_pulpo_ai.Config.Mcp.{McpConfig, load_mcp, flags_override}
use el_pulpo_ai.Cli.Format.{Output, usage_text, block, words, integer, attempts, instant}
use el_pulpo_ai.Cli.Command.{Terminal, settled, and_then}
use el_pulpo_ai.Cli.Tasks.{
  create_task_request, run_tasks_finalize, payload_with, instructions_with, time_with,
}
use el_pulpo_ai.Cli.Tasks.Finalize.{rpc_of, finalize_orders}
use el_pulpo_ai.Cli.Commands.{CliConfig, printed, run_cli}
use el_pulpo_ai.Cli.Commands.Access.{ByEvents, cli_refines, foreign_token_fails}
use el_pulpo_ai.Cli.Commands.Created.{Shown, created_is_shown}

-- A number is written in unary.
abbrev flag_libraries : FlagLibraries
flag_libraries = record { parse_int = λ s. some (pos (byte_len s)); parse_span = λ s. none }

abbrev term : Terminal String String
term = record {
  flags = flag_libraries;
  json = record {
    decode = λ s. some s;
    compact = λ s. s;
    decode_object = λ s. some (some s);
    print_with = λ raw o. some raw;
    print_alone = λ raw. some raw;
  };
  parse_time = λ s. none;
  stdin = none;
  read_file = λ path. none;
}

abbrev dials : String → Bool
dials addr = true

abbrev config : CliConfig
config = record { mastermind_addr = "localhost:50051"; admin_token = "a" }

abbrev foreign : CliConfig
foreign = record { mastermind_addr = "localhost:50051"; admin_token = "w" }

abbrev create_args : List String
create_args = "--name" ∷ "n" ∷ "--priority=xx" ∷ "--instructions" ∷ "go" ∷ []

abbrev cancel : List String
cancel = "tasks" ∷ "cancel" ∷ "ab" ∷ []

cli_refines_example : ByEvents term dials web tokens login trip world "a" (
    run_cli term dials
      (grpc_libraries web tokens login trip.locked)
      tokens
      trip
      (some config)
      cancel
      world)
cli_refines_example = cli_refines term dials web tokens login trip world config cancel

is_foreign : foreign.admin_token ≢ tokens.admin_token
is_foreign e = cc (ap (λ x. str_eq x "w") e)

foreign_token_fails_example :
    ((run_cli term dials libraries tokens trip (some foreign) cancel world).0 ≡ world)
    × ((o : Output String)
        → (run_cli term dials libraries tokens trip (some foreign) cancel world).1 ≡ printed o
        → o ≡ usage_text)
foreign_token_fails_example =
    foreign_token_fails term dials libraries tokens trip world foreign cancel is_foreign

apart_from_empty : (s : String) → str_eq s "" ≡ false → s ≢ ""
apart_from_empty s h e = cc (h, ap (λ x. str_eq x "") e)

finalize_orders_example :
    (rpc_of (run_tasks_finalize term ("ab" ∷ "--fail" ∷ "broken" ∷ []))
      ≡ some (rpc_finalize_task "ab" (failed_with "broken")))
    × (rpc_of (run_tasks_finalize term ("--fail" ∷ "broken" ∷ "ab" ∷ []))
        ≡ some (rpc_finalize_task "broken" (failed_with "ab")))
    × (rpc_of (run_tasks_finalize term ("ab" ∷ "--success" ∷ []))
        ≡ some (rpc_finalize_task "ab" success))
    × (rpc_of (run_tasks_finalize term ("--success" ∷ "ab" ∷ []))
        ≡ some (rpc_finalize_task "ab" success))
unfolding after_prefix
finalize_orders_example =
    finalize_orders term "ab" "broken" (apart_from_empty "ab" refl) (apart_from_empty "broken" refl)
      refl refl

abbrev big : Settings
big = ("max-attempts", number (pos 4294967299)) ∷ ("name", text "n") ∷ []

-- `--max-attempts 4294967299` asks for three attempts.
wrapped_attempts : (create_task_request big "{}" none).max_attempts ≡ pos 3
unfolding create_task_request
wrapped_attempts = refl

plain_unary : (i : ℕ) → classify (libraries.uuid.print i) ≡ plain
unfolding classify
plain_unary zero = refl
plain_unary (suc zero) = refl
plain_unary (suc (suc i)) = refl

abbrev creation : List String
creation = "tasks" ∷ "create" ∷ create_args

abbrev created_output : Output String
created_output = block "created task xx (n)" (
    ("ID", words "xx")
    ∷ ("Name", words "n")
    ∷ ("Status", words "pending")
    ∷ ("Priority", integer (pos 2))
    ∷ ("Attempts", attempts 0 (pos 3))
    ∷ ("Created", instant 100)
    ∷ ("Updated", instant 100)
    ∷ ("Payload", words "go")
    ∷ [])

created_is_shown_example :
    Shown term dials libraries tokens config trip created_output
      (run_cli term dials libraries tokens trip (some config) creation nothing_yet).0
unfolding run_cli settled payload_with instructions_with time_with gateway lookup policy full_method
    request_metadata serve admin_create_task create_task is_blank empty_db byte_len
    create_task_request and_then
created_is_shown_example =
    created_is_shown term dials libraries tokens config trip refl refl refl unary_reads plain_unary
      trip nothing_yet create_args created_output refl

abbrev environment : McpConfig
environment = record {
  mastermind_addr = "localhost:50051";
  admin_token = "";
  tls = false;
  dial_timeout = pos 5000;
  log_level = "info";
  log_format = "json";
}

flags_override_example :
    load_mcp flag_libraries
      (some environment)
      (some (spell apart "addr" "queue:50051" ++ (spell joined_short "token" "t" ++ [])))
    ≡ loaded (record environment { mastermind_addr = "queue:50051"; admin_token = "t" })
flags_override_example =
    flags_override flag_libraries environment apart joined_short "queue:50051" "t"
      (not_empty "queue:50051" refl) (not_empty "t" refl)
