-- ===== src/Cli/Commands.antt =====
-- The command elpulpo as a whole, internal/cli/cli.go and workers.go: its command line, the connection with
-- the administrator's token, one call, and the error that the shell shows.
pub mod Effects
pub mod Access
pub mod Created
use el_pulpo_ai.Prelude.{
  String, str_eq, Bool, true, false, Option, none, some, List, [], ◌∷◌, if◌then◌else◌, ◌||◌,
}
use el_pulpo_ai.Grpc.Status.{Code, internal, Reply, response, failure, Mastermind}
use el_pulpo_ai.Gateway.{Libraries, TokenConfig, Rpc, RpcAnswer, workers, rpc_list_workers}
use el_pulpo_ai.Worker.Client.{Trip}
use el_pulpo_ai.Gateway.Remote.{admin_call}
use el_pulpo_ai.Cli.Flags.{switch_flag, switch_of, parse_flags, Settings}
use el_pulpo_ai.Cli.Format.{Output, usage_text, render_workers}
use el_pulpo_ai.Cli.Command.{
  Mistake, usage, unknown_command, Command, mistaken, calling, Terminal, settled,
}
use el_pulpo_ai.Cli.Tasks.{run_tasks}

-- MASTERMIND_ADDR and ADMIN_TOKEN; the timeouts and the encryption are left out.
pub record CliConfig : Type 0 where
  pub mastermind_addr : String
  pub admin_token : String

-- What is shown of an error, but for the texts: formatErr tells a refused token and a lost connection from
-- the other codes.
pub data CliError : Type 0 where
  mistake : Mistake → CliError
  no_config no_address no_token bad_address : CliError
  rejected_token unreachable : CliError
  status : Code → CliError

-- What the shell sees: what was printed, with exit status 0, or an error, with 1.
pub data Exit (J : Type 0) : Type 0 where
  printed : Output J → Exit J
  failed : CliError → Exit J

unfoldable pub format_err : Code → CliError
format_err Code.unauthenticated = rejected_token
format_err Code.unavailable = unreachable
format_err code = status code

abbrev answer_exit : {J : Type 0} → Option (Output J) → Exit J
answer_exit none = failed (status internal)
answer_exit (some o) = printed o

-- The reply to the call of a command.
unfoldable pub reply_exit :
    {J : Type 0}
    → (RpcAnswer → Option (Output J))
    → Mastermind × Reply RpcAnswer
    → Mastermind × Exit J
unfolding format_err
reply_exit show (s, response answer) = (s, answer_exit (show answer))
reply_exit show (s, failure code) = (s, failed (format_err code))

-- "-h", "--help" and "help".
unfoldable pub asks_help : List String → Bool
asks_help [] = false
asks_help (a ∷ rest) = str_eq a "-h" || str_eq a "--help" || str_eq a "help"

module _ {J : Type 0} (dials : String → Bool) (lib : Libraries) (tokens : TokenConfig) where
  -- newAdminClient, and the call with the token as its credentials.
  unfoldable pub with_client :
      Trip → CliConfig → Rpc → (RpcAnswer → Option (Output J)) → Mastermind → Mastermind × Exit J
  unfolding admin_call reply_exit
  with_client x cfg rpc show s =
      if str_eq cfg.mastermind_addr ""
      then (s, failed no_address)
      else (if str_eq cfg.admin_token ""
          then (s, failed no_token)
          else (if dials cfg.mastermind_addr
              then reply_exit show (admin_call lib tokens cfg.admin_token x rpc s)
              else (s, failed bad_address)))

  unfoldable pub carried_out : Trip → CliConfig → Command J → Mastermind → Mastermind × Exit J
  unfolding with_client
  carried_out x cfg (mistaken e) s = (s, failed (mistake e))
  carried_out x cfg (calling rpc show) s = with_client x cfg rpc show s

  -- An empty command line fails before the configuration is read, which may fail too.
  unfoldable pub configured : Trip → Option CliConfig → Command J → Mastermind → Mastermind × Exit J
  unfolding carried_out
  configured x none c s = (s, failed no_config)
  configured x (some cfg) c s = carried_out x cfg c s

module _ {J O : Type 0} (term : Terminal J O) where
  abbrev worker_list : Settings → RpcAnswer → Option (Output J)
  worker_list set (workers items) =
      some (render_workers term.json (switch_of "json" false set) items)
  worker_list set _ = none

  unfoldable pub run_workers_list : List String → Command J
  unfolding parse_flags switch_of render_workers
  run_workers_list args =
      settled (parse_flags term.flags (("json", switch_flag) ∷ []) args)
        (λ set rest. calling rpc_list_workers (worker_list set))

  unfoldable pub run_workers : List String → Command J
  unfolding run_workers_list
  run_workers [] = mistaken usage
  run_workers (sub ∷ rest) =
      if str_eq sub "list" then run_workers_list rest else mistaken unknown_command

  -- The commands by their group.
  unfoldable pub command : List String → Command J
  unfolding run_tasks run_workers
  command [] = mistaken usage
  command (group ∷ rest) =
      if str_eq group "tasks"
      then run_tasks term rest
      else (if str_eq group "workers" then run_workers rest else mistaken unknown_command)

  module _ (dials : String → Bool) (lib : Libraries) (tokens : TokenConfig) where
    unfoldable pub run_cli :
        Trip → Option CliConfig → List String → Mastermind → Mastermind × Exit J
    unfolding configured command asks_help
    run_cli x cfg [] s = (s, failed (mistake usage))
    run_cli x cfg (a ∷ rest) s =
        if asks_help (a ∷ rest)
        then (s, printed usage_text)
        else configured dials lib tokens x cfg (command (a ∷ rest)) s
