-- ===== src/Cli/Commands/Access.antt =====
-- A command line beside the program: the events that it stands for, and what it can do with another token.
use el_pulpo_ai.Prelude.{
  String, str_eq, Bool, true, false, not, ◌≡◌, refl, ◌≢◌, ap, ◌∙◌, Option, none, some, List, [],
  ◌∷◌, if_both, arith,
}
use el_pulpo_ai.Store.Row.{Env}
use el_pulpo_ai.Grpc.Status.{
  Reply, response, failure, Mastermind, unauthenticated, unavailable, Code,
}
use el_pulpo_ai.Auth.{request_metadata}
use el_pulpo_ai.Gateway.{Libraries, TokenConfig, Rpc, RpcAnswer}
use el_pulpo_ai.Gateway.Access.{is_worker_call, token_for, stopped}
use el_pulpo_ai.Gateway.Remote.{admin_call, over_network}
use el_pulpo_ai.Worker.Client.{Trip, Fate, answered, request_lost, reply_lost}
use el_pulpo_ai.Http.{WebLibraries}
use el_pulpo_ai.Http.Routes.{WebConfig}
use el_pulpo_ai.System.{Event, grpc_call, step, run_events, grpc_libraries}
use el_pulpo_ai.Cli.Format.{Output, usage_text}
use el_pulpo_ai.Cli.Command.{Command, mistaken, calling, Terminal}
use el_pulpo_ai.Cli.Commands.{
  CliConfig, CliError, Exit, printed, failed, reply_exit, command, asks_help, with_client,
  carried_out, configured, run_cli,
}
use el_pulpo_ai.Cli.Commands.Effects.{AsksAdmin, command_lem}

module _ {P O J : Type 0} (term : Terminal J O) (dials : String → Bool) (web : WebLibraries P)
    (tokens : TokenConfig) (login : WebConfig) (x : Trip) (s : Mastermind) where
  libraries : Libraries
  libraries = grpc_libraries web tokens login x.locked

  -- The event of a call, with the token of the configuration.
  unfoldable pub events_of : String → Option Rpc → List (Env × Event)
  events_of token none = []
  events_of token (some rpc) =
      (x.env, grpc_call (some (request_metadata token ∷ [])) x.locked rpc) ∷ []

  abbrev pub no_worker_call : Option Rpc → Bool
  no_worker_call none = true
  no_worker_call (some rpc) = not (is_worker_call rpc)

  -- The state after one call of the AdminService at most.
  pub record ByEvents (token : String) (r : Mastermind × Exit J) : Type 0 where
    pub sent : Option Rpc
    pub admin : no_worker_call sent ≡ true
    pub same : r.0 ≡ run_events web tokens login (events_of token sent) s

  unmoved : {token : String} (e : Exit J) → ByEvents token (s, e)
  unfolding run_events events_of
  unmoved e = record { sent = none; admin = refl; same = refl }

  reply_state :
      (show : RpcAnswer → Option (Output J)) (r : Mastermind × Reply RpcAnswer)
      → (reply_exit show r).0 ≡ r.0
  unfolding reply_exit
  reply_state show (s', response answer) = refl
  reply_state show (s', failure code) = refl

  call_lem :
      (token : String) (rpc : Rpc) (show : RpcAnswer → Option (Output J)) (f : Fate)
      → is_worker_call rpc ≡ false
      → x.fate ≡ f
      → ByEvents token (reply_exit show (admin_call libraries tokens token x rpc s))
  unfolding admin_call run_events events_of libraries step grpc_libraries
  call_lem token rpc show answered h e = record {
    sent = some rpc;
    admin = ap not h;
    same = rw e (reply_state show _);
  }
  call_lem token rpc show request_lost h e = record {
    sent = none;
    admin = refl;
    same = rw e (reply_state show (s, failure Code.unavailable));
  }
  call_lem token rpc show reply_lost h e = record {
    sent = some rpc;
    admin = ap not h;
    same = rw e (reply_state show _);
  }

  carried_lem :
      (cfg : CliConfig) (c : Command J)
      → AsksAdmin c
      → ByEvents cfg.admin_token (carried_out dials libraries tokens x cfg c s)
  unfolding carried_out with_client
  carried_lem cfg (mistaken e) k = unmoved _
  carried_lem cfg (calling rpc show) k =
      let P = ByEvents cfg.admin_token in
      if_both P (str_eq cfg.mastermind_addr "") (unmoved _) (
        if_both P (str_eq cfg.admin_token "") (unmoved _) (
          if_both P (dials cfg.mastermind_addr)
            (call_lem cfg.admin_token rpc show x.fate (ground (arith, k.only)) refl) (unmoved _)))

  -- Whatever the command line says and whatever becomes of its call: elpulpo leaves the mastermind as the
  -- program does after no event, or after one call of the AdminService with the token of the
  -- configuration.
  pub cli_refines :
      (cfg : CliConfig) (args : List String)
      → ByEvents cfg.admin_token
          (run_cli term dials (grpc_libraries web tokens login x.locked) tokens x (some cfg) args s)
  unfolding run_cli configured libraries
  cli_refines cfg [] = unmoved _
  cli_refines cfg (a ∷ rest) =
      if_both (ByEvents cfg.admin_token) (asks_help (a ∷ rest)) (unmoved _)
        (carried_lem cfg (command term (a ∷ rest)) (command_lem term (a ∷ rest)))

-- The state as it was, and no output but the usage.
record Rejected {J : Type 0} (s : Mastermind) (r : Mastermind × Exit J) : Type 0 where
  same : r.0 ≡ s
  silent : (o : Output J) → r.1 ≡ printed o → o ≡ usage_text

module _ {J : Type 0} (s : Mastermind) where
  turned_down : (e : CliError) → Rejected {J = J} s (s, failed e)
  turned_down e = record { same = refl; silent = λ o h. cc }

  refusal :
      (show : RpcAnswer → Option (Output J)) (code : Code)
      → Rejected s (reply_exit show (s, failure code))
  unfolding reply_exit
  refusal show code = turned_down _

  lost_or_refused :
      (show : RpcAnswer → Option (Output J)) (f : Fate)
      (call : Mastermind → Mastermind × Reply RpcAnswer)
      → call s ≡ (s, failure unauthenticated)
      → Rejected s (reply_exit show (over_network f call s))
  lost_or_refused show answered call e = rw e (refusal show unauthenticated)
  lost_or_refused show request_lost call e = refusal show unavailable
  lost_or_refused show reply_lost call e = rw e (refusal show unavailable)

module _ {J O : Type 0} (term : Terminal J O) (dials : String → Bool) (lib : Libraries)
    (tokens : TokenConfig) (x : Trip) (s : Mastermind) where
  foreign_call :
      (token : String) (rpc : Rpc) (show : RpcAnswer → Option (Output J))
      → token ≢ tokens.admin_token
      → is_worker_call rpc ≡ false
      → Rejected s (reply_exit show (admin_call lib tokens token x rpc s))
  unfolding admin_call
  foreign_call token rpc show ne h =
      let own : token_for tokens rpc ≡ tokens.admin_token = rw h in
      lost_or_refused s show x.fate _
        (stopped (record lib { locked = x.locked }) x.env tokens rpc s token [] (λ e. ne (e ∙ own)))

  foreign_command :
      (cfg : CliConfig) (c : Command J)
      → cfg.admin_token ≢ tokens.admin_token
      → AsksAdmin c
      → Rejected s (carried_out dials lib tokens x cfg c s)
  unfolding carried_out with_client
  foreign_command cfg (mistaken e) ne k = turned_down s _
  foreign_command cfg (calling rpc show) ne k =
      if_both (Rejected s) (str_eq cfg.mastermind_addr "") (turned_down s _) (
        if_both (Rejected s) (str_eq cfg.admin_token "") (turned_down s _) (
          if_both (Rejected s) (dials cfg.mastermind_addr)
            (foreign_call cfg.admin_token rpc show ne (ground (arith, k.only))) (turned_down s _)))

  -- With another token than the administrator's no command line changes anything or prints anything but
  -- the usage.
  pub foreign_token_fails :
      (cfg : CliConfig) (args : List String)
      → cfg.admin_token ≢ tokens.admin_token
      → ((run_cli term dials lib tokens x (some cfg) args s).0 ≡ s)
        × ((o : Output J)
            → (run_cli term dials lib tokens x (some cfg) args s).1 ≡ printed o
            → o ≡ usage_text)
  unfolding run_cli configured
  foreign_token_fails cfg [] ne = (refl, λ o h. cc)
  foreign_token_fails cfg (a ∷ rest) ne =
      let helped : Rejected s (s, printed usage_text) = record {
        same = refl;
        silent = λ (o : Output J) (h : printed usage_text ≡ printed o). cc;
      } in
      let r =
        if_both (Rejected s) (asks_help (a ∷ rest)) helped
          (foreign_command cfg (command term (a ∷ rest)) ne (command_lem term (a ∷ rest))) in
      (r.same, r.silent)
