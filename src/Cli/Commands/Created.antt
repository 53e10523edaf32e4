-- ===== src/Cli/Commands/Created.antt =====
-- A task that `tasks create` has made, as `tasks get --json` prints it.
use el_pulpo_ai.Prelude.{
  ℕ, String, str_eq, Bool, true, false, ◌≡◌, refl, ap, ◌∙◌, some, List, [], ◌∷◌, Bool-cases, inl,
  inr,
}
use el_pulpo_ai.Grpc.Status.{Reply, response, failure, Mastermind}
use el_pulpo_ai.Grpc.Admin.{CreateTaskRequest, TaskDetail, admin_create_task, admin_get_task}
use el_pulpo_ai.Grpc.Admin.Created.{created_is_found, created_id}
use el_pulpo_ai.Gateway.{
  Libraries, TokenConfig, detail, answered as rpc_answered, rpc_create_task, rpc_get_task, serve,
}
use el_pulpo_ai.Gateway.Access.{reaches}
use el_pulpo_ai.Gateway.Remote.{admin_call}
use el_pulpo_ai.Worker.Client.{Trip, Fate, answered, request_lost, reply_lost}
use el_pulpo_ai.Cli.Flags.{Settings, switch, parsed, classify, plain, parse_flags}
use el_pulpo_ai.Cli.Format.{Output, object, proto_task_to_json, emit_task}
use el_pulpo_ai.Cli.Command.{
  Command, mistaken, calling, Terminal, Mistake, settled, one_argument, as_json, emitted, json_flag,
}
use el_pulpo_ai.Cli.Tasks.{run_tasks, run_tasks_get, run_tasks_create}
use el_pulpo_ai.Cli.Tasks.Every.{settled_lem, create_lem}
use el_pulpo_ai.Cli.Commands.{
  CliConfig, CliError, Exit, printed, failed, reply_exit, command, with_client, carried_out,
  configured, run_cli,
}

module _ {J O : Type 0} (term : Terminal J O) (dials : String → Bool) (lib : Libraries)
    (tokens : TokenConfig) (cfg : CliConfig) (y : Trip) where
  json_read :
      (id : String)
      → classify id ≡ plain
      → parse_flags term.flags json_flag ("--json" ∷ id ∷ [])
        ≡ parsed (("json", switch true) ∷ []) (id ∷ [])
  unfolding parse_flags
  json_read id h = rw h

  got_reply :
      (id : String) (d : TaskDetail) (s : Mastermind)
      → cfg.admin_token ≡ tokens.admin_token
      → y.fate ≡ answered
      → admin_get_task lib.uuid y.env id s ≡ (s, response d)
      → admin_call lib tokens cfg.admin_token y (rpc_get_task id) s ≡ (s, response (detail d))
  unfolding admin_call serve
  got_reply id d s own up h =
      rw (own, up)
        (rw (reaches (record lib { locked = y.locked }) y.env tokens (rpc_get_task id) s []) (rw h))

  get_command :
      (id : String)
      → classify id ≡ plain
      → command term ("tasks" ∷ "get" ∷ "--json" ∷ id ∷ [])
        ≡ calling (rpc_get_task id) (emitted term (("json", switch true) ∷ []) (λ d. ""))
  unfolding command run_tasks run_tasks_get settled one_argument
  get_command id h = rw (json_read id h)

  -- What was printed of a task d, and that the next `tasks get --json` prints d as well.
  pub record Shown (o : Output J) (s : Mastermind) : Type 0 where
    pub task : TaskDetail
    pub in_json : Bool
    pub heading : String
    pub is : o ≡ emit_task term.json in_json heading task
    pub again :
        run_cli term dials lib tokens y (some cfg) ("tasks" ∷ "get" ∷ "--json" ∷ task.id ∷ []) s
        ≡ (s, printed (object (proto_task_to_json term.json task)))

  record Shows (r : Mastermind × Exit J) : Type 0 where
    shown : (o : Output J) → r.1 ≡ printed o → Shown o r.0

  silent : (s : Mastermind) (e : CliError) → Shows (s, failed e)
  silent s e = record { shown = λ o h. cc }

  module _ (own : cfg.admin_token ≡ tokens.admin_token) (up : y.fate ≡ answered)
      (runs : y.env.answers 0 ≡ true) (reads : (i : ℕ) → lib.uuid.parse (lib.uuid.print i) ≡ some i)
      (plain_ids : (i : ℕ) → classify (lib.uuid.print i) ≡ plain) (x : Trip) (s : Mastermind) where
    module _ (address : str_eq cfg.mastermind_addr "" ≡ false)
        (token : str_eq cfg.admin_token "" ≡ false)
        (dialled : dials cfg.mastermind_addr ≡ true) where
      again_lem :
          (d : TaskDetail) (s' : Mastermind)
          → classify d.id ≡ plain
          → admin_get_task lib.uuid y.env d.id s' ≡ (s', response d)
          → run_cli term dials lib tokens y (some cfg) ("tasks" ∷ "get" ∷ "--json" ∷ d.id ∷ []) s'
            ≡ (s', printed (object (proto_task_to_json term.json d)))
      unfolding run_cli configured carried_out with_client reply_exit emitted
      again_lem d s' h g =
          rw (get_command d.id h, address, token, dialled, got_reply d.id d s' own up g)

      replied :
          (set : Settings) (heading : TaskDetail → String) (r : Mastermind × Reply TaskDetail)
          → ((d : TaskDetail)
              → r.1 ≡ response d
              → (classify d.id ≡ plain)
                × (admin_get_task lib.uuid y.env d.id r.0 ≡ (r.0, response d)))
          → Shows (reply_exit (emitted term set heading) (rpc_answered detail r))
      unfolding reply_exit emitted
      replied set heading (s', failure code) h = silent s' _
      replied set heading (s', response d) h = record {
        shown = λ o e.
            let (id, g) = h d refl in
            record {
              task = d;
              in_json = as_json term set;
              heading = heading d;
              is = cc e;
              again = again_lem d s' id g;
            };
      }

      created_reply :
          (r : CreateTaskRequest)
          → x.fate ≡ answered
          → admin_call lib tokens cfg.admin_token x (rpc_create_task r) s
            ≡ rpc_answered detail (admin_create_task lib.uuid x.env lib.payloads lib.json_valid r s)
      unfolding admin_call serve
      created_reply r e =
          rw (e, own)
            (reaches (record lib { locked = x.locked }) x.env tokens (rpc_create_task r) s [])

      sent :
          (r : CreateTaskRequest) (set : Settings) (heading : TaskDetail → String) (f : Fate)
          → x.fate ≡ f
          → Shows (
              reply_exit
                (emitted term set heading)
                (admin_call lib tokens cfg.admin_token x (rpc_create_task r) s))
      unfolding admin_call
      sent r set heading answered e = rw (created_reply r e) (
          replied set heading (admin_create_task lib.uuid x.env lib.payloads lib.json_valid r s)
            (λ d h.
              let (i, same) = created_id lib.uuid x.env lib.payloads lib.json_valid r s d h in
              (
                ap classify same ∙ plain_ids i,
                created_is_found lib.uuid x.env lib.payloads lib.json_valid r s d y.env runs reads
                    h,
              )))
      sent r set heading request_lost e = unfold reply_exit in rw e (silent s _)
      sent r set heading reply_lost e = unfold reply_exit in rw e (silent _ _)

    made :
        (r : CreateTaskRequest) (set : Settings) (heading : TaskDetail → String)
        → Shows
            (with_client dials lib tokens x cfg (rpc_create_task r) (emitted term set heading) s)
    unfolding with_client
    made r set heading = elim (Bool-cases (str_eq cfg.mastermind_addr "")) [
      | inl a ↦ rw a (silent s _)
      | inr a ↦ elim (Bool-cases (str_eq cfg.admin_token "")) [
        | inl b ↦ rw (a, b) (silent s _)
        | inr b ↦ elim (Bool-cases (dials cfg.mastermind_addr)) [
          | inr c ↦ rw (a, b, c) (silent s _)
          | inl c ↦ rw (a, b, c) (sent a b c r set heading x.fate refl)
        ]
      ]
    ]

    record Carried (c : Command J) : Type 0 where
      shows : Shows (carried_out dials lib tokens x cfg c s)

    wrong : (e : Mistake) → Carried (mistaken e)
    unfolding carried_out
    wrong e = record { shows = silent s _ }

    creating : (args : List String) → Carried (run_tasks_create term args)
    unfolding run_tasks_create carried_out
    creating args = settled_lem Carried wrong _ _ (λ set rest.
        create_lem Carried wrong term set (λ r heading. record { shows = made r set heading }))

    -- When `tasks create` has printed a task, `tasks get --json` with its id prints the same task right
    -- after it and changes nothing, if the administrator's token is used, that call and its statement
    -- are answered, and a UUID is printed as it is read and with no dash in front.
    pub created_is_shown :
        (args : List String) (o : Output J)
        → (run_cli term dials lib tokens x (some cfg) ("tasks" ∷ "create" ∷ args) s).1 ≡ printed o
        → Shown o (run_cli term dials lib tokens x (some cfg) ("tasks" ∷ "create" ∷ args) s).0
    unfolding run_cli configured command run_tasks
    created_is_shown args o h = (creating args).shows.shown o h
