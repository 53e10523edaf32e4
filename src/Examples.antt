-- ===== src/Examples.antt =====
-- The theorems on the servers and the whole program at concrete requests.
mod Tools
mod Cli
mod Demo
use el_pulpo_ai.Prelude.{
  inl, inr, ap, str_eq, ◌+◌, String, true, false, ◌≡◌, ◌≢◌, refl, ◌⊎◌, ◌↔◌, ◌&&◌, none, some, List,
  [], ◌∷◌, length,
}
use el_pulpo_ai.Store.Row.{Env}
use el_pulpo_ai.Store.Query.{count_rows}
use el_pulpo_ai.Store.Tasks.{PayloadCodec}
use el_pulpo_ai.Store.History.{empty_db}
use el_pulpo_ai.Store.History.Invariant.{DbInv}
use el_pulpo_ai.Store.Examples.{env, later, db}
use el_pulpo_ai.Grpc.Status.{Mastermind, UuidCodec, Metrics, failure, unauthenticated}
use el_pulpo_ai.Grpc.Admin.{byte_len}
use el_pulpo_ai.Auth.{Incoming, request_metadata}
use el_pulpo_ai.Auth.Tokens.{Carries}
use el_pulpo_ai.Gateway.{Libraries, TokenConfig, Rpc, rpc_claim_task, serve, gateway}
use el_pulpo_ai.Gateway.Access.{gateway_admits, roles_separate}
use el_pulpo_ai.IssueRefs.{validate_jira, jira_short, validate_pr, pr_short}
use el_pulpo_ai.IssueRefs.Links.{JiraUrl, jira_links}
use el_pulpo_ai.IssueRefs.PullLinks.{PullUrl, pull_links}
use el_pulpo_ai.Http.{get, post, Request, plain, WebLibraries}
use el_pulpo_ai.Http.Dashboard.{build_dashboard_data}
use el_pulpo_ai.Http.Dashboard.Counts.{is_busy, is_waiting, dashboard_counts}
use el_pulpo_ai.Http.Routes.{WebConfig, endpoint, is_public, http_serve}
use el_pulpo_ai.Http.Effects.{Lawful}
use el_pulpo_ai.Http.Access.{strangers_refused, http_serve-Lawful, only_post_changes}
use el_pulpo_ai.Reaper.{reaper_tick, reaper_tick_counts}
use el_pulpo_ai.Store.Lifecycle.{stale, exhausted}
use el_pulpo_ai.System.{Event, grpc_call, web_request, reaper_ticks, run_events, system-DbInv}
use el_pulpo_ai.System.Intruders.{no_token, no_login, intruders_change_nothing}

abbrev codec : PayloadCodec
codec = record { instructions = λ s. some (some s); jsonb = λ s. some s }

-- A text stands for the id that is its length.
abbrev by_length : UuidCodec
by_length = record { parse = λ s. some (byte_len s); print = λ n. "id" }

abbrev web : WebLibraries (Unit {0})
web = record {
  uuid = by_length;
  payloads = codec;
  objects = record { decode = λ s. some (some tt); print_with = λ s o. some s };
  json_valid = λ s. true;
  collate = λ a b. true;
  parse_local = λ s. none;
  format_local = λ t. "now";
  path_unescape = λ s. some s;
  cleaned = λ s. none;
  renders = λ v. true;
}

abbrev libraries : Libraries
libraries = record {
  uuid = by_length;
  payloads = codec;
  json_valid = λ s. true;
  collate = λ a b. true;
  locked = λ t. false;
}

abbrev tokens : TokenConfig
tokens = record { worker_token = "w"; admin_token = "a" }

abbrev login : WebConfig
login = record { admin_user = "root"; admin_password = "secret" }

abbrev counters : Metrics
counters = record {
  claimed_success = 0;
  claimed_empty = 0;
  claimed_error = 0;
  completed_total = 0;
  failed_reported = 0;
  failed_reaped = 0;
  reaped_total = 0;
}

abbrev world : Mastermind
world = record { db = db; metrics = counters }

-- The form that requeues task 2, without the login.
abbrev request : Request
request = record {
  verb = post;
  path = "/tasks/ab/requeue";
  raw_path = "/tasks/ab/requeue";
  status_query = "";
  is_htmx = false;
  credentials = none;
  form = none;
}

abbrev page_request : Request
page_request = record request {
  verb = get;
  path = "/tasks/ab";
  raw_path = "/tasks/ab";
  credentials = some ("root", "secret");
}

abbrev claiming : Rpc
claiming = rpc_claim_task "ada"

abbrev bare_call : Incoming
bare_call = some ("a" ∷ [])

abbrev events : List (Env × Event)
events =
    (env, grpc_call (some ("Bearer w" ∷ [])) (λ t. false) claiming)
    ∷ (later, web_request 150 request)
    ∷ (later, reaper_ticks 10)
    ∷ []

abbrev intrusions : List (Env × Event)
intrusions =
    (env, grpc_call bare_call (λ t. false) claiming) ∷ (later, web_request 150 request) ∷ []

system-DbInv_example :
    DbInv (run_events web tokens login events (record { db = empty_db; metrics = counters })).db
system-DbInv_example = system-DbInv web tokens login events counters

reaper_tick_counts_example :
    ((reaper_tick env 10 world).metrics.reaped_total ≡ 0 + count_rows (stale env.now 10) db.tasks)
    × ((reaper_tick env 10 world).metrics.failed_reaped
        ≡ 0 + count_rows (λ t. stale env.now 10 t && exhausted t) db.tasks)
reaper_tick_counts_example = reaper_tick_counts env 10 world refl

roles_separate_example :
    (gateway libraries env tokens (some (request_metadata "w" ∷ [])) claiming world
      ≡ serve libraries env claiming world)
    × (gateway libraries env tokens (some (request_metadata "a" ∷ [])) claiming world
        ≡ (world, failure unauthenticated))
roles_separate_example =
    roles_separate libraries env tokens claiming world (λ e. cc (ap (λ x. str_eq x "w") e))

not_carried : ¬ Carries "w" bare_call
not_carried h = elim h [ inl e ↦ cc e | inr (_, e) ↦ cc (ap (λ x. str_eq x "w") e) ]

no_credentials : request.credentials ≢ some ("root", "secret")
no_credentials e = cc e

intruders_change_nothing_example : run_events web tokens login intrusions world ≡ world
intruders_change_nothing_example =
    intruders_change_nothing web tokens login intrusions world
      (no_token not_carried, (no_login no_credentials, tt))

gateway_admits_example :
    (Carries "w" bare_call
      × (gateway libraries env tokens bare_call claiming world
          ≡ serve libraries env claiming world))
    ⊎ ((¬ Carries "w" bare_call)
        × (gateway libraries env tokens bare_call claiming world
            ≡ (world, failure unauthenticated)))
gateway_admits_example = gateway_admits libraries env tokens bare_call claiming world

strangers_refused_example :
    ((http_serve web env 100 login request world).0 ≡ world)
    × ((web.cleaned "/tasks/ab/requeue" ≢ none)
        ⊎ ((is_public (endpoint "/tasks/ab/requeue") ≡ true)
            ⊎ ((http_serve web env 100 login request world).1 ≡ plain 401)))
strangers_refused_example = strangers_refused web env 100 login request world no_credentials

http_serve-Lawful_example : Lawful codec env world (http_serve web env 100 login page_request world)
http_serve-Lawful_example = http_serve-Lawful web env 100 login page_request world

is_read : page_request.verb ≢ post
is_read e = cc e

only_post_changes_example : (http_serve web env 100 login page_request world).0 ≡ world
only_post_changes_example = only_post_changes web env 100 login page_request world is_read

abbrev ticket : String
ticket = "https://jira.example.org/browse/AB-12?x"

jira_links_example :
    JiraUrl ticket "AB-12" ↔ ((validate_jira ticket ≡ true) × (jira_short ticket ≡ "AB-12"))
jira_links_example = jira_links ticket "AB-12"

abbrev pull_request : String
pull_request = "http://github.com/sbogutyn/el-pulpo-ai/pull/7#files"

pull_links_example :
    PullUrl pull_request "sbogutyn/el-pulpo-ai#7"
    ↔ ((validate_pr pull_request ≡ true) × (pr_short pull_request ≡ "sbogutyn/el-pulpo-ai#7"))
pull_links_example = pull_links pull_request "sbogutyn/el-pulpo-ai#7"

dashboard_counts_example :
    let d = build_dashboard_data web env 100 db in
    (d.busy_count ≡ count_rows is_busy d.workers)
    × (d.idle_count ≡ count_rows (is_waiting 100) d.workers)
    × (d.busy_count + d.idle_count + d.offline_count ≡ length d.workers)
dashboard_counts_example = dashboard_counts web env 100 db
