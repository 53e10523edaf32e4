-- ===== src/System.antt =====
-- The program of cmd/mastermind/main.go as a whole: the gRPC server, the admin UI and the reaper on
-- one database. What happens is a sequence of events, each taken as one step.
pub mod Intruders
use el_pulpo_ai.Prelude.{
  ℕ, suc, ◌≤◌, String, Bool, ◌≡◌, refl, sym, subst, ap, ◌∙◌, List, [], ◌∷◌, length, arith,
}
use el_pulpo_ai.Store.Row.{Task, Db, Env}
use el_pulpo_ai.Store.Tasks.{PayloadCodec}
use el_pulpo_ai.Store.History.{Call, reaps, writes_log, apply, run, empty_db}
use el_pulpo_ai.Store.History.Invariant.{DbInv, run_empty-DbInv}
use el_pulpo_ai.Store.Logs.{append_write}
use el_pulpo_ai.Grpc.Status.{Mastermind, UuidCodec, Metrics}
use el_pulpo_ai.Auth.{Incoming}
use el_pulpo_ai.Gateway.{Libraries, TokenConfig, Rpc, gateway}
use el_pulpo_ai.Gateway.Modest.{AtMostOne, untouched, called}
use el_pulpo_ai.Gateway.Effects.{gateway-Modest}
use el_pulpo_ai.Http.{Request, WebLibraries}
use el_pulpo_ai.Http.Routes.{WebConfig, http_serve}
use el_pulpo_ai.Http.Effects.{Lawful}
use el_pulpo_ai.Http.Access.{http_serve-Lawful}
use el_pulpo_ai.Reaper.{reaper_tick}

-- A gRPC call with its metadata and the rows that others hold locked, a request of a browser at the time
-- of the process's clock, a tick of the reaper, and what an AppendLog writes whose check was passed before
-- other events came.
pub data Event : Type 0 where
  grpc_call : Incoming → (Task → Bool) → Rpc → Event
  web_request : ℕ → Request → Event
  reaper_ticks : ℕ → Event
  late_line : ℕ → String → Event

module _ {O : Type 0} (web : WebLibraries O) (tokens : TokenConfig) (login : WebConfig) where
  -- The services share their libraries with the admin UI.
  unfoldable pub grpc_libraries : (Task → Bool) → Libraries
  grpc_libraries locked = record {
    uuid = web.uuid;
    payloads = web.payloads;
    json_valid = web.json_valid;
    collate = web.collate;
    locked = locked;
  }

  unfoldable pub step : Env → Event → Mastermind → Mastermind
  unfolding grpc_libraries
  step env (grpc_call md locked rpc) s = (gateway (grpc_libraries locked) env tokens md rpc s).0
  step env (web_request clock r) s = (http_serve web env clock login r s).0
  step env (reaper_ticks visibility) s = reaper_tick env visibility s
  step env (late_line i message) s = record s { db = (append_write env i message s.db).0 }

  unfoldable pub run_events : List (Env × Event) → Mastermind → Mastermind
  unfolding step
  run_events [] s = s
  run_events ((env, e) ∷ rest) s = run_events rest (step env e s)

  step_lem :
      (env : Env) (e : Event) (s : Mastermind) → AtMostOne web.payloads env s.db (step env e s).db
  unfolding step reaper_tick apply
  step_lem env (grpc_call md locked rpc) s =
      (gateway-Modest (grpc_libraries locked) env tokens md rpc s).effect
  step_lem env (web_request clock r) s = (http_serve-Lawful web env clock login r s).effect
  step_lem env (reaper_ticks visibility) s = called (reaps visibility) refl
  step_lem env (late_line i message) s = called (writes_log i message) refl

  -- A history of store calls for a sequence of events.
  abbrev pub Explains : List (Env × Event) → Mastermind → List (Env × Call) → Type 0
  Explains events s history =
      ((run_events events s).db ≡ run web.payloads history s.db) × (length history ≤ length events)

  explain_next :
      (env : Env) (e : Event) (rest : List (Env × Event)) (s : Mastermind)
      → AtMostOne web.payloads env s.db (step env e s).db
      → (history : List (Env × Call)) × Explains rest (step env e s) history
      → (history : List (Env × Call)) × Explains ((env, e) ∷ rest) s history
  unfolding run_events run
  explain_next env e rest s (untouched h) (history, (same, short)) =
      (history, (same ∙ ap (run web.payloads history) h, omega (arith, short)))
  explain_next env e rest s (called call h) (history, (same, short)) =
      ((env, call) ∷ history, (same ∙ ap (run web.payloads history) h, omega (arith, short)))

  -- Whatever clients, browsers and the reaper do, and whoever they are: the database ends as some history
  -- of calls of the store leaves it, with at most one call for each event.
  refines_store :
      (events : List (Env × Event)) (s : Mastermind)
      → (history : List (Env × Call)) × Explains events s history
  unfolding run_events run
  refines_store [] s = ([], (refl, omega arith))
  refines_store ((env, e) ∷ rest) s =
      explain_next env e rest s (step_lem env e s) (refines_store rest (step env e s))

  -- From the empty database on, whatever clients, browsers and the reaper do, no two rows share an id and
  -- every row is well formed.
  pub system-DbInv :
      (events : List (Env × Event)) (m : Metrics)
      → DbInv (run_events events (record { db = empty_db; metrics = m })).db
  system-DbInv events m =
      let (history, (same, _)) = refines_store events (record { db = empty_db; metrics = m }) in
      subst DbInv (sym same) (run_empty-DbInv web.payloads history)
