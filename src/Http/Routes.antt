-- ===== src/Http/Routes.antt =====
-- The routes of the HTTP server, internal/mastermind/httpserver/server.go, as net/http's ServeMux
-- resolves them: the exact pattern, or else the longest one that ends in a slash and begins the path.
use el_pulpo_ai.Prelude.{
  ℕ, Option, none, some, String, str_eq, Bool, true, false, if◌then◌else◌, is_some, after_prefix,
}
use el_pulpo_ai.Store.Row.{Env}
use el_pulpo_ai.Grpc.Status.{Mastermind}
use el_pulpo_ai.Auth.{basic_auth}
use el_pulpo_ai.Http.{Request, Response, plain, redirect, metrics_text, file, WebLibraries}
use el_pulpo_ai.Http.Pages.{tasks_fragment_handler, tasks_new_form}
use el_pulpo_ai.Http.Tasks.{tasks_collection, tasks_member}
use el_pulpo_ai.Http.Dashboard.{dashboard_handler, dashboard_fragment_handler, agent_detail_router}

pub record WebConfig : Type 0 where
  pub admin_user : String
  pub admin_password : String

-- The patterns; `subtree` is the redirect to a pattern with a slash at its end.
pub data Endpoint : Type 0 where
  healthz readyz metrics static_files wireframes root : Endpoint
  collection member list_fragment new_form : Endpoint
  board board_fragment agents : Endpoint
  subtree : String → Endpoint

under : String → String → Bool
under prefix path = is_some (after_prefix prefix path)

exact_else : String → Endpoint
exact_else path =
    if under "/tasks/" path
    then member
    else (if under "/dashboard/agents/" path
        then agents
        else (if under "/static/" path then static_files else root))

unfoldable pub endpoint : String → Endpoint
unfolding exact_else under
endpoint path =
    if str_eq path "/tasks"
    then collection
    else (if str_eq path "/tasks/fragment"
        then list_fragment
        else (if str_eq path "/tasks/new"
            then new_form
            else (if str_eq path "/dashboard"
                then board
                else (if str_eq path "/dashboard/fragment"
                    then board_fragment
                    else (if str_eq path "/dashboard/agents"
                        then subtree "/dashboard/agents/"
                        else (if str_eq path "/static"
                            then subtree "/static/"
                            else (if str_eq path "/healthz"
                                then healthz
                                else (if str_eq path "/readyz"
                                    then readyz
                                    else (if str_eq path "/metrics"
                                        then metrics
                                        else (if str_eq path "/wireframes"
                                            then wireframes
                                            else exact_else path))))))))))

-- The routes that are registered without the middleware.
unfoldable pub is_public : Endpoint → Bool
is_public healthz = true
is_public readyz = true
is_public metrics = true
is_public root = true
is_public (subtree path) = true
is_public _ = false

module _ {O : Type 0} (lib : WebLibraries O) (env : Env) (clock : ℕ) (cfg : WebConfig) where
  unfoldable pub protected :
      Request → (Mastermind → Mastermind × Response) → Mastermind → Mastermind × Response
  unfolding basic_auth
  protected r next s = basic_auth cfg.admin_user cfg.admin_password (plain 401) r.credentials next s

  -- The handler of a route, without the middleware. store.Ping is one statement.
  unfoldable pub handler : Request → Endpoint → Mastermind → Mastermind × Response
  handler r healthz s = (s, plain 200)
  handler r readyz s = (s, if env.answers 0 then plain 200 else plain 503)
  handler r metrics s = (s, metrics_text)
  handler r static_files s = (s, file r.path)
  handler r wireframes s = (s, redirect 302 "/static/wireframes/")
  handler r root s = (s, if str_eq r.path "/" then redirect 302 "/tasks" else plain 404)
  handler r collection s = tasks_collection lib env r r.verb s
  handler r member s = tasks_member lib env r s
  handler r list_fragment s = (s, tasks_fragment_handler lib env env r s)
  handler r new_form s = (s, tasks_new_form lib env r.verb)
  handler r board s = (s, dashboard_handler lib env clock r.verb s)
  handler r board_fragment s = (s, dashboard_fragment_handler lib env clock r.verb s)
  handler r agents s = (s, agent_detail_router lib env clock r r.verb s)
  handler r (subtree path) s = (s, redirect 301 path)

  unfoldable pub dispatch : Request → Endpoint → Mastermind → Mastermind × Response
  unfolding protected handler is_public
  dispatch r e s = if is_public e then handler r e s else protected r (handler r e) s

  unfoldable pub served_at : Option String → Request → Mastermind → Mastermind × Response
  unfolding dispatch endpoint
  served_at none r s = dispatch r (endpoint r.path) s
  served_at (some location) r s = (s, redirect 301 location)

  -- A path that ServeMux cleans is redirected before any handler.
  unfoldable pub http_serve : Request → Mastermind → Mastermind × Response
  unfolding served_at
  http_serve r s = served_at (lib.cleaned r.raw_path) r s
