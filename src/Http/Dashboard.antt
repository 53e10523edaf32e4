-- ===== src/Http/Dashboard.antt =====
-- The dashboard and the page of an agent, internal/mastermind/httpserver/dashboard.go, with the
-- functions that their templates call.
pub mod Counts
use Prim.Native.Char.{Char, code}
use Prim.Native.String
use Prim.Native.String.{len, slice}
use Prim.Native.Nat.{◌/◌}
use el_pulpo_ai.Prelude.{
  ℕ, suc, ◌+◌, ◌*◌, ◌-◌, ℤ, pos, negsuc, String, str_eq, Bool, true, false, ◌||◌, Option, none,
  some, List, [], ◌∷◌, leb, ltb, if◌then◌else◌, ◌==◌, trim_space, trim_prefix, trim_slash,
  cut_slash,
}
use el_pulpo_ai.Store.Row.{Task, Db, Env, Result, ok, err, StoreError, agent_not_found}
use el_pulpo_ai.Store.Dashboard.{DashboardWorker, DashboardSnapshot, get_dashboard}
use el_pulpo_ai.Store.AgentDetail.{AgentDetail, get_agent_detail}
use el_pulpo_ai.Grpc.Status.{Mastermind}
use el_pulpo_ai.Http.{
  Verb, get, post, other_verb, Request, DashboardPage, View, dashboard, dashboard_fragment,
  agent_detail, agent_detail_fragment, Response, plain, page, WebLibraries,
}
use el_pulpo_ai.Http.Pages.{rendered}

pub data AgentState : Type 0 where
  busy idle offline : AgentState

-- Times are microseconds; a time of the future is less than a minute ago, too.
abbrev pub idle_window : ℕ
idle_window = 60000000

seen_state : ℕ → Option ℕ → AgentState
seen_state now none = offline
seen_state now (some t) = if leb now (t + idle_window) then idle else offline

unfoldable pub agent_state_name : ℕ → Option ℕ → Option Task → AgentState
unfolding seen_state
agent_state_name now seen (some t) = busy
agent_state_name now seen none = seen_state now seen

abbrev pub counted : AgentState → DashboardPage → DashboardPage
counted busy p = record p { busy_count = suc p.busy_count }
counted idle p = record p { idle_count = suc p.idle_count }
counted offline p = record p { offline_count = suc p.offline_count }

-- The loop over the workers.
unfoldable pub count_states : ℕ → List DashboardWorker → DashboardPage → DashboardPage
unfolding agent_state_name
count_states now [] p = p
count_states now (w ∷ ws) p =
    count_states now ws (counted (agent_state_name now w.info.last_seen_at w.current_task) p)

-- An error is logged, and the snapshot is empty.
unfoldable pub snapshot_or_empty : Result DashboardSnapshot → DashboardPage
snapshot_or_empty (ok d) = record {
  queue = d.queue;
  workers = d.workers;
  busy_count = 0;
  idle_count = 0;
  offline_count = 0;
}
snapshot_or_empty (err e) = record {
  queue = [];
  workers = [];
  busy_count = 0;
  idle_count = 0;
  offline_count = 0;
}

unfoldable pub with_counts : ℕ → DashboardPage → DashboardPage
unfolding count_states
with_counts now p = count_states now p.workers p

-- 4 lines for each worker, and none who has been away for an hour.
abbrev pub logs_per_worker : ℕ
logs_per_worker = 4

abbrev pub worker_stale_after : ℕ
worker_stale_after = 3600000000

abbrev agent_recent_tasks_limit : ℤ
agent_recent_tasks_limit = pos 10

abbrev agent_log_tail_limit : ℤ
agent_log_tail_limit = pos 500

module _ {O : Type 0} (lib : WebLibraries O) (env : Env) (clock : ℕ) where
  unfoldable pub build_dashboard_data : Db → DashboardPage
  unfolding with_counts snapshot_or_empty
  build_dashboard_data db = with_counts clock (
      snapshot_or_empty (get_dashboard lib.collate env clock logs_per_worker worker_stale_after db))

  unfoldable pub dashboard_handler : Verb → Mastermind → Response
  unfolding build_dashboard_data rendered
  dashboard_handler get s = rendered lib env (dashboard (build_dashboard_data s.db))
  dashboard_handler _ s = plain 405

  unfoldable pub dashboard_fragment_handler : Verb → Mastermind → Response
  unfolding build_dashboard_data rendered
  dashboard_fragment_handler get s =
      rendered lib env (dashboard_fragment (build_dashboard_data s.db))
  dashboard_fragment_handler _ s = plain 405

  unfoldable pub agent_data : (AgentDetail → View) → Result AgentDetail → Response
  unfolding rendered
  agent_data f (ok d) = rendered lib env (f d)
  agent_data f (err agent_not_found) = plain 404
  agent_data f (err e) = plain 500

  detail_of : String → Mastermind → Result AgentDetail
  detail_of id s = get_agent_detail env clock id agent_recent_tasks_limit agent_log_tail_limit s.db

  agent_page : String → String → Mastermind → Response
  unfolding agent_data detail_of
  agent_page id verb s =
      if str_eq verb ""
      then agent_data (agent_detail id) (detail_of id s)
      else (if str_eq verb "fragment"
          then agent_data (agent_detail_fragment id) (detail_of id s)
          else plain 404)

  agent_named : Option String → String → Mastermind → Response
  unfolding agent_page
  agent_named none verb s = plain 404
  agent_named (some id) verb s = if str_eq id "" then plain 404 else agent_page id verb s

  -- The escaped path, where there is one, so that an id may contain a slash.
  agent_path : Request → String
  agent_path r =
      trim_slash
        (trim_prefix (if str_eq r.raw_path "" then r.path else r.raw_path) "/dashboard/agents/")

  agent_split : String → Mastermind → Response
  unfolding agent_named
  agent_split rest s = let (id, verb) = cut_slash rest in agent_named (lib.path_unescape id) verb s

  unfoldable pub agent_detail_router : Request → Verb → Mastermind → Response
  unfolding agent_split agent_path
  agent_detail_router r get s =
      if str_eq (agent_path r) "" then plain 404 else agent_split (agent_path r) s
  agent_detail_router r _ s = plain 405

-- What the templates call.
pub data PriorityClass : Type 0 where
  low med high : PriorityClass

unfoldable pub priority_class : ℤ → PriorityClass
priority_class (pos p) = if leb 7 p then high else (if leb 3 p then med else low)
priority_class (negsuc p) = low

-- `id[:8]`, of a text of ASCII.
unfoldable pub short_id : String → String
short_id id = if leb (len id) 8 then id else slice id 0 8

-- "—", "soon", or a number of units with "ago".
pub data TimeUnit : Type 0 where
  second minute hour day : TimeUnit

pub data RelTime : Type 0 where
  never soon : RelTime
  ago : ℕ → TimeUnit → RelTime

-- Microseconds.
abbrev pub micros : TimeUnit → ℕ
micros second = 1000000
micros minute = 60000000
micros hour = 3600000000
micros day = 86400000000

elapsed : ℕ → RelTime
elapsed d =
    if ltb d (micros minute)
    then ago (d / micros second) second
    else (if ltb d (micros hour)
        then ago (d / micros minute) minute
        else (if ltb d (micros day) then ago (d / micros hour) hour else ago (d / micros day) day))

-- relTime after derefTime: `none` is the zero time.
unfoldable pub rel_time : ℕ → Option ℕ → RelTime
unfolding elapsed
rel_time clock none = never
rel_time clock (some t) = if ltb clock t then soon else elapsed (clock - t)
