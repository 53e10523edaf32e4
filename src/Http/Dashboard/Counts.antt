-- ===== src/Http/Dashboard/Counts.antt =====
-- The numbers that the dashboard shows.
use el_pulpo_ai.Prelude.{
  ℕ, ◌+◌, ◌*◌, ◌≤◌, ◌<◌, ◌≡◌, refl, Bool, true, false, Option, none, some, List, [], ◌∷◌, length,
  is_some, not, ◌&&◌, leb, arith,
}
use el_pulpo_ai.Store.Row.{Task, Db, Env, Result, ok, err}
use el_pulpo_ai.Store.Query.{count_rows}
use el_pulpo_ai.Store.Dashboard.{DashboardWorker, DashboardSnapshot, get_dashboard}
use el_pulpo_ai.Http.{DashboardPage, WebLibraries}
use el_pulpo_ai.Http.Dashboard.{
  AgentState, busy, idle, offline, agent_state_name, counted, count_states, with_counts,
  snapshot_or_empty, build_dashboard_data, TimeUnit, second, micros, ago, elapsed, rel_time,
  logs_per_worker, worker_stale_after,
}

abbrev seen_within : ℕ → Option ℕ → Bool
seen_within now none = false
seen_within now (some t) = leb now (t + 60000000)

-- With a task, without one but seen in the last minute, and neither.
abbrev pub is_busy : DashboardWorker → Bool
is_busy w = is_some w.current_task

abbrev pub is_waiting : ℕ → DashboardWorker → Bool
is_waiting now w = not (is_some w.current_task) && seen_within now w.info.last_seen_at

-- What the loop adds to the counters.
record Counted (now : ℕ) (ws : List DashboardWorker) (p q : DashboardPage) : Type 0 where
  busy_gain : q.busy_count ≡ p.busy_count + count_rows is_busy ws
  idle_gain : q.idle_count ≡ p.idle_count + count_rows (is_waiting now) ws
  total_gain :
      q.busy_count + q.idle_count + q.offline_count
      ≡ p.busy_count + p.idle_count + p.offline_count + length ws
  same_workers : q.workers ≡ p.workers

abbrev says_busy : AgentState → Bool
says_busy busy = true
says_busy _ = false

abbrev says_idle : AgentState → Bool
says_idle idle = true
says_idle _ = false

name_busy :
    (now : ℕ) (seen : Option ℕ) (o : Option Task)
    → is_some o ≡ says_busy (agent_state_name now seen o)
unfolding agent_state_name
name_busy now none (some t) = refl
name_busy now none none = refl
name_busy now (some at) (some t) = refl
name_busy now (some at) none = ground arith

name_idle :
    (now : ℕ) (seen : Option ℕ) (o : Option Task)
    → (not (is_some o) && seen_within now seen) ≡ says_idle (agent_state_name now seen o)
unfolding agent_state_name
name_idle now none (some t) = refl
name_idle now none none = refl
name_idle now (some at) (some t) = refl
name_idle now (some at) none = ground arith

count_one :
    (now : ℕ) (w : DashboardWorker) (ws : List DashboardWorker) (p q : DashboardPage)
    (a : AgentState)
    → is_busy w ≡ says_busy a
    → is_waiting now w ≡ says_idle a
    → Counted now ws (counted a p) q
    → Counted now (w ∷ ws) p q
unfolding count_rows
count_one now w ws p q busy e h k = ground arith
count_one now w ws p q idle e h k = ground arith
count_one now w ws p q offline e h k = ground arith

count_states-Counted :
    (now : ℕ) (ws : List DashboardWorker) (p : DashboardPage)
    → Counted now ws p (count_states now ws p)
unfolding count_states
count_states-Counted now [] p = unfold count_rows in ground arith
count_states-Counted now (w ∷ ws) p =
    count_one now w ws p _ (agent_state_name now w.info.last_seen_at w.current_task)
      (name_busy now w.info.last_seen_at w.current_task)
      (name_idle now w.info.last_seen_at w.current_task) (count_states-Counted now ws _)

from_zero :
    (now : ℕ) (r : Result DashboardSnapshot)
    → let d = with_counts now (snapshot_or_empty r) in
      (d.busy_count ≡ count_rows is_busy d.workers)
      × (d.idle_count ≡ count_rows (is_waiting now) d.workers)
      × (d.busy_count + d.idle_count + d.offline_count ≡ length d.workers)
unfolding with_counts snapshot_or_empty
from_zero now (err e) = unfold count_rows count_states in (refl, refl, refl)
from_zero now (ok d) =
    let k = count_states-Counted now d.workers (snapshot_or_empty (ok d)) in
    rw k.same_workers (ground (arith, k.busy_gain, k.idle_gain, k.total_gain))

-- The dashboard counts every worker that it shows once: as busy if it has a task, as idle if it has none
-- and was seen in the last minute, and as offline otherwise.
pub dashboard_counts :
    {O : Type 0} (lib : WebLibraries O) (env : Env) (clock : ℕ) (db : Db)
    → let d = build_dashboard_data lib env clock db in
      (d.busy_count ≡ count_rows is_busy d.workers)
      × (d.idle_count ≡ count_rows (is_waiting clock) d.workers)
      × (d.busy_count + d.idle_count + d.offline_count ≡ length d.workers)
unfolding build_dashboard_data
dashboard_counts lib env clock db =
    from_zero clock (get_dashboard lib.collate env clock logs_per_worker worker_stale_after db)

-- A time of the past is shown by the largest unit that has fully passed, and how often it has: less than
-- a minute in seconds, less than an hour in minutes, less than a day in hours, more in days.
pub rel_time_lem :
    (clock t n : ℕ) (u : TimeUnit)
    → rel_time clock (some t) ≡ ago n u
    → (t ≤ clock) × (n * micros u + t ≤ clock) × (clock < (n + 1) * micros u + t)
unfolding rel_time elapsed
rel_time_lem clock t n second e = ground arith
rel_time_lem clock t n _ e = ground arith
