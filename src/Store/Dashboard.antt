-- ===== src/Store/Dashboard.antt =====
-- The dashboard's snapshot, internal/mastermind/store/dashboard.go. A call of several statements
-- passes on the numbers of those that are left.
pub mod Sorted
use el_pulpo_ai.Prelude.{
  ℕ, zero, suc, ◌+◌, ◌-◌, ℤ, pos, negsuc, pos_part, neg_part, String, str_eq, Bool, true, false,
  not, ◌&&◌, ◌||◌, Option, none, some, List, [], ◌∷◌, ◌==◌, ltb, ltb_ℤ, if◌then◌else◌, is_some,
  take,
}
use el_pulpo_ai.Store.Row.{Task, TaskLogEntry, Db, Env, Result, ok, err, pending, is_held, db_error}
use el_pulpo_ai.Store.Query.{select_rows, order_by}
use el_pulpo_ai.Store.Tasks.{ListTasksFilter, TasksPage, list_tasks}
use el_pulpo_ai.Store.Workers.{WorkerInfo, list_workers}

-- The environment of the statements from the n-th on.
abbrev pub after : ℕ → Env → Env
after n env = record env { answers = λ k. env.answers (n + k) }

pub record DashboardWorker : Type 0 where
  pub info : WorkerInfo
  pub current_task : Option Task
  pub recent_logs : List TaskLogEntry

pub record DashboardSnapshot : Type 0 where
  pub queue : List Task
  pub workers : List DashboardWorker
  pub generated_at : ℕ

unfoldable pub less_queue : Task → Task → Bool
less_queue a b =
    if not (pos_part a.priority + neg_part b.priority == pos_part b.priority + neg_part a.priority)
    then ltb_ℤ b.priority a.priority
    else ltb a.created_at b.created_at

-- The inner loop, on the part before position j in reverse order: ts[j] is swapped with its
-- predecessor while it comes before it.
unfoldable pub sift : Task → List Task → List Task
unfolding less_queue
sift t [] = t ∷ []
sift t (p ∷ ps) = let swapped = p ∷ sift t ps in if less_queue t p then swapped else t ∷ p ∷ ps

-- The outer loop: the sorted part in reverse order, and the part from position i on.
unfoldable pub sort_from : List Task → List Task → List Task
unfolding sift
sort_from done [] = done
sort_from done (t ∷ ts) = sort_from (sift t done) ts

-- The slice in its own order.
unfoldable pub reverse_onto {ℓ} : {A : Type ℓ} → List A → List A → List A
reverse_onto out [] = out
reverse_onto out (x ∷ xs) = reverse_onto (x ∷ out) xs

unfoldable pub sort_queue_for_dashboard : List Task → List Task
unfolding sort_from reverse_onto
sort_queue_for_dashboard ts = reverse_onto [] (sort_from [] ts)

-- `now.Sub(lastSeen) > staleAfter`; the time since may be negative.
unfoldable pub is_stale_worker : ℕ → Option ℕ → ℕ → Bool
is_stale_worker now none stale_after = true
is_stale_worker now (some seen) stale_after = ltb (seen + stale_after) now

-- ORDER BY claimed_at DESC NULLS LAST.
claimed_later : Option ℕ → Option ℕ → Bool
claimed_later none b = false
claimed_later (some a) none = true
claimed_later (some a) (some b) = ltb b a

unfoldable pub recent_claim : Task → Task → Bool
unfolding claimed_later
recent_claim a b = claimed_later a.claimed_at b.claimed_at

holds_active : Task → Bool
holds_active t = is_some t.claimed_by && is_held t.status

unfoldable pub lookup_worker : String → List (String × Task) → Option Task
lookup_worker w [] = none
lookup_worker w ((v, t) ∷ rest) = if str_eq v w then some t else lookup_worker w rest

-- The loop over the rows: the first row of a worker is kept.
first_claims : List (String × Task) → Option String → Task → List (String × Task)
unfolding lookup_worker
first_claims out none t = out
first_claims out (some w) t = if is_some (lookup_worker w out) then out else (w, t) ∷ out

collect : List (String × Task) → List Task → List (String × Task)
unfolding first_claims
collect out [] = out
collect out (t ∷ ts) = collect (first_claims out t.claimed_by t) ts

unfoldable pub active_tasks_by_worker : Env → Db → Result (List (String × Task))
unfolding collect recent_claim holds_active select_rows order_by
active_tasks_by_worker env db =
    if env.answers 0
    then ok (collect [] (order_by recent_claim (select_rows holds_active db.tasks)))
    else err db_error

-- ORDER BY id DESC.
unfoldable pub newer_entry : TaskLogEntry → TaskLogEntry → Bool
newer_entry a b = ltb b.id a.id

-- The newest n entries, in chronological order.
unfoldable pub recent_task_logs : Env → ℕ → ℕ → Db → Result (List TaskLogEntry)
unfolding newer_entry reverse_onto select_rows order_by
recent_task_logs env i n db =
    if env.answers 0
    then ok (
        reverse_onto [] (take n (order_by newer_entry (select_rows (λ e. e.task_id == i) db.logs))))
    else err db_error

with_logs : WorkerInfo → Task → Result (List TaskLogEntry) → Result DashboardWorker
with_logs w t (ok logs) = ok (record { info = w; current_task = some t; recent_logs = logs })
with_logs w t (err e) = err e

worker_row : Env → ℕ → Db → WorkerInfo → Option Task → Result DashboardWorker
unfolding with_logs recent_task_logs
worker_row env zero db w (some t) =
    ok (record { info = w; current_task = some t; recent_logs = [] })
worker_row env (suc n) db w (some t) = with_logs w t (recent_task_logs env t.id (suc n) db)
worker_row env n db w none = ok (record { info = w; current_task = none; recent_logs = [] })

prepend : Result DashboardWorker → Result (List DashboardWorker) → Result (List DashboardWorker)
prepend (ok w) (ok ws) = ok (w ∷ ws)
prepend (ok w) (err e) = err e
prepend (err e) rest = err e

-- The loop over the workers; a limit of 0 stands for every limit that is not positive, and a
-- `stale_after` of 0 keeps everyone.
worker_rows :
    Env → ℕ → ℕ → ℕ → Db → List (String × Task) → List WorkerInfo → Result (List DashboardWorker)
unfolding worker_row prepend is_stale_worker lookup_worker
worker_rows env now limit stale_after db current [] = ok []
worker_rows env now limit stale_after db current (w ∷ ws) =
    let skipped = worker_rows env now limit stale_after db current ws in
    let row = lookup_worker w.id current in
    let asks = is_some row && ltb 0 limit in
    let rest =
      worker_rows (if asks then after 1 env else env) now limit stale_after db current ws in
    if ltb 0 stale_after && is_stale_worker now w.last_seen_at stale_after
    then skipped
    else prepend (worker_row env limit db w row) rest

pending_page : ListTasksFilter
pending_page = record { status = some pending; limit = pos 200; offset = pos 0 }

snapshot : ℕ → List Task → Result (List DashboardWorker) → Result DashboardSnapshot
unfolding sort_queue_for_dashboard
snapshot now queue (ok ws) =
    ok (record { queue = sort_queue_for_dashboard queue; workers = ws; generated_at = now })
snapshot now queue (err e) = err e

-- `now` is the process's clock.
unfoldable pub get_dashboard :
    (String → String → Bool) → Env → ℕ → ℕ → ℕ → Db → Result DashboardSnapshot
unfolding pending_page snapshot worker_rows active_tasks_by_worker list_workers list_tasks
get_dashboard collate env now limit stale_after db = elim (list_tasks env pending_page db) [
  | err e ↦ err e
  | ok page ↦ elim (list_workers collate (after 2 env) db) [
    | err e ↦ err e
    | ok workers ↦ elim (active_tasks_by_worker (after 3 env) db) [
      | err e ↦ err e
      | ok current ↦
          snapshot now page.items
            (worker_rows (after 4 env) now limit stale_after db current workers)
    ]
  ]
]
