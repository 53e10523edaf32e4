-- ===== src/Reaper.antt =====
-- One tick of the reaper, internal/mastermind/reaper/reaper.go: the statement of the store and the
-- counters after it. The ticks themselves come from a clock.
use el_pulpo_ai.Prelude.{
  ℕ, ◌+◌, Bool, true, not, ◌&&◌, ◌≡◌, refl, ltb, if◌then◌else◌, List, [], ◌∷◌, arith, ap, ◌∙◌,
}
use el_pulpo_ai.Store.Row.{Task, Env, Result, ok, err}
use el_pulpo_ai.Store.Query.{count_rows}
use el_pulpo_ai.Store.Lifecycle.{ReapOutcome, reap_stale, stale, exhausted}
use el_pulpo_ai.Store.Lifecycle.Reap.{reap_stale_counts}
use el_pulpo_ai.Grpc.Status.{Metrics, Mastermind}

unfoldable pub count_reaped : Result ReapOutcome → Metrics → Metrics
count_reaped (err e) m = m
count_reaped (ok r) m =
    if ltb 0 (r.requeued + r.failed)
    then (if ltb 0 r.failed
        then record m {
          reaped_total = m.reaped_total + (r.requeued + r.failed);
          failed_reaped = m.failed_reaped + r.failed;
        }
        else record m { reaped_total = m.reaped_total + (r.requeued + r.failed) })
    else m

unfoldable pub reaper_tick : Env → ℕ → Mastermind → Mastermind
unfolding count_reaped
reaper_tick env visibility s =
    let (db, r) = reap_stale env visibility s.db in
    record { db = db; metrics = count_reaped r s.metrics }

split_count :
    (p q : Task → Bool) (ts : List Task)
    → count_rows (λ t. p t && not (q t)) ts + count_rows (λ t. p t && q t) ts ≡ count_rows p ts
unfolding count_rows
split_count p q [] = refl
split_count p q (t ∷ ts) = ground (arith, split_count p q ts)

reaped_counters :
    (r : ReapOutcome) (m : Metrics)
    → let m' = count_reaped (ok r) m in
      (m'.reaped_total ≡ m.reaped_total + (r.requeued + r.failed))
      × (m'.failed_reaped ≡ m.failed_reaped + r.failed)
unfolding count_reaped
reaped_counters r m = ground arith

-- A tick that the database answers adds the number of tasks whose lease has run out to
-- tasks_reaped_total, and the number of those without an attempt left to tasks_failed_total.
pub reaper_tick_counts :
    (env : Env) (visibility : ℕ) (s : Mastermind)
    → env.answers 0 ≡ true
    → let m = (reaper_tick env visibility s).metrics in
      (m.reaped_total ≡ s.metrics.reaped_total + count_rows (stale env.now visibility) s.db.tasks)
      × (m.failed_reaped
          ≡ s.metrics.failed_reaped
            + count_rows (λ t. stale env.now visibility t && exhausted t) s.db.tasks)
unfolding reaper_tick
reaper_tick_counts env visibility s up =
    let p = stale env.now visibility in
    let (total, lost) =
      reaped_counters
        (record {
          requeued = count_rows (λ t. p t && not (exhausted t)) s.db.tasks;
          failed = count_rows (λ t. p t && exhausted t) s.db.tasks;
        })
        s.metrics in
    rw (reap_stale_counts env visibility s.db up)
      (total ∙ ap (λ n. s.metrics.reaped_total + n) (split_count p exhausted s.db.tasks), lost)
