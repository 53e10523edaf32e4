-- ===== src/Worker/State/Early.antt =====
-- A pull request that is opened before anything else was reported of the task.
use el_pulpo_ai.Prelude.{ℕ, String, str_eq, true, false, ◌≡◌, ap, ◌∙◌, none, some, arith}
use el_pulpo_ai.Store.Row.{Task, claimed}
use el_pulpo_ai.Store.Query.{find_task}
use el_pulpo_ai.Store.Query.Laws.{Unique, guarded}
use el_pulpo_ai.Store.Transitions.{allowed-open_pr}
use el_pulpo_ai.Store.Park.{owner_may}
use el_pulpo_ai.Store.Park.Replies.{open_pr_refused}
use el_pulpo_ai.Grpc.Status.{failed_precondition, failure, Mastermind, UuidCodec}
use el_pulpo_ai.Grpc.Server.{serve_open_pr}
use el_pulpo_ai.Worker.Client.{
  Answer, error, status, answered, Trip, ClientTask, rpc, opening, end_rpc,
}
use el_pulpo_ai.Worker.State.{ended, matches, state_end}
use el_pulpo_ai.Worker.State.Stuck.{busy, spend, fresh_end}

-- A task that is only claimed is not yet in progress.
claimed_refuses :
    (w : String) (row : Task)
    → row.status ≡ claimed
    → guarded (owner_may w "open_pr") (some row) ≡ none
unfolding owner_may
claimed_refuses w row h = ground (arith, allowed-open_pr row.status)

module _ (u : UuidCodec) (x : Trip) (url : String) (s : Mastermind) (i : ℕ) (row : Task) where
  refused_open_pr :
      (w id : String)
      → x.env.answers 0 ≡ true
      → Unique s.db.tasks
      → str_eq w "" ≡ false
      → str_eq url "" ≡ false
      → u.parse id ≡ some i
      → find_task i s.db.tasks ≡ some row
      → row.status ≡ claimed
      → serve_open_pr u x.env w id url s ≡ (s, failure failed_precondition)
  unfolding serve_open_pr
  refused_open_pr w id up k named given parses there early =
      let refused =
        open_pr_refused x.env i s.db up w url given k
          (ap (guarded (owner_may w "open_pr")) there ∙ claimed_refuses w row early) in
      rw (named, given, parses) (rw refused)

  -- On a table with a primary key, with a network and a database that answer: a worker that
  -- reports a pull request for a task that is only claimed is refused by the mastermind with
  -- FailedPrecondition, and is left with a spent handle.
  pub early_open_pr_spends :
      (worker_id id : String) (t : ClientTask)
      → x.fate ≡ answered
      → x.env.answers 0 ≡ true
      → Unique s.db.tasks
      → str_eq t.worker_id "" ≡ false
      → str_eq url "" ≡ false
      → u.parse t.id ≡ some i
      → find_task i s.db.tasks ≡ some row
      → row.status ≡ claimed
      → t.finalized ≡ false
      → matches id t ≡ true
      → state_end u worker_id x (opening url) id (busy s t)
        ≡ (busy s (spend t), error (status failed_precondition))
  unfolding end_rpc rpc
  early_open_pr_spends worker_id id t through up k named given parses there early fresh m =
      fresh_end u worker_id x (opening url) id s t fresh m
      ∙ ap
          (λ (q : Mastermind × Answer (Unit {0})). ended u worker_id (busy s t) (q.0, spend t, q.1))
          called
    where
      called : end_rpc u x (opening url) (spend t) s ≡ (s, error (status failed_precondition))
      called = rw (through, refused_open_pr t.worker_id t.id up k named given parses there early)
