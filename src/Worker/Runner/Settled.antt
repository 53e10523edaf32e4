-- ===== src/Worker/Runner/Settled.antt =====
-- What a turn of the runner with the default handler leaves in the store.
use el_pulpo_ai.Prelude.{ℕ, String, str_eq, false, ◌≡◌, ap, ◌∙◌, none, some, refl, arith}
use el_pulpo_ai.Store.Row.{Task, completed, is_held}
use el_pulpo_ai.Store.Query.{find_task}
use el_pulpo_ai.Store.Query.Laws.{Unique}
use el_pulpo_ai.Grpc.Status.{Mastermind, UuidCodec}
use el_pulpo_ai.Worker.Client.{
  Answer, got, error, answered, Trip, ClientTask, start_heartbeat, client_claim,
}
use el_pulpo_ai.Worker.State.Idle.{claim_Held, claimed_handle}
use el_pulpo_ai.Worker.Runner.{fake_handler, run_one, after_claim, runner_turn}
use el_pulpo_ai.Worker.Runner.Busy.{Runs, Busy, Keeps, Done, progress-Busy, completed_lem}

module _ (u : UuidCodec) (w : String) (x y z : Trip) (before meanwhile : Mastermind → Mastermind)
    (s : Mastermind) (t : ClientTask) where
  claimed_turn :
      (o : Mastermind × Answer ClientTask)
      → o.1 ≡ got t
      → after_claim u w (fake_handler u y before meanwhile none) z o
        ≡ run_one u w (fake_handler u y before meanwhile none) z t o.0
  unfolding after_claim
  claimed_turn (s', got a) e =
      let same : a ≡ t = ground arith in
      ap (λ b. run_one u w (fake_handler u y before meanwhile none) z b s') same
  claimed_turn (s', error r) e = cc

  settled :
      (i : ℕ) (s' : Mastermind)
      → str_eq w "" ≡ false
      → t.worker_id ≡ w
      → t.finalized ≡ false
      → u.parse t.id ≡ some i
      → Runs y
      → z.fate ≡ answered
      → Runs z
      → Keeps w before
      → Keeps w meanwhile
      → Busy w i s'
      → Done w i (run_one u w (fake_handler u y before meanwhile none) z t s')
  unfolding run_one fake_handler
  settled i s' named by fresh parses up through up' first calm h =
      let b = start_heartbeat t in
      completed_lem u w i b named by parses z _ fresh through up'
        (calm i _ (progress-Busy u w i b named by parses y "working" _ up (first i s' h)))

  -- On a table with a primary key, a turn of a runner with a name and the default handler that has
  -- claimed a task leaves it completed by this worker, if its context is not cancelled, its report is
  -- answered (its note may be lost), the database answers the statements of both, nothing that others
  -- and the heartbeat do between its calls takes the task from it (so that the lease does not run
  -- out), and a UUID is read as it is printed.
  pub turn_completes :
      Unique s.db.tasks
      → str_eq w "" ≡ false
      → ((i : ℕ) → u.parse (u.print i) ≡ some i)
      → Runs y
      → z.fate ≡ answered
      → Runs z
      → Keeps w before
      → Keeps w meanwhile
      → (client_claim u x w s).1 ≡ got t
      → (i : ℕ) × (t.id ≡ u.print i)
        × ((row : Task) × (find_task i
                (runner_turn u w (fake_handler u y before meanwhile none) x z s).db.tasks
              ≡ some row)
            × (row.status ≡ completed)
            × (row.claimed_by ≡ some w))
  unfolding runner_turn
  turn_completes k named reads up through up' first calm e =
      let h = claim_Held u w x x s (start_heartbeat t) t refl k e in
      let (by, fresh) = claimed_handle u w x x s t e in
      let start : Busy w h.row.id (client_claim u x w s).0 = record {
        row = h.row;
        there = h.stored;
        held = (h.owner, ap is_held h.is_claimed);
      } in
      let done =
        settled h.row.id (client_claim u x w s).0 named by fresh
          (ap u.parse h.same_id ∙ reads h.row.id) up through up' first calm start in
      (
        h.row.id,
        h.same_id,
        (
          done.row,
          ap (λ (q : Mastermind). find_task h.row.id q.db.tasks)
                (claimed_turn (client_claim u x w s) e)
              ∙ done.there,
          done.is_completed,
          done.owner,
        ),
      )
