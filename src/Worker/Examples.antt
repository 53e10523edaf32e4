-- ===== src/Worker/Examples.antt =====
-- The theorems of the worker, the handlers and the reaper at concrete worlds.
mod Demo
use el_pulpo_ai.Prelude.{
  ◌∙◌, if_both, ℕ, zero, suc, arith, pos, String, true, false, ◌≡◌, refl, ap, none, some, [], ◌∷◌,
}
use el_pulpo_ai.Store.Row.{Task, Env, pending, claimed, completed}
use el_pulpo_ai.Store.Query.{find_task}
use el_pulpo_ai.Store.Tasks.{PayloadCodec}
use el_pulpo_ai.Store.Claim.{claim_task}
use el_pulpo_ai.Grpc.Status.{failed_precondition, Mastermind, UuidCodec}
use el_pulpo_ai.Grpc.Server.{serve_claim_task}
use el_pulpo_ai.Grpc.Admin.{byte_len}
use el_pulpo_ai.Worker.Client.{
  client_claim, status, unavailable, error, answered, request_lost, Trip, ClientTask, opening,
  completing,
}
use el_pulpo_ai.Worker.State.{matches, state_end, claim_next}
use el_pulpo_ai.Worker.State.Agent.{claiming, ending_by, agent_run}
use el_pulpo_ai.Worker.State.Stuck.{
  busy, spend, KeepsHandle, IsSpent, spent_for_good, failed_end_spends,
}
use el_pulpo_ai.Worker.State.Idle.{Held, claim_next_holds}
use el_pulpo_ai.Worker.Runner.{fake_handler, runner_turn}
use el_pulpo_ai.Store.Lifecycle.{heartbeat, heartbeat_set, held_by}
use el_pulpo_ai.Store.Lifecycle.Owner.{Holds, heartbeat_set-KeepsId}
use el_pulpo_ai.Store.Query.{exec_update, by_id, set_row}
use el_pulpo_ai.Store.Query.Laws.{row_update, find-update}
use el_pulpo_ai.Worker.Runner.Busy.{Busy, Keeps}
use el_pulpo_ai.Worker.Runner.Settled.{turn_completes}
use el_pulpo_ai.Worker.Tools.{PayloadReader, result, view_from_task, claim_next_tool}
use el_pulpo_ai.Worker.Tools.Idempotent.{claim_again}
use el_pulpo_ai.Worker.State.Early.{early_open_pr_spends}

-- Numbers written in unary stand in for UUIDs.
abbrev unary : ℕ → String
unary zero = ""
unary (suc n) = String.◌∷◌ "x" (unary n)

abbrev unary_codec : UuidCodec
unary_codec = record { parse = λ s. some (byte_len s); print = unary }

unary_reads : (i : ℕ) → unary_codec.parse (unary_codec.print i) ≡ some i
unfolding byte_len
unary_reads i = ap some (counted i)
  where
    counted : (n : ℕ) → byte_len (unary n) ≡ n
    counted zero = refl
    counted (suc n) = omega (arith, counted n)

abbrev env : Env
env = record { now = 100; fresh_id = 2; answers = λ n. true }

abbrev fine : Trip
fine = record { env = env; locked = λ t. false; fate = answered }

abbrev lost : Trip
lost = record fine { fate = request_lost }

abbrev waiting : Task
waiting = record {
  id = 1;
  name = "waiting";
  payload = "{}";
  priority = pos 0;
  status = pending;
  scheduled_for = none;
  attempt_count = 0;
  max_attempts = pos 3;
  claimed_by = none;
  claimed_at = none;
  last_heartbeat_at = none;
  completed_at = none;
  last_error = none;
  progress_note = none;
  jira_url = none;
  github_pr_url = none;
  created_at = 5;
  updated_at = 5;
}

abbrev fetched : Task
fetched = record waiting {
  status = claimed;
  attempt_count = 1;
  claimed_by = some "ada";
  claimed_at = some 20;
  last_heartbeat_at = some 20;
}

abbrev mastermind : Task → Mastermind
mastermind t = record {
  db = record { tasks = t ∷ []; logs = []; next_log_id = 1 };
  metrics = record {
    claimed_success = 0;
    claimed_empty = 0;
    claimed_error = 0;
    completed_total = 0;
    failed_reported = 0;
    failed_reaped = 0;
    reaped_total = 0;
  };
}

abbrev handle : ClientTask
handle = record {
  id = "x";
  name = "waiting";
  payload = "{}";
  worker_id = "ada";
  finalized = false;
  beating = true;
}

claim_next_holds_example :
    Held unary_codec "ada" env
      (claim_next unary_codec "ada" fine fine
        (record { server = mastermind waiting; current = none })).0
      handle
unfolding claim_next serve_claim_task claim_task
claim_next_holds_example =
    claim_next_holds unary_codec "ada" fine fine (mastermind waiting) handle (tt, tt) refl

-- While the handler waits, the heartbeat of its worker comes for each of its tasks.
abbrev beat_all : Mastermind → Mastermind
beat_all s = record s { db = (heartbeat env "ada" 1 s.db).0 }

beat-Keeps : Keeps "ada" beat_all
unfolding heartbeat exec_update
beat-Keeps i s h =
    let p = by_id 1 (held_by "ada") in
    let f = heartbeat_set env.now in
    record {
      row = row_update p f h.row;
      there =
          find-update p f (heartbeat_set-KeepsId env.now) i s.db.tasks
          ∙ ap (set_row (row_update p f)) h.there;
      held =
          if_both (Holds "ada") (p h.row) (unfold heartbeat_set in (h.held.0, ground arith)) h.held;
    }

turn_completes_example :
    (i : ℕ) × ((record handle { beating = false }).id ≡ unary i)
    × ((row : Task) × (find_task i
            (runner_turn unary_codec "ada"
              (fake_handler unary_codec fine (λ s. s) beat_all none)
              fine
              fine
              (mastermind waiting)).db.tasks
          ≡ some row)
        × (row.status ≡ completed)
        × (row.claimed_by ≡ some "ada"))
unfolding client_claim serve_claim_task claim_task
turn_completes_example =
    turn_completes unary_codec "ada" fine fine fine (λ s. s) beat_all (mastermind waiting)
      (record handle { beating = false }) (tt, tt) refl unary_reads (λ n. refl) refl (λ n. refl)
      (λ i s h. h) beat-Keeps refl

abbrev plain : PayloadReader String
plain = record {
  decode = λ s. none;
  empty_object = "{}";
  of_text = λ s. s;
  instructions_of = λ s. none;
}

claim_again_example :
    claim_next_tool plain unary_codec "ada" fine fine
      (claim_next_tool plain unary_codec "ada" fine fine
        (record { server = mastermind waiting; current = none })).0
    ≡ (
      (claim_next_tool plain unary_codec "ada" fine fine
          (record { server = mastermind waiting; current = none })).0,
      result (view_from_task plain unary_codec "ada" handle),
    )
unfolding claim_next_tool claim_next serve_claim_task claim_task
claim_again_example =
    claim_again plain unary_codec "ada" (view_from_task plain unary_codec "ada" handle) fine fine
      fine fine (record { server = mastermind waiting; current = none }) refl

failed_end_spends_example :
    KeepsHandle
      (spend handle)
      (state_end unary_codec "ada" lost completing "" (busy (mastermind fetched) handle)).0
    × IsSpent (spend handle)
unfolding state_end matches
failed_end_spends_example =
    failed_end_spends unary_codec "ada" lost completing "" (mastermind fetched) handle unavailable
      refl refl refl

spent_for_good_example : KeepsHandle (spend handle) (
    agent_run unary_codec "ada"
      ((fine, fine, ending_by completing "") ∷ (fine, fine, claiming) ∷ [])
      (busy (mastermind fetched) (spend handle)))
spent_for_good_example =
    spent_for_good unary_codec "ada" (spend handle) (refl, refl)
      ((fine, fine, ending_by completing "") ∷ (fine, fine, claiming) ∷ [])
      (busy (mastermind fetched) (spend handle)) refl

early_open_pr_spends_example :
    state_end unary_codec "ada" fine (opening "u") "" (busy (mastermind fetched) handle)
    ≡ (busy (mastermind fetched) (spend handle), error (status failed_precondition))
unfolding matches byte_len find_task
early_open_pr_spends_example =
    early_open_pr_spends unary_codec fine "u" (mastermind fetched) 1 fetched "ada" "" handle refl
      refl (tt, tt) refl refl refl refl refl refl refl

abbrev codec : PayloadCodec
codec = record { instructions = λ s. some (some "go"); jsonb = λ s. some s }
