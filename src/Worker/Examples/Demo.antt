-- ===== src/Worker/Examples/Demo.antt =====
-- The theorem on the demo's worker at a concrete task.
use el_pulpo_ai.Prelude.{ℕ, String, true, false, ◌≡◌, refl, some, pos}
use el_pulpo_ai.Store.Row.{Task, completed}
use el_pulpo_ai.Store.Query.{find_task}
use el_pulpo_ai.Store.Claim.{claim_task}
use el_pulpo_ai.Grpc.Server.{serve_claim_task}
use el_pulpo_ai.Worker.Client.{ClientTask, client_claim}
use el_pulpo_ai.Worker.Examples.{
  unary_codec, unary_reads, beat_all, beat-Keeps, fine, lost, waiting, mastermind, handle,
}
use el_pulpo_ai.Demo.Worker.{WorkDraw, demo_turn}
use el_pulpo_ai.Demo.Worker.Completes.{demo_completes}

abbrev encode_number : ℕ → String
encode_number n = "7"

abbrev claimed_task : ClientTask
claimed_task = record handle { beating = false }

-- The notes are lost, all else is answered.
abbrev working : WorkDraw
working = record {
  steps = 5;
  beats = λ k. record {
    alive = true;
    phase = k;
    detail = k;
    note_trip = lost;
    after_note = λ s. s;
    log_trip = fine;
    after_log = beat_all;
  };
  fails = 250;
  failure = 0;
  at_start = λ s. s;
  log_trip = fine;
  after_log = beat_all;
  end_trip = fine;
}

demo_completes_example :
    (i : ℕ) × (claimed_task.id ≡ unary_codec.print i)
    × ((row : Task) × (find_task i
            (demo_turn unary_codec encode_number
              (pos 5)
              "ada"
              fine
              working
              (mastermind waiting)).db.tasks
          ≡ some row)
        × (row.status ≡ completed)
        × (row.claimed_by ≡ some "ada"))
unfolding client_claim serve_claim_task claim_task
demo_completes_example =
    demo_completes unary_codec encode_number "ada" (pos 5) fine working (mastermind waiting)
      claimed_task (tt, tt) refl unary_reads (λ k. refl) (λ k n. refl) (λ k n. refl) (λ i s h. h)
      (λ k i s h. h) (λ k. beat-Keeps) refl (λ n. refl) beat-Keeps refl (λ n. refl) refl
