-- ===== src/Worker/Runner.antt =====
-- The claim loop of an unattended worker, internal/worker/runner/runner.go: one turn of `Run` and the
-- default handler. What sleeps, logs or waits for a clock is left out; a handler is any function on the
-- handle and the mastermind, and `none` is its nil error. The beats of the background heartbeat, and
-- what others do during the turn, are part of what the handler does to the mastermind.
pub mod Busy
pub mod Settled
use el_pulpo_ai.Prelude.{String, Option, none, some}
use el_pulpo_ai.Grpc.Status.{Mastermind, UuidCodec}
use el_pulpo_ai.Worker.Client.{
  Answer, got, error, Trip, ClientTask, start_heartbeat, client_claim, client_progress, client_end,
  Ending, completing, failing,
}

abbrev pub Handler : Type 0
Handler = ClientTask → Mastermind → Mastermind × Option String

-- The default handler: one note, whose error is dropped, and then a wait, which ends in the error of
-- the context if it is cancelled. `before` is what the heartbeat and everybody else do to the mastermind
-- from the claim to the note, and `meanwhile` what they do from the note to the report.
unfoldable pub fake_handler :
    UuidCodec
    → Trip
    → (before : Mastermind → Mastermind) → (meanwhile : Mastermind → Mastermind) → Option String
    → Handler
unfolding client_progress
fake_handler u x before meanwhile cancelled t s =
    (meanwhile (client_progress u x t "working" (before s)).0, cancelled)

-- `runOne` completes the task if the handler gives no error, and fails it with the error otherwise.
abbrev pub verdict : Option String → Ending
verdict none = completing
verdict (some message) = failing message

module _ (u : UuidCodec) (worker_id : String) (handler : Handler) where
  unfoldable pub run_one : Trip → ClientTask → Mastermind → Mastermind
  unfolding client_end
  run_one z t s =
      let (s', outcome) = handler (start_heartbeat t) s in
      (client_end u z (verdict outcome) (start_heartbeat t) s').0

  -- An empty queue and any other error of a claim end the turn with a sleep.
  unfoldable pub after_claim : Trip → Mastermind × Answer ClientTask → Mastermind
  unfolding run_one
  after_claim z (s, error e) = s
  after_claim z (s, got t) = run_one z t s

  unfoldable pub runner_turn : Trip → Trip → Mastermind → Mastermind
  unfolding after_claim client_claim
  runner_turn x z s = after_claim z (client_claim u x worker_id s)
