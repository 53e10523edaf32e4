-- ===== src/Demo/Worker.antt =====
-- The demo's worker, runOneTask and the loop of runWorker of cmd/demo/main.go: it claims a task, sends notes
-- and lines of the log, and completes it, or fails it once in a while. What rand gives is an argument, and so
-- is what others do during the waits, the worker's own heartbeat among them.
pub mod Completes
use Prim.Native.Nat.{◌%◌}
use Prim.Native.String
use el_pulpo_ai.Prelude.{
  ℕ, zero, suc, ◌+◌, ℤ, pos, ltb_ℤ, String, Bool, true, false, List, [], ◌∷◌, if◌then◌else◌,
}
use el_pulpo_ai.Grpc.Status.{Mastermind, UuidCodec}
use el_pulpo_ai.Worker.Client.{
  Answer, got, error, Trip, ClientTask, start_heartbeat, client_claim, client_progress,
  client_append_log, client_end, completing, failing,
}
use el_pulpo_ai.Demo.Seeder.{name_at}

abbrev phase_words : List String
phase_words =
    "loading inputs" ∷ "tokenizing batch" ∷ "calling model" ∷ "scoring outputs"
    ∷ "writing artifacts" ∷ "verifying" ∷ "uploading results" ∷ "compacting" ∷ "reranking"
    ∷ "summarizing" ∷ "embedding" ∷ "indexing" ∷ "warming cache" ∷ []

abbrev detail_words : List String
detail_words =
    "412 rows" ∷ "8.4kb chunk" ∷ "p50=120ms" ∷ "cache hit" ∷ "context 14201/120k tokens"
    ∷ "batch 12/14" ∷ "rate limit ok" ∷ "connection reused" ∷ "schema validated" ∷ "checksum ok"
    ∷ "retry budget intact" ∷ "leasing extension confirmed" ∷ []

abbrev failures : List String
failures =
    "upstream timeout after 5s" ∷ "parse error on row 88" ∷ "rate-limited by provider, gave up"
    ∷ "unexpected schema in payload" ∷ "out of memory while embedding" ∷ []

-- One beat of progress: whether the context is alive before it, what rand gives, what the calls meet, and
-- what everybody else and the heartbeat do to the mastermind after each of them.
pub record Beat : Type 0 where
  pub alive : Bool
  pub phase : ℕ
  pub detail : ℕ
  pub note_trip : Trip
  pub after_note : Mastermind → Mastermind
  pub log_trip : Trip
  pub after_log : Mastermind → Mastermind

-- The draws of one task, and what others do before its first note and before its end.
pub record WorkDraw : Type 0 where
  pub steps : ℕ
  pub beats : ℕ → Beat
  pub fails : ℕ
  pub failure : ℕ
  pub at_start : Mastermind → Mastermind
  pub log_trip : Trip
  pub after_log : Mastermind → Mastermind
  pub end_trip : Trip

infix 60 ◌<>◌
abbrev pub ◌<>◌ : String → String → String
a <> b = String.◌++◌ a b

-- `%d` is `numeral`.
module _ (u : UuidCodec) (numeral : ℕ → String) where
  unfoldable pub step_note : ℕ → ℕ → ℕ → String
  unfolding name_at
  step_note i steps phase =
      "step "
      <> (numeral i <> ("/" <> (numeral steps <> (" · " <> name_at (phase % 13) phase_words))))

  unfoldable pub beat_line : String → ℕ → String
  unfolding name_at
  beat_line note detail = note <> (" — " <> name_at (detail % 12) detail_words)

  -- A note and a line of the log; the errors of both are only logged.
  unfoldable pub beat : ClientTask → ℕ → ℕ → Beat → Mastermind → Mastermind
  unfolding step_note beat_line client_progress client_append_log
  beat t i steps b s =
      let note = step_note i steps b.phase in
      b.after_log
        (client_append_log u b.log_trip t (beat_line note b.detail)
          (b.after_note (client_progress u b.note_trip t note s).0)).0

  -- The rounds that are left, from the i-th on, and whether the context stayed alive.
  unfoldable pub run_beats : ClientTask → ℕ → ℕ → ℕ → (ℕ → Beat) → Mastermind → Mastermind × Bool
  unfolding beat
  run_beats t steps i zero beats s = (s, true)
  run_beats t steps i (suc n) beats s =
      let rest = run_beats t steps (suc i) n beats (beat t i steps (beats i) s) in
      if (beats i).alive then rest else (s, false)

  unfoldable pub finish_task : ℤ → WorkDraw → ClientTask → Mastermind → Mastermind
  unfolding client_append_log client_end name_at
  finish_task fail_pct d t s =
      let message = name_at (d.failure % 5) failures in
      if ltb_ℤ (pos (d.fails % 100)) fail_pct
      then (client_end u d.end_trip (failing message) t
          (d.after_log (client_append_log u d.log_trip t ("failure: " <> message) s).0)).0
      else (client_end u d.end_trip completing t
          (d.after_log (client_append_log u d.log_trip t "done" s).0)).0

  unfoldable pub finish_if_alive : ℤ → WorkDraw → ClientTask → Mastermind × Bool → Mastermind
  unfolding finish_task
  finish_if_alive fail_pct d t (s, alive) = if alive then finish_task fail_pct d t s else s

  -- From 3 to 6 beats, and the end.
  unfoldable pub run_one_task : ℤ → WorkDraw → ClientTask → Mastermind → Mastermind
  unfolding run_beats finish_if_alive
  run_one_task fail_pct d t s =
      let steps = 3 + d.steps % 4 in
      finish_if_alive fail_pct d (start_heartbeat t)
        (run_beats (start_heartbeat t) steps 1 steps d.beats (d.at_start s))

  -- An empty queue and any other error of a claim end the turn with a wait.
  unfoldable pub demo_claimed : ℤ → WorkDraw → Mastermind × Answer ClientTask → Mastermind
  unfolding run_one_task
  demo_claimed fail_pct d (s, error e) = s
  demo_claimed fail_pct d (s, got t) = run_one_task fail_pct d t s

  unfoldable pub demo_turn : ℤ → String → Trip → WorkDraw → Mastermind → Mastermind
  unfolding demo_claimed client_claim
  demo_turn fail_pct worker_id x d s = demo_claimed fail_pct d (client_claim u x worker_id s)
