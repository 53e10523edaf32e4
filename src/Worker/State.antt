-- ===== src/Worker/State.antt =====
-- The worker's view of its claimed task, internal/worker/mcpserver/state.go. A method holds the mutex
-- over each of its accesses to the state; the call to the mastermind in between is outside of it, so
-- that ClaimNext is three steps here, and its composition without interruption.
pub mod Agent
pub mod Stuck
pub mod Idle
pub mod Early
use el_pulpo_ai.Prelude.{
  ℕ, String, str_eq, Bool, true, false, not, ◌&&◌, ◌||◌, Option, none, some, if◌then◌else◌, is_some,
}
use el_pulpo_ai.Grpc.Status.{Mastermind, UuidCodec}
use el_pulpo_ai.Worker.Client.{
  WorkerError, no_task, no_current_task, already_have_task, task_not_matching, Answer, got, error,
  Trip, ClientTask, start_heartbeat, client_claim, client_heartbeat, client_progress,
  client_append_log, client_set_jira_url, client_end, Ending, opening, completing, failing,
}

-- The mastermind, and the worker's `current` (stopHB is not nil just if it is not nil).
pub record World : Type 0 where
  pub server : Mastermind
  pub current : Option ClientTask

-- An empty id stands for the current task.
unfoldable pub matches : String → ClientTask → Bool
matches id t = str_eq id "" || str_eq id t.id

unfoldable pub require : String → Option ClientTask → Answer ClientTask
unfolding matches
require id none = error no_current_task
require id (some t) = if matches id t then got t else error task_not_matching

unfoldable pub require_task : String → World → Answer ClientTask
unfolding require
require_task id w = require id w.current

unfoldable pub clear : World → World
clear w = record w { current = none }

abbrev pub release : World → World
release w = clear w

unfoldable pub current_task : World → Answer ClientTask
unfolding require
current_task w = require "" w.current

module _ (u : UuidCodec) (worker_id : String) where
  -- A call about the current task that leaves the handle as it is.
  abbrev pub about {ℓ} :
      {A : Type ℓ}
      → (ClientTask → Mastermind → Mastermind × Answer A)
      → World
      → Answer ClientTask
      → World × Answer A
  about f w (error e) = (w, error e)
  about f w (got t) = let (s, a) = f t w.server in (record w { server = s }, a)

  unfoldable pub state_progress : Trip → String → String → World → World × Answer (Unit {0})
  unfolding require_task client_progress
  state_progress x id note w = about (λ t. client_progress u x t note) w (require_task id w)

  unfoldable pub state_append_log : Trip → String → String → World → World × Answer ℕ
  unfolding require_task client_append_log
  state_append_log x id message w =
      about (λ t. client_append_log u x t message) w (require_task id w)

  unfoldable pub state_set_jira_url : Trip → String → String → World → World × Answer (Unit {0})
  unfolding require_task client_set_jira_url
  state_set_jira_url x id url w = about (λ t. client_set_jira_url u x t url) w (require_task id w)

  -- The handle is shared: what Complete, Fail and OpenPR do to it shows in `current`.
  abbrev pub ended : World → Mastermind × ClientTask × Answer (Unit {0}) → World × Answer (Unit {0})
  ended w (s, t, got x) = (record { server = s; current = none }, got x)
  ended w (s, t, error e) = (record { server = s; current = some t }, error e)

  abbrev pub ending : Trip → Ending → World → Answer ClientTask → World × Answer (Unit {0})
  ending x e w (error r) = (w, error r)
  ending x e w (got t) = ended w (client_end u x e t w.server)

  unfoldable pub state_end : Trip → Ending → String → World → World × Answer (Unit {0})
  unfolding require_task client_end
  state_end x e id w = ending x e w (require_task id w)

  -- The last step of ClaimNext: the first to come back keeps its task, any other gives its task back
  -- by reporting it as failed, and gets the current one.
  abbrev raced : String
  raced = "worker.mcp: dropped due to concurrent claim race"

  unfoldable pub keep_or_drop :
      Trip → ClientTask → World → Option ClientTask → World × Answer ClientTask
  unfolding client_end
  keep_or_drop y t w none =
      (record w { current = some (start_heartbeat t) }, got (start_heartbeat t))
  keep_or_drop y t w (some c) =
      (record w { server = (client_end u y (failing raced) t w.server).0 }, error already_have_task)

  unfoldable pub claim_finish : Trip → World → Answer ClientTask → World × Answer ClientTask
  unfolding keep_or_drop
  claim_finish y w (error e) = (w, error e)
  claim_finish y w (got t) = keep_or_drop y t w w.current

  unfoldable pub claim_if_idle : Trip → Trip → World → Option ClientTask → World × Answer ClientTask
  unfolding claim_finish client_claim
  claim_if_idle x y w (some c) = (w, error already_have_task)
  claim_if_idle x y w none =
      let (s, a) = client_claim u x worker_id w.server in claim_finish y (record w { server = s }) a

  unfoldable pub claim_next : Trip → Trip → World → World × Answer ClientTask
  unfolding claim_if_idle
  claim_next x y w = claim_if_idle x y w w.current

  unfoldable pub beat : Trip → World → Option ClientTask → World
  unfolding client_heartbeat
  beat x w none = w
  beat x w (some t) =
      if t.beating then record w { server = (client_heartbeat u x t w.server).0 } else w

  -- One tick of the background heartbeat; an error is logged and passed over.
  unfoldable pub tick : Trip → World → World
  unfolding beat
  tick x w = beat x w w.current
