-- ===== src/Worker/Client.antt =====
-- The handle on a claimed task, internal/worker/taskclient/taskclient.go, over a network that may
-- lose a request or its reply.
use el_pulpo_ai.Prelude.{ℕ, String, Bool, true, false, Option, none, some, if◌then◌else◌}
use el_pulpo_ai.Store.Row.{Task, Env}
use el_pulpo_ai.Grpc.Status.{
  Code, absent, Reply, response, failure, Mastermind, UuidCodec, success, failed_with,
}
use el_pulpo_ai.Grpc.Server.{
  ClaimedTask, serve_claim_task, serve_heartbeat, serve_append_log, serve_update_progress,
  serve_report_result, serve_set_jira_url, serve_open_pr,
}

-- The errors of the worker: of the handle, of the state, and of a call over the network.
pub data WorkerError : Type 0 where
  no_task already_finalized : WorkerError
  no_current_task already_have_task task_not_matching : WorkerError
  status : Code → WorkerError
  unavailable : WorkerError
  missing_argument : WorkerError

pub data Answer {ℓ} (A : Type ℓ) : Type ℓ where
  got : A → Answer A
  error : WorkerError → Answer A

-- What happens to a call: it is carried out and answered, it never arrives, or its reply is lost.
pub data Fate : Type 0 where
  answered request_lost reply_lost : Fate

-- What one call meets: the environment of the server, the rows that other transactions hold locked,
-- and the network.
pub record Trip : Type 0 where
  pub env : Env
  pub locked : Task → Bool
  pub fate : Fate

abbrev pub answer_of {ℓ} : {A : Type ℓ} → Reply A → Answer A
answer_of (response a) = got a
answer_of (failure c) = error (status c)

unfoldable pub rpc {ℓ} :
    {A : Type ℓ} → Fate → (Mastermind → Mastermind × Reply A) → Mastermind → Mastermind × Answer A
rpc answered f s = let (s', r) = f s in (s', answer_of r)
rpc request_lost f s = (s, error unavailable)
rpc reply_lost f s = ((f s).0, error unavailable)

-- `beating` says whether the background heartbeat runs (hbCancel is not nil).
pub record ClientTask : Type 0 where
  pub id : String
  pub name : String
  pub payload : String
  pub worker_id : String
  pub finalized : Bool
  pub beating : Bool

-- NOT_FOUND is the empty queue.
unfoldable pub claim_answer : String → Answer ClaimedTask → Answer ClientTask
claim_answer w (got t) = got (record {
  id = t.id;
  name = t.name;
  payload = t.payload;
  worker_id = w;
  finalized = false;
  beating = false;
})
claim_answer w (error (status absent)) = error no_task
claim_answer w (error e) = error e

-- The first call finalizes the handle and stops the heartbeat, any later one is refused.
unfoldable pub mark_finalized : ClientTask → Option ClientTask
mark_finalized t =
    if t.finalized then none else some (record t { finalized = true; beating = false })

abbrev pub start_heartbeat : ClientTask → ClientTask
start_heartbeat t = record t { beating = true }

-- The calls that end the work on a task: OpenPR, Complete, Fail.
pub data Ending : Type 0 where
  opening : String → Ending
  completing : Ending
  failing : String → Ending

module _ (u : UuidCodec) where
  unfoldable pub client_claim : Trip → String → Mastermind → Mastermind × Answer ClientTask
  unfolding rpc claim_answer
  client_claim x w s =
      let (s', a) = rpc x.fate (serve_claim_task u x.env x.locked w) s in (s', claim_answer w a)

  unfoldable pub client_heartbeat : Trip → ClientTask → Mastermind → Mastermind × Answer (Unit {0})
  unfolding rpc
  client_heartbeat x t s = rpc x.fate (serve_heartbeat u x.env t.worker_id t.id) s

  unfoldable pub client_progress :
      Trip → ClientTask → String → Mastermind → Mastermind × Answer (Unit {0})
  unfolding rpc
  client_progress x t note s = rpc x.fate (serve_update_progress u x.env t.worker_id t.id note) s

  unfoldable pub client_append_log : Trip → ClientTask → String → Mastermind → Mastermind × Answer ℕ
  unfolding rpc
  client_append_log x t message s = rpc x.fate (serve_append_log u x.env t.worker_id t.id message) s

  unfoldable pub client_set_jira_url :
      Trip → ClientTask → String → Mastermind → Mastermind × Answer (Unit {0})
  unfolding rpc
  client_set_jira_url x t url s = rpc x.fate (serve_set_jira_url u x.env t.worker_id t.id url) s

  unfoldable pub end_rpc : Trip → Ending → ClientTask → Mastermind → Mastermind × Answer (Unit {0})
  unfolding rpc
  end_rpc x (opening url) t s = rpc x.fate (serve_open_pr u x.env t.worker_id t.id url) s
  end_rpc x completing t s = rpc x.fate (serve_report_result u x.env t.worker_id t.id success) s
  end_rpc x (failing msg) t s =
      rpc x.fate (serve_report_result u x.env t.worker_id t.id (failed_with msg)) s

  unfoldable pub end_marked :
      Trip
      → Ending
      → ClientTask
      → Mastermind
      → Option ClientTask
      → Mastermind × ClientTask × Answer (Unit {0})
  unfolding end_rpc
  end_marked x e t s none = (s, t, error already_finalized)
  end_marked x e t s (some t') = let (s', a) = end_rpc x e t' s in (s', t', a)

  -- OpenPR, Complete and Fail of the handle: it is finalized first, whatever the call then gives.
  unfoldable pub client_end :
      Trip → Ending → ClientTask → Mastermind → Mastermind × ClientTask × Answer (Unit {0})
  unfolding end_marked mark_finalized
  client_end x e t s = end_marked x e t s (mark_finalized t)
