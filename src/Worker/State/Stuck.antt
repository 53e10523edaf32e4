-- ===== src/Worker/State/Stuck.antt =====
-- What becomes of a worker whose last word on a task was not accepted.
use el_pulpo_ai.Prelude.{String, true, false, ◌≡◌, refl, sym, some, List, [], ◌∷◌, if_both, subst}
use el_pulpo_ai.Grpc.Status.{Mastermind, UuidCodec}
use el_pulpo_ai.Worker.Client.{
  WorkerError, already_finalized, already_have_task, Answer, got, error, Trip, ClientTask,
  mark_finalized, client_progress, client_append_log, client_set_jira_url, end_rpc, Ending,
}
use el_pulpo_ai.Worker.State.{
  World, about, ended, ending, matches, require, state_progress, state_append_log,
  state_set_jira_url, state_end, claim_next, tick, beat,
}
use el_pulpo_ai.Worker.State.Agent.{
  AgentCall, claiming, beating_once, progressing, logging, ticketing, ending_by, agent_step,
  agent_run,
}

-- A handle that has been finalized and is still the current one.
abbrev pub IsSpent : ClientTask → Type 0
IsSpent t = (t.finalized ≡ true) × (t.beating ≡ false)

-- A worker that holds a task.
abbrev pub busy : Mastermind → ClientTask → World
busy s t = record { server = s; current = some t }

-- The worker still holds the handle, whatever the mastermind has become.
abbrev pub KeepsHandle : ClientTask → World → Type 0
KeepsHandle t w = w.current ≡ some t

module _ (u : UuidCodec) (worker_id : String) (t : ClientTask) (spent : IsSpent t) where
  -- A worker that holds a spent handle claims nothing more, ends nothing more and changes nothing by
  -- trying: a claim is answered by "already have a task", an end of the task by "already finalized".
  spent_refuses :
      (s : Mastermind) (x y : Trip) (e : Ending) (id : String)
      → matches id t ≡ true
      → (claim_next u worker_id x y (busy s t) ≡ (busy s t, error already_have_task))
        × (state_end u worker_id x e id (busy s t) ≡ (busy s t, error already_finalized))
  unfolding claim_next state_end
  spent_refuses s x y e id m = (refl, rw (m, require, spent.0, mark_finalized))

  spent_step :
      (x y : Trip) (call : AgentCall) (s : Mastermind)
      → KeepsHandle t (agent_step u worker_id x y call (busy s t))
  unfolding agent_step claim_next tick state_progress state_append_log state_set_jira_url state_end
  spent_step x y claiming s = refl
  spent_step x y beating_once s = rw (spent.1, beat)
  spent_step x y (progressing id note) s =
      if_both
        (λ r.
          (about u worker_id (λ t'. client_progress u x t' note) (busy s t) r).0.current ≡ some t)
        (matches id t) refl refl
  spent_step x y (logging id message) s =
      if_both
        (λ r.
          (about u worker_id (λ t'. client_append_log u x t' message) (busy s t) r).0.current
          ≡ some t)
        (matches id t) refl refl
  spent_step x y (ticketing id url) s =
      if_both
        (λ r.
          (about u worker_id (λ t'. client_set_jira_url u x t' url) (busy s t) r).0.current
          ≡ some t)
        (matches id t) refl refl
  spent_step x y (ending_by e id) s =
      if_both (λ r. (ending u worker_id x e (busy s t) r).0.current ≡ some t) (matches id t)
        (rw (spent.0, mark_finalized)) refl

  -- No sequence of the agent's calls and heartbeats, with any luck on the network and any answers of
  -- the mastermind, makes a worker give up a spent handle.
  pub spent_for_good :
      (history : List (Trip × Trip × AgentCall)) (w : World)
      → KeepsHandle t w
      → KeepsHandle t (agent_run u worker_id history w)
  unfolding agent_run
  spent_for_good [] w k = k
  spent_for_good ((x, y, call) ∷ rest) w k =
      spent_for_good rest (agent_step u worker_id x y call w) (
        subst (λ v. KeepsHandle t (agent_step u worker_id x y call v)) (as_busy w k)
          (spent_step x y call w.server))
    where
      as_busy : (w : World) → KeepsHandle t w → busy w.server t ≡ w
      as_busy w k = λ i. record { server = w.server; current = sym k i }

-- The handle after the first try to end its task.
abbrev pub spend : ClientTask → ClientTask
spend t = record t { finalized = true; beating = false }

module _ (u : UuidCodec) (worker_id : String) (w : World) (t : ClientTask) (r : WorkerError) where
  ended_keeps :
      (s : Mastermind) (a : Answer (Unit {0}))
      → (ended u worker_id w (s, t, a)).1 ≡ error r
      → (ended u worker_id w (s, t, a)).0.current ≡ some t
  ended_keeps s (got x) h = cc
  ended_keeps s (error e) h = refl

-- An end of the task by a handle that is not finalized yet makes the call, and finalizes it whatever
-- the call gives.
pub fresh_end :
    (u : UuidCodec) (worker_id : String) (x : Trip) (e : Ending) (id : String) (s : Mastermind)
    (t : ClientTask)
    → t.finalized ≡ false
    → matches id t ≡ true
    → state_end u worker_id x e id (busy s t)
      ≡ ended u worker_id
          (busy s t)
          ((end_rpc u x e (spend t) s).0, spend t, (end_rpc u x e (spend t) s).1)
unfolding state_end
fresh_end u worker_id x e id s t fresh m = rw (m, require, fresh, mark_finalized)

-- If the first try to complete, fail or park the task, by its id or none, is answered by an error
-- of any kind, the worker is left with a spent handle.
pub failed_end_spends :
    (u : UuidCodec) (worker_id : String) (x : Trip) (e : Ending) (id : String) (s : Mastermind)
    (t : ClientTask) (r : WorkerError)
    → t.finalized ≡ false
    → matches id t ≡ true
    → (state_end u worker_id x e id (busy s t)).1 ≡ error r
    → KeepsHandle (spend t) (state_end u worker_id x e id (busy s t)).0 × IsSpent (spend t)
failed_end_spends u worker_id x e id s t r fresh m h =
    let tried = fresh_end u worker_id x e id s t fresh m in
    (
      subst (λ (o : World × Answer (Unit {0})). o.1 ≡ error r → o.0.current ≡ some (spend t))
          (sym tried)
          (ended_keeps u worker_id (busy s t) (spend t) r (end_rpc u x e (spend t) s).0
            (end_rpc u x e (spend t) s).1)
          h,
      (refl, refl),
    )
