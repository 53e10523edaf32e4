-- ===== src/Worker/Tools/Idempotent.antt =====
-- The claim tool called again.
use el_pulpo_ai.Prelude.{String, ◌≡◌, refl, sym, ap, Option, none, some, arith}
use el_pulpo_ai.Grpc.Status.{Mastermind, UuidCodec}
use el_pulpo_ai.Worker.Client.{
  no_task, already_finalized, no_current_task, already_have_task, task_not_matching, status,
  unavailable, missing_argument, Answer, got, error, Trip, ClientTask, start_heartbeat,
  client_claim,
}
use el_pulpo_ai.Worker.State.{World, claim_next, claim_if_idle, claim_finish}
use el_pulpo_ai.Worker.Tools.{
  PayloadReader, TaskView, ToolReply, result, view_from_task, at_hand, claim_reply, claim_next_tool,
}

module _ {J : Type 0} (p : PayloadReader J) (u : UuidCodec) (worker_id : String)
    (v : TaskView J) where
  -- The reply shows the task that the world holds.
  Shown : World × ToolReply (TaskView J) → Type 0
  Shown o =
      o.1 ≡ result v
      → (t : ClientTask) × (o.0.current ≡ some t) × (v ≡ view_from_task p u worker_id t)

  held_Shown :
      (s : Mastermind) (o : Option ClientTask)
      → Shown (record { server = s; current = o }, at_hand p u worker_id o)
  unfolding Shown
  held_Shown s none e = cc
  held_Shown s (some t) e = (t, refl, ground arith)

  finish_Shown :
      (y : Trip) (s : Mastermind) (a : Answer ClientTask)
      → Shown (
          claim_reply p u worker_id
            (claim_finish u worker_id y (record { server = s; current = none }) a))
  unfolding Shown claim_finish claim_reply
  finish_Shown y s (got t) e = (start_heartbeat t, refl, ground arith)
  finish_Shown y s (error already_have_task) e = cc
  finish_Shown y s (error (status c)) e = cc
  finish_Shown y s (error no_task) e = cc
  finish_Shown y s (error already_finalized) e = cc
  finish_Shown y s (error no_current_task) e = cc
  finish_Shown y s (error task_not_matching) e = cc
  finish_Shown y s (error unavailable) e = cc
  finish_Shown y s (error missing_argument) e = cc

  claim_Shown :
      (x y : Trip) (s : Mastermind) (o : Option ClientTask)
      → Shown (claim_next_tool p u worker_id x y (record { server = s; current = o }))
  unfolding claim_next_tool claim_next
  claim_Shown x y s none =
      finish_Shown y (client_claim u x worker_id s).0 (client_claim u x worker_id s).1
  claim_Shown x y s (some t) = held_Shown s (some t)

  again :
      (x y : Trip) (w : World) (t : ClientTask)
      → w.current ≡ some t
      → v ≡ view_from_task p u worker_id t
      → claim_next_tool p u worker_id x y w ≡ (w, result v)
  unfolding claim_next_tool claim_next claim_reply claim_if_idle
  again x y w t holds_it same =
      rw holds_it (ap (λ q. (record w { current = some t }, result q)) (sym same))

  -- Once claim_next_task has answered with a task, calling it again changes nothing, claims nothing and
  -- answers with the same task.
  pub claim_again :
      (x y x' y' : Trip) (w : World)
      → (claim_next_tool p u worker_id x y w).1 ≡ result v
      → let w' = (claim_next_tool p u worker_id x y w).0 in
        claim_next_tool p u worker_id x' y' w' ≡ (w', result v)
  unfolding Shown
  claim_again x y x' y' w e =
      let (t, holds_it, same) = claim_Shown x y w.server w.current e in
      again x' y' (claim_next_tool p u worker_id x y w).0 t holds_it same
