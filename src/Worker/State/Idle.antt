-- ===== src/Worker/State/Idle.antt =====
-- How a worker comes to hold a task, and how it becomes idle again.
use el_pulpo_ai.Prelude.{
  String, str_eq, Bool, true, false, ◌≡◌, refl, sym, ap, subst, ◌∙◌, Option, none, some, if_both,
  arith,
}
use el_pulpo_ai.Store.Row.{Task, Db, Env, Result, ok, err, claimed}
use el_pulpo_ai.Store.Query.{find_task}
use el_pulpo_ai.Store.Query.Laws.{Unique}
use el_pulpo_ai.Store.Claim.{claim_task, claim_set}
use el_pulpo_ai.Store.Claim.Order.{Took, claim_Took}
use el_pulpo_ai.Grpc.Status.{
  unauthenticated, unimplemented, unavailable as no_server, invalid_argument, absent,
  failed_precondition, internal, Reply, response, failure, Metrics, Mastermind, UuidCodec,
}
use el_pulpo_ai.Grpc.Server.{ClaimedTask, claimed_reply, serve_claim_task}
use el_pulpo_ai.Worker.Client.{
  no_task, already_finalized, no_current_task, already_have_task, task_not_matching, status,
  unavailable, missing_argument, Answer, got, error, Fate, answered, request_lost, reply_lost, Trip,
  answer_of, rpc, ClientTask, claim_answer, start_heartbeat, client_claim, Ending, end_rpc,
}
use el_pulpo_ai.Worker.State.{World, matches, ended, state_end, claim_next, claim_finish}
use el_pulpo_ai.Worker.State.Stuck.{busy, spend, fresh_end}

rpc_got {ℓ} :
    {A : Type ℓ} (fate : Fate) (f : Mastermind → Mastermind × Reply A) (s : Mastermind) (a : A)
    → (rpc fate f s).1 ≡ got a
    → ((f s).1 ≡ response a) × ((rpc fate f s).0 ≡ (f s).0)
unfolding rpc
rpc_got {A = A} answered f s a e = (replied (f s).1 e, refl)
  where
    replied : (r : Reply A) → answer_of r ≡ got a → r ≡ response a
    replied (response b) e = ground arith
    replied (failure c) e = cc
rpc_got request_lost f s a e = cc
rpc_got reply_lost f s a e = cc

-- The row behind the reply of ClaimTask.
record ClaimRow (u : UuidCodec) (r : Db × Result (Option Task)) (s' : Mastermind) (ct : ClaimedTask)
    : Type 0 where
  row : Task
  row_reply : r.1 ≡ ok (some row)
  row_id : ct.id ≡ u.print row.id
  row_db : s'.db ≡ r.0

claimed_row :
    (u : UuidCodec) (m : Metrics) (r : Db × Result (Option Task)) (ct : ClaimedTask)
    → (claimed_reply u m r).1 ≡ response ct
    → ClaimRow u r (claimed_reply u m r).0 ct
unfolding claimed_reply
claimed_row u m (db, err e) ct h = cc
claimed_row u m (db, ok none) ct h = cc
claimed_row u m (db, ok (some t)) ct h = record {
  row = t;
  row_reply = refl;
  row_id = ground arith;
  row_db = refl;
}

served_row :
    (u : UuidCodec) (env : Env) (locked : Task → Bool) (w : String) (s : Mastermind)
    (ct : ClaimedTask)
    → (serve_claim_task u env locked w s).1 ≡ response ct
    → ClaimRow u (claim_task env locked w s.db) (serve_claim_task u env locked w s).0 ct
unfolding serve_claim_task
served_row u env locked w s ct =
    if_both
      (λ (o : Mastermind × Reply ClaimedTask).
        o.1 ≡ response ct → ClaimRow u (claim_task env locked w s.db) o.0 ct)
      (str_eq w "") (λ e. cc) (claimed_row u s.metrics (claim_task env locked w s.db) ct)

answer_got :
    (w : String) (a : Answer ClaimedTask) (t : ClientTask)
    → claim_answer w a ≡ got t
    → (ct : ClaimedTask) × (a ≡ got ct) × (t.id ≡ ct.id) × (t.worker_id ≡ w) × (t.finalized ≡ false)
unfolding claim_answer
answer_got w (got ct) t e = (ct, refl, ground arith, ground arith, ground arith)
answer_got w (error (status absent)) t e = cc
answer_got w (error (status invalid_argument)) t e = cc
answer_got w (error (status failed_precondition)) t e = cc
answer_got w (error (status internal)) t e = cc
answer_got w (error (status unauthenticated)) t e = cc
answer_got w (error (status unimplemented)) t e = cc
answer_got w (error (status no_server)) t e = cc
answer_got w (error no_task) t e = cc
answer_got w (error already_finalized) t e = cc
answer_got w (error no_current_task) t e = cc
answer_got w (error already_have_task) t e = cc
answer_got w (error task_not_matching) t e = cc
answer_got w (error unavailable) t e = cc
answer_got w (error missing_argument) t e = cc

-- The task that a worker has claimed, as the mastermind has it.
pub record Held (u : UuidCodec) (worker_id : String) (env : Env) (w : World) (t : ClientTask)
    : Type 0 where
  pub row : Task
  pub same_id : t.id ≡ u.print row.id
  pub stored : find_task row.id w.server.db.tasks ≡ some row
  pub is_claimed : row.status ≡ claimed
  pub owner : row.claimed_by ≡ some worker_id
  pub lease : row.last_heartbeat_at ≡ some env.now
  pub current_one : w.current ≡ some t

module _ (u : UuidCodec) (worker_id : String) (x y : Trip) (s : Mastermind) (t : ClientTask) where
  taken_Held :
      (s' : Mastermind) (row : Task) (db' : Db) (c : Task)
      → s'.db ≡ db'
      → t.id ≡ u.print row.id
      → row ≡ claim_set x.env.now worker_id c
      → Took x.env x.locked worker_id s.db db' c
      → Held u worker_id x.env (record { server = s'; current = some t }) t
  unfolding claim_set
  taken_Held s' row db' c d i r k =
      let same : row.id ≡ c.id = ap (λ (q : Task). q.id) r in
      record {
        row = row;
        same_id = i;
        stored =
            subst (λ (q : Db). find_task row.id q.tasks ≡ some row) (sym d)
              (subst (λ j. find_task j db'.tasks ≡ some row) (sym same)
                (k.taken_row ∙ ap some (sym r)));
        is_claimed = ap (λ (q : Task). q.status) r;
        owner = ap (λ (q : Task). q.claimed_by) r;
        lease = ap (λ (q : Task). q.last_heartbeat_at) r;
        current_one = refl;
      }

  -- The handle that a claim gives.
  pub claimed_handle :
      (client_claim u x worker_id s).1 ≡ got t → (t.worker_id ≡ worker_id) × (t.finalized ≡ false)
  unfolding client_claim
  claimed_handle e = let (ct, replied, same, by, fresh) = answer_got worker_id _ t e in (by, fresh)

  -- The server after a claim, and the handle.
  pub claim_Held :
      (a : ClientTask)
      → t ≡ start_heartbeat a
      → Unique s.db.tasks
      → (client_claim u x worker_id s).1 ≡ got a
      → Held u worker_id x.env
          (record { server = (client_claim u x worker_id s).0; current = some t })
          t
  unfolding client_claim
  claim_Held a begun k e =
      let f = serve_claim_task u x.env x.locked worker_id in
      let (ct, replied, same, by, fresh) = answer_got worker_id (rpc x.fate f s).1 a e in
      let (served, there) = rpc_got x.fate f s ct replied in
      let r = served_row u x.env x.locked worker_id s ct served in
      let (c, row, took) = claim_Took x.env x.locked worker_id s.db r.row k r.row_reply in
      taken_Held (rpc x.fate f s).0 r.row (claim_task x.env x.locked worker_id s.db).0 c
        (ap (λ (q : Mastermind). q.db) there ∙ r.row_db)
        (ap (λ (q : ClientTask). q.id) begun ∙ same ∙ r.row_id) row took

  kept_Held :
      (a : Answer ClientTask)
      → (client_claim u x worker_id s).1 ≡ a
      → Unique s.db.tasks
      → let o =
          claim_finish u worker_id y
            (record { server = (client_claim u x worker_id s).0; current = none })
            a in
        o.1 ≡ got t → Held u worker_id x.env o.0 t
  unfolding claim_finish
  kept_Held (error r) e k h = cc
  kept_Held (got a) e k h =
      let same : start_heartbeat a ≡ t = ground arith in
      subst
        (λ b.
          Held u worker_id x.env
            (record { server = (client_claim u x worker_id s).0; current = some b }) t)
        (sym same) (claim_Held a (sym same) k e)

  -- On a table with a primary key, when an idle worker's claim_next gives it a task, it is the
  -- current one, and the mastermind has it as claimed by this worker, with a lease from the time
  -- of the claim.
  pub claim_next_holds :
      Unique s.db.tasks
      → (claim_next u worker_id x y (record { server = s; current = none })).1 ≡ got t
      → Held u worker_id x.env
          (claim_next u worker_id x y (record { server = s; current = none })).0
          t
  unfolding claim_next
  claim_next_holds k h = kept_Held (client_claim u x worker_id s).1 refl k h

module _ (u : UuidCodec) (worker_id : String) (w : World) (t : ClientTask) where
  ended_frees :
      (s : Mastermind) (a : Answer (Unit {0}))
      → (ended u worker_id w (s, t, a)).1 ≡ got tt
      → (ended u worker_id w (s, t, a)).0.current ≡ none
  ended_frees s (got x) h = refl
  ended_frees s (error e) h = cc

-- When the first try to complete, fail or park the task, by its id or none, is acknowledged, the
-- worker is idle.
acknowledged_end_frees :
    (u : UuidCodec) (worker_id : String) (x : Trip) (e : Ending) (id : String) (s : Mastermind)
    (t : ClientTask)
    → t.finalized ≡ false
    → matches id t ≡ true
    → (state_end u worker_id x e id (busy s t)).1 ≡ got tt
    → (state_end u worker_id x e id (busy s t)).0.current ≡ none
acknowledged_end_frees u worker_id x e id s t fresh m h =
    subst (λ (o : World × Answer (Unit {0})). o.1 ≡ got tt → o.0.current ≡ none)
      (sym (fresh_end u worker_id x e id s t fresh m))
      (ended_frees u worker_id (busy s t) (spend t) (end_rpc u x e (spend t) s).0
        (end_rpc u x e (spend t) s).1)
      h
