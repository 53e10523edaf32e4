-- ===== src/Gateway/Modest.antt =====
-- What the handlers may do to the database, and the replies that they build on the way.
use el_pulpo_ai.Prelude.{ℕ, ℤ, Bool, ◌≡◌, refl, Option, none, some, if_both, if◌then◌else◌}
use el_pulpo_ai.Store.Row.{Db, Env, Result, ok, err, Task, TaskStatus}
use el_pulpo_ai.Store.History.{Call, apply}
use el_pulpo_ai.Store.Tasks.{PayloadCodec}
use el_pulpo_ai.Grpc.Status.{Reply, response, failure, Mastermind, UuidCodec}
use el_pulpo_ai.Grpc.Server.{served, parsed, reported, claimed_reply}
use el_pulpo_ai.Grpc.Admin.{read_back, list_with}
use el_pulpo_ai.Gateway.{RpcAnswer, answered}

-- The database is as before, or as one call of the store leaves it.
pub data AtMostOne (c : PayloadCodec) (env : Env) (db db' : Db) : Type 0 where
  untouched : db' ≡ db → AtMostOne c env db db'
  called : (call : Call) → db' ≡ apply c env call db → AtMostOne c env db db'

-- Of a handler's outcome.
pub record Modest {A : Type 0} (c : PayloadCodec) (env : Env) (s : Mastermind) (r : Mastermind × A)
    : Type 0 where
  pub effect : AtMostOne c env s.db r.0.db

module _ {c : PayloadCodec} {env : Env} {s : Mastermind} where
  pub unchanged : {A : Type 0} (a : A) → Modest c env s (s, a)
  unchanged a = record { effect = untouched refl }

  pub either :
      {A : Type 0} (b : Bool) {x y : Mastermind × A}
      → Modest c env s x
      → Modest c env s y
      → Modest c env s (if b then x else y)
  either b {x} {y} = if_both (Modest c env s) b

  pub parsed_lem :
      {A : Type 0} (o : Option ℕ) (k : ℕ → Mastermind × Reply A)
      → ((i : ℕ) → Modest c env s (k i))
      → Modest c env s (parsed s o k)
  parsed_lem none k h = unchanged _
  parsed_lem (some i) k h = h i

  pub by_call :
      {A B : Type 0} (f : Result A → Reply B) (x : Db × Result A) (call : Call)
      → x.0 ≡ apply c env call s.db
      → Modest c env s (served s f x)
  by_call f (db, r) call e = record { effect = called call e }

  pub answered_lem :
      {A : Type 0} (f : A → RpcAnswer) (r : Mastermind × Reply A)
      → Modest c env s r
      → Modest c env s (answered f r)
  answered_lem f (t, response a) m = record { effect = m.effect }
  answered_lem f (t, failure code) m = record { effect = m.effect }

  pub claimed_lem :
      (u : UuidCodec) (x : Db × Result (Option Task)) (call : Call)
      → x.0 ≡ apply c env call s.db
      → Modest c env s (claimed_reply u s.metrics x)
  unfolding claimed_reply
  claimed_lem u (db, err e) call h = record { effect = called call h }
  claimed_lem u (db, ok none) call h = record { effect = called call h }
  claimed_lem u (db, ok (some t)) call h = record { effect = called call h }

  pub reported_lem :
      (won : Bool) (x : Db × Result Bool) (call : Call)
      → x.0 ≡ apply c env call s.db
      → Modest c env s (reported s won x)
  unfolding reported
  reported_lem won (db, r) call h = record { effect = called call h }

  pub read_back_lem :
      (u : UuidCodec) (i : ℕ) (x : Db × Result (Unit {0})) (call : Call)
      → x.0 ≡ apply c env call s.db
      → Modest c env s (read_back u env s i x)
  unfolding read_back
  read_back_lem u i (db, ok x) call h = record { effect = called call h }
  read_back_lem u i (db, err e) call h = record { effect = called call h }

  pub list_lem :
      (u : UuidCodec) (limit offset : ℤ) (f : Option (Option TaskStatus))
      → Modest c env s (list_with u env limit offset f s)
  unfolding list_with
  list_lem u limit offset none = unchanged _
  list_lem u limit offset (some f) = unchanged _
