-- ===== src/Demo/Seeder/Refused.antt =====
-- What becomes of the tasks of the seeder.
use el_pulpo_ai.Prelude.{◌≡◌}
use el_pulpo_ai.Grpc.Status.{Mastermind}
use el_pulpo_ai.Gateway.{answered as rpc_answered}
use el_pulpo_ai.Worker.Client.{answered}

-- Of a call's outcome.
record Idle {A : Type 0} (s : Mastermind) (r : Mastermind × A) : Type 0 where
  same : r.0 ≡ s
