-- ===== src/Worker/State/Agent.antt =====
-- The calls of the coding agent, and the ticks of the heartbeat, as they come one after the other.
-- Release, which only the shutdown of the worker makes, is not among them.
use el_pulpo_ai.Prelude.{String, List, [], ◌∷◌}
use el_pulpo_ai.Grpc.Status.{UuidCodec}
use el_pulpo_ai.Worker.Client.{Trip, Ending}
use el_pulpo_ai.Worker.State.{
  World, state_progress, state_append_log, state_set_jira_url, state_end, claim_next, tick,
}

pub data AgentCall : Type 0 where
  claiming beating_once : AgentCall
  progressing logging ticketing : String → String → AgentCall
  ending_by : Ending → String → AgentCall

module _ (u : UuidCodec) (worker_id : String) where
  -- The world after a call; ClaimNext may make two calls over the network.
  unfoldable pub agent_step : Trip → Trip → AgentCall → World → World
  agent_step x y claiming w = (claim_next u worker_id x y w).0
  agent_step x y beating_once w = tick u worker_id x w
  agent_step x y (progressing id note) w = (state_progress u worker_id x id note w).0
  agent_step x y (logging id message) w = (state_append_log u worker_id x id message w).0
  agent_step x y (ticketing id url) w = (state_set_jira_url u worker_id x id url w).0
  agent_step x y (ending_by e id) w = (state_end u worker_id x e id w).0

  unfoldable pub agent_run : List (Trip × Trip × AgentCall) → World → World
  unfolding agent_step
  agent_run [] w = w
  agent_run ((x, y, call) ∷ rest) w = agent_run rest (agent_step x y call w)
