-- ===== src/Gateway/Remote.antt =====
-- A call of the administrator's clients over the network, as internal/cli/cli.go and internal/mcpserver
-- make it: the token is attached to the call, and the call or its reply may be lost.
use el_pulpo_ai.Prelude.{String, some, [], ◌∷◌}
use el_pulpo_ai.Grpc.Status.{Reply, failure, unavailable, Mastermind}
use el_pulpo_ai.Auth.{request_metadata}
use el_pulpo_ai.Gateway.{Libraries, TokenConfig, Rpc, RpcAnswer, gateway}
use el_pulpo_ai.Worker.Client.{Trip, Fate, answered, request_lost, reply_lost}

-- What the client makes of a reply that came, or did not.
abbrev pub over_network :
    Fate → (Mastermind → Mastermind × Reply RpcAnswer) → Mastermind → Mastermind × Reply RpcAnswer
over_network answered call s = call s
over_network request_lost call s = (s, failure unavailable)
over_network reply_lost call s = ((call s).0, failure unavailable)

unfoldable pub admin_call :
    Libraries → TokenConfig → String → Trip → Rpc → Mastermind → Mastermind × Reply RpcAnswer
admin_call lib cfg token x rpc s =
    over_network x.fate
      (gateway (record lib { locked = x.locked }) x.env cfg (some (request_metadata token ∷ []))
        rpc)
      s
