-- ===== src/AdminMcp/Created.antt =====
-- A task that the tool create_task has made, as the tool get_task shows it.
use el_pulpo_ai.Prelude.{ℕ, String, true, ◌≡◌, refl, subst, Option, none, some, []}
use el_pulpo_ai.Grpc.Status.{Reply, response, failure, Mastermind}
use el_pulpo_ai.Grpc.Admin.{
  CreateTaskRequest, TaskDetail as ProtoDetail, admin_create_task, admin_get_task,
}
use el_pulpo_ai.Grpc.Admin.Created.{created_is_found}
use el_pulpo_ai.Gateway.{
  Libraries, TokenConfig, detail, answered as rpc_answered, rpc_create_task, rpc_get_task, serve,
}
use el_pulpo_ai.Gateway.Access.{reaches}
use el_pulpo_ai.Worker.Client.{Trip, Fate, answered, request_lost, reply_lost}
use el_pulpo_ai.Gateway.Remote.{admin_call}
use el_pulpo_ai.AdminMcp.{
  ValueCodec, TaskDetail, CreateTaskInput, ToolResult, structured, from_proto_task, task_result,
  create_request, encoded, create_with, create_task_tool, get_task_tool,
}

module _ {J : Type 0} (j : ValueCodec J) (lib : Libraries) (cfg : TokenConfig) (y : Trip) where
  got_lem :
      (id : String) (p : ProtoDetail) (s : Mastermind)
      → y.fate ≡ answered
      → admin_get_task lib.uuid y.env id s ≡ (s, response p)
      → get_task_tool j lib cfg cfg.admin_token y id s ≡ (s, structured (from_proto_task j p))
  unfolding get_task_tool admin_call serve task_result
  got_lem id p s up h =
      rw up
        (rw (reaches (record lib { locked = y.locked }) y.env cfg (rpc_get_task id) s []) (rw h))

  -- What an answer shows, the tool get_task shows afterwards.
  GotBack : Mastermind × ToolResult (TaskDetail J) → Type 0
  GotBack o =
      (d : TaskDetail J)
      → o.1 ≡ structured d
      → get_task_tool j lib cfg cfg.admin_token y d.id o.0 ≡ (o.0, structured d)

  replied :
      (r : Mastermind × Reply ProtoDetail)
      → y.fate ≡ answered
      → ((p : ProtoDetail)
          → r.1 ≡ response p
          → admin_get_task lib.uuid y.env p.id r.0 ≡ (r.0, response p))
      → GotBack (task_result j (rpc_answered detail r))
  unfolding GotBack task_result
  replied (s, failure code) up h d e = cc
  replied (s, response p) up h d e =
      let same : from_proto_task j p ≡ d = cc e in
      subst (λ x. get_task_tool j lib cfg cfg.admin_token y x.id s ≡ (s, structured x)) same
        (unfold from_proto_task in got_lem p.id p s up (h p refl))

  module _ (up : y.fate ≡ answered) (runs : y.env.answers 0 ≡ true)
      (reads : (i : ℕ) → lib.uuid.parse (lib.uuid.print i) ≡ some i) (x : Trip)
      (s : Mastermind) where
    sent :
        (r : CreateTaskRequest) (f : Fate)
        → x.fate ≡ f
        → GotBack (task_result j (admin_call lib cfg cfg.admin_token x (rpc_create_task r) s))
    unfolding admin_call serve
    sent r answered e = rw e (
        rw (reaches (record lib { locked = x.locked }) x.env cfg (rpc_create_task r) s []) (
          replied (admin_create_task lib.uuid x.env lib.payloads lib.json_valid r s) up (λ p h.
            created_is_found lib.uuid x.env lib.payloads lib.json_valid r s p y.env runs reads h)))
    sent r request_lost e = unfold GotBack task_result in rw e (λ d h. cc)
    sent r reply_lost e = unfold GotBack task_result in rw e (λ d h. cc)

    made :
        (input : CreateTaskInput J) (o : Option String)
        → GotBack (create_with j lib cfg cfg.admin_token x input s o)
    unfolding create_with
    made input none = unfold GotBack in λ d h. cc
    made input (some payload) =
        sent (create_request j lib cfg cfg.admin_token input payload) x.fate refl

    -- What the tool create_task has answered with, the tool get_task answers with too, asked for the id
    -- of the answer right after it, if the administrator's token is used, that call and its statement are
    -- answered, and the printed form of a UUID is read as that UUID.
    pub created_is_got :
        (input : CreateTaskInput J) (d : TaskDetail J)
        → (create_task_tool j lib cfg cfg.admin_token x input s).1 ≡ structured d
        → let s' = (create_task_tool j lib cfg cfg.admin_token x input s).0 in
          get_task_tool j lib cfg cfg.admin_token y d.id s' ≡ (s', structured d)
    unfolding create_task_tool GotBack
    created_is_got input d h = made input (encoded j lib cfg cfg.admin_token input.payload) d h
