-- ===== src/Gateway/Access.antt =====
-- Who may call what.
use el_pulpo_ai.Prelude.{
  String, Bool, true, false, ◌≡◌, refl, ◌≢◌, ◌⊎◌, inl, inr, some, List, [], ◌∷◌, if◌then◌else◌,
  Bool-cases, arith,
}
use el_pulpo_ai.Store.Row.{Env}
use el_pulpo_ai.Grpc.Status.{failure, unauthenticated, Mastermind}
use el_pulpo_ai.Auth.{Incoming, has_token, request_metadata, per_method_interceptor}
use el_pulpo_ai.Auth.Tokens.{Carries, has_token_iff, carried, carries}
use el_pulpo_ai.Gateway.{
  Libraries, TokenConfig, Rpc, rpc_claim_task, rpc_heartbeat, rpc_report_result,
  rpc_update_progress, rpc_append_log, rpc_set_jira_url, rpc_open_pr, full_method, policy, lookup,
  serve, gateway,
}

-- The calls of the TaskService.
abbrev pub is_worker_call : Rpc → Bool
is_worker_call (rpc_claim_task w) = true
is_worker_call (rpc_heartbeat w i) = true
is_worker_call (rpc_report_result w i o) = true
is_worker_call (rpc_update_progress w i text) = true
is_worker_call (rpc_append_log w i text) = true
is_worker_call (rpc_set_jira_url w i text) = true
is_worker_call (rpc_open_pr w i text) = true
is_worker_call _ = false

abbrev pub token_for : TokenConfig → Rpc → String
token_for cfg rpc = if is_worker_call rpc then cfg.worker_token else cfg.admin_token

policy_complete :
    (cfg : TokenConfig) (rpc : Rpc)
    → lookup (full_method rpc) (policy cfg) ≡ some (token_for cfg rpc)
unfolding lookup full_method policy
policy_complete cfg (rpc_claim_task w) = refl
policy_complete cfg (rpc_heartbeat w i) = refl
policy_complete cfg _ = refl

module _ (lib : Libraries) (env : Env) (cfg : TokenConfig) (md : Incoming) (rpc : Rpc)
    (s : Mastermind) where
  -- Every call of both services is admitted exactly if its metadata carry the token of the service,
  -- after "Bearer " or bare: then it is the handler's answer and effect, and otherwise the reply is
  -- Unauthenticated and nothing changes.
  pub gateway_admits :
      (Carries (token_for cfg rpc) md × (gateway lib env cfg md rpc s ≡ serve lib env rpc s))
      ⊎ ((¬ Carries (token_for cfg rpc) md)
          × (gateway lib env cfg md rpc s ≡ (s, failure unauthenticated)))
  unfolding gateway per_method_interceptor
  gateway_admits = elim (Bool-cases (has_token (token_for cfg rpc) md)) [
    | inl e ↦ inl ((has_token_iff (token_for cfg rpc) md).0 e, rw (policy_complete cfg rpc, e))
    | inr e ↦ inr (
      λ h.
          let yes_token : has_token (token_for cfg rpc) md ≡ true =
            (has_token_iff (token_for cfg rpc) md).1 h in
          cc,
      rw (policy_complete cfg rpc, e),
    )
  ]

abbrev pub other_token : TokenConfig → Rpc → String
other_token cfg rpc = if is_worker_call rpc then cfg.admin_token else cfg.worker_token

tokens_differ :
    (cfg : TokenConfig) (rpc : Rpc)
    → cfg.worker_token ≢ cfg.admin_token
    → other_token cfg rpc ≢ token_for cfg rpc
tokens_differ cfg rpc ne e = elim (Bool-cases (is_worker_call rpc)) [
  | inl w ↦ ne (ground arith)
  | inr w ↦ ne (ground arith)
]

module _ (lib : Libraries) (env : Env) (cfg : TokenConfig) (rpc : Rpc) (s : Mastermind) where
  abbrev pub with_token : String → List String → Incoming
  with_token token more = some (request_metadata token ∷ more)

  pub reaches :
      (more : List String)
      → gateway lib env cfg (with_token (token_for cfg rpc) more) rpc s ≡ serve lib env rpc s
  reaches more = elim (gateway_admits lib env cfg (with_token (token_for cfg rpc) more) rpc s) [
    | inl (_, h) ↦ h
    | inr (refuses, _) ↦ absurd (refuses (carries (token_for cfg rpc) more))
  ]

  pub stopped :
      (token : String) (more : List String)
      → token ≢ token_for cfg rpc
      → gateway lib env cfg (with_token token more) rpc s ≡ (s, failure unauthenticated)
  stopped token more ne = elim (gateway_admits lib env cfg (with_token token more) rpc s) [
    | inl (admitted, _) ↦ absurd (ne (carried token (token_for cfg rpc) more admitted))
    | inr (_, h) ↦ h
  ]

  -- If the worker's and the administrator's tokens differ, a call whose client attaches the token of the
  -- service that it calls reaches the handler, and with the token of the other service it is answered
  -- by Unauthenticated and changes nothing.
  pub roles_separate :
      cfg.worker_token ≢ cfg.admin_token
      → (gateway lib env cfg (some (request_metadata (token_for cfg rpc) ∷ [])) rpc s
          ≡ serve lib env rpc s)
        × (gateway lib env cfg (some (request_metadata (other_token cfg rpc) ∷ [])) rpc s
            ≡ (s, failure unauthenticated))
  roles_separate ne = (reaches [], stopped (other_token cfg rpc) [] (tokens_differ cfg rpc ne))
