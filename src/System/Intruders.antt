-- ===== src/System/Intruders.antt =====
-- What those who have neither a token nor the login can do to the program.
use el_pulpo_ai.Prelude.{ℕ, Bool, ◌≡◌, refl, ◌≢◌, ◌∙◌, ap, inl, inr, List, [], ◌∷◌, All, some}
use el_pulpo_ai.Store.Row.{Task, Env}
use el_pulpo_ai.Grpc.Status.{Mastermind}
use el_pulpo_ai.Auth.{Incoming}
use el_pulpo_ai.Auth.Tokens.{Carries}
use el_pulpo_ai.Gateway.{TokenConfig, Rpc}
use el_pulpo_ai.Gateway.Access.{token_for, gateway_admits}
use el_pulpo_ai.Http.{Request, WebLibraries}
use el_pulpo_ai.Http.Routes.{WebConfig}
use el_pulpo_ai.Http.Access.{strangers_refused}
use el_pulpo_ai.System.{
  Event, grpc_call, web_request, reaper_ticks, late_line, step, run_events, grpc_libraries,
}

module _ {O : Type 0} (web : WebLibraries O) (tokens : TokenConfig) (login : WebConfig) where
  -- A call without the token of its service, or a request without the login.
  pub data Intrusion : Event → Type 0 where
    no_token :
        {md : Incoming} {locked : Task → Bool} {rpc : Rpc}
        → ¬ Carries (token_for tokens rpc) md
        → Intrusion (grpc_call md locked rpc)
    no_login :
        {clock : ℕ} {r : Request}
        → r.credentials ≢ some (login.admin_user, login.admin_password)
        → Intrusion (web_request clock r)

  intrusion_lem :
      (env : Env) (e : Event) (s : Mastermind) → Intrusion e → step web tokens login env e s ≡ s
  unfolding step
  intrusion_lem env (grpc_call md locked rpc) s (no_token bare) =
      elim (gateway_admits (grpc_libraries web tokens login locked) env tokens md rpc s) [
        | inl (has, _) ↦ absurd (bare has)
        | inr (_, h) ↦ ap (λ x. x.0) h
      ]
  intrusion_lem env (web_request clock r) s (no_login ne) =
      (strangers_refused web env clock login r s ne).0
  intrusion_lem env (reaper_ticks v) s h = elim h [ ]
  intrusion_lem env (late_line i message) s h = elim h [ ]

  -- However many calls come without the token of the service called, and requests without the
  -- administrator's login, in whatever order: the state of the mastermind stays as it was.
  pub intruders_change_nothing :
      (events : List (Env × Event)) (s : Mastermind)
      → All (λ (x : Env × Event). Intrusion x.1) events
      → run_events web tokens login events s ≡ s
  unfolding run_events
  intruders_change_nothing [] s h = refl
  intruders_change_nothing ((env, e) ∷ rest) s h =
      ap (run_events web tokens login rest) (intrusion_lem env e s h.0)
      ∙ intruders_change_nothing rest s h.1
