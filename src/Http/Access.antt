-- ===== src/Http/Access.antt =====
-- Who may use the admin UI, and which requests can change anything.
use el_pulpo_ai.Prelude.{
  ℕ, if_both, String, str_eq, Bool, true, false, ◌&&◌, ◌≡◌, refl, sym, ◌≢◌, ◌⊎◌, inl, inr, Option,
  none, some, Bool-cases, Option-cases, eq_iff, arith,
}
use el_pulpo_ai.Store.Row.{Env}
use el_pulpo_ai.Grpc.Status.{Mastermind}
use el_pulpo_ai.Auth.{Credentials, has_credentials, basic_auth}
use el_pulpo_ai.Http.{Verb, get, post, other_verb, Request, Response, plain, WebLibraries}
use el_pulpo_ai.Http.Tasks.{tasks_collection, tasks_member, member_by}
use el_pulpo_ai.Http.Routes.{
  WebConfig, Endpoint, healthz, readyz, metrics, root, collection, member, subtree, endpoint,
  is_public, handler, protected, dispatch, served_at, http_serve,
}
use el_pulpo_ai.Http.Effects.{Lawful, unchanged, either, collection-Lawful, member-Lawful}

stranger :
    (user password : String) (given : Credentials)
    → given ≢ some (user, password)
    → has_credentials user password given ≡ false
unfolding has_credentials
stranger user password none ne = refl
stranger user password (some (u, p)) ne = elim (Bool-cases (str_eq u user && str_eq p password)) [
  | inr e ↦ e
  | inl e ↦
      let same_user : u ≡ user = (eq_iff u user).0 (ground arith) in
      let same_password : p ≡ password = (eq_iff p password).0 (ground arith) in
      absurd (ne (rw (same_user, same_password)))
]

module _ {O : Type 0} (lib : WebLibraries O) (env : Env) (clock : ℕ) (cfg : WebConfig) (r : Request)
    (s : Mastermind) where
  locked_out :
      r.credentials ≢ some (cfg.admin_user, cfg.admin_password)
      → (next : Mastermind → Mastermind × Response)
      → protected lib env clock cfg r next s ≡ (s, plain 401)
  unfolding protected basic_auth
  locked_out ne next = rw (stranger cfg.admin_user cfg.admin_password r.credentials ne)

  refusal :
      (e : Endpoint) (b : Bool)
      → is_public e ≡ b
      → (handler lib env clock cfg r e s).0 ≡ s ⊎ (b ≡ false)
  unfolding handler is_public
  refusal healthz b h = inl refl
  refusal readyz b h = inl refl
  refusal metrics b h = inl refl
  refusal root b h = inl refl
  refusal (subtree path) b h = inl refl
  refusal _ b h = inr (sym h)

  turned_away :
      (e : Endpoint)
      → r.credentials ≢ some (cfg.admin_user, cfg.admin_password)
      → ((dispatch lib env clock cfg r e s).0 ≡ s)
        × ((is_public e ≡ true) ⊎ ((dispatch lib env clock cfg r e s).1 ≡ plain 401))
  unfolding dispatch
  turned_away e ne = elim (Bool-cases (is_public e)) [
    | inl h ↦ elim (refusal e true h) [ inl same ↦ rw h (same, inl refl) | inr no_way ↦ cc ]
    | inr h ↦ rw (h, locked_out ne (handler lib env clock cfg r e)) (refl, inr refl)
  ]

  -- Without the administrator's name and password a request, whatever its path and method, changes
  -- nothing, and is answered by 401 unless its path is redirected to a cleaned one or its route is a public
  -- one: the probes, the metrics, the redirect of the root, the redirects to a path with a slash at its end,
  -- and what is not found.
  pub strangers_refused :
      r.credentials ≢ some (cfg.admin_user, cfg.admin_password)
      → ((http_serve lib env clock cfg r s).0 ≡ s)
        × ((lib.cleaned r.raw_path ≢ none)
            ⊎ ((is_public (endpoint r.path) ≡ true)
                ⊎ ((http_serve lib env clock cfg r s).1 ≡ plain 401)))
  unfolding http_serve served_at
  strangers_refused ne = elim (Option-cases (lib.cleaned r.raw_path)) [
    | inl e ↦ rw e (let (same, answer) = turned_away (endpoint r.path) ne in (same, inr answer))
    | inr (location, e) ↦ rw e (refl, inl (λ h. cc))
  ]

  handler_lem : (e : Endpoint) → Lawful lib.payloads env s (handler lib env clock cfg r e s)
  unfolding handler
  handler_lem collection = collection-Lawful lib env s r r.verb
  handler_lem member = member-Lawful lib env s r
  handler_lem healthz = unchanged _
  handler_lem _ = unchanged _

  guarded_lem : (e : Endpoint) → Lawful lib.payloads env s (dispatch lib env clock cfg r e s)
  unfolding dispatch protected basic_auth
  guarded_lem e = either (is_public e) (handler_lem e) (
      either (has_credentials cfg.admin_user cfg.admin_password r.credentials) (handler_lem e)
        (unchanged (plain 401)))

  -- A request changes the database by one call of the store at most, and not at all if its response is a
  -- refusal, with a status from 400 to 499.
  pub http_serve-Lawful : Lawful lib.payloads env s (http_serve lib env clock cfg r s)
  unfolding http_serve served_at
  http_serve-Lawful = elim (Option-cases (lib.cleaned r.raw_path)) [
    | inl e ↦ rw e (guarded_lem (endpoint r.path))
    | inr (location, e) ↦ rw e (unchanged _)
  ]

  read_collection : (v : Verb) → v ≢ post → (tasks_collection lib env r v s).0 ≡ s
  unfolding tasks_collection
  read_collection get ne = refl
  read_collection post ne = absurd (ne refl)
  read_collection other_verb ne = refl

  read_member :
      (v : Verb) (o : Option ℕ) (verb : String) → v ≢ post → (member_by lib env r v o verb s).0 ≡ s
  unfolding member_by
  read_member v none verb ne = refl
  read_member get (some i) verb ne = refl
  read_member post (some i) verb ne = absurd (ne refl)
  read_member other_verb (some i) verb ne = refl

  reading : (e : Endpoint) → r.verb ≢ post → (handler lib env clock cfg r e s).0 ≡ s
  unfolding handler tasks_member
  reading collection ne = read_collection r.verb ne
  reading member ne = read_member r.verb _ _ ne
  reading healthz ne = refl
  reading _ ne = refl

  guarded_reading : (e : Endpoint) → r.verb ≢ post → (dispatch lib env clock cfg r e s).0 ≡ s
  unfolding dispatch protected basic_auth
  guarded_reading e ne =
      if_both (λ (x : Mastermind × Response). x.0 ≡ s) (is_public e) (reading e ne)
        (if_both (λ (x : Mastermind × Response). x.0 ≡ s)
          (has_credentials cfg.admin_user cfg.admin_password r.credentials) (reading e ne) refl)

  -- A request that is no POST changes nothing, whoever sends it.
  pub only_post_changes : r.verb ≢ post → (http_serve lib env clock cfg r s).0 ≡ s
  unfolding http_serve served_at
  only_post_changes ne = elim (Option-cases (lib.cleaned r.raw_path)) [
    | inl e ↦ rw e (guarded_reading (endpoint r.path) ne)
    | inr (location, e) ↦ rw e refl
  ]
