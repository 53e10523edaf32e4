-- ===== src/Config.antt =====
-- The configuration, internal/config/config.go: what envconfig has read is given; the checks on it are
-- here.
pub mod Mcp
use el_pulpo_ai.Prelude.{
  ℕ, String, str_eq, false, ◌≡◌, ◌≢◌, Option, none, some, if◌then◌else◌, Bool-cases, inl, inr,
  eq_iff, ap, subst, arith,
}

pub record MastermindConfig : Type 0 where
  pub database_url : String
  pub grpc_listen_addr : String
  pub http_listen_addr : String
  pub worker_token : String
  pub admin_user : String
  pub admin_password : String
  pub admin_token : String
  pub visibility_timeout : ℕ
  pub reaper_interval : ℕ

pub record WorkerConfig : Type 0 where
  pub mastermind_addr : String
  pub worker_token : String

-- The key that is missing, or the configuration.
pub data Loaded (C : Type 0) : Type 0 where
  loaded : C → Loaded C
  missing_key : String → Loaded C
  unreadable : Loaded C

-- `if value == "" { return … }`, and the rest of the function.
abbrev pub required : {C : Type 0} → String → String → Loaded C → Loaded C
required key value rest = if str_eq value "" then missing_key key else rest

unfoldable pub check_mastermind : MastermindConfig → Loaded MastermindConfig
check_mastermind c = required "DATABASE_URL" c.database_url (
    required "WORKER_TOKEN" c.worker_token (
      required "ADMIN_USER" c.admin_user (
        required "ADMIN_PASSWORD" c.admin_password
          (required "ADMIN_TOKEN" c.admin_token (loaded c)))))

unfoldable pub load_mastermind : Option MastermindConfig → Loaded MastermindConfig
unfolding check_mastermind
load_mastermind none = unreadable
load_mastermind (some c) = check_mastermind c

unfoldable pub check_worker : WorkerConfig → Loaded WorkerConfig
check_worker c =
    required "MASTERMIND_ADDR" c.mastermind_addr (required "WORKER_TOKEN" c.worker_token (loaded c))

unfoldable pub load_worker : Option WorkerConfig → Loaded WorkerConfig
unfolding check_worker
load_worker none = unreadable
load_worker (some c) = check_worker c

pub required_lem :
    {C : Type 0} (key value : String) (rest : Loaded C) {c : C}
    → required key value rest ≡ loaded c
    → (str_eq value "" ≡ false) × (rest ≡ loaded c)
required_lem key value rest h = elim (Bool-cases (str_eq value "")) [
  | inl e ↦ absurd (ground arith)
  | inr e ↦ (e, ground arith)
]

pub not_empty : (value : String) → str_eq value "" ≡ false → value ≢ ""
not_empty value h e = absurd (cc (h, (eq_iff value "").1 e))

abbrev pub HasSecrets : MastermindConfig → Type 0
HasSecrets c =
    (c.worker_token ≢ "") × (c.admin_user ≢ "") × (c.admin_password ≢ "") × (c.admin_token ≢ "")

-- A configuration that was loaded is the one that was read, and its two tokens and its admin login are not the
-- empty text.
secrets_present :
    (o : Option MastermindConfig) {c : MastermindConfig}
    → load_mastermind o ≡ loaded c
    → (o ≡ some c) × HasSecrets c
unfolding load_mastermind check_mastermind
secrets_present none h = absurd (cc h)
secrets_present (some d) {c} h =
    let (_, h1) = required_lem "DATABASE_URL" d.database_url _ h in
    let (e2, h2) = required_lem "WORKER_TOKEN" d.worker_token _ h1 in
    let (e3, h3) = required_lem "ADMIN_USER" d.admin_user _ h2 in
    let (e4, h4) = required_lem "ADMIN_PASSWORD" d.admin_password _ h3 in
    let (e5, h5) = required_lem "ADMIN_TOKEN" d.admin_token _ h4 in
    let same : d ≡ c = cc h5 in
    (
      ap some same,
      subst HasSecrets same (
        not_empty d.worker_token e2,
        not_empty d.admin_user e3,
        not_empty d.admin_password e4,
        not_empty d.admin_token e5,
      ),
    )
