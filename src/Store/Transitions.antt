-- ===== src/Store/Transitions.antt =====
-- The table of permitted transitions, internal/mastermind/store/transitions.go.
use el_pulpo_ai.Prelude.{
  Bool, true, false, ◌&&◌, ◌||◌, ◌≡◌, refl, List, [], ◌∷◌, String, str_eq, map, if◌then◌else◌,
}
use el_pulpo_ai.Store.Row.{
  TaskStatus, pending, claimed, in_progress, pr_opened, review_requested, completed, failed,
  status_eq, is_held, is_idle,
}

pub data Role : Type 0 where
  role_worker role_admin : Role

abbrev role_eq : Role → Role → Bool
role_eq role_worker role_worker = true
role_eq role_admin role_admin = true
role_eq _ _ = false

-- The string values of the TaskStatus constants.
unfoldable pub status_name : TaskStatus → String
status_name pending = "pending"
status_name claimed = "claimed"
status_name in_progress = "in_progress"
status_name pr_opened = "pr_opened"
status_name review_requested = "review_requested"
status_name completed = "completed"
status_name failed = "failed"

pub record TransitionKey : Type 0 where
  pub role : Role
  pub action : String

abbrev key : Role → String → TransitionKey
key r a = record { role = r; action = a }

abbrev pub allowed_from : List (TransitionKey × List TaskStatus)
allowed_from =
    (key role_worker "open_pr", in_progress ∷ [])
    ∷ (key role_worker "set_jira_url", claimed ∷ in_progress ∷ [])
    ∷ (key role_worker "complete", in_progress ∷ [])
    ∷ (key role_worker "fail", in_progress ∷ [])
    ∷ (key role_admin "request_review", pr_opened ∷ [])
    ∷ (key role_admin "finalize", pr_opened ∷ review_requested ∷ [])
    ∷ (key role_admin "retry", pending ∷ completed ∷ failed ∷ [])
    ∷ []

lookup_key : List (TransitionKey × List TaskStatus) → Role → String → List TaskStatus
lookup_key [] r a = []
lookup_key ((k, states) ∷ rest) r a =
    if role_eq k.role r && str_eq k.action a then states else lookup_key rest r a

-- An unknown key gives no state.
unfoldable pub allowed_from_strings : Role → String → List String
unfolding lookup_key status_name
allowed_from_strings r a = map status_name (lookup_key allowed_from r a)

any_name : String → List String → Bool
any_name s [] = false
any_name s (n ∷ ns) = str_eq s n || any_name s ns

-- `status = ANY($n)` with the states of a key.
unfoldable pub allowed : Role → String → TaskStatus → Bool
unfolding allowed_from_strings any_name status_name
allowed r a s = any_name (status_name s) (allowed_from_strings r a)

-- The rows of the table, as tests on the status.
pub allowed-open_pr : (s : TaskStatus) → allowed role_worker "open_pr" s ≡ status_eq s in_progress
unfolding allowed
allowed-open_pr pending = refl
allowed-open_pr _ = refl

pub allowed-set_jira_url : (s : TaskStatus) → allowed role_worker "set_jira_url" s ≡ is_held s
unfolding allowed
allowed-set_jira_url pending = refl
allowed-set_jira_url _ = refl

pub allowed-request_review :
    (s : TaskStatus) → allowed role_admin "request_review" s ≡ status_eq s pr_opened
unfolding allowed
allowed-request_review pending = refl
allowed-request_review _ = refl

-- A parked task waits for an administrator.
abbrev pub is_parked : TaskStatus → Bool
is_parked pr_opened = true
is_parked review_requested = true
is_parked _ = false

pub allowed-finalize : (s : TaskStatus) → allowed role_admin "finalize" s ≡ is_parked s
unfolding allowed
allowed-finalize pending = refl
allowed-finalize _ = refl

pub allowed-retry : (s : TaskStatus) → allowed role_admin "retry" s ≡ is_idle s
unfolding allowed
allowed-retry pending = refl
allowed-retry _ = refl

pub ruleset allowed_states =
    (allowed-open_pr, allowed-set_jira_url, allowed-request_review, allowed-finalize, allowed-retry)
