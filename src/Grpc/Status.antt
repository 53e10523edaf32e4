-- ===== src/Grpc/Status.antt =====
-- What the handlers share: status codes, replies, the metrics (internal/mastermind/metrics), and the
-- reading and printing of UUIDs, which a library gives.
use el_pulpo_ai.Prelude.{ℕ, String, Option}
use el_pulpo_ai.Store.Row.{
  Db, Result, ok, err, StoreError, not_found, invalid_input, not_deletable, not_requeueable,
  not_owner, empty_pr_url, invalid_transition,
}

-- The codes of google.golang.org/grpc/codes that the handlers and the interceptors use, without the
-- messages.
pub data Code : Type 0 where
  invalid_argument absent failed_precondition internal unauthenticated unimplemented unavailable :
      Code

pub data Reply {ℓ} (A : Type ℓ) : Type ℓ where
  response : A → Reply A
  failure : Code → Reply A

-- The counters; the histogram of claim durations is left out.
pub record Metrics : Type 0 where
  pub claimed_success : ℕ
  pub claimed_empty : ℕ
  pub claimed_error : ℕ
  pub completed_total : ℕ
  pub failed_reported : ℕ
  pub failed_reaped : ℕ
  pub reaped_total : ℕ

pub record Mastermind : Type 0 where
  pub db : Db
  pub metrics : Metrics

pub record UuidCodec : Type 0 where
  pub parse : String → Option ℕ
  pub print : ℕ → String

-- A failed oneof means that no outcome was sent.
pub data Outcome : Type 0 where
  success : Outcome
  failed_with : String → Outcome
  no_outcome : Outcome

-- The code for each error that a handler tells apart; any other is Internal.
abbrev pub owner_code : StoreError → Code
owner_code not_owner = failed_precondition
owner_code _ = internal

abbrev pub append_code : StoreError → Code
append_code not_found = absent
append_code not_owner = failed_precondition
append_code _ = internal

abbrev pub open_pr_code : StoreError → Code
open_pr_code not_owner = failed_precondition
open_pr_code empty_pr_url = invalid_argument
open_pr_code _ = internal

abbrev pub create_code : StoreError → Code
create_code invalid_input = invalid_argument
create_code _ = internal

abbrev pub get_code : StoreError → Code
get_code not_found = absent
get_code _ = internal

abbrev pub cancel_code : StoreError → Code
cancel_code not_found = absent
cancel_code not_deletable = failed_precondition
cancel_code _ = internal

abbrev pub retry_code : StoreError → Code
retry_code not_found = absent
retry_code not_requeueable = failed_precondition
retry_code _ = internal

abbrev pub transition_code : StoreError → Code
transition_code not_found = absent
transition_code invalid_transition = failed_precondition
transition_code _ = internal

-- An empty message, or the code of the error.
abbrev pub reply_by {ℓ κ} :
    {A : Type ℓ} {B : Type κ} → (StoreError → Code) → (A → B) → Result A → Reply B
reply_by code f (ok a) = response (f a)
reply_by code f (err e) = failure (code e)
