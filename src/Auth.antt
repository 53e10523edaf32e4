-- ===== src/Auth.antt =====
-- Authentication, internal/auth: bearer tokens in front of the gRPC handlers (grpc.go) and basic
-- credentials in front of the HTTP handlers (http.go).
pub mod Tokens
use Prim.Native.String
use el_pulpo_ai.Prelude.{
  String, str_eq, Bool, true, false, ◌&&◌, Option, none, some, List, [], ◌∷◌, if◌then◌else◌,
  trim_prefix,
}
use el_pulpo_ai.Grpc.Status.{Reply, failure, unauthenticated, unimplemented}

-- The values of "authorization" in the incoming metadata; `none` if the call has no metadata.
abbrev pub Incoming : Type 0
Incoming = Option (List String)

abbrev pub scheme : String
scheme = "Bearer "

-- subtle.ConstantTimeCompare gives 1 exactly for equal texts.
unfoldable pub has_token : String → Incoming → Bool
unfolding trim_prefix
has_token expected none = false
has_token expected (some []) = false
has_token expected (some (v ∷ vs)) = str_eq (trim_prefix v scheme) expected

-- A handler changes a state and replies.
module _ {ℓ} {S : Type ℓ} {A : Type 0} (md : Incoming) (handler : S → S × Reply A) (s : S) where
  unfoldable pub bearer_interceptor : String → S × Reply A
  unfolding has_token
  bearer_interceptor expected =
      if has_token expected md then handler s else (s, failure unauthenticated)

  -- Of a method the policy gives the expected token.
  unfoldable pub per_method_interceptor : Option String → S × Reply A
  unfolding has_token
  per_method_interceptor none = (s, failure unimplemented)
  per_method_interceptor (some expected) =
      if has_token expected md then handler s else (s, failure unauthenticated)

-- The value of "authorization" that a client attaches to its calls.
unfoldable pub request_metadata : String → String
request_metadata token = String.◌++◌ scheme token

-- What r.BasicAuth() finds in a request.
abbrev pub Credentials : Type 0
Credentials = Option (String × String)

unfoldable pub has_credentials : String → String → Credentials → Bool
has_credentials user password none = false
has_credentials user password (some (u, p)) = str_eq u user && str_eq p password

-- The middleware, with the reply of 401 that it gives.
unfoldable pub basic_auth {ℓ κ} :
    {S : Type ℓ} {R : Type κ} → String → String → R → Credentials → (S → S × R) → S → S × R
unfolding has_credentials
basic_auth user password unauthorized given next s =
    if has_credentials user password given then next s else (s, unauthorized)
