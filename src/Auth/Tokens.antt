-- ===== src/Auth/Tokens.antt =====
-- Which headers an interceptor lets through.
use Prim.Native.String
use el_pulpo_ai.Prelude.{
  String, true, ◌≡◌, refl, sym, ap, ◌∙◌, ◌↔◌, ◌⊎◌, inl, inr, none, some, List, [], ◌∷◌,
  Option-cases, after_prefix, after_prefix-append, after_prefix-some, trim_prefix, or_else, eq_iff,
  arith,
}
use el_pulpo_ai.Auth.{Incoming, scheme, has_token, request_metadata}

-- The first value is the token after the scheme, or the bare token where no scheme is there.
abbrev pub Presents : String → String → Type 0
Presents token v = (v ≡ String.◌++◌ scheme token) ⊎ ((after_prefix scheme v ≡ none) × (v ≡ token))

abbrev pub Carries : String → Incoming → Type 0
Carries token none = ⊥
Carries token (some []) = ⊥
Carries token (some (v ∷ vs)) = Presents token v

trimmed : (v token : String) → trim_prefix v scheme ≡ token → Presents token v
unfolding trim_prefix
trimmed v token e = elim (Option-cases (after_prefix scheme v)) [
  | inl h ↦ inr (h, ground arith)
  | inr (r, h) ↦
      inl (after_prefix-some scheme v r h ∙ ap (λ x. String.◌++◌ scheme x) (ground arith))
]

presented : (v token : String) → Presents token v → trim_prefix v scheme ≡ token
unfolding trim_prefix
presented v token (inl e) =
    ap (λ x. trim_prefix x scheme) e
    ∙ ap (λ o. or_else o (String.◌++◌ scheme token)) (after_prefix-append scheme token)
presented v token (inr (h, e)) = ap (λ o. or_else o v) h ∙ e

pub has_token_iff :
    (token : String) (md : Incoming) → (has_token token md ≡ true) ↔ Carries token md
unfolding has_token
has_token_iff token none = (λ h. cc, λ h. elim h [ ])
has_token_iff token (some []) = (λ h. cc, λ h. elim h [ ])
has_token_iff token (some (v ∷ vs)) = (
  λ h. trimmed v token ((eq_iff (trim_prefix v scheme) token).0 h),
  λ h. (eq_iff (trim_prefix v scheme) token).1 (presented v token h),
)

-- The credentials that a client attaches carry its token, and no other.
pub carried :
    (token expected : String) (vs : List String)
    → Carries expected (some (request_metadata token ∷ vs))
    → token ≡ expected
unfolding request_metadata trim_prefix
carried token expected vs h =
    sym (ap (λ o. or_else o (String.◌++◌ scheme token)) (after_prefix-append scheme token))
    ∙ presented _ expected h

pub carries :
    (token : String) (vs : List String) → Carries token (some (request_metadata token ∷ vs))
unfolding request_metadata
carries token vs = inl refl
