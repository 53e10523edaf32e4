-- ===== src/IssueRefs/Links.antt =====
-- The links that are accepted, and their short forms.
use text.Mathlib.TextLemmas.{cons-append, cons≢nil}
use mathlib.Core.Bool.{false≢true}
use el_pulpo_ai.Prelude.{
  String, str_eq, true, false, ◌≡◌, refl, sym, ap, ◌∙◌, subst, ◌↔◌, Option, none, some, List, [],
  ◌∷◌, ◌==◌, is_some, Bool-cases, inl, inr, eq_iff,
}
use el_pulpo_ai.IssueRefs.{
  Part, one, start, stop, Captures, match, plus, literal, is_upper, is_digit, in_key, no_slash,
  ends_path, in_line, url_end, jira_re, validate_jira, jira_short,
}
use el_pulpo_ai.IssueRefs.Spelling.{run, is_end, Reads, Reads-literal, Reads-start}
use el_pulpo_ai.IssueRefs.Spelling.Literals.{literal_inv, start_inv}
use el_pulpo_ai.IssueRefs.Spelling.Inversion.{at_most}
use el_pulpo_ai.IssueRefs.Address.{
  ◌<>◌, is_project, starts_with_dash, address-Reads, project-Reads, number-Reads, Address-inv,
  Key-inv, Address, Key,
}

-- http or https, a host, "/browse/", the key and perhaps a query or a fragment.
pub record JiraUrl (url key : String) : Type 0 where
  pub secure : String
  pub host : String
  pub project : String
  pub number : String
  pub rest : String
  pub secure_ok : at_most (λ c. c == b's') secure ≡ true
  pub host_ok : run no_slash host ≡ true
  pub project_ok : is_project project ≡ true
  pub number_ok : run is_digit number ≡ true
  pub rest_ok : is_end ends_path in_line rest ≡ true
  pub key_is : key ≡ project <> "-" <> number
  pub url_is :
      url
      ≡ "http" <> secure <> "://" <> host <> "/" <> "browse/" <> project <> "-" <> number <> rest

pub not_empty : (s url : String) → url ≡ "http" <> s → str_eq url "" ≡ false
not_empty s url e = elim (Bool-cases (str_eq url "")) [
  | inr h ↦ h
  | inl h ↦
      let empty : url ≡ "" = (eq_iff url "").0 h in
      absurd (cons≢nil {x = "h"} {xs = "ttp" <> s} (sym (cons-append "h" "ttp" s) ∙ sym e ∙ empty))
]

module _ (url key : String) (u : JiraUrl url key) where
  jira_text : String
  jira_text = "http" <> u.secure <> "://" <> u.host <> "/" <> "browse/" <> ""

  key-Reads :
      Reads
        (literal "browse/"
          (start ∷ one is_upper ∷ plus in_key (literal "-" (plus is_digit (stop ∷ url_end)))))
        ("browse/" <> u.project <> "-" <> u.number <> u.rest)
        ("browse/" <> "")
        (key ∷ [])
  key-Reads = rw u.key_is (
      Reads-literal "browse/" _ (
        Reads-start (
          project-Reads u.project ("-" <> u.number <> u.rest) u.project_ok
            (starts_with_dash (u.number <> u.rest))
            (Reads-literal "-" _ (number-Reads u.number u.rest u.number_ok u.rest_ok)))))

  jira-Reads : Reads jira_re url jira_text (key ∷ [])
  unfolding jira_re jira_text
  jira-Reads = rw u.url_is (address-Reads u.secure u.host _ u.secure_ok u.host_ok key-Reads)

  jira_forward : (validate_jira url ≡ true) × (jira_short url ≡ key)
  unfolding validate_jira jira_short
  jira_forward = rw (jira-Reads.matched, not_empty _ url u.url_is) (refl, refl)

jira_found :
    {ps : List Part} (url : String) (gs : List String) (a : Address ps url gs) {u : String}
    {hs : List String}
    → (left : String) → a.left ≡ "browse/" <> left
    → gs ≡ u ∷ hs
    → Key left u hs
    → (key : String) × JiraUrl url key × (gs ≡ key ∷ [])
jira_found url gs a {hs} left below groups k = (
  k.project <> "-" <> k.number,
  record {
    secure = a.secure;
    host = a.host;
    project = k.project;
    number = k.number;
    rest = k.rest;
    secure_ok = a.secure_ok;
    host_ok = a.host_ok;
    project_ok = k.project_ok;
    number_ok = k.number_ok;
    rest_ok = k.rest_ok;
    key_is = refl;
    url_is =
        a.url_is
        ∙ ap (λ x. "http" <> a.secure <> "://" <> a.host <> "/" <> x)
            (below ∙ ap (λ x. "browse/" <> x) k.s_is);
  },
  groups ∙ ap (λ x. x ∷ hs) k.t_is ∙ ap (λ x. (k.project <> "-" <> k.number) ∷ x) k.no_more,
)

jira_inv :
    (url : String) {t : String} {gs : List String}
    → Reads jira_re url t gs
    → (key : String) × JiraUrl url key × (gs ≡ key ∷ [])
unfolding jira_re
jira_inv url {t} {gs} k =
    let a = Address-inv url k in
    let b = literal_inv "browse/" a.left a.reads_left in
    let (u, hs, _, groups, inner) = start_inv b.left b.reads_left in
    jira_found url gs a b.left b.s_is groups (Key-inv b.left inner)

-- A JIRA link is accepted, and shown as a key, exactly if it is http or https, a host, /browse/ and that
-- key (two or more of A-Z, 0-9 and _, the first a letter, then a dash and digits), with at most a query
-- or a fragment after it.
pub jira_links :
    (url key : String) → JiraUrl url key ↔ ((validate_jira url ≡ true) × (jira_short url ≡ key))
jira_links url key = (jira_forward url key, λ h. by_match (match jira_re url) refl h.0 h.1)
  where
    recovered :
        (t : String) (gs : List String)
        → match jira_re url ≡ some (t, gs)
        → jira_short url ≡ key
        → JiraUrl url key
    recovered t gs e h =
        let (key', u, groups) = jira_inv url {t = t} {gs = gs} (record { matched = e }) in
        let same : key' ≡ key = sym (jira_forward url key' u).1 ∙ h in subst (JiraUrl url) same u

    by_match :
        (o : Option Captures)
        → match jira_re url ≡ o
        → validate_jira url ≡ true
        → jira_short url ≡ key
        → JiraUrl url key
    by_match none e h k = absurd (false≢true (sym (ap is_some e) ∙ unfold validate_jira in h))
    by_match (some (t, gs)) e h k = recovered t gs e k
