-- ===== src/IssueRefs/PullLinks.antt =====
-- The links of pull requests that are accepted, and their short forms.
use text.Mathlib.TextLemmas.{cons-append, append-nil}
use mathlib.Core.Bool.{false≢true}
use el_pulpo_ai.Prelude.{
  ℕ, String, Bool, true, ◌≡◌, refl, sym, ap, ◌∙◌, subst, ◌↔◌, Option, none, some, List, [], ◌∷◌,
  ◌==◌, is_some,
}
use el_pulpo_ai.IssueRefs.{
  Part, start, stop, Captures, match, plus, literal, is_digit, no_slash, ends_path, in_line,
  url_end, pr_re, validate_pr, pr_short,
}
use el_pulpo_ai.IssueRefs.Spelling.{
  run, halts, is_end, Reads, Reads-plus, Reads-literal, Reads-start, Reads-stop, Reads-end,
}
use el_pulpo_ai.IssueRefs.Spelling.Literals.{plus_inv, literal_inv, start_inv, stop_inv, end_inv}
use el_pulpo_ai.IssueRefs.Spelling.Inversion.{at_most}
use el_pulpo_ai.IssueRefs.Address.{◌<>◌, starts_with_slash, end_halts, address-Reads, Address-inv}
use el_pulpo_ai.IssueRefs.Links.{not_empty}

-- http or https, a host, the owner, the repository, "/pull/", the number and perhaps a query or a fragment.
pub record PullUrl (url short : String) : Type 0 where
  pub secure : String
  pub host : String
  pub owner : String
  pub repo : String
  pub number : String
  pub rest : String
  pub secure_ok : at_most (λ c. c == b's') secure ≡ true
  pub host_ok : run no_slash host ≡ true
  pub owner_ok : run no_slash owner ≡ true
  pub repo_ok : run no_slash repo ≡ true
  pub number_ok : run is_digit number ≡ true
  pub rest_ok : is_end ends_path in_line rest ≡ true
  pub short_is : short ≡ owner <> "/" <> repo <> "#" <> number
  pub url_is :
      url
      ≡ "http" <> secure <> "://" <> host <> "/" <> owner <> "/" <> repo <> "/pull/" <> number
        <> rest

-- A group of one class, from the start of a text.
abbrev group : (ℕ → Bool) → List Part → List Part
group p ps = start ∷ plus p (stop ∷ ps)

group-Reads :
    {p : ℕ → Bool} {ps : List Part} {t : String} {gs : List String} (name s : String)
    → run p name ≡ true
    → halts p s ≡ true
    → Reads ps s t gs
    → Reads (group p ps) (name <> s) "" (name ∷ gs)
group-Reads {p} {ps} {gs} name s h e k = Reads-start (
    subst (λ u. Reads (plus p (stop ∷ ps)) (name <> s) u gs) (append-nil name)
      (Reads-plus name s h e (Reads-stop k)))

record Group (p : ℕ → Bool) (ps : List Part) (s : String) (gs : List String) : Type 0 where
  name : String
  left : String
  text : String
  more : List String
  name_ok : run p name ≡ true
  s_is : s ≡ name <> left
  groups : gs ≡ name ∷ more
  reads_left : Reads ps left text more

Group-inv :
    {p : ℕ → Bool} {ps : List Part} (s : String) {t : String} {gs : List String}
    → Reads (group p ps) s t gs
    → Group p ps s gs
Group-inv s k =
    let (u, hs, _, groups, inner) = start_inv s k in
    let a = plus_inv s inner in
    let (v, nothing, last) = stop_inv a.left a.reads_left in
    let whole : u ≡ a.front = a.t_is ∙ ap (λ x. a.front <> x) nothing ∙ append-nil a.front in
    record {
      name = a.front;
      left = a.left;
      text = v;
      more = hs;
      name_ok = a.of_kind;
      s_is = a.s_is;
      groups = groups ∙ ap (λ x. x ∷ hs) whole;
      reads_left = last;
    }

starts_with_pull : (s : String) → halts no_slash ("/pull/" <> s) ≡ true
unfolding halts
starts_with_pull s = rw (cons-append "/" "pull/" s)

module _ (url short : String) (u : PullUrl url short) where
  path-Reads :
      Reads
        (group no_slash (literal "/" (group no_slash (literal "/pull/" (group is_digit url_end)))))
        (u.owner <> "/" <> u.repo <> "/pull/" <> u.number <> u.rest)
        ""
        (u.owner ∷ u.repo ∷ u.number ∷ [])
  path-Reads =
      group-Reads u.owner _ u.owner_ok
        (starts_with_slash (u.repo <> "/pull/" <> u.number <> u.rest))
        (Reads-literal "/" _ (
          group-Reads u.repo _ u.repo_ok (starts_with_pull (u.number <> u.rest)) (
            Reads-literal "/pull/" _ (
              group-Reads u.number u.rest u.number_ok (end_halts u.rest u.rest_ok)
                (Reads-end u.rest u.rest_ok)))))

  pull_forward : (validate_pr url ≡ true) × (pr_short url ≡ short)
  unfolding validate_pr pr_short pr_re
  pull_forward =
      let whole = address-Reads u.secure u.host _ u.secure_ok u.host_ok path-Reads in
      rw (u.short_is, not_empty _ url u.url_is) (rw (u.url_is, whole.matched) (refl, refl))

-- What the expression has captured.
record Pulled (url : String) (gs : List String) : Type 0 where
  short : String
  owner : String
  repo : String
  number : String
  found : PullUrl url short
  captured : gs ≡ owner ∷ repo ∷ number ∷ []
  short_is : short ≡ owner <> "/" <> repo <> "#" <> number

pull_inv : (url : String) {t : String} {gs : List String} → Reads pr_re url t gs → Pulled url gs
unfolding pr_re
pull_inv url k =
    let a = Address-inv url k in
    let b = Group-inv a.left a.reads_left in
    let c = literal_inv "/" b.left b.reads_left in
    let d = Group-inv c.left c.reads_left in
    let e = literal_inv "/pull/" d.left d.reads_left in
    let n = Group-inv e.left e.reads_left in
    let (rest_ok, no_more) = end_inv n.left n.reads_left in
    record {
      short = b.name <> "/" <> d.name <> "#" <> n.name;
      owner = b.name;
      repo = d.name;
      number = n.name;
      found = record {
        secure = a.secure;
        host = a.host;
        owner = b.name;
        repo = d.name;
        number = n.name;
        rest = n.left;
        secure_ok = a.secure_ok;
        host_ok = a.host_ok;
        owner_ok = b.name_ok;
        repo_ok = d.name_ok;
        number_ok = n.name_ok;
        rest_ok = rest_ok;
        short_is = refl;
        url_is =
            a.url_is
            ∙ ap (λ x. "http" <> a.secure <> "://" <> a.host <> "/" <> x)
                (b.s_is
                  ∙ ap (λ x. b.name <> x)
                      (c.s_is
                        ∙ ap (λ x. "/" <> x)
                            (d.s_is
                              ∙ ap (λ x. d.name <> x) (e.s_is ∙ ap (λ x. "/pull/" <> x) n.s_is))));
      };
      captured =
          b.groups
          ∙ ap (λ x. b.name ∷ x)
              (d.groups ∙ ap (λ x. d.name ∷ x) (n.groups ∙ ap (λ x. n.name ∷ x) no_more));
      short_is = refl;
    }

-- A link of a pull request is accepted, and shown as owner/repository#number, exactly if it is http or
-- https, a host, the owner, the repository, /pull/ and the number, with at most a query or a fragment
-- after it.
pub pull_links :
    (url short : String) → PullUrl url short ↔ ((validate_pr url ≡ true) × (pr_short url ≡ short))
pull_links url short = (pull_forward url short, λ h. by_match (match pr_re url) refl h.0 h.1)
  where
    by_match :
        (o : Option Captures)
        → match pr_re url ≡ o
        → validate_pr url ≡ true
        → pr_short url ≡ short
        → PullUrl url short
    by_match none e h k = absurd (false≢true (sym (ap is_some e) ∙ unfold validate_pr in h))
    by_match (some (t, gs)) e h k =
        let p = pull_inv url {t = t} {gs = gs} (record { matched = e }) in
        let same : p.short ≡ short = sym (pull_forward url p.short p.found).1 ∙ k in
        subst (PullUrl url) same p.found
