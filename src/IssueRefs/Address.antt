-- ===== src/IssueRefs/Address.antt =====
-- The parts of a link: what the two expressions of internal/mastermind/issuerefs read of it.
use Prim.Native.Char.{code}
use Prim.Native.String
use text.Mathlib.TextLemmas.{cons-append, nil-append, append-nil, append_assoc}
use el_pulpo_ai.Prelude.{
  String, Bool, true, false, ◌&&◌, ◌≡◌, refl, sym, ap, ◌∙◌, subst, List, [], ◌∷◌, ◌==◌, arith,
}
use el_pulpo_ai.IssueRefs.{
  Part, one, optional, stop, plus, literal, is_upper, is_digit, in_key, no_slash, ends_path,
  in_line, url_end, web_address,
}
use el_pulpo_ai.IssueRefs.Spelling.{
  run, halts, is_end, Reads, Reads-one, Reads-plus, Reads-literal, Reads-absent, Reads-present,
  Reads-stop, Reads-end,
}
use el_pulpo_ai.IssueRefs.Spelling.Literals.{After, plus_inv, literal_inv, stop_inv, end_inv}
use el_pulpo_ai.IssueRefs.Spelling.Inversion.{at_most, exactly, Split, one_inv, optional_inv}

infixr 60 ◌<>◌
abbrev pub ◌<>◌ : String → String → String
a <> b = String.◌++◌ a b

-- An upper-case letter and at least one more of A-Z, 0-9 and _.
unfoldable pub is_project : String → Bool
unfolding run
is_project String.[] = false
is_project (String.◌∷◌ c s) = is_upper (code c) && run in_key s

pub starts_with_colon : (s : String) → halts (λ c. c == b's') ("://" <> s) ≡ true
unfolding halts
starts_with_colon s = rw (cons-append ":" "//" s)

pub starts_with_slash : (s : String) → halts no_slash ("/" <> s) ≡ true
unfolding halts
starts_with_slash s = rw (cons-append "/" "" s)

pub starts_with_dash : (s : String) → halts in_key ("-" <> s) ≡ true
unfolding halts
starts_with_dash s = rw (cons-append "-" "" s)

pub end_halts : (s : String) → is_end ends_path in_line s ≡ true → halts is_digit s ≡ true
unfolding halts is_end
end_halts String.[] h = refl
end_halts (String.◌∷◌ c s) h = ground arith

pub secure-Reads :
    {ps : List Part} {t : String} {gs : List String} (x s : String)
    → at_most (λ c. c == b's') x ≡ true
    → Reads ps ("://" <> s) t gs
    → Reads (optional (λ c. c == b's') ∷ ps) (x <> "://" <> s) (x <> t) gs
unfolding at_most
secure-Reads {t} String.[] s h k =
    rw (nil-append ("://" <> s), nil-append t) (Reads-absent ("://" <> s) (starts_with_colon s) k)
secure-Reads {t} (String.◌∷◌ c String.[]) s h k =
    rw (cons-append c "" ("://" <> s), cons-append c "" t, nil-append t, nil-append ("://" <> s))
      (Reads-present c (ground arith) k)
secure-Reads (String.◌∷◌ c (String.◌∷◌ d x)) s h k = absurd (ground arith)

-- The front of both expressions.
pub address-Reads :
    {ps : List Part} {t : String} {gs : List String} (secure host s : String)
    → at_most (λ c. c == b's') secure ≡ true
    → run no_slash host ≡ true
    → Reads ps s t gs
    → Reads
        (web_address ps)
        ("http" <> secure <> "://" <> host <> "/" <> s)
        ("http" <> secure <> "://" <> host <> "/" <> t)
        gs
unfolding web_address
address-Reads secure host s a b k = Reads-literal "http" _ (
    secure-Reads secure (host <> "/" <> s) a (
      Reads-literal "://" _
        (Reads-plus host ("/" <> s) b (starts_with_slash s) (Reads-literal "/" s k))))

pub project-Reads :
    {ps : List Part} {t : String} {gs : List String} (project s : String)
    → is_project project ≡ true
    → halts in_key s ≡ true
    → Reads ps s t gs
    → Reads (one is_upper ∷ plus in_key ps) (project <> s) (project <> t) gs
unfolding is_project
project-Reads String.[] s h e k = cc
project-Reads {t} (String.◌∷◌ c p) s h e k =
    rw (cons-append c p s, cons-append c p t)
      (Reads-one c (ground arith) (Reads-plus p s (ground arith) e k))

pub number-Reads :
    (number rest : String)
    → run is_digit number ≡ true
    → is_end ends_path in_line rest ≡ true
    → Reads (plus is_digit (stop ∷ url_end)) (number <> rest) number []
number-Reads number rest h e =
    subst (λ t. Reads (plus is_digit (stop ∷ url_end)) (number <> rest) t []) (append-nil number)
      (Reads-plus number rest h (end_halts rest e) (Reads-stop (Reads-end rest e)))

-- The front of both expressions, read back.
pub record Address (ps : List Part) (url : String) (gs : List String) : Type 0 where
  pub secure : String
  pub host : String
  pub left : String
  pub text : String
  pub secure_ok : at_most (λ c. c == b's') secure ≡ true
  pub host_ok : run no_slash host ≡ true
  pub url_is : url ≡ "http" <> secure <> "://" <> host <> "/" <> left
  pub reads_left : Reads ps left text gs

pub Address-inv :
    {ps : List Part} (url : String) {t : String} {gs : List String}
    → Reads (web_address ps) url t gs
    → Address ps url gs
unfolding web_address
Address-inv url k =
    let a = literal_inv "http" url k in
    let b = optional_inv a.left a.reads_left in
    let c = literal_inv "://" b.left b.reads_left in
    let d = plus_inv c.left c.reads_left in
    let e = literal_inv "/" d.left d.reads_left in
    record {
      secure = b.front;
      host = d.front;
      left = e.left;
      text = e.text;
      secure_ok = b.of_kind;
      host_ok = d.of_kind;
      url_is =
          a.s_is
          ∙ ap (λ x. "http" <> x)
              (b.s_is
                ∙ ap (λ x. b.front <> x)
                    (c.s_is ∙ ap (λ x. "://" <> x) (d.s_is ∙ ap (λ x. d.front <> x) e.s_is)));
      reads_left = e.reads_left;
    }

pub project_join :
    (a b : String) → exactly is_upper a ≡ true → run in_key b ≡ true → is_project (a <> b) ≡ true
unfolding exactly is_project
project_join String.[] b h k = cc
project_join (String.◌∷◌ c String.[]) b h k =
    rw (cons-append c "" b, nil-append b) (ground (arith, k))
project_join (String.◌∷◌ c (String.◌∷◌ d a)) b h k = absurd (ground arith)

pub project_inv :
    {ps : List Part} (s : String) {t : String} {gs : List String}
    → Reads (one is_upper ∷ plus in_key ps) s t gs
    → Split is_project ps s t gs
project_inv s k =
    let a = one_inv s k in
    let b = plus_inv a.left a.reads_left in
    record {
      front = a.front <> b.front;
      left = b.left;
      text = b.text;
      s_is = a.s_is ∙ ap (λ x. a.front <> x) b.s_is ∙ sym (append_assoc a.front b.front b.left);
      t_is = a.t_is ∙ ap (λ x. a.front <> x) b.t_is ∙ sym (append_assoc a.front b.front b.text);
      of_kind = project_join a.front b.front a.of_kind b.of_kind;
      reads_left = b.reads_left;
    }

-- The digits before the end of a group, and the end of the text.
pub record Number (s t : String) (gs : List String) : Type 0 where
  pub number : String
  pub rest : String
  pub number_ok : run is_digit number ≡ true
  pub rest_ok : is_end ends_path in_line rest ≡ true
  pub s_is : s ≡ number <> rest
  pub t_is : t ≡ number
  pub no_more : gs ≡ []

pub Number-inv :
    (s : String) {t : String} {gs : List String}
    → Reads (plus is_digit (stop ∷ url_end)) s t gs
    → Number s t gs
Number-inv s {t} {gs} k = from_split (plus_inv s k)
  where
    from_split : Split (run is_digit) (stop ∷ url_end) s t gs → Number s t gs
    from_split a =
        let (u, nothing, last) = stop_inv a.left a.reads_left in
        let (rest_ok, no_more) = end_inv a.left last in
        record {
          number = a.front;
          rest = a.left;
          number_ok = a.of_kind;
          rest_ok = rest_ok;
          s_is = a.s_is;
          t_is = a.t_is ∙ ap (λ x. a.front <> x) nothing ∙ append-nil a.front;
          no_more = no_more;
        }

pub record Key (s t : String) (gs : List String) : Type 0 where
  pub project : String
  pub number : String
  pub rest : String
  pub project_ok : is_project project ≡ true
  pub number_ok : run is_digit number ≡ true
  pub rest_ok : is_end ends_path in_line rest ≡ true
  pub s_is : s ≡ project <> "-" <> number <> rest
  pub t_is : t ≡ project <> "-" <> number
  pub no_more : gs ≡ []

pub Key-inv :
    (s : String) {t : String} {gs : List String}
    → Reads (one is_upper ∷ plus in_key (literal "-" (plus is_digit (stop ∷ url_end)))) s t gs
    → Key s t gs
Key-inv s {t} {gs} k = from_project (project_inv s k)
  where
    from_number :
        (a : Split is_project (literal "-" (plus is_digit (stop ∷ url_end))) s t gs)
        (b : After "-" (plus is_digit (stop ∷ url_end)) a.left a.text gs)
        → Number b.left b.text gs
        → Key s t gs
    from_number a b n = record {
      project = a.front;
      number = n.number;
      rest = n.rest;
      project_ok = a.of_kind;
      number_ok = n.number_ok;
      rest_ok = n.rest_ok;
      s_is = a.s_is ∙ ap (λ x. a.front <> x) (b.s_is ∙ ap (λ x. "-" <> x) n.s_is);
      t_is = a.t_is ∙ ap (λ x. a.front <> x) (b.t_is ∙ ap (λ x. "-" <> x) n.t_is);
      no_more = n.no_more;
    }

    from_dash :
        (a : Split is_project (literal "-" (plus is_digit (stop ∷ url_end))) s t gs)
        → After "-" (plus is_digit (stop ∷ url_end)) a.left a.text gs
        → Key s t gs
    from_dash a b = from_number a b (Number-inv b.left b.reads_left)

    from_project :
        Split is_project (literal "-" (plus is_digit (stop ∷ url_end))) s t gs → Key s t gs
    from_project a = from_dash a (literal_inv "-" a.left a.reads_left)
