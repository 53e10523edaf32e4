-- ===== src/IssueRefs/Spelling/Literals.antt =====
-- What a repetition, a literal, a group and the end of a text read, from what is read.
use Prim.Native.Char.{code}
use Prim.Native.String
use text.Mathlib.TextLemmas.{nil-append, append-nil, append_assoc}
use el_pulpo_ai.Prelude.{
  ℕ, String, Bool, true, ◌≡◌, refl, sym, ap, ◌∙◌, Option, none, some, List, [], ◌∷◌, if◌then◌else◌,
  arith,
}
use el_pulpo_ai.IssueRefs.{
  Part, many, tail, start, stop, Captures, consumed, or_try, opened, closed, match, plus, literal,
}
use el_pulpo_ai.IssueRefs.Spelling.{all_in, run, is_end, Reads}
-- The text begins with one of a kind, and the other parts match what is left.
use el_pulpo_ai.IssueRefs.Spelling.Inversion.{
  Split, run_join, is_single, prepend_one, one_inv, many_inv,
}

pub plus_inv :
    {p : ℕ → Bool} {ps : List Part} (s : String) {t : String} {gs : List String}
    → Reads (plus p ps) s t gs
    → Split (run p) ps s t gs
plus_inv {p} s k =
    let m = one_inv s k in
    let n = many_inv m.left m.reads_left in
    record {
      front = String.◌++◌ m.front n.front;
      left = n.left;
      text = n.text;
      s_is =
          m.s_is
          ∙ ap (λ x. String.◌++◌ m.front x) n.s_is
          ∙ sym (append_assoc m.front n.front n.left);
      t_is =
          m.t_is
          ∙ ap (λ x. String.◌++◌ m.front x) n.t_is
          ∙ sym (append_assoc m.front n.front n.text);
      of_kind = run_join p m.front n.front m.of_kind n.of_kind;
      reads_left = n.reads_left;
    }

-- The rest of a text after a literal.
pub record After (l : String) (ps : List Part) (s t : String) (gs : List String) : Type 0 where
  pub left : String
  pub text : String
  pub s_is : s ≡ String.◌++◌ l left
  pub t_is : t ≡ String.◌++◌ l text
  pub reads_left : Reads ps left text gs

pub literal_inv :
    {ps : List Part} (l s : String) {t : String} {gs : List String}
    → Reads (literal l ps) s t gs
    → After l ps s t gs
unfolding literal
literal_inv String.[] s {t} k = record {
  left = s;
  text = t;
  s_is = sym (nil-append s);
  t_is = sym (nil-append t);
  reads_left = k;
}
literal_inv (String.◌∷◌ c l) s {t} k =
    let m = one_inv s k in
    let r = literal_inv l m.left m.reads_left in
    let single = is_single c m.front m.of_kind in
    record {
      left = r.left;
      text = r.text;
      s_is = prepend_one c l m.front r.left s m.left single m.s_is r.s_is;
      t_is = prepend_one c l m.front r.text t m.text single m.t_is r.t_is;
      reads_left = r.reads_left;
    }

module _ {ps : List Part} (s : String) {t : String} {gs : List String} where
  pub start_inv :
      Reads (start ∷ ps) s t gs
      → (u : String) × (hs : List String) × (t ≡ "") × (gs ≡ u ∷ hs) × Reads ps s u hs
  unfolding match
  start_inv k = by_rest (match ps s) refl k.matched
    where
      by_rest :
          (o : Option Captures)
          → match ps s ≡ o
          → opened o ≡ some (t, gs)
          → (u : String) × (hs : List String) × (t ≡ "") × (gs ≡ u ∷ hs) × Reads ps s u hs
      by_rest none e h = absurd (cc h)
      by_rest (some (u, hs)) e h = (u, hs, ground arith, ground arith, record { matched = e })

  pub stop_inv : Reads (stop ∷ ps) s t gs → (u : String) × (t ≡ "") × Reads ps s u gs
  unfolding match
  stop_inv k = by_rest (match ps s) refl k.matched
    where
      by_rest :
          (o : Option Captures)
          → match ps s ≡ o
          → closed o ≡ some (t, gs)
          → (u : String) × (t ≡ "") × Reads ps s u gs
      by_rest none e h = absurd (cc h)
      by_rest (some (u, hs)) e h = (u, ground arith, record { matched = ground arith })

nil_inv :
    (s : String) {t : String} {gs : List String} → Reads [] s t gs → (s ≡ "") × (t ≡ "") × (gs ≡ [])
unfolding match
nil_inv String.[] k = (refl, ground (arith, k.matched), ground (arith, k.matched))
nil_inv (String.◌∷◌ c s) k = absurd (cc k.matched)

-- What ends an expression is a query, a fragment or nothing, and there is no group in it.
pub end_inv :
    {p q : ℕ → Bool} (s : String) {t : String} {gs : List String}
    → Reads (tail p q ∷ []) s t gs
    → (is_end p q s ≡ true) × (gs ≡ [])
unfolding match is_end all_in
end_inv String.[] k = (refl, ground (arith, k.matched))
end_inv {p} {q} (String.◌∷◌ c s) {t} {gs} k = by_rest (match (many q ∷ []) s) refl k.matched
  where
    inside :
        (u : String) (hs : List String)
        → match (many q ∷ []) s ≡ some (u, hs)
        → p (code c) ≡ true
        → (is_end p q (String.◌∷◌ c s) ≡ true) × (hs ≡ [])
    inside u hs e h =
        let k = many_inv {p = q} {ps = []} s {t = u} {gs = hs} (record { matched = e }) in
        let (empty, _, no_group) = nil_inv k.left k.reads_left in
        let whole : s ≡ k.front =
          k.s_is ∙ ap (λ x. String.◌++◌ k.front x) empty ∙ append-nil k.front in
        let kind : all_in q s ≡ true = ap (all_in q) whole ∙ k.of_kind in (ground arith, no_group)

    by_rest :
        (o : Option Captures)
        → match (many q ∷ []) s ≡ o
        → (if p (code c) then or_try (consumed c o) none else none) ≡ some (t, gs)
        → (is_end p q (String.◌∷◌ c s) ≡ true) × (gs ≡ [])
    by_rest none e h = absurd (ground arith)
    by_rest (some (u, hs)) e h =
        let is_gs : hs ≡ gs = ground arith in rw (← is_gs) (inside u hs e (ground arith))
