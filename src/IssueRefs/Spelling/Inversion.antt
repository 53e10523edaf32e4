-- ===== src/IssueRefs/Spelling/Inversion.antt =====
-- What a match says of the text.
use Prim.Native.Char.{Char, code}
use Prim.Native.String
use text.Mathlib.TextEquality.{Char-path}
use text.Mathlib.TextLemmas.{cons-append, nil-append}
use el_pulpo_ai.Prelude.{
  ℕ, String, Bool, true, false, ◌&&◌, ◌≡◌, refl, sym, ap, ◌∙◌, inl, inr, Option, none, some, List,
  ◌∷◌, ◌==◌, if◌then◌else◌, Bool-cases, arith,
}
use el_pulpo_ai.IssueRefs.{Part, one, many, optional, Captures, consumed, or_try, match}
use el_pulpo_ai.IssueRefs.Spelling.{all_in, run, Reads}

-- The text begins with one of a kind, and the other parts match what is left.
pub record Split (kind : String → Bool) (ps : List Part) (s t : String) (gs : List String)
    : Type 0 where
  pub front : String
  pub left : String
  pub text : String
  pub s_is : s ≡ String.◌++◌ front left
  pub t_is : t ≡ String.◌++◌ front text
  pub of_kind : kind front ≡ true
  pub reads_left : Reads ps left text gs

module _ {ps : List Part} {gs : List String} where
  here :
      {kind : String → Bool} (s t : String)
      → kind "" ≡ true
      → Reads ps s t gs
      → Split kind ps s t gs
  here s t q k = record {
    front = "";
    left = s;
    text = t;
    s_is = sym (nil-append s);
    t_is = sym (nil-append t);
    of_kind = q;
    reads_left = k;
  }

  further :
      {kind kind' : String → Bool} (c : Char) (s t : String)
      → ((a : String) → kind a ≡ true → kind' (String.◌∷◌ c a) ≡ true)
      → Split kind ps s t gs
      → Split kind' ps (String.◌∷◌ c s) (String.◌∷◌ c t) gs
  further c s t f k = record {
    front = String.◌∷◌ c k.front;
    left = k.left;
    text = k.text;
    s_is = ap (λ x. String.◌∷◌ c x) k.s_is ∙ sym (cons-append c k.front k.left);
    t_is = ap (λ x. String.◌∷◌ c x) k.t_is ∙ sym (cons-append c k.front k.text);
    of_kind = f k.front k.of_kind;
    reads_left = k.reads_left;
  }

abbrev pub at_end : String → Bool
at_end String.[] = true
at_end (String.◌∷◌ c s) = false

unfoldable pub exactly : (ℕ → Bool) → String → Bool
exactly p String.[] = false
exactly p (String.◌∷◌ c s) = p (code c) && at_end s

unfoldable pub at_most : (ℕ → Bool) → String → Bool
at_most p String.[] = true
at_most p (String.◌∷◌ c s) = p (code c) && at_end s

pub run_join :
    (p : ℕ → Bool) (a b : String)
    → exactly p a ≡ true
    → all_in p b ≡ true
    → run p (String.◌++◌ a b) ≡ true
unfolding exactly run
run_join p String.[] b h k = cc
run_join p (String.◌∷◌ c String.[]) b h k =
    rw (cons-append c "" b, nil-append b) (ground (arith, k))
run_join p (String.◌∷◌ c (String.◌∷◌ d a)) b h k = absurd (ground arith)

-- The only text of a single code point.
pub is_single : (c : Char) (a : String) → exactly (λ d. d == code c) a ≡ true → a ≡ String.◌∷◌ c ""
unfolding exactly
is_single c String.[] h = cc
is_single c (String.◌∷◌ d String.[]) h = ap (λ x. String.◌∷◌ x "") (Char-path d c (ground arith))
is_single c (String.◌∷◌ d (String.◌∷◌ e a)) h = absurd (ground arith)

pub prepend_one :
    (c : Char) (l a r s left : String)
    → a ≡ String.◌∷◌ c ""
    → s ≡ String.◌++◌ a left
    → left ≡ String.◌++◌ l r
    → s ≡ String.◌++◌ (String.◌∷◌ c l) r
prepend_one c l a r s left one_is s_is left_is =
    s_is
    ∙ ap (λ x. String.◌++◌ x left) one_is
    ∙ cons-append c "" left
    ∙ ap (λ x. String.◌∷◌ c x) (nil-append left ∙ left_is)
    ∙ sym (cons-append c l r)

module _ {p : ℕ → Bool} {ps : List Part} where
  pub one_inv :
      (s : String) {t : String} {gs : List String}
      → Reads (one p ∷ ps) s t gs
      → Split (exactly p) ps s t gs
  unfolding match exactly
  one_inv String.[] k = absurd (cc k.matched)
  one_inv (String.◌∷◌ c s) {t} {gs} k = by_rest (match ps s) refl k.matched
    where
      found :
          (u : String) (hs : List String)
          → p (code c) ≡ true
          → match ps s ≡ some (u, hs)
          → Split (exactly p) ps (String.◌∷◌ c s) (String.◌∷◌ c u) hs
      found u hs h e =
          further {kind = at_end} c s u (λ a x. ground arith)
            (here s u refl (record { matched = e }))

      by_rest :
          (o : Option Captures)
          → match ps s ≡ o
          → (if p (code c) then consumed c o else none) ≡ some (t, gs)
          → Split (exactly p) ps (String.◌∷◌ c s) t gs
      by_rest none e h = absurd (ground arith)
      by_rest (some (u, hs)) e h =
          let is_t : String.◌∷◌ c u ≡ t = ground arith in
          let is_gs : hs ≡ gs = ground arith in rw (← is_t, ← is_gs) (found u hs (ground arith) e)

  pub many_inv :
      (s : String) {t : String} {gs : List String}
      → Reads (many p ∷ ps) s t gs
      → Split (all_in p) ps s t gs
  unfolding match all_in
  many_inv String.[] {t} k = here "" t refl (record { matched = k.matched })
  many_inv (String.◌∷◌ c s) {t} {gs} k =
      by_rest (match (many p ∷ ps) s) refl
        (λ u hs e. many_inv s {t = u} {gs = hs} (record { matched = e })) k.matched
    where
      by_rest :
          (o : Option Captures)
          → match (many p ∷ ps) s ≡ o
          → ((u : String) (hs : List String) → o ≡ some (u, hs) → Split (all_in p) ps s u hs)
          → (if p (code c)
              then or_try (consumed c o) (match ps (String.◌∷◌ c s))
              else match ps (String.◌∷◌ c s))
            ≡ some (t, gs)
          → Split (all_in p) ps (String.◌∷◌ c s) t gs
      by_rest none e ih h = here (String.◌∷◌ c s) t refl (record { matched = ground arith })
      by_rest (some (u, hs)) e ih h = elim (Bool-cases (p (code c))) [
        | inl inside ↦
            let is_t : String.◌∷◌ c u ≡ t = ground arith in
            let is_gs : hs ≡ gs = ground arith in
            rw (← is_t, ← is_gs) (further c s u (λ a x. ground arith) (ih u hs refl))
        | inr outside ↦ here (String.◌∷◌ c s) t refl (record { matched = ground arith })
      ]

  pub optional_inv :
      (s : String) {t : String} {gs : List String}
      → Reads (optional p ∷ ps) s t gs
      → Split (at_most p) ps s t gs
  unfolding match at_most
  optional_inv String.[] {t} k = here "" t refl (record { matched = k.matched })
  optional_inv (String.◌∷◌ c s) {t} {gs} k = by_rest (match ps s) refl k.matched
    where
      by_rest :
          (o : Option Captures)
          → match ps s ≡ o
          → (if p (code c)
              then or_try (consumed c o) (match ps (String.◌∷◌ c s))
              else match ps (String.◌∷◌ c s))
            ≡ some (t, gs)
          → Split (at_most p) ps (String.◌∷◌ c s) t gs
      by_rest none e h = here (String.◌∷◌ c s) t refl (record { matched = ground arith })
      by_rest (some (u, hs)) e h = elim (Bool-cases (p (code c))) [
        | inl inside ↦
            let is_t : String.◌∷◌ c u ≡ t = ground arith in
            let is_gs : hs ≡ gs = ground arith in
            rw (← is_t, ← is_gs)
              (further {kind = at_end} c s u (λ a x. ground arith)
                (here s u refl (record { matched = e })))
        | inr outside ↦ here (String.◌∷◌ c s) t refl (record { matched = ground arith })
      ]
