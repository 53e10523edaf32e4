-- ===== src/IssueRefs/Spelling.antt =====
-- Which texts the parts of an expression match, in both directions.
pub mod Inversion
pub mod Literals
use Prim.Native.Char.{Char, code}
use Prim.Native.String
use text.Mathlib.TextLemmas.{cons-append, nil-append}
use el_pulpo_ai.Prelude.{
  ℕ, String, Bool, true, false, not, ◌&&◌, ◌≡◌, refl, sym, ap, ◌∙◌, ◌⊎◌, inl, inr, Option, none,
  some, List, [], ◌∷◌, ◌==◌, if◌then◌else◌, Bool-cases, arith,
}
use el_pulpo_ai.IssueRefs.{
  Part, one, many, optional, tail, start, stop, Captures, consumed, or_try, opened, closed, match,
  plus, literal,
}

-- Every code point is of the class; and there is one at least.
unfoldable pub all_in : (ℕ → Bool) → String → Bool
all_in p String.[] = true
all_in p (String.◌∷◌ c s) = p (code c) && all_in p s

unfoldable pub run : (ℕ → Bool) → String → Bool
unfolding all_in
run p String.[] = false
run p (String.◌∷◌ c s) = p (code c) && all_in p s

-- Nothing, or a code point that is not of the class, comes first.
unfoldable pub halts : (ℕ → Bool) → String → Bool
halts p String.[] = true
halts p (String.◌∷◌ c s) = not (p (code c))

-- The expression matches a text with these captures.
pub record Reads (ps : List Part) (s t : String) (gs : List String) : Type 0 where
  pub matched : match ps s ≡ some (t, gs)

module _ {p : ℕ → Bool} {ps : List Part} {t : String} {gs : List String} where
  pub Reads-one :
      (c : Char) {s : String}
      → p (code c) ≡ true
      → Reads ps s t gs
      → Reads (one p ∷ ps) (String.◌∷◌ c s) (String.◌∷◌ c t) gs
  unfolding match
  Reads-one c h k = record { matched = rw (h, k.matched) }

  many_stop : (s : String) → halts p s ≡ true → Reads ps s t gs → Reads (many p ∷ ps) s t gs
  unfolding match halts
  many_stop String.[] e k = record { matched = k.matched }
  many_stop (String.◌∷◌ c s) e k = record { matched = ground (arith, k.matched) }

  many_go :
      (c : Char) {s : String}
      → p (code c) ≡ true
      → Reads (many p ∷ ps) s t gs
      → Reads (many p ∷ ps) (String.◌∷◌ c s) (String.◌∷◌ c t) gs
  unfolding match
  many_go c h k = record { matched = rw (h, k.matched) }

  pub Reads-absent :
      (s : String) → halts p s ≡ true → Reads ps s t gs → Reads (optional p ∷ ps) s t gs
  unfolding match halts
  Reads-absent String.[] e k = record { matched = k.matched }
  Reads-absent (String.◌∷◌ c s) e k = record { matched = ground (arith, k.matched) }

  pub Reads-present :
      (c : Char) {s : String}
      → p (code c) ≡ true
      → Reads ps s t gs
      → Reads (optional p ∷ ps) (String.◌∷◌ c s) (String.◌∷◌ c t) gs
  unfolding match
  Reads-present c h k = record { matched = rw (h, k.matched) }

module _ {ps : List Part} {t : String} {gs : List String} where
  pub Reads-start : {s : String} → Reads ps s t gs → Reads (start ∷ ps) s "" (t ∷ gs)
  unfolding match
  Reads-start k = record { matched = rw k.matched }

  pub Reads-stop : {s : String} → Reads ps s t gs → Reads (stop ∷ ps) s "" gs
  unfolding match
  Reads-stop k = record { matched = rw k.matched }

pub Reads-many :
    {p : ℕ → Bool} {ps : List Part} {t : String} {gs : List String} (a s : String)
    → all_in p a ≡ true
    → halts p s ≡ true
    → Reads ps s t gs
    → Reads (many p ∷ ps) (String.◌++◌ a s) (String.◌++◌ a t) gs
unfolding all_in
Reads-many {t} String.[] s h e k = rw (nil-append s, nil-append t) (many_stop s e k)
Reads-many {t} (String.◌∷◌ c a) s h e k =
    rw (cons-append c a s, cons-append c a t)
      (many_go c (ground arith) (Reads-many a s (ground arith) e k))

pub Reads-plus :
    {p : ℕ → Bool} {ps : List Part} {t : String} {gs : List String} (a s : String)
    → run p a ≡ true
    → halts p s ≡ true
    → Reads ps s t gs
    → Reads (plus p ps) (String.◌++◌ a s) (String.◌++◌ a t) gs
unfolding run
Reads-plus String.[] s h e k = cc
Reads-plus {t} (String.◌∷◌ c a) s h e k =
    rw (cons-append c a s, cons-append c a t)
      (Reads-one c (ground arith) (Reads-many a s (ground arith) e k))

pub Reads-literal :
    {ps : List Part} {t : String} {gs : List String} (l s : String)
    → Reads ps s t gs
    → Reads (literal l ps) (String.◌++◌ l s) (String.◌++◌ l t) gs
unfolding literal
Reads-literal {t} String.[] s k = rw (nil-append s, nil-append t) k
Reads-literal {t} (String.◌∷◌ c l) s k =
    rw (cons-append c l s, cons-append c l t) (Reads-one c (ground arith) (Reads-literal l s k))

-- The end of the expressions: nothing, or a query or fragment on one line.
unfoldable pub is_end : (p q : ℕ → Bool) → String → Bool
unfolding all_in
is_end p q String.[] = true
is_end p q (String.◌∷◌ c s) = p (code c) && all_in q s

Reads-nothing : Reads [] "" "" []
unfolding match
Reads-nothing = record { matched = refl }

all_of : {q : ℕ → Bool} (s : String) → all_in q s ≡ true → Reads (many q ∷ []) s s []
unfolding all_in
all_of String.[] h = many_stop "" (unfold halts in refl) Reads-nothing
all_of (String.◌∷◌ c s) h = many_go c (ground arith) (all_of s (ground arith))

pub Reads-end : {p q : ℕ → Bool} (s : String) → is_end p q s ≡ true → Reads (tail p q ∷ []) s s []
unfolding is_end match
Reads-end String.[] h = record { matched = refl }
Reads-end {p} {q} (String.◌∷◌ c s) h =
    let rest = all_of {q = q} s (ground arith) in
    let first : p (code c) ≡ true = ground arith in record { matched = rw (first, rest.matched) }
