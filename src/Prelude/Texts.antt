-- ===== src/Prelude/Texts.antt =====
-- What the programs use of Go's packages strings and strconv: TrimPrefix, TrimSuffix, Cut, TrimSpace and
-- Atoi.
use Prim.Native.Char.{Char, code}
use Prim.Native.String.{String, [], ◌∷◌, ◌++◌}
use Prim.Native.Nat.{ℕ, zero, suc, ◌+◌, ◌*◌, ◌-◌}
use mathlib.Core.Path.{◌≡◌, ap}
use mathlib.Core.Bool.{Bool, false, ◌&&◌, ◌||◌}
use mathlib.Core.Logic.{◌≢◌, inl, inr}
use mathlib.Core.Option.{Option, none, some}
use native.Mathlib.Omega.{arith}
use text.Mathlib.Text.{◌==◌ as str_eq}
use text.Mathlib.TextEquality.{Char-path, eq_iff}
use text.Mathlib.TextLemmas.{cons-append, nil-append}
use el_pulpo_ai.Prelude.Int.{ℤ, pos, negsuc}
use el_pulpo_ai.Prelude.Tests.{◌==◌, leb, if◌then◌else◌, Bool-cases}

-- unicode.IsSpace.
abbrev pub is_space : ℕ → Bool
is_space c =
    (leb 9 c && leb c 13)
    || c == 32
    || c == 0x85
    || c == 0xa0
    || c == 0x1680
    || (leb 0x2000 c && leb c 0x200a)
    || c == 0x2028
    || c == 0x2029
    || c == 0x202f
    || c == 0x205f
    || c == 0x3000

-- What is left of a text after a prefix that it has.
unfoldable pub after_prefix : String → String → Option String
after_prefix [] s = some s
after_prefix (c ∷ p) [] = none
after_prefix (c ∷ p) (d ∷ s) = if code c == code d then after_prefix p s else none

abbrev pub or_else {ℓ} : {A : Type ℓ} → Option A → A → A
or_else none a = a
or_else (some b) a = b

-- `strings.TrimPrefix(s, prefix)`.
unfoldable pub trim_prefix : String → String → String
unfolding after_prefix
trim_prefix s prefix = or_else (after_prefix prefix s) s

-- `strings.TrimSuffix(s, "/")`.
unfoldable pub trim_slash : String → String
trim_slash [] = []
trim_slash (c ∷ []) = if code c == b'/' then [] else c ∷ []
trim_slash (c ∷ d ∷ s) = c ∷ trim_slash (d ∷ s)

-- `strings.Cut(s, "/")`: the texts before and after the first slash.
unfoldable pub cut_slash : String → String × String
cut_slash [] = ([], [])
cut_slash (c ∷ s) =
    let (before, after) = cut_slash s in if code c == b'/' then ([], s) else (c ∷ before, after)

trim_left : String → String
trim_left [] = []
trim_left (c ∷ s) = if is_space (code c) then trim_left s else c ∷ s

trim_right : String → String
trim_right [] = []
trim_right (c ∷ s) = keep c (trim_right s)
  where
    keep : Char → String → String
    keep c [] = if is_space (code c) then [] else c ∷ []
    keep c (d ∷ r) = c ∷ d ∷ r

-- `strings.TrimSpace`.
unfoldable pub trim_space : String → String
unfolding trim_left trim_right
trim_space s = trim_right (trim_left s)

pub after_prefix-append : (p s : String) → after_prefix p (p ++ s) ≡ some s
unfolding after_prefix
after_prefix-append [] s = ap some (nil-append s)
after_prefix-append (c ∷ p) s = rw (cons-append c p s) (ground (arith, after_prefix-append p s))

pub after_prefix-some : (p s r : String) → after_prefix p s ≡ some r → s ≡ p ++ r
unfolding after_prefix
after_prefix-some [] s r h = rw (nil-append r) (cc)
after_prefix-some (c ∷ p) [] r h = cc
after_prefix-some (c ∷ p) (d ∷ s) r h = elim (Bool-cases (code c == code d)) [
  | inl e ↦
      let same : c ≡ d = Char-path c d (ground arith) in
      let rest : s ≡ p ++ r = after_prefix-some p s r (ground arith) in
      rw (cons-append c p r, same, rest)
  | inr e ↦ cc
]

-- `strconv.Atoi` with a 64-bit int.
digits : ℕ → String → Option ℕ
digits n [] = some n
digits n (c ∷ s) =
    if leb b'0' (code c) && leb (code c) b'9' then digits (10 * n + (code c - b'0')) s else none

digits_from : String → Option ℕ
unfolding digits
digits_from [] = none
digits_from (c ∷ s) = digits 0 (c ∷ s)

non_negative : Option ℕ → Option ℤ
non_negative none = none
non_negative (some n) = if leb n 9223372036854775807 then some (pos n) else none

negated : Option ℕ → Option ℤ
negated none = none
negated (some zero) = some (pos 0)
negated (some (suc n)) = if leb n 9223372036854775807 then some (negsuc n) else none

unfoldable pub atoi : String → Option ℤ
unfolding digits_from non_negative negated
atoi [] = none
atoi (c ∷ s) =
    if code c == b'-'
    then negated (digits_from s)
    else (if code c == b'+'
        then non_negative (digits_from s)
        else non_negative (digits_from (c ∷ s)))

pub filled : (s : String) → s ≢ "" → str_eq s "" ≡ false
filled s ne = elim (Bool-cases (str_eq s "")) [
  | inr h ↦ h
  | inl h ↦ absurd (ne ((eq_iff s "").0 h))
]
