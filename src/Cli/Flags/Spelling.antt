-- ===== src/Cli/Flags/Spelling.antt =====
-- Command lines as they are spelled, and read back.
use Prim.Native.Char.{code}
use Prim.Native.String
use text.Mathlib.TextLemmas.{cons-append, nil-append}
use el_pulpo_ai.Prelude.{
  String, Bool, true, false, not, ◌&&◌, ◌≡◌, refl, ◌∙◌, none, some, List, [], ◌∷◌, ◌++◌, ◌==◌,
  arith,
}
use el_pulpo_ai.Cli.Flags.{
  FlagKind, switch_flag, text_flag, FlagValue, FlagSet, Settings, FlagLibraries, flag, plain,
  cut_value, named, classify, lookup_flag, Parsed, parsed, scanning, awaiting, ended, set_value,
  recorded, take_flag, step_flag, step_argument, parse_from, parse_flags,
}

unfoldable pub no_equals : String → Bool
no_equals String.[] = true
no_equals (String.◌∷◌ c s) = not (code c == b'=') && no_equals s

-- A text that can name a flag.
unfoldable pub is_name : String → Bool
unfolding no_equals
is_name String.[] = false
is_name (String.◌∷◌ c s) = not (code c == b'-') && no_equals (String.◌∷◌ c s)

-- --name value, -name value, --name=value and -name=value.
pub data Way : Type 0 where
  apart apart_short joined joined_short : Way

abbrev pub dash : String → String
dash s = String.◌∷◌ "-" s

abbrev pub with_value : String → String → String
with_value name v = String.◌++◌ name (String.◌∷◌ "=" v)

unfoldable pub spell : Way → String → String → List String
spell apart name v = dash (dash name) ∷ v ∷ []
spell apart_short name v = dash name ∷ v ∷ []
spell joined name v = dash (dash (with_value name v)) ∷ []
spell joined_short name v = dash (with_value name v) ∷ []

cut_plain : (s : String) → no_equals s ≡ true → cut_value s ≡ (s, none)
unfolding cut_value no_equals
cut_plain String.[] h = refl
cut_plain (String.◌∷◌ c s) h = ground (arith, cut_plain s)

cut_joined : (s v : String) → no_equals s ≡ true → cut_value (with_value s v) ≡ (s, some v)
unfolding cut_value no_equals
cut_joined String.[] v h = rw (nil-append (String.◌∷◌ "=" v))
cut_joined (String.◌∷◌ c s) v h =
    rw (cons-append c s (String.◌∷◌ "=" v)) (ground (arith, cut_joined s v))

named_plain : (s : String) → is_name s ≡ true → named s ≡ flag s none
unfolding named is_name
named_plain String.[] h = cc
named_plain (String.◌∷◌ c s) h = ground (arith, cut_plain s)

named_joined : (s v : String) → is_name s ≡ true → named (with_value s v) ≡ flag s (some v)
unfolding named is_name
named_joined String.[] v h = cc
named_joined (String.◌∷◌ c s) v h =
    rw (cons-append c s (String.◌∷◌ "=" v)) (ground (arith, cut_joined s v))

-- With a name behind them one dash and two say the same.
one_dash : (s : String) → is_name s ≡ true → classify (dash s) ≡ named s
unfolding classify is_name
one_dash String.[] h = cc
one_dash (String.◌∷◌ c s) h = ground arith

two_dashes : (s : String) → is_name s ≡ true → classify (dash (dash s)) ≡ named s
unfolding classify is_name
two_dashes String.[] h = cc
two_dashes (String.◌∷◌ c s) h = refl

one_dash_joined :
    (s v : String) → is_name s ≡ true → classify (dash (with_value s v)) ≡ named (with_value s v)
unfolding classify is_name
one_dash_joined String.[] v h = cc
one_dash_joined (String.◌∷◌ c s) v h = rw (cons-append c s (String.◌∷◌ "=" v)) (ground arith)

two_dashes_joined :
    (s v : String)
    → is_name s ≡ true
    → classify (dash (dash (with_value s v))) ≡ named (with_value s v)
unfolding classify is_name
two_dashes_joined String.[] v h = cc
two_dashes_joined (String.◌∷◌ c s) v h = rw (cons-append c s (String.◌∷◌ "=" v)) (refl)

abbrev pub takes_value : FlagKind → Bool
takes_value switch_flag = false
takes_value _ = true

module _ (lib : FlagLibraries) (fs : FlagSet) where
  -- A flag of the set that takes a value, and what it is set to.
  pub record Given (name v : String) (fv : FlagValue) : Type 0 where
    pub kind : FlagKind
    pub proper : is_name name ≡ true
    pub known : lookup_flag name fs ≡ some kind
    pub valued : takes_value kind ≡ true
    pub reads : set_value lib fs kind v ≡ some fv

  waits :
      (set : Settings) (name : String) (kind : FlagKind)
      → takes_value kind ≡ true
      → take_flag lib fs set name none (some kind) ≡ awaiting set name kind
  unfolding take_flag
  waits set name switch_flag h = cc
  waits set name text_flag h = refl
  waits set name _ h = refl

  module _ (set : Settings) (name v : String) (fv : FlagValue) (g : Given name v fv)
      (rest : List String) where
    alone :
        (a : String)
        → classify a ≡ flag name none
        → parse_from lib fs (scanning set) (a ∷ v ∷ rest)
          ≡ parse_from lib fs (scanning ((name, fv) ∷ set)) rest
    unfolding parse_from step_argument step_flag recorded
    alone a h = rw (h, g.known, waits set name g.kind g.valued, g.reads)

    together :
        (a : String)
        → classify a ≡ flag name (some v)
        → parse_from lib fs (scanning set) (a ∷ rest)
          ≡ parse_from lib fs (scanning ((name, fv) ∷ set)) rest
    unfolding parse_from step_argument step_flag recorded take_flag
    together a h = rw (h, g.known, g.reads)

    spelled_step :
        (w : Way)
        → parse_from lib fs (scanning set) (spell w name v ++ rest)
          ≡ parse_from lib fs (scanning ((name, fv) ∷ set)) rest
    unfolding spell
    spelled_step apart = alone _ (two_dashes name g.proper ∙ named_plain name g.proper)
    spelled_step apart_short = alone _ (one_dash name g.proper ∙ named_plain name g.proper)
    spelled_step joined =
        together _ (two_dashes_joined name v g.proper ∙ named_joined name v g.proper)
    spelled_step joined_short =
        together _ (one_dash_joined name v g.proper ∙ named_joined name v g.proper)

  -- A flag as it is spelled, and its value as it is read.
  pub record Spelled : Type 0 where
    pub way : Way
    pub name : String
    pub written : String
    pub value : FlagValue
    pub given : Given name written value

  unfoldable pub spell_all : List Spelled → List String → List String
  unfolding spell
  spell_all [] rest = rest
  spell_all (x ∷ xs) rest = spell x.way x.name x.written ++ spell_all xs rest

  unfoldable pub settings_of : List Spelled → Settings → Settings
  settings_of [] set = set
  settings_of (x ∷ xs) set = settings_of xs ((x.name, x.value) ∷ set)

  from_spelled :
      (xs : List Spelled) (set : Settings) (rest : List String)
      → parse_from lib fs (scanning set) (spell_all xs rest)
        ≡ parse_from lib fs (scanning (settings_of xs set)) rest
  unfolding spell_all settings_of
  from_spelled [] set rest = refl
  from_spelled (x ∷ xs) set rest =
      spelled_step set x.name x.written x.value x.given (spell_all xs rest) x.way
      ∙ from_spelled xs ((x.name, x.value) ∷ set) rest

  over : (p : Parsed) (rest : List String) → parse_from lib fs (ended p) rest ≡ p
  unfolding parse_from
  over p [] = refl
  over p (a ∷ rest) = over p rest

  stops :
      (set : Settings) (a : String) (rest : List String)
      → classify a ≡ plain
      → parse_from lib fs (scanning set) (a ∷ rest) ≡ parsed set (a ∷ rest)
  unfolding parse_from step_argument step_flag
  stops set a rest h = rw h (over (parsed set (a ∷ rest)) rest)

  -- However flags with values are spelled (behind one dash or two, with their values as arguments of their
  -- own or after a "="), Parse gives them the values that their kinds read, the last of a name first, and
  -- leaves the arguments from the first one on that is no flag.
  pub spelled_read :
      (xs : List Spelled) (a : String) (rest : List String)
      → classify a ≡ plain
      → (parse_flags lib fs (spell_all xs (a ∷ rest)) ≡ parsed (settings_of xs []) (a ∷ rest))
        × (parse_flags lib fs (spell_all xs []) ≡ parsed (settings_of xs []) [])
  unfolding parse_flags
  spelled_read xs a rest h = (
    from_spelled xs [] (a ∷ rest) ∙ stops (settings_of xs []) a rest h,
    from_spelled xs [] [] ∙ unfold parse_from in refl,
  )
