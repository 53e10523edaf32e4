-- ===== src/Cli/Flags.antt =====
-- Go's package flag, as internal/cli and internal/mcpserver/config.go use it: a FlagSet of the names and
-- kinds of its flags, and Parse, which reads the arguments up to the first that is no flag.
pub mod Spelling
use Prim.Native.String
use Prim.Native.Char.{code}
use el_pulpo_ai.Prelude.{
  ℕ, ℤ, String, str_eq, Bool, true, false, ◌||◌, Option, none, some, List, [], ◌∷◌, ◌==◌,
  if◌then◌else◌,
}

-- String, Int, Bool and Duration.
pub data FlagKind : Type 0 where
  text_flag number_flag switch_flag span_flag : FlagKind

pub data FlagValue : Type 0 where
  text : String → FlagValue
  number : ℤ → FlagValue
  switch : Bool → FlagValue
  span : ℤ → FlagValue

abbrev pub FlagSet : Type 0
FlagSet = List (String × FlagKind)

-- What was set, the latest first.
abbrev pub Settings : Type 0
Settings = List (String × FlagValue)

-- strconv.ParseInt with base 0 and time.ParseDuration.
pub record FlagLibraries : Type 0 where
  pub parse_int : String → Option ℤ
  pub parse_span : String → Option ℤ

-- strconv.ParseBool.
unfoldable pub parse_bool : String → Option Bool
parse_bool s =
    if str_eq s "1"
      || str_eq s "t"
      || str_eq s "T"
      || str_eq s "TRUE"
      || str_eq s "true"
      || str_eq s "True"
    then some true
    else (if str_eq s "0"
          || str_eq s "f"
          || str_eq s "F"
          || str_eq s "FALSE"
          || str_eq s "false"
          || str_eq s "False"
        then some false
        else none)

-- An argument: none of the flags' business, the terminator "--", a syntax error, or a flag with the value
-- after its "=".
pub data Argument : Type 0 where
  plain terminator malformed : Argument
  flag : String → Option String → Argument

-- The name before the first "=", and the value after it.
unfoldable pub cut_value : String → String × Option String
cut_value String.[] = (String.[], none)
cut_value (String.◌∷◌ c s) =
    let (name, value) = cut_value s in
    if code c == b'=' then (String.[], some s) else (String.◌∷◌ c name, value)

-- What follows the dashes.
unfoldable pub named : String → Argument
unfolding cut_value
named String.[] = malformed
named (String.◌∷◌ c s) =
    if code c == b'-' || code c == b'='
    then malformed
    else (let (name, value) = cut_value s in flag (String.◌∷◌ c name) value)

-- What follows two dashes.
unfoldable pub after_dashes : String → Argument
unfolding named
after_dashes String.[] = terminator
after_dashes (String.◌∷◌ c s) = named (String.◌∷◌ c s)

unfoldable pub classify : String → Argument
unfolding after_dashes named
classify String.[] = plain
classify (String.◌∷◌ c String.[]) = plain
classify (String.◌∷◌ c (String.◌∷◌ d s)) =
    if code c == b'-'
    then (if code d == b'-' then after_dashes s else named (String.◌∷◌ d s))
    else plain

unfoldable pub lookup_flag : String → FlagSet → Option FlagKind
lookup_flag name [] = none
lookup_flag name ((n, kind) ∷ fs) = if str_eq n name then some kind else lookup_flag name fs

-- The settings and the arguments that are left; ErrHelp and the other errors end a command alike.
pub data Parsed : Type 0 where
  parsed : Settings → List String → Parsed
  refused : Parsed

-- A flag may wait for the argument after it.
pub data Progress : Type 0 where
  scanning : Settings → Progress
  awaiting : Settings → String → FlagKind → Progress
  ended : Parsed → Progress

abbrev valued : {A : Type 0} → (A → FlagValue) → Option A → Option FlagValue
valued f none = none
valued f (some a) = some (f a)

module _ (lib : FlagLibraries) (fs : FlagSet) where
  -- Value.Set.
  unfoldable pub set_value : FlagKind → String → Option FlagValue
  unfolding parse_bool
  set_value text_flag s = some (text s)
  set_value number_flag s = valued number (lib.parse_int s)
  set_value switch_flag s = valued switch (parse_bool s)
  set_value span_flag s = valued span (lib.parse_span s)

  unfoldable pub recorded : Settings → String → Option FlagValue → Progress
  recorded set name none = ended refused
  recorded set name (some v) = scanning ((name, v) ∷ set)

  unfoldable pub take_flag : Settings → String → Option String → Option FlagKind → Progress
  unfolding recorded set_value
  take_flag set name value none = ended refused
  take_flag set name none (some switch_flag) = scanning ((name, switch true) ∷ set)
  take_flag set name none (some kind) = awaiting set name kind
  take_flag set name (some v) (some kind) = recorded set name (set_value kind v)

  -- One argument, and those behind it.
  unfoldable pub step_flag : Settings → String → List String → Argument → Progress
  unfolding take_flag lookup_flag
  step_flag set a rest plain = ended (parsed set (a ∷ rest))
  step_flag set a rest terminator = ended (parsed set rest)
  step_flag set a rest malformed = ended refused
  step_flag set a rest (flag name value) = take_flag set name value (lookup_flag name fs)

  unfoldable pub step_argument : Progress → String → List String → Progress
  unfolding step_flag recorded set_value classify
  step_argument (scanning set) a rest = step_flag set a rest (classify a)
  step_argument (awaiting set name kind) a rest = recorded set name (set_value kind a)
  step_argument (ended p) a rest = ended p

  -- A flag whose argument is missing is an error.
  unfoldable pub finished : Progress → Parsed
  finished (scanning set) = parsed set []
  finished (awaiting set name kind) = refused
  finished (ended p) = p

  unfoldable pub parse_from : Progress → List String → Parsed
  unfolding finished step_argument
  parse_from p [] = finished p
  parse_from p (a ∷ rest) = parse_from (step_argument p a rest) rest

  -- `fs.Parse(args)`.
  unfoldable pub parse_flags : List String → Parsed
  unfolding parse_from
  parse_flags args = parse_from (scanning []) args

unfoldable pub text_of : String → String → Settings → String
text_of name default [] = default
text_of name default ((n, text v) ∷ set) = if str_eq n name then v else text_of name default set
text_of name default (s ∷ set) = text_of name default set

unfoldable pub number_of : String → ℤ → Settings → ℤ
number_of name default [] = default
number_of name default ((n, number v) ∷ set) =
    if str_eq n name then v else number_of name default set
number_of name default (s ∷ set) = number_of name default set

unfoldable pub switch_of : String → Bool → Settings → Bool
switch_of name default [] = default
switch_of name default ((n, switch v) ∷ set) =
    if str_eq n name then v else switch_of name default set
switch_of name default (s ∷ set) = switch_of name default set

unfoldable pub span_of : String → ℤ → Settings → ℤ
span_of name default [] = default
span_of name default ((n, span v) ∷ set) = if str_eq n name then v else span_of name default set
span_of name default (s ∷ set) = span_of name default set
