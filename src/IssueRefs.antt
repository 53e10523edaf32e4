-- ===== src/IssueRefs.antt =====
-- The links of a task, internal/mastermind/issuerefs/issuerefs.go: the two regular expressions, the
-- checks by them, and the short forms that the pages show. `regexp` matches by backtracking in the order
-- of the expression, a repetition as long as possible first.
pub mod Spelling
pub mod Address
pub mod Links
pub mod PullLinks
use Prim.Native.Char.{Char, code}
use Prim.Native.String
use el_pulpo_ai.Prelude.{
  ℕ, String, str_eq, Bool, true, false, not, ◌&&◌, ◌||◌, Option, none, some, List, [], ◌∷◌, ◌++◌,
  ◌==◌, leb, if◌then◌else◌, is_some,
}

-- A regular expression as the sequence of its parts: a code point of a class, a repetition * of such,
-- an optional one, an optional code point of one class with a repetition * of another after it, and
-- the two ends of a group.
pub data Part : Type 0 where
  one many optional : (ℕ → Bool) → Part
  tail : (ℕ → Bool) → (ℕ → Bool) → Part
  start stop : Part

-- What is captured: the text up to the next end of a group, and the later groups.
abbrev pub Captures : Type 0
Captures = String × List String

abbrev consumed : Char → Option Captures → Option Captures
consumed c none = none
consumed c (some (text, groups)) = some (String.◌∷◌ c text, groups)

abbrev or_try : Option Captures → Option Captures → Option Captures
or_try none b = b
or_try (some a) b = some a

abbrev opened : Option Captures → Option Captures
opened none = none
opened (some (text, groups)) = some ("", text ∷ groups)

abbrev closed : Option Captures → Option Captures
closed none = none
closed (some (text, groups)) = some ("", groups)

-- `FindStringSubmatch` of an expression between `^` and `$`.
unfoldable pub match : List Part → String → Option Captures
match [] String.[] = some ("", [])
match [] (String.◌∷◌ c s) = none
match (one p ∷ ps) String.[] = none
match (one p ∷ ps) (String.◌∷◌ c s) =
    let rest = consumed c (match ps s) in if p (code c) then rest else none
match (many p ∷ ps) String.[] = match ps String.[]
match (many p ∷ ps) (String.◌∷◌ c s) =
    let more = or_try (consumed c (match (many p ∷ ps) s)) (match ps (String.◌∷◌ c s)) in
    let less = match ps (String.◌∷◌ c s) in if p (code c) then more else less
match (optional p ∷ ps) String.[] = match ps String.[]
match (optional p ∷ ps) (String.◌∷◌ c s) =
    let more = or_try (consumed c (match ps s)) (match ps (String.◌∷◌ c s)) in
    let less = match ps (String.◌∷◌ c s) in if p (code c) then more else less
match (tail p q ∷ ps) String.[] = match ps String.[]
match (tail p q ∷ ps) (String.◌∷◌ c s) =
    let more = or_try (consumed c (match (many q ∷ ps) s)) (match ps (String.◌∷◌ c s)) in
    let less = match ps (String.◌∷◌ c s) in if p (code c) then more else less
match (start ∷ ps) s = opened (match ps s)
match (stop ∷ ps) s = closed (match ps s)

abbrev pub plus : (ℕ → Bool) → List Part → List Part
plus p ps = one p ∷ many p ∷ ps

unfoldable pub literal : String → List Part → List Part
literal String.[] ps = ps
literal (String.◌∷◌ c s) ps = one (λ d. d == code c) ∷ literal s ps

-- [A-Z], \d, [A-Z0-9_], [^/], [?#] and the dot, which is no line feed.
abbrev pub is_upper : ℕ → Bool
is_upper c = leb b'A' c && leb c b'Z'

abbrev pub is_digit : ℕ → Bool
is_digit c = leb b'0' c && leb c b'9'

abbrev pub in_key : ℕ → Bool
in_key c = is_upper c || is_digit c || c == b'_'

abbrev pub no_slash : ℕ → Bool
no_slash c = not (c == b'/')

abbrev pub ends_path : ℕ → Bool
ends_path c = c == b'?' || c == b'#'

abbrev pub in_line : ℕ → Bool
in_line c = not (c == 10)

abbrev pub url_end : List Part
url_end = tail ends_path in_line ∷ []

-- `^https?://[^/]+/`, and the rest.
unfoldable pub web_address : List Part → List Part
unfolding literal
web_address ps =
    literal "http" (optional (λ c. c == b's') ∷ literal "://" (plus no_slash (literal "/" ps)))

-- jiraRE and prRE.
unfoldable pub jira_re : List Part
unfolding web_address literal
jira_re = web_address (
    literal "browse/"
      (start ∷ one is_upper ∷ plus in_key (literal "-" (plus is_digit (stop ∷ url_end)))))

unfoldable pub pr_re : List Part
unfolding web_address literal
pr_re = web_address (
    start
    ∷ plus no_slash (
        stop
        ∷ literal "/" (
            start
            ∷ plus no_slash (stop ∷ literal "/pull/" (start ∷ plus is_digit (stop ∷ url_end))))))

-- `true` is the nil error.
unfoldable pub validate_jira : String → Bool
unfolding match jira_re
validate_jira s = is_some (match jira_re s)

unfoldable pub validate_pr : String → Bool
unfolding match pr_re
validate_pr s = is_some (match pr_re s)

-- The first captured text, or the whole.
abbrev pub first_group : String → Option Captures → String
first_group url (some (text, key ∷ groups)) = key
first_group url _ = url

abbrev pub three_groups : String → Option Captures → String
three_groups url (some (text, org ∷ repo ∷ number ∷ groups)) =
    String.◌++◌ org (String.◌++◌ "/" (String.◌++◌ repo (String.◌++◌ "#" number)))
three_groups url _ = url

unfoldable pub jira_short : String → String
unfolding match jira_re
jira_short url = if str_eq url "" then "" else first_group url (match jira_re url)

unfoldable pub pr_short : String → String
unfolding match pr_re
pr_short url = if str_eq url "" then "" else three_groups url (match pr_re url)
