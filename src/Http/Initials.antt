-- ===== src/Http/Initials.antt =====
-- The letters of an agent's avatar, initials of internal/mastermind/httpserver/dashboard.go.
use Prim.Native.Char.{Char, code}
use el_pulpo_ai.Prelude.{
  String, str_eq, Bool, false, ◌||◌, ◌≡◌, Option, none, some, List, [], ◌∷◌, ◌==◌, if◌then◌else◌,
  trim_space, Bool-cases, inl, inr,
}

-- The package unicode: IsLetter or IsDigit, and ToUpper.
pub record Unicode : Type 0 where
  pub letter_or_digit : Char → Bool
  pub to_upper : Char → Char

abbrev separates : Char → Bool
separates c = code c == b'-' || code c == b'_' || code c == b' '

abbrev add_word : String → List String → List String
add_word String.[] ws = ws
add_word (String.◌∷◌ c w) ws = String.◌∷◌ c w ∷ ws

-- The text before the first separator, and the words after it.
unfoldable pub cut_word : String → String × List String
cut_word String.[] = (String.[], [])
cut_word (String.◌∷◌ c s) =
    let (w, ws) = cut_word s in
    if separates c then (String.[], add_word w ws) else (String.◌∷◌ c w, ws)

-- `strings.FieldsFunc`.
unfoldable pub fields : String → List String
unfolding cut_word
fields s = let (w, ws) = cut_word s in add_word w ws

-- `[]rune(id)[:2]`, or what there is of it.
unfoldable pub first_two : String → String
first_two String.[] = String.[]
first_two (String.◌∷◌ c String.[]) = String.◌∷◌ c String.[]
first_two (String.◌∷◌ c (String.◌∷◌ d s)) = String.◌∷◌ c (String.◌∷◌ d String.[])

module _ (u : Unicode) where
  -- The first letter or digit, in upper case.
  unfoldable pub pick : String → Option Char
  pick String.[] = none
  pick (String.◌∷◌ c s) = if u.letter_or_digit c then some (u.to_upper c) else pick s

  abbrev keep_pick : Option Char → List Char → List Char
  keep_pick none cs = cs
  keep_pick (some c) cs = c ∷ cs

  unfoldable pub picks : List String → List Char
  unfolding pick
  picks [] = []
  picks (w ∷ ws) = keep_pick (pick w) (picks ws)

  -- `strings.ToUpper`.
  unfoldable pub upper_text : String → String
  upper_text String.[] = String.[]
  upper_text (String.◌∷◌ c s) = String.◌∷◌ (u.to_upper c) (upper_text s)

  -- Two letters of the words, or the first two characters if only one word has any.
  unfoldable pub avatar : String → List Char → String
  unfolding upper_text first_two
  avatar id [] = "??"
  avatar id (c ∷ []) = upper_text (first_two id)
  avatar id (c ∷ d ∷ cs) = String.◌∷◌ c (String.◌∷◌ d String.[])

  unfoldable pub initials : String → String
  unfolding avatar picks fields
  initials id =
      let trimmed = trim_space id in
      if str_eq trimmed "" then "??" else avatar trimmed (picks (fields trimmed))

-- A text of one or two characters.
pub data OneOrTwo : String → Type 0 where
  one : (c : Char) → OneOrTwo (String.◌∷◌ c String.[])
  two : (c d : Char) → OneOrTwo (String.◌∷◌ c (String.◌∷◌ d String.[]))

module _ (u : Unicode) where
  upper_two : (id : String) → str_eq id "" ≡ false → OneOrTwo (upper_text u (first_two id))
  unfolding upper_text first_two
  upper_two String.[] h = absurd (cc h)
  upper_two (String.◌∷◌ c String.[]) h = one _
  upper_two (String.◌∷◌ c (String.◌∷◌ d s)) h = two _ _

  avatar-OneOrTwo :
      (id : String) (cs : List Char) → str_eq id "" ≡ false → OneOrTwo (avatar u id cs)
  unfolding avatar
  avatar-OneOrTwo id [] h = two _ _
  avatar-OneOrTwo id (c ∷ []) h = upper_two id h
  avatar-OneOrTwo id (c ∷ d ∷ cs) h = two _ _

  -- Whatever an agent is called, its avatar shows one character or two.
  initials-OneOrTwo : (id : String) → OneOrTwo (initials u id)
  unfolding initials
  initials-OneOrTwo id = elim (Bool-cases (str_eq (trim_space id) "")) [
    | inl h ↦ rw h (two _ _)
    | inr h ↦ rw h (avatar-OneOrTwo (trim_space id) (picks u (fields (trim_space id))) h)
  ]
