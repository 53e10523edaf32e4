-- ===== src/Examples/Demo.antt =====
-- The theorems on the demo's programs at concrete runs.
use el_pulpo_ai.Prelude.{ℕ, pos, String, str_eq, none, some, List, [], ◌∷◌, if◌then◌else◌}
use el_pulpo_ai.Gateway.{Libraries}
use el_pulpo_ai.Examples.Tools.{libraries, trip}
use el_pulpo_ai.Demo.Seeder.{JsonValue, SeedDraw, SeederConfig, SeederTick}

abbrev printed : String
printed = "{kind, seed, size, source}"

abbrev encode : List (String × JsonValue) → String
encode fields = printed

abbrev reading : Libraries
reading = record libraries {
  payloads = record libraries.payloads {
    instructions = λ s. if str_eq s printed then some none else some (some s);
  };
}

abbrev seeder : SeederConfig
seeder = record { admin_token = "a"; burst = pos 1; target = pos 3 }

abbrev draws : ℕ → SeedDraw
draws k = record { name = k; skew = 40; level = 2; size = 7; seed = 1; trip = trip }

abbrev ticks : List SeederTick
ticks = record { listing = trip; draws = draws } ∷ []
