-- ===== src/Config/Mcp.antt =====
-- The configuration of mastermind-mcp, internal/mcpserver/config.go: the environment, and the flags over it.
use el_pulpo_ai.Prelude.{
  ℤ, String, Bool, true, ◌≡◌, ◌≢◌, refl, ◌∙◌, ap, Option, none, some, List, [], ◌∷◌, ◌++◌, filled,
}
use el_pulpo_ai.Cli.Flags.{
  text_flag, switch_flag, span_flag, text, FlagSet, FlagLibraries, Settings, Parsed, parsed,
  refused, classify, lookup_flag, set_value, parse_flags, text_of, switch_of, span_of,
}
use el_pulpo_ai.Cli.Flags.Spelling.{
  Way, spell, Spelled, spell_all, settings_of, is_name, spelled_read,
}
use el_pulpo_ai.Config.{Loaded, loaded, unreadable, required, required_lem, not_empty}

pub record McpConfig : Type 0 where
  pub mastermind_addr : String
  pub admin_token : String
  pub tls : Bool
  pub dial_timeout : ℤ
  pub log_level : String
  pub log_format : String

abbrev pub mcp_flags : FlagSet
mcp_flags =
    ("addr", text_flag)
    ∷ ("token", text_flag)
    ∷ ("tls", switch_flag)
    ∷ ("dial-timeout", span_flag)
    ∷ ("log-level", text_flag)
    ∷ ("log-format", text_flag)
    ∷ []

-- The flags write into the configuration, so that the environment gives their defaults.
unfoldable pub with_flags : Settings → McpConfig → McpConfig
unfolding text_of switch_of span_of
with_flags set c = record {
  mastermind_addr = text_of "addr" c.mastermind_addr set;
  admin_token = text_of "token" c.admin_token set;
  tls = switch_of "tls" c.tls set;
  dial_timeout = span_of "dial-timeout" c.dial_timeout set;
  log_level = text_of "log-level" c.log_level set;
  log_format = text_of "log-format" c.log_format set;
}

unfoldable pub check_mcp : McpConfig → Loaded McpConfig
check_mcp c =
    required "MASTERMIND_ADDR" c.mastermind_addr (required "ADMIN_TOKEN" c.admin_token (loaded c))

unfoldable pub parsed_over : McpConfig → Parsed → Loaded McpConfig
unfolding check_mcp with_flags
parsed_over c refused = unreadable
parsed_over c (parsed set rest) = check_mcp (with_flags set c)

-- What the environment reads as, and the arguments, of which nil reads none.
unfoldable pub load_mcp : FlagLibraries → Option McpConfig → Option (List String) → Loaded McpConfig
unfolding parsed_over parse_flags
load_mcp lib none args = unreadable
load_mcp lib (some c) none = check_mcp c
load_mcp lib (some c) (some args) = parsed_over c (parse_flags lib mcp_flags args)

check_lem :
    (c : McpConfig) {d : McpConfig}
    → check_mcp c ≡ loaded d
    → (d.mastermind_addr ≢ "") × (d.admin_token ≢ "")
unfolding check_mcp
check_lem c {d} h =
    let (e1, h1) = required_lem "MASTERMIND_ADDR" c.mastermind_addr _ h in
    let (e2, h2) = required_lem "ADMIN_TOKEN" c.admin_token _ h1 in
    let same : c ≡ d = cc h2 in
    (
      λ e. not_empty c.mastermind_addr e1 (ap (λ x. x.mastermind_addr) same ∙ e),
      λ e. not_empty c.admin_token e2 (ap (λ x. x.admin_token) same ∙ e),
    )

over_lem :
    (c : McpConfig) (p : Parsed) {d : McpConfig}
    → parsed_over c p ≡ loaded d
    → (d.mastermind_addr ≢ "") × (d.admin_token ≢ "")
unfolding parsed_over
over_lem c refused h = absurd (cc h)
over_lem c (parsed set rest) h = check_lem (with_flags set c) h

module _ (lib : FlagLibraries) where
  -- A configuration that was loaded has an address and a token that are not the empty text.
  mcp_secrets :
      (o : Option McpConfig) (args : Option (List String)) {d : McpConfig}
      → load_mcp lib o args ≡ loaded d
      → (d.mastermind_addr ≢ "") × (d.admin_token ≢ "")
  unfolding load_mcp
  mcp_secrets none args h = absurd (cc h)
  mcp_secrets (some c) none h = check_lem c h
  mcp_secrets (some c) (some args) h = over_lem c (parse_flags lib mcp_flags args) h

  spelled_text :
      (w : Way) (name v : String)
      → is_name name ≡ true
      → lookup_flag name mcp_flags ≡ some text_flag
      → Spelled lib mcp_flags
  unfolding set_value
  spelled_text w name v proper known = record {
    way = w;
    name = name;
    written = v;
    value = text v;
    given = record {
      kind = text_flag;
      proper = proper;
      known = known;
      valued = refl;
      reads = refl;
    };
  }

  -- However --addr and --token are spelled, with values that are not empty they replace what the environment
  -- says, also where it says nothing, and keep the rest of it.
  pub flags_override :
      (c : McpConfig) (v w : Way) (addr token : String)
      → addr ≢ ""
      → token ≢ ""
      → load_mcp lib (some c) (some (spell v "addr" addr ++ (spell w "token" token ++ [])))
        ≡ loaded (record c { mastermind_addr = addr; admin_token = token })
  unfolding load_mcp parsed_over check_mcp with_flags spell_all settings_of is_name lookup_flag
      spelled_text
  flags_override c v w addr token a t =
      let xs = spelled_text v "addr" addr refl refl ∷ spelled_text w "token" token refl refl ∷ [] in
      ap (parsed_over c) (spelled_read lib mcp_flags xs "x" [] (unfold classify in refl)).1
      ∙ rw (filled addr a, filled token t)
