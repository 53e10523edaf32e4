-- ===== src/Cli/Command.antt =====
-- A command of elpulpo, internal/cli/tasks.go and workers.go: an error, or a call and what its reply prints.
use Prim.Native.String
use el_pulpo_ai.Prelude.{ℕ, String, Bool, false, Option, none, some, List, [], ◌∷◌}
use el_pulpo_ai.Grpc.Admin.{TaskDetail}
use el_pulpo_ai.Gateway.{Rpc, RpcAnswer, detail}
use el_pulpo_ai.Cli.Flags.{
  switch_flag, FlagSet, Settings, FlagLibraries, Parsed, parsed, refused, switch_of,
}
use el_pulpo_ai.Cli.Format.{Output, JsonLibraries, emit_task}

-- What ends a command with an error before it connects.
pub data Mistake : Type 0 where
  usage bad_flags unknown_command missing_name unreadable bad_json bad_time bad_outcome : Mistake

-- A mistake, or a call and what its reply prints; `none` is a reply of another call, which does not occur.
pub data Command (J : Type 0) : Type 0 where
  mistaken : Mistake → Command J
  calling : Rpc → (RpcAnswer → Option (Output J)) → Command J

-- The files, the standard input and the libraries. time.Parse reads RFC 3339.
pub record Terminal (J O : Type 0) : Type 0 where
  pub flags : FlagLibraries
  pub json : JsonLibraries J O
  pub parse_time : String → Option ℕ
  pub stdin : Option String
  pub read_file : String → Option String

-- The reply to a call that gives a task.
abbrev pub with_detail : {J : Type 0} → (TaskDetail → Output J) → RpcAnswer → Option (Output J)
with_detail f (detail t) = some (f t)
with_detail f _ = none

-- A step that may fail, and the rest of the command.
unfoldable pub and_then {ℓ} :
    {A : Type ℓ} {J : Type 0} → Option A → Mistake → (A → Command J) → Command J
and_then none e next = mistaken e
and_then (some a) e next = next a

unfoldable pub settled : {J : Type 0} → Parsed → (Settings → List String → Command J) → Command J
settled refused next = mistaken bad_flags
settled (parsed set rest) next = next set rest

unfoldable pub one_argument : {J : Type 0} → (String → Command J) → List String → Command J
one_argument next (a ∷ []) = next a
one_argument next _ = mistaken usage

abbrev pub json_flag : FlagSet
json_flag = ("json", switch_flag) ∷ []

abbrev pub joined : String → String → String → String
joined a b c = String.◌++◌ a (String.◌++◌ b c)

module _ {J O : Type 0} (term : Terminal J O) where
  unfoldable pub as_json : Settings → Bool
  unfolding switch_of
  as_json set = switch_of "json" false set

  unfoldable pub emitted : Settings → (TaskDetail → String) → RpcAnswer → Option (Output J)
  unfolding as_json emit_task
  emitted set heading = with_detail (λ t. emit_task term.json (as_json set) (heading t) t)
