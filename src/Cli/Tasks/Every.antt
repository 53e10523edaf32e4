-- ===== src/Cli/Tasks/Every.antt =====
-- What holds of each command that a command line can be read as: of a mistake, and of the calls.
use el_pulpo_ai.Prelude.{
  ℕ, String, str_eq, Bool, Option, none, some, List, [], ◌∷◌, if_both, if◌then◌else◌,
}
use el_pulpo_ai.Grpc.Admin.{CreateTaskRequest, TaskDetail}
use el_pulpo_ai.Gateway.{rpc_create_task}
use el_pulpo_ai.Cli.Flags.{text_of, Settings, Parsed, parsed, refused}
use el_pulpo_ai.Cli.Command.{
  Mistake, unreadable, bad_json, bad_time, Command, mistaken, calling, Terminal, settled,
  one_argument, and_then, emitted,
}
use el_pulpo_ai.Cli.Tasks.{
  read_payload, left_on_stdin, merge_instructions, valid_json, payload_with, instructions_with,
  time_with, create_command,
}

module _ {J : Type 0} (Q : Command J → Type 0) (wrong : (e : Mistake) → Q (mistaken e)) where
  pub settled_lem :
      (p : Parsed) (next : Settings → List String → Command J)
      → ((set : Settings) (rest : List String) → Q (next set rest))
      → Q (settled p next)
  unfolding settled
  settled_lem refused next h = wrong _
  settled_lem (parsed set rest) next h = h set rest

  pub one_lem :
      (next : String → Command J)
      → ((a : String) → Q (next a))
      → (rest : List String) → Q (one_argument next rest)
  unfolding one_argument
  one_lem next h [] = wrong _
  one_lem next h (a ∷ []) = h a
  one_lem next h (a ∷ b ∷ rest) = wrong _

  pub then_lem :
      {A : Type 0} (o : Option A) (e : Mistake) (next : A → Command J)
      → ((a : A) → Q (next a))
      → Q (and_then o e next)
  unfolding and_then
  then_lem none e next h = wrong _
  then_lem (some a) e next h = h a

  pub either : (b : Bool) {c d : Command J} → Q c → Q d → Q (if b then c else d)
  either b = if_both Q b

module _ {J O : Type 0} (Q : Command J → Type 0) (wrong : (e : Mistake) → Q (mistaken e))
    (term : Terminal J O) where
  payload_lem :
      (v : String) (next : String → Command J)
      → ((a : String) → Q (next a))
      → Q (payload_with term v next)
  unfolding payload_with
  payload_lem v next h = either Q wrong (str_eq v "") (h "") (
      then_lem Q wrong (read_payload term term.stdin v) unreadable
        (λ raw. and_then (valid_json term raw) bad_json next)
        (λ raw. then_lem Q wrong (valid_json term raw) bad_json next h))

  instructions_lem :
      (flag v payload : String) (next : String → Command J)
      → ((a : String) → Q (next a))
      → Q (instructions_with term flag v payload next)
  unfolding instructions_with
  instructions_lem flag v payload next h = either Q wrong (str_eq v "") (h payload) (
      then_lem Q wrong (read_payload term (left_on_stdin term flag) v) unreadable
        (λ raw. and_then (merge_instructions term payload raw) bad_json next)
        (λ raw. then_lem Q wrong (merge_instructions term payload raw) bad_json next h))

  time_lem :
      (v : String) (next : Option ℕ → Command J)
      → ((t : Option ℕ) → Q (next t))
      → Q (time_with term v next)
  unfolding time_with
  time_lem v next h =
      either Q wrong (str_eq v "") (h none)
        (then_lem Q wrong (term.parse_time v) bad_time (λ t. next (some t)) (λ t. h (some t)))

  pub create_lem :
      (set : Settings)
      → ((r : CreateTaskRequest) (heading : TaskDetail → String)
          → Q (calling (rpc_create_task r) (emitted term set heading)))
      → Q (create_command term set)
  unfolding create_command
  create_lem set h = either Q wrong (str_eq (text_of "name" "" set) "") (wrong _) (
      payload_lem _ _
        (λ given. instructions_lem _ _ given _ (λ payload. time_lem _ _ (λ t. h _ _))))
