-- ===== src/Cli/Tasks/Finalize.antt =====
-- `tasks finalize` with its arguments in either order.
use el_pulpo_ai.Prelude.{
  String, true, false, ◌≡◌, refl, ◌≢◌, ◌∙◌, ap, Option, some, none, List, [], ◌∷◌, after_prefix,
  filled, Bool-cases, inl, inr,
}
use el_pulpo_ai.Grpc.Status.{failed_with, success}
use el_pulpo_ai.Gateway.{Rpc, rpc_finalize_task}
use el_pulpo_ai.Cli.Flags.{parse_flags, text_of, switch_of}
use el_pulpo_ai.Cli.Command.{Command, mistaken, calling, Terminal, settled, and_then}
use el_pulpo_ai.Cli.Tasks.{
  has_dash, extract_id, chosen_outcome, finalize_with, finalize_from, run_tasks_finalize,
}

-- With an id at hand every argument is left to the flags.
keep : (id : String) (args : List String) → id ≢ "" → extract_id id args ≡ (id, args)
unfolding extract_id
keep id [] ne = refl
keep id (a ∷ args) ne = elim (Bool-cases (has_dash a)) [
  | inl h ↦ rw (h, keep id args ne)
  | inr h ↦ rw (h, filled id ne, keep id args ne)
]

id_first :
    (id : String) (args : List String)
    → id ≢ ""
    → has_dash id ≡ false
    → extract_id "" (id ∷ args) ≡ (id, args)
unfolding extract_id
id_first id args ne h = rw (h, keep id args ne)

flag_first :
    (flag id : String) (before after : List String)
    → has_dash flag ≡ true
    → extract_id "" before ≡ (id, after)
    → extract_id "" (flag ∷ before) ≡ (id, flag ∷ after)
unfolding extract_id
flag_first flag id before after h e = rw (h, e)

-- The call that a command makes.
abbrev pub rpc_of : {J : Type 0} → Command J → Option Rpc
rpc_of (mistaken e) = none
rpc_of (calling rpc show) = some rpc

module _ {J O : Type 0} (term : Terminal J O) where
  fail_lem :
      (id reason : String)
      → id ≢ ""
      → reason ≢ ""
      → rpc_of (finalize_from term (id, "--fail" ∷ reason ∷ []))
        ≡ some (rpc_finalize_task id (failed_with reason))
  unfolding finalize_from finalize_with parse_flags settled and_then chosen_outcome text_of
      switch_of
  fail_lem id reason ne full = rw (filled id ne, filled reason full)

  success_lem :
      (id : String)
      → id ≢ ""
      → rpc_of (finalize_from term (id, "--success" ∷ [])) ≡ some (rpc_finalize_task id success)
  unfolding finalize_from finalize_with parse_flags settled and_then chosen_outcome text_of
      switch_of
  success_lem id ne = rw (filled id ne)

  -- For an id and a reason that are not empty and begin with no dash: `finalize ID --fail REASON`
  -- finalizes the task ID as failed for REASON, and `finalize --fail REASON ID` finalizes the task REASON
  -- as failed for ID; `--success` may stand before the id or after it.
  pub finalize_orders :
      (id reason : String)
      → id ≢ ""
      → reason ≢ ""
      → has_dash id ≡ false
      → has_dash reason ≡ false
      → (rpc_of (run_tasks_finalize term (id ∷ "--fail" ∷ reason ∷ []))
          ≡ some (rpc_finalize_task id (failed_with reason)))
        × (rpc_of (run_tasks_finalize term ("--fail" ∷ reason ∷ id ∷ []))
            ≡ some (rpc_finalize_task reason (failed_with id)))
        × (rpc_of (run_tasks_finalize term (id ∷ "--success" ∷ []))
            ≡ some (rpc_finalize_task id success))
        × (rpc_of (run_tasks_finalize term ("--success" ∷ id ∷ []))
            ≡ some (rpc_finalize_task id success))
  unfolding run_tasks_finalize after_prefix
  finalize_orders id reason ne full h k = (
    ap (λ r. rpc_of (finalize_from term r)) (id_first id ("--fail" ∷ reason ∷ []) ne h)
        ∙ fail_lem id reason ne full,
    ap (λ r. rpc_of (finalize_from term r))
          (flag_first "--fail" reason (reason ∷ id ∷ []) (id ∷ []) refl
            (id_first reason (id ∷ []) full k))
        ∙ fail_lem reason id full ne,
    ap (λ r. rpc_of (finalize_from term r)) (id_first id ("--success" ∷ []) ne h)
        ∙ success_lem id ne,
    ap (λ r. rpc_of (finalize_from term r))
          (flag_first "--success" id (id ∷ []) [] refl (id_first id [] ne h))
        ∙ success_lem id ne,
  )
