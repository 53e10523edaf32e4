-- ===== src/Cli/Commands/Effects.antt =====
-- What a command line can do to the mastermind.
use el_pulpo_ai.Prelude.{
  String, str_eq, Bool, not, true, false, ◌≡◌, refl, ap, Option, List, [], ◌∷◌,
}
use el_pulpo_ai.Gateway.{Rpc, RpcAnswer}
use el_pulpo_ai.Gateway.Access.{is_worker_call}
use el_pulpo_ai.Cli.Flags.{Settings, Parsed}
use el_pulpo_ai.Cli.Format.{Output}
use el_pulpo_ai.Cli.Command.{Mistake, Command, mistaken, calling, Terminal, settled, one_argument}
use el_pulpo_ai.Cli.Tasks.{
  extract_id, run_tasks_create, run_tasks_get, run_tasks_list, run_tasks_cancel, run_tasks_retry,
  run_tasks_request_review, finalize_with, finalize_from, run_tasks_finalize, run_tasks,
}
use el_pulpo_ai.Cli.Tasks.Every.{settled_lem, one_lem, then_lem, either, create_lem}
use el_pulpo_ai.Cli.Commands.{run_workers_list, run_workers, command}

-- A call of the AdminService, or none.
abbrev pub admin_only : {J : Type 0} → Command J → Bool
admin_only (mistaken e) = true
admin_only (calling rpc show) = not (is_worker_call rpc)

pub record AsksAdmin {J : Type 0} (c : Command J) : Type 0 where
  pub only : admin_only c ≡ true

module _ {J : Type 0} where
  no_call : (e : Mistake) → AsksAdmin {J = J} (mistaken e)
  no_call e = record { only = refl }

  asks :
      {rpc : Rpc} {show : RpcAnswer → Option (Output J)}
      → is_worker_call rpc ≡ false
      → AsksAdmin (calling rpc show)
  asks h = record { only = ap not h }

module _ {J O : Type 0} (term : Terminal J O) where
  finalize_lem : (r : String × List String) → AsksAdmin (finalize_from term r)
  unfolding finalize_from finalize_with
  finalize_lem (id, args) = either AsksAdmin no_call (str_eq id "") (no_call _) (
      settled_lem AsksAdmin no_call _ _
        (λ set rest. then_lem AsksAdmin no_call _ _ _ (λ o. asks refl)))

  single :
      (p : Parsed) (next : Settings → String → Command J)
      → ((set : Settings) (a : String) → AsksAdmin (next set a))
      → AsksAdmin (settled p (λ set. one_argument (next set)))
  single p next h =
      settled_lem AsksAdmin no_call p _ (λ set. one_lem AsksAdmin no_call (next set) (h set))

  tasks_lem : (args : List String) → AsksAdmin (run_tasks term args)
  unfolding run_tasks run_tasks_create run_tasks_get run_tasks_list run_tasks_cancel run_tasks_retry
      run_tasks_request_review run_tasks_finalize
  tasks_lem [] = no_call _
  tasks_lem (sub ∷ rest) =
      either AsksAdmin no_call (str_eq sub "create")
        (settled_lem AsksAdmin no_call _ _
          (λ set others. create_lem AsksAdmin no_call term set (λ r heading. asks refl)))
        (either AsksAdmin no_call (str_eq sub "get") (single _ _ (λ set id. asks refl)) (
          either AsksAdmin no_call (str_eq sub "list")
            (settled_lem AsksAdmin no_call _ _ (λ set others. asks refl))
            (either AsksAdmin no_call (str_eq sub "cancel") (single _ _ (λ set id. asks refl)) (
              either AsksAdmin no_call (str_eq sub "retry") (single _ _ (λ set id. asks refl)) (
                either AsksAdmin no_call (str_eq sub "request-review")
                  (single _ _ (λ set id. asks refl))
                  (either AsksAdmin no_call (str_eq sub "finalize")
                    (finalize_lem (extract_id "" rest)) (no_call _)))))))

  workers_lem : (args : List String) → AsksAdmin (run_workers term args)
  unfolding run_workers run_workers_list
  workers_lem [] = no_call _
  workers_lem (sub ∷ rest) =
      either AsksAdmin no_call (str_eq sub "list")
        (settled_lem AsksAdmin no_call _ _ (λ set others. asks refl)) (no_call _)

  pub command_lem : (args : List String) → AsksAdmin (command term args)
  unfolding command
  command_lem [] = no_call _
  command_lem (group ∷ rest) =
      either AsksAdmin no_call (str_eq group "tasks") (tasks_lem rest)
        (either AsksAdmin no_call (str_eq group "workers") (workers_lem rest) (no_call _))
