-- ===== src/Http/Effects.antt =====
-- What a request does to the mastermind.
use el_pulpo_ai.Prelude.{
  ℕ, String, str_eq, Bool, true, false, ◌≡◌, refl, ap, sym, ◌∙◌, Option, none, some, ◌&&◌, leb, ltb,
  if◌then◌else◌, if_both,
}
use mathlib.Core.Bool.{true≢false}
use el_pulpo_ai.Store.Row.{Task, Db, Env, Result, ok, err, StoreError}
use el_pulpo_ai.Store.Tasks.{PayloadCodec, create_task}
use el_pulpo_ai.Store.Edit.{update_task, update_task_links, delete_task, requeue_task}
use el_pulpo_ai.Store.Park.{request_review, finalize_task}
use el_pulpo_ai.Store.History.{
  Call, creates, updates, links, deletes, requeues, reviews, finalizes, apply,
}
use el_pulpo_ai.Store.History.Careful.{
  Careful, create-Careful, update-Careful, links-Careful, delete-Careful, requeue-Careful,
  review-Careful, finalize-Careful,
}
use el_pulpo_ai.Store.Dashboard.{after}
use el_pulpo_ai.Grpc.Status.{Mastermind}
use el_pulpo_ai.Gateway.Modest.{AtMostOne, untouched, called}
use el_pulpo_ai.Http.{
  Verb, get, post, other_verb, PostedForm, Request, Response, plain, redirect, page, aborted,
  WebLibraries,
}
use el_pulpo_ai.Http.Form.{ParsedForm, accepted, rejected, panicked, parse_task_form}
use el_pulpo_ai.Http.Pages.{task_url, tasks_fragment_handler, rendered}
use el_pulpo_ai.Http.Tasks.{
  then_reply, create_failed, create_parsed, tasks_create, tasks_collection, update_failed,
  edit_input, update_parsed, tasks_update, links_checked, links_form, tasks_update_links,
  tasks_delete, tasks_request_review, finalize_as, finalize_form, tasks_finalize, requeue_reply,
  tasks_requeue, posted, member_by, tasks_member,
}

-- A status from 400 to 499.
abbrev pub is_refusal : Response → Bool
is_refusal (plain code) = leb 400 code && ltb code 500
is_refusal (page code v) = leb 400 code && ltb code 500
is_refusal _ = false

-- At most one call of the store, and none behind a refusal.
pub record Lawful (c : PayloadCodec) (env : Env) (s : Mastermind) (r : Mastermind × Response)
    : Type 0 where
  pub effect : AtMostOne c env s.db r.0.db
  refusals_keep : is_refusal r.1 ≡ true → r.0 ≡ s

module _ {c : PayloadCodec} {env : Env} {s : Mastermind} where
  pub unchanged : (a : Response) → Lawful c env s (s, a)
  unchanged a = record { effect = untouched refl; refusals_keep = λ h. refl }

  pub either :
      (b : Bool) {x y : Mastermind × Response}
      → Lawful c env s x
      → Lawful c env s y
      → Lawful c env s (if b then x else y)
  either b = if_both (Lawful c env s) b

  by_call :
      {A : Type 0} (done : A → Response) (failed : StoreError → Response) (x : Db × Result A)
      (call : Call)
      → ((a : A) → is_refusal (done a) ≡ false)
      → Careful s.db x
      → x.0 ≡ apply c env call s.db
      → Lawful c env s (then_reply s done failed x)
  by_call done failed (db, ok a) call d k e = record {
    effect = called call e;
    refusals_keep = λ h. absurd (true≢false (sym h ∙ d a));
  }
  by_call done failed (db, err x) call d k e = record {
    effect = called call e;
    refusals_keep = λ h. ap (λ y. record s { db = y }) (k.kept refl);
  }

module _ {O : Type 0} (lib : WebLibraries O) (env : Env) (s : Mastermind) where
  create_lem : (p : ParsedForm) → Lawful lib.payloads env s (create_parsed lib env s p)
  unfolding create_parsed apply
  create_lem panicked = unchanged aborted
  create_lem (rejected f) = unchanged _
  create_lem (accepted f input) =
      by_call _ (create_failed lib env f) (create_task lib.payloads env input s.db) (creates input)
        (λ a. refl) (create-Careful lib.payloads env s.db input) refl

  update_lem : (i : ℕ) (p : ParsedForm) → Lawful lib.payloads env s (update_parsed lib env i s p)
  unfolding update_parsed apply
  update_lem i panicked = unchanged aborted
  update_lem i (rejected f) = unchanged _
  update_lem i (accepted f input) =
      by_call _ (update_failed lib env f)
        (update_task lib.payloads env i (edit_input lib env input) s.db)
        (updates i (edit_input lib env input)) (λ a. refl)
        (update-Careful lib.payloads env s.db i (edit_input lib env input)) refl

  checked_lem :
      (i : ℕ) (jira pr : Option (Option String))
      → Lawful lib.payloads env s (links_checked lib env i s jira pr)
  unfolding links_checked apply
  checked_lem i none pr = unchanged _
  checked_lem i (some jira) none = unchanged _
  checked_lem i (some jira) (some pr) =
      by_call _ _ (update_task_links env i jira pr s.db) (links i jira pr) (λ a. refl)
        (links-Careful lib.payloads env s.db i jira pr) refl

  links_lem : (i : ℕ) (f : Option PostedForm) → Lawful lib.payloads env s (links_form lib env i s f)
  unfolding links_form
  links_lem i none = unchanged _
  links_lem i (some f) = checked_lem i _ _

  delete_lem : (i : ℕ) → Lawful lib.payloads env s (tasks_delete lib env i s)
  unfolding tasks_delete apply
  delete_lem i =
      by_call _ _ (delete_task env i s.db) (deletes i) (λ a. refl)
        (delete-Careful lib.payloads env s.db i) refl

  review_lem : (i : ℕ) → Lawful lib.payloads env s (tasks_request_review lib env i s)
  unfolding tasks_request_review apply
  review_lem i =
      by_call _ _ (request_review env i s.db) (reviews i) (λ a. refl)
        (review-Careful lib.payloads env s.db i) refl

  finalize_lem :
      (i : ℕ) (success : Bool) (msg : String)
      → Lawful lib.payloads env s (finalize_as lib env i success msg s)
  unfolding finalize_as apply
  finalize_lem i success msg =
      by_call _ _ (finalize_task env i success msg s.db) (finalizes i success msg) (λ a. refl)
        (finalize-Careful lib.payloads env s.db i success msg) refl

  outcome_lem :
      (i : ℕ) (f : Option PostedForm) → Lawful lib.payloads env s (finalize_form lib env i s f)
  unfolding finalize_form
  outcome_lem i none = unchanged _
  outcome_lem i (some f) =
      either (str_eq (f.body_value "outcome") "success")
        (finalize_lem i true (f.body_value "message"))
        (either (str_eq (f.body_value "outcome") "failure")
          (finalize_lem i false (f.body_value "message")) (unchanged (plain 400)))

  shown :
      (r : Request) (i : ℕ) (t : Mastermind)
      → is_refusal (
          if r.is_htmx
          then tasks_fragment_handler lib env (after 1 env) r t
          else redirect 303 (task_url lib env i))
        ≡ false
  unfolding tasks_fragment_handler rendered
  shown r i t =
      if_both (λ x. is_refusal x ≡ false) r.is_htmx
        (if_both (λ x. is_refusal x ≡ false) (lib.renders _) refl refl) refl

  requeue_lem :
      (r : Request) (i : ℕ) (x : Db × Result Task)
      → Careful s.db x
      → x.0 ≡ apply lib.payloads env (requeues i) s.db
      → Lawful lib.payloads env s (requeue_reply lib env r i s x)
  unfolding requeue_reply
  requeue_lem r i (db, err e) k h = record {
    effect = called (requeues i) h;
    refusals_keep = λ x. ap (λ y. record s { db = y }) (k.kept refl);
  }
  requeue_lem r i (db, ok t) k h = record {
    effect = called (requeues i) h;
    refusals_keep = λ x. absurd (true≢false (sym x ∙ shown r i (record s { db = db })));
  }

  posted_lem :
      (r : Request) (i : ℕ) (verb : String) → Lawful lib.payloads env s (posted lib env r i verb s)
  unfolding posted tasks_update tasks_update_links tasks_requeue tasks_finalize apply
  posted_lem r i verb = either (str_eq verb "") (update_lem i (parse_task_form lib r.form)) (
      either (str_eq verb "delete") (delete_lem i) (
        either (str_eq verb "requeue")
          (requeue_lem r i (requeue_task env i s.db) (requeue-Careful lib.payloads env s.db i) refl)
          (either (str_eq verb "links") (links_lem i r.form) (
            either (str_eq verb "request-review") (review_lem i)
              (either (str_eq verb "finalize") (outcome_lem i r.form) (unchanged (plain 404)))))))

  member_lem :
      (r : Request) (v : Verb) (o : Option ℕ) (verb : String)
      → Lawful lib.payloads env s (member_by lib env r v o verb s)
  unfolding member_by
  member_lem r v none verb = unchanged (plain 404)
  member_lem r get (some i) verb = unchanged _
  member_lem r post (some i) verb = posted_lem r i verb
  member_lem r other_verb (some i) verb = unchanged (plain 404)

  pub collection-Lawful :
      (r : Request) (v : Verb) → Lawful lib.payloads env s (tasks_collection lib env r v s)
  unfolding tasks_collection tasks_create
  collection-Lawful r get = unchanged _
  collection-Lawful r post = create_lem (parse_task_form lib r.form)
  collection-Lawful r other_verb = unchanged (plain 405)

  pub member-Lawful : (r : Request) → Lawful lib.payloads env s (tasks_member lib env r s)
  unfolding tasks_member
  member-Lawful r = member_lem r r.verb _ _
