-- ===== src/Store/History/Drain/Measure.antt =====
-- The claims that a row and a table still allow, and what each write leaves of them.
use el_pulpo_ai.Prelude.{
  ℕ, ◌+◌, ◌-◌, ◌<◌, ◌≤◌, pos_part, String, Bool, true, false, ◌&&◌, ◌≡◌, Option, some, List, [],
  ◌∷◌, leb, if◌then◌else◌, All, arith,
}
use el_pulpo_ai.Store.Row.{Task, Result, ok, is_pending}
use el_pulpo_ai.Store.Query.{update_rows, select_rows, count_rows, first_row, set_row}
use el_pulpo_ai.Store.Edit.{update_task_links_set}
use el_pulpo_ai.Store.Claim.{claim_set, eligible}
use el_pulpo_ai.Store.Lifecycle.{heartbeat_set, progress_set, complete_set, retry_or_fail}
use el_pulpo_ai.Store.Park.{
  open_pr_set, set_jira_url_set, request_review_set, finalize_set, target_status,
}

-- A task in the queue that has used up its attempts: it can be claimed all the same.
abbrev pub is_overdrawn : Task → Bool
is_overdrawn t = is_pending t.status && leb (pos_part t.max_attempts) t.attempt_count

-- The claims that a task still allows: the attempts that its maximum leaves, and one if it is overdrawn.
unfoldable pub left : Task → ℕ
left t = if is_overdrawn t then 1 else pos_part t.max_attempts - t.attempt_count

unfoldable pub total_left : List Task → ℕ
unfolding left
total_left [] = 0
total_left (t ∷ ts) = left t + total_left ts

unfoldable pub attempts_left : List Task → ℕ
attempts_left [] = 0
attempts_left (t ∷ ts) = (pos_part t.max_attempts - t.attempt_count) + attempts_left ts

pub total_split : (ts : List Task) → total_left ts ≡ attempts_left ts + count_rows is_overdrawn ts
unfolding total_left left attempts_left count_rows
total_split [] = omega arith
total_split (t ∷ ts) = ground (arith, total_split ts)

abbrev pub granted_by : Result (Option Task) → ℕ
granted_by (ok (some t)) = 1
granted_by _ = 0

module _ (p : Task → Bool) (f : Task → Task) where
  pub update-total :
      (ts : List Task)
      → ((t : Task) → left (f t) ≤ left t)
      → total_left (update_rows p f ts) ≤ total_left ts
  unfolding total_left update_rows
  update-total [] h = omega arith
  update-total (t ∷ ts) h = ground (arith, h t, update-total ts h)

  pub take-total :
      (ts : List Task)
      → All (λ (t : Task). p t ≡ true → left (f t) < left t) ts
      → count_rows p ts + total_left (update_rows p f ts) ≤ total_left ts
  unfolding total_left update_rows count_rows
  take-total [] h = omega arith
  take-total (t ∷ ts) h = ground (arith, h.0, take-total ts h.1)

pub granted-le-count :
    (p : Task → Bool) (f : Task → Task) (ts : List Task)
    → granted_by (ok (set_row f (first_row p ts))) ≤ count_rows p ts
unfolding first_row count_rows
granted-le-count p f [] = omega arith
granted-le-count p f (t ∷ ts) = ground (arith, granted-le-count p f ts)

pub select-total :
    (p : Task → Bool) (ts : List Task) → total_left (select_rows p ts) ≤ total_left ts
unfolding total_left select_rows
select-total p [] = omega arith
select-total p (t ∷ ts) = ground (arith, select-total p ts)

-- No write but a claim changes what a task allows to more.
pub heartbeat_left : (now : ℕ) (t : Task) → left (heartbeat_set now t) ≤ left t
unfolding left heartbeat_set
heartbeat_left now t = ground arith

pub progress_left :
    (now : ℕ) (note : Option String) (t : Task) → left (progress_set now note t) ≤ left t
unfolding left progress_set
progress_left now text t = ground arith

pub complete_left : (now : ℕ) (t : Task) → left (complete_set now t) ≤ left t
unfolding left complete_set
complete_left now t = ground arith

pub retry_left : (now : ℕ) (msg : String) (t : Task) → left (retry_or_fail now msg t) ≤ left t
unfolding left retry_or_fail
retry_left now msg t = ground arith

pub claim_left :
    (now : ℕ) (w : String) (t : Task) → eligible now t ≡ true → left (claim_set now w t) < left t
unfolding left claim_set eligible
claim_left now w t h = ground arith

pub finalize_left :
    (now : ℕ) (success : Bool) (e : Option String) (t : Task)
    → left (finalize_set now (target_status success) e t) ≤ left t
unfolding left finalize_set target_status
finalize_left now true e t = ground arith
finalize_left now false e t = ground arith

pub parked_left : (now : ℕ) (url : String) (t : Task) → left (open_pr_set now url t) ≤ left t
unfolding left open_pr_set
parked_left now url t = ground arith

pub linked_left :
    (now : ℕ) (jira pr : Option String) (t : Task)
    → left (update_task_links_set now jira pr t) ≤ left t
unfolding left update_task_links_set
linked_left now jira pr t = ground arith

pub ticketed_left :
    (now : ℕ) (url : Option String) (t : Task) → left (set_jira_url_set now url t) ≤ left t
unfolding left set_jira_url_set
ticketed_left now url t = ground arith

pub reviewed_left : (now : ℕ) (t : Task) → left (request_review_set now t) ≤ left t
unfolding left request_review_set
reviewed_left now t = ground arith
