-- ===== src/Store/Claim.antt =====
-- Claiming the next task, internal/mastermind/store/claim.go.
pub mod Order
use el_pulpo_ai.Prelude.{
  ℕ, suc, String, Bool, true, false, not, ◌&&◌, ◌||◌, Option, none, some, List, [], ◌∷◌, ◌==◌, leb,
  ltb, ltb_ℤ,
}
use el_pulpo_ai.Store.Row.{Task, Db, Env, Result, claimed, is_pending}
use el_pulpo_ai.Store.Query.{select_rows, order_by, query_update}

-- `scheduled_for IS NULL OR scheduled_for <= now()`.
unfoldable pub due : ℕ → Option ℕ → Bool
due now none = true
due now (some at) = leb at now

unfoldable pub eligible : ℕ → Task → Bool
unfolding due
eligible now t = is_pending t.status && due now t.scheduled_for

-- ORDER BY priority DESC, created_at ASC.
unfoldable pub claim_order : Task → Task → Bool
claim_order a b =
    ltb_ℤ b.priority a.priority
    || (not (ltb_ℤ a.priority b.priority) && ltb a.created_at b.created_at)

abbrev pub first {ℓ} : {A : Type ℓ} → List A → Option A
first [] = none
first (x ∷ xs) = some x

-- The sub-select: FOR UPDATE SKIP LOCKED passes over the rows that other transactions hold locked,
-- LIMIT 1 takes the first.
unfoldable pub claim_choice : ℕ → (Task → Bool) → List Task → Option Task
unfolding eligible claim_order select_rows order_by
claim_choice now locked ts =
    first (order_by claim_order (select_rows (λ t. eligible now t && not (locked t)) ts))

-- WHERE id = (…): a sub-select without a row gives NULL, which no id equals.
abbrev pub is_choice : Option Task → Task → Bool
is_choice none t = false
is_choice (some c) t = t.id == c.id

unfoldable pub claim_set : ℕ → String → Task → Task
claim_set now w t = record t {
  status = claimed;
  claimed_by = some w;
  claimed_at = some now;
  last_heartbeat_at = some now;
  progress_note = none;
  updated_at = now;
  attempt_count = suc t.attempt_count;
}

-- `ok none` is (nil, nil), an empty queue.
unfoldable pub claim_task : Env → (Task → Bool) → String → Db → Db × Result (Option Task)
unfolding claim_choice claim_set query_update
claim_task env locked w db =
    query_update env 0 (is_choice (claim_choice env.now locked db.tasks)) (claim_set env.now w) db
