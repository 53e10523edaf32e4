-- ===== src/Store/Claim/Order.antt =====
-- Which task a claim takes: the order of the queue, and claims that overlap.
use el_pulpo_ai.Prelude.{
  ℕ, String, Bool, true, false, not, ◌&&◌, ◌≡◌, refl, subst, ◌≢◌, ◌⊎◌, inl, inr, Option, none, some,
  List, [], ◌∷◌, All, All-of, All-map, ◌==◌, arith,
}
use el_pulpo_ai.Store.Row.{Task, Db, Env, Result, ok}
use el_pulpo_ai.Store.Query.{
  update_rows, first_row, select_rows, find_task, has_id, query_update, set_row,
}
use el_pulpo_ai.Store.Query.Laws.{
  Unique-same, KeepsId, Unique, Unique-found, find-update, find_id, update_none, first-never,
  row_update,
}
use el_pulpo_ai.Store.Query.Order.{
  select-All, order-All, All-select, All-order, order-Ordered, Ordered,
}
use el_pulpo_ai.Store.Claim.{
  eligible, claim_order, claim_choice, claim_set, claim_task, is_choice, first,
}

pub claim_order_asymmetric : (a b : Task) → claim_order a b ≡ true → claim_order b a ≡ false
unfolding claim_order
claim_order_asymmetric a b h = ground arith

pub claim_order_negative :
    (a b c : Task) → claim_order a b ≡ false → claim_order b c ≡ false → claim_order a c ≡ false
unfolding claim_order
claim_order_negative a b c h k = ground arith

-- The rows that the sub-select reads.
abbrev pub Claimable : ℕ → (Task → Bool) → Task → Type 0
Claimable now locked t = (eligible now t && not (locked t)) ≡ true

-- Nothing claimable comes before the row.
abbrev pub Foremost : ℕ → (Task → Bool) → List Task → Task → Type 0
Foremost now locked ts c = All (λ (u : Task). Claimable now locked u → claim_order u c ≡ false) ts

-- The row that is chosen satisfies the sub-select, and what all rows of the table satisfy.
pub choice-All {κ} :
    (P : Task → Type κ) (now : ℕ) (locked : Task → Bool) (ts : List Task) {c : Task}
    → All P ts
    → claim_choice now locked ts ≡ some c
    → P c × ((eligible now c && not (locked c)) ≡ true)
unfolding claim_choice
choice-All P now locked ts h e =
    head _ (order-All _ claim_order _ (select-All P (λ t. eligible now t && not (locked t)) ts h)) e
  where
    head :
        (xs : List Task) {c : Task}
        → All (λ t. P t × ((eligible now t && not (locked t)) ≡ true)) xs
        → first xs ≡ some c
        → P c × ((eligible now c && not (locked c)) ≡ true)
    head [] k q = absurd (cc q)
    head (x ∷ xs) {c} k q =
        let s : x ≡ c = ground arith in
        subst (λ t. P t × ((eligible now t && not (locked t)) ≡ true)) s k.0

first-least :
    (xs : List Task) {c : Task}
    → Ordered claim_order xs
    → first xs ≡ some c
    → All (λ u. claim_order u c ≡ false) xs
first-least [] o e = tt
first-least (x ∷ xs) {c} o e =
    let same : x ≡ c = ground arith in
    subst (λ d. All (λ u. claim_order u d ≡ false) (x ∷ xs)) same (irreflexive x, o.0)
  where
    irreflexive : (a : Task) → claim_order a a ≡ false
    irreflexive a = unfold claim_order in ground arith

module _ (now : ℕ) (locked : Task → Bool) (ts : List Task) where
  choice-Foremost : {c : Task} → claim_choice now locked ts ≡ some c → Foremost now locked ts c
  unfolding claim_choice
  choice-Foremost {c} e =
      All-select _ (λ t. eligible now t && not (locked t)) ts
        (All-order _ claim_order _ (
          first-least _
            (order-Ordered claim_order claim_order_asymmetric claim_order_negative
              (select_rows (λ t. eligible now t && not (locked t)) ts))
            e))

  choice_none : claim_choice now locked ts ≡ none → All (λ (t : Task). ¬ Claimable now locked t) ts
  unfolding claim_choice
  choice_none e =
      All-select _ (λ t. eligible now t && not (locked t)) ts
        (All-order _ claim_order _ (empty _ e))
    where
      empty : (xs : List Task) → first xs ≡ none → All (λ (t : Task). ⊥) xs
      empty [] q = tt
      empty (x ∷ xs) q = absurd (cc q)

-- The rows with the id of the choice are the choice, and are claimable.
pub choice_eligible :
    (now : ℕ) (locked : Task → Bool) (ts : List Task) (o : Option Task)
    → Unique ts
    → claim_choice now locked ts ≡ o
    → All (λ (t : Task). is_choice o t ≡ true → eligible now t ≡ true) ts
choice_eligible now locked ts none u e = All-of _ ts (λ t h. absurd (cc h))
choice_eligible now locked ts (some c) u e =
    let (only, fit) = choice-All _ now locked ts (Unique-same ts u) e in
    All-map _ _ ts
      (λ (t : Task) (k : t.id ≡ c.id → t ≡ c) (h : (t.id == c.id) ≡ true).
        let s : t ≡ c = k (ground arith) in rw s (ground arith))
      only

-- What a claim has taken: the foremost claimable row, and no other row has changed.
pub record Took (env : Env) (locked : Task → Bool) (w : String) (db db' : Db) (c : Task)
    : Type 0 where
  pub was_there : find_task c.id db.tasks ≡ some c
  pub claimable : Claimable env.now locked c
  foremost : Foremost env.now locked db.tasks c
  pub taken_row : find_task c.id db'.tasks ≡ some (claim_set env.now w c)
  other_rows : (j : ℕ) → j ≢ c.id → find_task j db'.tasks ≡ find_task j db.tasks

-- The outcome of a claim: a task is taken, or nothing is claimable and nothing changes.
abbrev pub Claimed : Env → (Task → Bool) → String → Db → Db × Result (Option Task) → Type 0
Claimed env locked w db r =
    ((c : Task) × Took env locked w db r.0 c × (r.1 ≡ ok (some (claim_set env.now w c))))
    ⊎ (All (λ (t : Task). ¬ Claimable env.now locked t) db.tasks × (r ≡ (db, ok none)))

claim_set-KeepsId : (now : ℕ) (w : String) → KeepsId (claim_set now w)
unfolding claim_set
claim_set-KeepsId now w t = refl

other_row :
    (now : ℕ) (w : String) (i j : ℕ) (ts : List Task) (o : Option Task)
    → j ≢ i
    → find_task j ts ≡ o
    → set_row (row_update (has_id i) (claim_set now w)) o ≡ o
other_row now w i j ts none ne q = refl
other_row now w i j ts (some t) ne q = ground (arith, find_id j ts {t = t} q)

take-Took :
    (env : Env) (locked : Task → Bool) (w : String) (db : Db) (c : Task)
    → Unique db.tasks
    → claim_choice env.now locked db.tasks ≡ some c
    → Took env locked w db
        (record db { tasks = update_rows (has_id c.id) (claim_set env.now w) db.tasks })
        c
take-Took env locked w db c u e =
    let (there, fit) = choice-All _ env.now locked db.tasks (Unique-found db.tasks u) e in
    let f = claim_set env.now w in
    let update = find-update (has_id c.id) f (claim_set-KeepsId env.now w) in
    record {
      was_there = there;
      claimable = fit;
      foremost = choice-Foremost env.now locked db.tasks e;
      taken_row = rw (update c.id db.tasks, there) (ground arith);
      other_rows = λ j ne.
          rw (update j db.tasks)
            (other_row env.now w c.id j db.tasks (find_task j db.tasks) ne refl);
    }

choose-Claimed :
    (env : Env) (locked : Task → Bool) (w : String) (db : Db) (o : Option Task)
    → Unique db.tasks
    → claim_choice env.now locked db.tasks ≡ o
    → Claimed env locked w db (
      record db { tasks = update_rows (is_choice o) (claim_set env.now w) db.tasks },
      ok (set_row (claim_set env.now w) (first_row (is_choice o) db.tasks)),
    )
choose-Claimed env locked w db none u e = inr (
  choice_none env.now locked db.tasks e,
  rw (first-never db.tasks, update_none _ (claim_set env.now w) db.tasks (first-never db.tasks)),
)
choose-Claimed env locked w db (some c) u e =
    let t = take-Took env locked w db c u e in inl (c, t, unfold find_task in rw (t.was_there))

-- On a table with a primary key, a claim that the database answers takes the claimable task of
-- highest priority, the oldest among equals, changes no other task and returns the claimed row; if
-- no task is claimable it changes nothing and reports an empty queue.
pub claim_task-Claimed :
    (env : Env) (locked : Task → Bool) (w : String) (db : Db)
    → env.answers 0 ≡ true
    → Unique db.tasks
    → Claimed env locked w db (claim_task env locked w db)
unfolding claim_task
claim_task-Claimed env locked w db up u =
    rw up (choose-Claimed env locked w db (claim_choice env.now locked db.tasks) u refl)

pub claim_Took :
    (env : Env) (locked : Task → Bool) (w : String) (db : Db) (a : Task)
    → Unique db.tasks
    → (claim_task env locked w db).1 ≡ ok (some a)
    → (c : Task) × (a ≡ claim_set env.now w c)
      × Took env locked w db (claim_task env locked w db).0 c
claim_Took env locked w db a u e =
    elim (claim_task-Claimed env locked w db (unfold claim_task query_update in ground arith) u) [
      | inl (c, t, q) ↦ (c, ground arith, t)
      | inr (_, q) ↦ absurd (ground arith)
    ]

-- Two claims that see the same table with a primary key and both get a task get different ones, if
-- every row with the id of the first one's task is locked for the second.
pub claims_differ :
    (env env' : Env) (locked locked' : Task → Bool) (w w' : String) (db : Db) (a b : Task)
    → Unique db.tasks
    → (claim_task env locked w db).1 ≡ ok (some a)
    → (claim_task env' locked' w' db).1 ≡ ok (some b)
    → ((t : Task) → t.id ≡ a.id → locked' t ≡ true)
    → a.id ≢ b.id
claims_differ env env' locked locked' w w' db a b u first second held same =
    let (c, p, s) = claim_Took env locked w db a u first in
    let (d, q, t) = claim_Took env' locked' w' db b u second in
    let id_a : a.id ≡ c.id = unfold claim_set in ground arith in
    let id_b : b.id ≡ d.id = unfold claim_set in ground arith in
    let l : locked' d ≡ true = held d (ground arith) in ground (arith, t.claimable)
