-- ===== src/Store/Query/Laws.antt =====
-- What the statements do to a row: laws of UPDATE and SELECT by id.
use el_pulpo_ai.Prelude.{
  ℕ, Bool, true, false, ◌≡◌, refl, ◌≢◌, inl, inr, Option, none, some, List, [], ◌∷◌, ◌==◌,
  if◌then◌else◌, All, All-map, All-both, All-append, ◌++◌, sym, arith, Bool-cases, subst,
}
use el_pulpo_ai.Store.Row.{Task}
use el_pulpo_ai.Store.Query.{
  update_rows, select_rows, first_row, count_rows, find_task, by_id, set_row,
}

-- The primary key: no two rows share an id.
abbrev pub Unique : List Task → Type 0
Unique [] = Unit {0}
Unique (t ∷ ts) = All (λ (u : Task). t.id ≢ u.id) ts × Unique ts

abbrev pub KeepsId : (Task → Task) → Type 0
KeepsId f = (t : Task) → (f t).id ≡ t.id

module _ (p : Task → Bool) (f : Task → Task) where
  -- What one row becomes under UPDATE.
  abbrev pub row_update : Task → Task
  row_update t = if p t then f t else t

  pub find-update :
      KeepsId f
      → (i : ℕ) (ts : List Task)
      → find_task i (update_rows p f ts) ≡ set_row row_update (find_task i ts)
  unfolding find_task update_rows
  find-update k i [] = refl
  find-update k i (t ∷ ts) = ground (arith, k t, find-update k i ts)

  pub update-Unique : KeepsId f → (ts : List Task) → Unique ts → Unique (update_rows p f ts)
  unfolding update_rows
  update-Unique k [] u = tt
  update-Unique k (t ∷ ts) u = (differ ts u.0, update-Unique k ts u.1)
    where
      differ :
          (us : List Task)
          → All (λ (u : Task). t.id ≢ u.id) us
          → All (λ (u : Task). (row_update t).id ≢ u.id) (update_rows p f us)
      differ [] h = tt
      differ (u ∷ us) h = (ground (arith, k t, k u, h.0), differ us h.1)

  pub update-All {κ} :
      (P : Task → Type κ) (ts : List Task)
      → All (λ t. P t × (p t ≡ true → P (f t))) ts
      → All P (update_rows p f ts)
  unfolding update_rows
  update-All P [] h = tt
  update-All P (t ∷ ts) h = elim (Bool-cases (p t)) [
    | inl e ↦ rw e (h.0.1 e, update-All P ts h.1)
    | inr e ↦ rw e (h.0.0, update-All P ts h.1)
  ]

  -- A WHERE clause that selects nothing leaves the table as it is.
  pub update_none : (ts : List Task) → first_row p ts ≡ none → update_rows p f ts ≡ ts
  unfolding update_rows first_row
  update_none [] h = refl
  update_none (t ∷ ts) h = ground (arith, update_none ts)

pub count_zero : (p : Task → Bool) (ts : List Task) → count_rows p ts ≡ 0 → first_row p ts ≡ none
unfolding count_rows first_row
count_zero p [] h = refl
count_zero p (t ∷ ts) h = ground (arith, count_zero p ts)

pub count_some :
    (p : Task → Bool) (ts : List Task) {t : Task}
    → first_row p ts ≡ some t
    → (count_rows p ts == 0) ≡ false
unfolding count_rows first_row
count_some p [] h = cc
count_some p (t ∷ ts) {t = r} h = ground (arith, count_some p ts {t = r})

pub find_id : (i : ℕ) (ts : List Task) {t : Task} → find_task i ts ≡ some t → t.id ≡ i
unfolding find_task
find_id i [] h = cc
find_id i (x ∷ xs) {t} h = ground (arith, find_id i xs {t = t})

-- A row that a predicate holds of, found by id.
pub find-All {κ} :
    (P : Task → Type κ) (i : ℕ) (ts : List Task) {t : Task}
    → All P ts
    → find_task i ts ≡ some t
    → P t
unfolding find_task
find-All P i [] {t} h e = absurd (cc e)
find-All P i (x ∷ xs) {t} h e = elim (Bool-cases (x.id == i)) [
  | inl q ↦ let same : x ≡ t = ground arith in subst P same h.0
  | inr q ↦ find-All P i xs h.1 (ground arith)
]

-- A guarded SELECT by id finds the row with that id, if the guard holds of it.
abbrev pub guarded : (Task → Bool) → Option Task → Option Task
guarded g none = none
guarded g (some t) = if g t then some t else none

no_other :
    (i : ℕ) (g : Task → Bool) (t : Task) (ts : List Task)
    → t.id ≡ i
    → All (λ (u : Task). t.id ≢ u.id) ts
    → first_row (by_id i g) ts ≡ none
unfolding first_row
no_other i g t [] e h = refl
no_other i g t (u ∷ us) e h = ground (arith, h.0, no_other i g t us e h.1)

pub first-by_id :
    (i : ℕ) (g : Task → Bool) (ts : List Task)
    → Unique ts
    → first_row (by_id i g) ts ≡ guarded g (find_task i ts)
unfolding find_task
first-by_id i g [] u = refl
first-by_id i g (t ∷ ts) u = ground (arith, no_other i g t ts, first-by_id i g ts u.1)

-- Under the primary key, an id determines the row.
pub Unique-same :
    (ts : List Task) → Unique ts → All (λ (c : Task). All (λ (t : Task). t.id ≡ c.id → t ≡ c) ts) ts
Unique-same [] u = tt
Unique-same (x ∷ xs) u = (
  (λ e. refl, All-map _ _ xs (λ t ne e. absurd (ne (sym e))) u.0),
  All-map _ _ xs (λ c h. (λ e. absurd (h.0 e), h.1)) (All-both _ _ xs u.0 (Unique-same xs u.1)),
)

select-differ :
    (p : Task → Bool) (i : ℕ) (ts : List Task)
    → All (λ (u : Task). i ≢ u.id) ts
    → All (λ (u : Task). i ≢ u.id) (select_rows p ts)
unfolding select_rows
select-differ p i [] h = tt
select-differ p i (t ∷ ts) h = elim (Bool-cases (p t)) [
  | inl e ↦ rw e (h.0, select-differ p i ts h.1)
  | inr e ↦ rw e (select-differ p i ts h.1)
]

pub select-Unique : (p : Task → Bool) (ts : List Task) → Unique ts → Unique (select_rows p ts)
unfolding select_rows
select-Unique p [] u = tt
select-Unique p (t ∷ ts) u = elim (Bool-cases (p t)) [
  | inl e ↦ rw e (select-differ p t.id ts u.0, select-Unique p ts u.1)
  | inr e ↦ rw e (select-Unique p ts u.1)
]

-- A row under a key that no row has.
pub append-Unique :
    (t : Task) (ts : List Task) → Unique ts → find_task t.id ts ≡ none → Unique (ts ++ t ∷ [])
unfolding find_task
append-Unique t [] u h = (tt, tt)
append-Unique t (x ∷ xs) u h =
    let miss : x.id ≢ t.id = λ e. ground (arith, h) in
    (All-append _ xs (t ∷ []) u.0 (miss, tt), append-Unique t xs u.1 (ground arith))

pub find-append :
    (i : ℕ) (t : Task) (ts : List Task) {u : Task}
    → find_task i ts ≡ some u
    → find_task i (ts ++ t ∷ []) ≡ some u
unfolding find_task
find-append i t [] h = cc
find-append i t (x ∷ xs) {u} h = ground (arith, find-append i t xs {u = u})

-- Under the primary key, a row that stays after a SELECT is the row that was found before.
pub find-select :
    (p : Task → Bool) (i : ℕ) (ts : List Task)
    → Unique ts
    → find_task i (select_rows p ts) ≡ guarded p (find_task i ts)
unfolding find_task select_rows
find-select p i [] u = refl
find-select p i (t ∷ ts) u = ground (arith, gone t i ts u.0, find-select p i ts u.1)
  where
    gone :
        (t : Task) (i : ℕ) (ts : List Task)
        → All (λ (u : Task). t.id ≢ u.id) ts
        → t.id ≡ i
        → find_task i (select_rows p ts) ≡ none
    gone t i [] h e = refl
    gone t i (x ∷ xs) h e = ground (arith, h.0, gone t i xs h.1 e)

-- Under the primary key, every row is found by its id.
pub Unique-found : (ts : List Task) → Unique ts → All (λ (c : Task). find_task c.id ts ≡ some c) ts
unfolding find_task
Unique-found [] u = tt
Unique-found (x ∷ xs) u = (
  ground arith,
  All-map _ _ xs (λ (c : Task) h. ground (arith, h.0, h.1))
      (All-both _ _ xs u.0 (Unique-found xs u.1)),
)

pub first-never {ℓ} : {A : Type ℓ} (ts : List A) → first_row (λ t. false) ts ≡ none
unfolding first_row
first-never [] = refl
first-never (t ∷ ts) = first-never ts
