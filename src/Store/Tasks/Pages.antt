-- ===== src/Store/Tasks/Pages.antt =====
-- ListTasks of internal/mastermind/store/tasks.go page by page.
use mathlib.Core.List.{Perm}
use el_pulpo_ai.Prelude.{
  ℕ, zero, suc, ◌+◌, ◌*◌, ◌≤◌, pos, Bool, true, ◌≡◌, refl, sym, ap, ◌∙◌, Option, List, [], ◌∷◌,
  ◌++◌, length, take, drop, arith,
}
use el_pulpo_ai.Store.Row.{Task, TaskStatus, Db, Env, Result, ok, err}
use el_pulpo_ai.Store.Query.{select_rows, count_rows, place, order_by}
use el_pulpo_ai.Store.Query.Reordered.{Reordered, Untied, select-Reordered, order-Reordered}
use el_pulpo_ai.Store.Query.Order.{Ordered, order-perm, order-Ordered}
use el_pulpo_ai.Store.Tasks.{
  TasksPage, page_limit, status_is, newer, page_rows, with_total, list_tasks,
}

sooner : (a b : ℕ) → suc a + b ≡ suc (a + b)
sooner a b = omega arith

one_more : (n size : ℕ) → size + n * size ≡ suc n * size
one_more n size = omega arith

no_page : (size : ℕ) → 0 ≡ 0 * size
no_page size = omega arith

module _ {ℓ} {A : Type ℓ} where
  take_none : (n : ℕ) → take {A = A} n [] ≡ []
  take_none zero = refl
  take_none (suc n) = refl

  drop_none : (n : ℕ) → drop {A = A} n [] ≡ []
  drop_none zero = refl
  drop_none (suc n) = refl

  take_more : (a b : ℕ) (xs : List A) → take (a + b) xs ≡ take a xs ++ take b (drop a xs)
  take_more zero b xs = ap (λ n. take n xs) (omega arith)
  take_more (suc a) b [] = take_none (suc a + b) ∙ sym (take_none b)
  take_more (suc a) b (x ∷ xs) =
      ap (λ n. take n (x ∷ xs)) (sooner a b) ∙ ap (λ ys. x ∷ ys) (take_more a b xs)

  drop_more : (a b : ℕ) (xs : List A) → drop (a + b) xs ≡ drop b (drop a xs)
  drop_more zero b xs = ap (λ n. drop n xs) (omega arith)
  drop_more (suc a) b [] = drop_none (suc a + b) ∙ sym (drop_none b)
  drop_more (suc a) b (x ∷ xs) = ap (λ n. drop n (x ∷ xs)) (sooner a b) ∙ drop_more a b xs

  take_whole : (n : ℕ) (xs : List A) → length xs ≤ n → take n xs ≡ xs
  take_whole n [] h = take_none n
  take_whole zero (x ∷ xs) h = absurd (ground arith)
  take_whole (suc n) (x ∷ xs) h = ap (λ ys. x ∷ ys) (take_whole n xs (omega (arith, h)))

  length-place :
      (before : A → A → Bool) (x : A) (ys : List A) → length (place before x ys) ≡ suc (length ys)
  unfolding place
  length-place before x [] = refl
  length-place before x (y ∷ ys) = ground (arith, length-place before x ys)

  length-order : (before : A → A → Bool) (xs : List A) → length (order_by before xs) ≡ length xs
  unfolding order_by
  length-order before [] = refl
  length-order before (x ∷ xs) =
      length-place before x (order_by before xs) ∙ ap suc (length-order before xs)

  length-select : (p : A → Bool) (xs : List A) → length (select_rows p xs) ≡ count_rows p xs
  unfolding select_rows count_rows
  length-select p [] = refl
  length-select p (x ∷ xs) = ground (arith, length-select p xs)

abbrev pub items_of : Result TasksPage → List Task
items_of (ok p) = p.items
items_of (err e) = []

-- n pages of a size, from an offset on, the k-th read with its own environment and from a table that the
-- database reads in an order of its own.
unfoldable pub pages_from :
    (ℕ → Env) → (ℕ → Db) → Option TaskStatus → (size offset : ℕ) → ℕ → List Task
unfolding list_tasks
pages_from envs dbs status size offset zero = []
pages_from envs dbs status size offset (suc n) =
    items_of (
      list_tasks (envs n) (record { status = status; limit = pos size; offset = pos offset })
        (dbs n))
    ++ pages_from envs dbs status size (offset + size) n

proper_limit : (size : ℕ) → 1 ≤ size → size ≤ 500 → page_limit (pos size) ≡ size
unfolding page_limit
proper_limit size low high = ground (arith, low, high)

module _ (envs : ℕ → Env) (dbs : ℕ → Db) (db : Db) (status : Option TaskStatus) (size : ℕ)
    (low : 1 ≤ size) (high : size ≤ 500) (up : (k n : ℕ) → (envs k).answers n ≡ true)
    (reordered : (k : ℕ) → Reordered db.tasks (dbs k).tasks)
    (untied : Untied newer (select_rows (status_is status) db.tasks)) where
  sorted : List Task
  sorted = order_by newer (select_rows (status_is status) db.tasks)

  sorted_lem : (k : ℕ) → order_by newer (select_rows (status_is status) (dbs k).tasks) ≡ sorted
  unfolding sorted newer
  sorted_lem k = sym (
      order-Reordered newer (λ x y h. ground (arith, h)) (λ x y z h k. ground (arith, h, k))
        (select-Reordered (status_is status) (reordered k)) untied)

  page_lem :
      (k offset : ℕ)
      → items_of (
          list_tasks
            (envs k)
            (record { status = status; limit = pos size; offset = pos offset })
            (dbs k))
        ≡ take size (drop offset sorted)
  unfolding list_tasks with_total page_rows
  page_lem k offset =
      rw (up k 0, up k 1, proper_limit size low high)
        (ap (λ ts. take size (drop offset ts)) (sorted_lem k))

  from_lem :
      (n offset : ℕ)
      → pages_from envs dbs status size offset n ≡ take (n * size) (drop offset sorted)
  unfolding pages_from
  from_lem zero offset = ap (λ k. take k (drop offset sorted)) (no_page size)
  from_lem (suc n) offset =
      let ts = drop offset sorted in
      ap (λ xs. xs ++ pages_from envs dbs status size (offset + size) n) (page_lem n offset)
      ∙ ap (λ xs. take size ts ++ xs)
          (from_lem n (offset + size)
            ∙ ap (λ xs. take (n * size) xs) (drop_more offset size sorted))
      ∙ sym (take_more size (n * size) ts)
      ∙ ap (λ k. take k ts) (one_more n size)

  whole_lem :
      (n : ℕ)
      → count_rows (status_is status) db.tasks ≤ n * size
      → pages_from envs dbs status size 0 n ≡ sorted
  unfolding sorted
  whole_lem n enough =
      from_lem n 0
      ∙ take_whole (n * size) sorted (
          omega (
            arith,
            enough,
            length-order newer (select_rows (status_is status) db.tasks),
            length-select (status_is status) db.tasks,
          ))

  -- If the database answers, the table stays as it is, though each query may read its rows in another
  -- order, and no two of the tasks that are asked for were created at the same time, then the pages of
  -- a size from 1 to 500, one after another and as many as hold the tasks of the status that is asked
  -- for, list each of these tasks exactly once, the newest first.
  pub pages_list_all :
      (n : ℕ)
      → count_rows (status_is status) db.tasks ≤ n * size
      → Perm (pages_from envs dbs status size 0 n) (select_rows (status_is status) db.tasks)
        × Ordered newer (pages_from envs dbs status size 0 n)
  unfolding sorted newer
  pages_list_all n enough =
      let asked = select_rows (status_is status) db.tasks in
      rw (whole_lem n enough) (
        order-perm newer asked,
        order-Ordered newer (λ x y h. ground (arith, h)) (λ x y z h k. ground (arith, h, k)) asked,
      )
