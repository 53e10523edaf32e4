-- ===== src/Store/Query/Order.antt =====
-- SELECT and ORDER BY: the predicates of their rows, and the order.
use el_pulpo_ai.Prelude.{Bool, true, false, ◌≡◌, inl, inr, List, [], ◌∷◌, All, All-map, Bool-cases}
use mathlib.Core.List.Perm
use mathlib.Core.List.{Perm}
use el_pulpo_ai.Store.Query.{select_rows, place, order_by}

module _ {ℓ κ} {A : Type ℓ} (P : A → Type κ) where
  pub select-All :
      (p : A → Bool) (ts : List A) → All P ts → All (λ t. P t × (p t ≡ true)) (select_rows p ts)
  unfolding select_rows
  select-All p [] h = tt
  select-All p (t ∷ ts) h = elim (Bool-cases (p t)) [
    | inl e ↦ rw e ((h.0, e), select-All p ts h.1)
    | inr e ↦ rw e (select-All p ts h.1)
  ]

  place-All :
      (before : A → A → Bool) (x : A) (ys : List A) → P x → All P ys → All P (place before x ys)
  unfolding place
  place-All before x [] h k = (h, tt)
  place-All before x (y ∷ ys) h k = elim (Bool-cases (before y x)) [
    | inl e ↦ rw e (k.0, place-All before x ys h k.1)
    | inr e ↦ rw e (h, k)
  ]

  pub order-All : (before : A → A → Bool) (xs : List A) → All P xs → All P (order_by before xs)
  unfolding order_by
  order-All before [] h = tt
  order-All before (x ∷ xs) h =
      place-All before x (order_by before xs) h.0 (order-All before xs h.1)

module _ {ℓ} {A : Type ℓ} (before : A → A → Bool) where
  pub place-perm : (x : A) (ys : List A) → Perm (place before x ys) (x ∷ ys)
  unfolding place
  place-perm x [] = Perm.refl (x ∷ [])
  place-perm x (y ∷ ys) = elim (Bool-cases (before y x)) [
    | inl e ↦ rw e (Perm.trans (Perm.cons y (place-perm x ys)) (Perm.swap x y ys))
    | inr e ↦ rw e (Perm.refl (x ∷ y ∷ ys))
  ]

  -- Sorting loses no row and adds none.
  pub order-perm : (xs : List A) → Perm (order_by before xs) xs
  unfolding order_by
  order-perm [] = Perm.refl []
  order-perm (x ∷ xs) = Perm.trans (place-perm x (order_by before xs)) (Perm.cons x (order-perm xs))

  -- No row comes strictly before an earlier one.
  abbrev pub Ordered : List A → Type 0
  Ordered [] = Unit
  Ordered (x ∷ xs) = All (λ y. before y x ≡ false) xs × Ordered xs

module _ {ℓ} {A : Type ℓ} (before : A → A → Bool)
    (asymmetric : (x y : A) → before x y ≡ true → before y x ≡ false)
    (negatively_transitive : (x y z : A)
      → before x y ≡ false
      → before y z ≡ false
      → before x z ≡ false) where
  pub place-Ordered : (x : A) (ys : List A) → Ordered before ys → Ordered before (place before x ys)
  unfolding place
  place-Ordered x [] o = (tt, tt)
  place-Ordered x (y ∷ ys) o = elim (Bool-cases (before y x)) [
    | inl e ↦ rw e (
      place-All (λ z. before z y ≡ false) before x ys (asymmetric y x e) o.0,
      place-Ordered x ys o.1,
    )
    | inr e ↦ rw e (
      (e, All-map _ (λ z. before z x ≡ false) ys (λ z q. negatively_transitive z y x q e) o.0),
      o,
    )
  ]

  pub order-Ordered : (xs : List A) → Ordered before (order_by before xs)
  unfolding order_by
  order-Ordered [] = tt
  order-Ordered (x ∷ xs) = place-Ordered x (order_by before xs) (order-Ordered xs)

module _ {ℓ κ} {A : Type ℓ} (P : A → Type κ) where
  -- What holds of the selected rows holds of every row that the WHERE clause selects.
  pub All-select :
      (p : A → Bool) (ts : List A) → All P (select_rows p ts) → All (λ t. p t ≡ true → P t) ts
  unfolding select_rows
  All-select p [] h = tt
  All-select p (t ∷ ts) h = elim (Bool-cases (p t)) [
    | inl e ↦ let k : All P (t ∷ select_rows p ts) = rw e at h in (λ _. k.0, All-select p ts k.1)
    | inr e ↦ let k : All P (select_rows p ts) = rw e at h in (λ q. absurd (cc), All-select p ts k)
  ]

  All-place :
      (before : A → A → Bool) (x : A) (ys : List A) → All P (place before x ys) → P x × All P ys
  unfolding place
  All-place before x [] h = (h.0, tt)
  All-place before x (y ∷ ys) h = elim (Bool-cases (before y x)) [
    | inl e ↦
        let k : All P (y ∷ place before x ys) = rw e at h in
        let (a, b) = All-place before x ys k.1 in (a, (k.0, b))
    | inr e ↦ let k : All P (x ∷ y ∷ ys) = rw e at h in k
  ]

  -- What holds of the sorted rows holds of the rows.
  pub All-order : (before : A → A → Bool) (xs : List A) → All P (order_by before xs) → All P xs
  unfolding order_by
  All-order before [] h = tt
  All-order before (x ∷ xs) h =
      let (a, b) = All-place before x (order_by before xs) h in (a, All-order before xs b)
