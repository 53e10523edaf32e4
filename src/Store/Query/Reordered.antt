-- ===== src/Store/Query/Reordered.antt =====
-- A table whose rows the database reads in another order. SELECT and ORDER BY give the same rows in
-- the same order then, if no two of them tie.
use el_pulpo_ai.Prelude.{
  Bool, true, false, ◌≡◌, refl, sym, ap, ◌∙◌, ◌⊎◌, inl, inr, List, [], ◌∷◌, All, Bool-cases,
}
use el_pulpo_ai.Store.Query.{select_rows, place, order_by}

module _ {ℓ} {A : Type ℓ} where
  pub data Reordered : List A → List A → Type ℓ where
    nothing : Reordered [] []
    keep : {x : A} {xs ys : List A} → Reordered xs ys → Reordered (x ∷ xs) (x ∷ ys)
    swap : {x y : A} {xs : List A} → Reordered (x ∷ y ∷ xs) (y ∷ x ∷ xs)
    again : {xs ys zs : List A} → Reordered xs ys → Reordered ys zs → Reordered xs zs

  pub same : (xs : List A) → Reordered xs xs
  same [] = nothing
  same (x ∷ xs) = keep (same xs)

  pub select-Reordered :
      (p : A → Bool) {xs ys : List A}
      → Reordered xs ys
      → Reordered (select_rows p xs) (select_rows p ys)
  unfolding select_rows
  select-Reordered p nothing = nothing
  select-Reordered p (keep {x} d) = elim (Bool-cases (p x)) [
    | inl e ↦ rw e (keep (select-Reordered p d))
    | inr e ↦ rw e (select-Reordered p d)
  ]
  select-Reordered p (swap {x} {y} {xs}) = elim (Bool-cases (p x)) [
    | inl e ↦ elim (Bool-cases (p y)) [
      | inl k ↦ rw (e, k) swap
      | inr k ↦ rw (e, k) (same (x ∷ select_rows p xs))
    ]
    | inr e ↦ elim (Bool-cases (p y)) [
      | inl k ↦ rw (e, k) (same (y ∷ select_rows p xs))
      | inr k ↦ rw (e, k) (same (select_rows p xs))
    ]
  ]
  select-Reordered p (again d k) = again (select-Reordered p d) (select-Reordered p k)

module _ {ℓ κ} {A : Type ℓ} (P : A → Type κ) where
  reordered-All : {xs ys : List A} → Reordered xs ys → All P xs → All P ys
  reordered-All nothing h = tt
  reordered-All (keep d) h = (h.0, reordered-All d h.1)
  reordered-All swap h = (h.1.0, (h.0, h.1.1))
  reordered-All (again d k) h = reordered-All k (reordered-All d h)

module _ {ℓ} {A : Type ℓ} (before : A → A → Bool) where
  -- One of the two comes strictly before the other.
  abbrev pub Apart : A → A → Type 0
  Apart x y = (before x y ≡ true) ⊎ (before y x ≡ true)

  -- No two rows tie.
  abbrev pub Untied : List A → Type 0
  Untied [] = Unit
  Untied (x ∷ xs) = All (Apart x) xs × Untied xs

  other_way : (x y : A) → Apart x y → Apart y x
  other_way x y (inl e) = inr e
  other_way x y (inr e) = inl e

  reordered-Untied : {xs ys : List A} → Reordered xs ys → Untied xs → Untied ys
  reordered-Untied nothing h = tt
  reordered-Untied (keep {x} d) h = (reordered-All (Apart x) d h.0, reordered-Untied d h.1)
  reordered-Untied (swap {x} {y}) h = ((other_way x y h.0.0, h.1.0), (h.0.1, h.1.1))
  reordered-Untied (again d k) h = reordered-Untied k (reordered-Untied d h)

module _ {ℓ} {A : Type ℓ} (before : A → A → Bool)
    (asymmetric : (x y : A) → before x y ≡ true → before y x ≡ false)
    (transitive : (x y z : A) → before x y ≡ true → before y z ≡ true → before x z ≡ true) where
  place_before :
      (x y : A) (zs : List A)
      → before x y ≡ true
      → place before x (place before y zs) ≡ place before y (place before x zs)
  unfolding place
  place_before x y [] e = rw (e, asymmetric x y e) refl
  place_before x y (z ∷ zs) e = elim (Bool-cases (before z x)) [
    | inl h ↦ rw (h, transitive z x y h e, h) (ap (λ rest. z ∷ rest) (place_before x y zs e))
    | inr h ↦ elim (Bool-cases (before z y)) [
      | inl k ↦ rw (h, k, e, h) refl
      | inr k ↦ rw (h, k, e, asymmetric x y e) refl
    ]
  ]

  place_comm :
      (x y : A) (zs : List A)
      → Apart before x y
      → place before x (place before y zs) ≡ place before y (place before x zs)
  place_comm x y zs (inl e) = place_before x y zs e
  place_comm x y zs (inr e) = sym (place_before y x zs e)

  pub order-Reordered :
      {xs ys : List A}
      → Reordered xs ys
      → Untied before xs
      → order_by before xs ≡ order_by before ys
  unfolding order_by
  order-Reordered nothing h = refl
  order-Reordered (keep {x} d) h = ap (place before x) (order-Reordered d h.1)
  order-Reordered (swap {x} {y} {xs}) h = place_comm x y (order_by before xs) h.0.0
  order-Reordered (again d k) h =
      order-Reordered d h ∙ order-Reordered k (reordered-Untied before d h)
