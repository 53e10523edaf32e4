-- ===== src/Store/Dashboard/Sorted.antt =====
-- The dashboard's insertion sort, and the order of claims.
use mathlib.Core.List.{Perm, perm_middle, append-nil}
use mathlib.Core.List.Perm
use el_pulpo_ai.Prelude.{Bool, false, ◌≡◌, refl, List, [], ◌∷◌, ◌++◌, All, All-map, arith}
use el_pulpo_ai.Store.Row.{Task}
use el_pulpo_ai.Store.Query.{place}
use el_pulpo_ai.Store.Query.Order.{Ordered, place-perm, place-Ordered}
use el_pulpo_ai.Store.Claim.{claim_order}
use el_pulpo_ai.Store.Claim.Order.{claim_order_asymmetric, claim_order_negative}
use el_pulpo_ai.Store.Dashboard.{
  less_queue, sift, sort_from, reverse_onto, sort_queue_for_dashboard,
}

-- `lessQueue` is the order of the claim's sub-select.
less_queue-claim_order : (a b : Task) → less_queue a b ≡ claim_order a b
unfolding less_queue claim_order
less_queue-claim_order a b = ground arith

-- The order of the sorted part, which is held in reverse.
abbrev backwards : Task → Task → Bool
backwards a b = claim_order b a

sift-place : (t : Task) (ps : List Task) → sift t ps ≡ place backwards t ps
unfolding sift place
sift-place t [] = refl
sift-place t (p ∷ ps) = rw (less_queue-claim_order t p, sift-place t ps)

sort_from-perm : (done ts : List Task) → Perm (sort_from done ts) (ts ++ done)
unfolding sort_from
sort_from-perm done [] = Perm.refl done
sort_from-perm done (t ∷ ts) = Perm.trans (sort_from-perm (sift t done) ts) (
    Perm.trans (Perm.append (Perm.refl ts) (rw (sift-place t done) (place-perm backwards t done)))
      (perm_middle ts done))

sort_from-Ordered :
    (done ts : List Task) → Ordered backwards done → Ordered backwards (sort_from done ts)
unfolding sort_from
sort_from-Ordered done [] o = o
sort_from-Ordered done (t ∷ ts) o = sort_from-Ordered (sift t done) ts (
    rw (sift-place t done) (
      place-Ordered backwards (λ a b. claim_order_asymmetric b a)
        (λ a b c p q. claim_order_negative c b a q p) t done o))

reverse_onto-perm : (out xs : List Task) → Perm (reverse_onto out xs) (xs ++ out)
unfolding reverse_onto
reverse_onto-perm out [] = Perm.refl out
reverse_onto-perm out (x ∷ xs) = Perm.trans (reverse_onto-perm (x ∷ out) xs) (perm_middle xs out)

reverse_onto-Ordered :
    (out xs : List Task)
    → Ordered claim_order out
    → Ordered backwards xs
    → All (λ o. All (λ x. claim_order o x ≡ false) xs) out
    → Ordered claim_order (reverse_onto out xs)
unfolding reverse_onto
reverse_onto-Ordered out [] o b cross = o
reverse_onto-Ordered out (x ∷ xs) o b cross =
    reverse_onto-Ordered (x ∷ out) xs
      (All-map _ (λ y. claim_order y x ≡ false) out (λ y h. h.0) cross, o) b.1
      (b.0, All-map _ (λ y. All (λ z. claim_order y z ≡ false) xs) out (λ y h. h.1) cross)

-- The sorted queue holds the same tasks, and no task comes after one that a claim would take later:
-- by falling priority, and among equals by rising time of creation.
pub sort_queue_sorted :
    (ts : List Task)
    → Perm (sort_queue_for_dashboard ts) ts × Ordered claim_order (sort_queue_for_dashboard ts)
unfolding sort_queue_for_dashboard
sort_queue_sorted ts = (
  Perm.trans (reverse_onto-perm [] (sort_from [] ts))
      (rw append-nil (rw append-nil at (sort_from-perm [] ts))),
  reverse_onto-Ordered [] (sort_from [] ts) tt (sort_from-Ordered [] ts tt) tt,
)
