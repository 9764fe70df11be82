-- ===== src/Ring/Destruction.antt =====
-- The walk of `tnX_record_list_destroy`.
use linux_sna.Base.{
  ℕ, zero, suc, ◌≤◌, List, [], ◌∷◌, some, true, false, ◌==◌, length, ◌≡◌, refl, arith,
}
use linux_sna.Ring.{Links, destroy_from}
use linux_sna.Ring.Chain.{Chain, IsNew}
use linux_sna.Ring.Circle.{Ring}

destroy_from-Chain :
    (h : Links) (a : ℕ) (xs : List ℕ) (z fuel : ℕ)
    → Chain h a xs z
    → IsNew z xs
    → length (a ∷ xs) ≤ fuel
    → destroy_from z h fuel a ≡ some (a ∷ xs)
unfolding destroy_from
destroy_from-Chain h a xs z zero c new enough = let never : ⊥ = omega arith in elim never [ ]
destroy_from-Chain h a [] z (suc fuel) c new enough =
    let same : (z == z) ≡ true = ground arith in rw (c.0, same) refl
destroy_from-Chain h a (b ∷ xs) z (suc fuel) c new enough =
    let other : (b == z) ≡ false = let n = new.0 in ground (arith, n) in
    let fewer : length (b ∷ xs) ≤ fuel = omega arith in
    rw (c.0, other, destroy_from-Chain h b xs z fuel c.2 new.1 fewer) refl

-- On a ring of records from the head of the list on, with fuel for each of them,
-- `tnX_record_list_destroy` ends and destroys each record once, in the order of the ring.
pub destroy_from-Ring :
    (h : Links) (list : ℕ) (xs : List ℕ) (fuel : ℕ)
    → Ring h list xs
    → length (list ∷ xs) ≤ fuel
    → destroy_from list h fuel list ≡ some (list ∷ xs)
destroy_from-Ring h list xs fuel ring enough =
    destroy_from-Chain h list xs list fuel ring.0 ring.1.0 enough
