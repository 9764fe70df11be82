-- ===== src/Ring/Kernel.antt =====
-- The lists of tn3270d/tn3270_list.c, whose head is a node of the ring.
use linux_sna.Base.{ℕ, List, [], ◌∷◌, ◌++◌, true, false, ◌==◌, ◌≡◌, refl, arith}
use linux_sna.Ring.{Links, list_add_tail, list_del}
use linux_sna.Ring.Chain.{IsNew, last, IsNew-last, prev-last}
use linux_sna.Ring.Circle.{Ring, IsAdded, added-Ring}
use linux_sna.Ring.Removal.{IsRemoved, removed-Ring}
use linux_sna.Ring.Rotation.{rotate}

list_add_tail-IsAdded :
    (h : Links) (x l r : ℕ)
    → h.prev x ≡ l
    → (r == x) ≡ false
    → (r == l) ≡ false
    → IsAdded h (list_add_tail r x h) x l r
unfolding list_add_tail
list_add_tail-IsAdded h x l r e nx nl =
    let here : (r == r) ≡ true = ground arith in
    let nl' : (l == r) ≡ false = ground (arith, nl) in
    let same : (l == l) ≡ true = ground arith in
    let same' : (x == x) ≡ true = ground arith in
    record {
      last_next = rw (e, same) refl;
      new_next = rw (e, nl', here) refl;
      other_next = λ b n m. let n' : (l == b) ≡ false = ground (arith, n) in rw (e, n', m) refl;
      new_prev = rw (e, here) refl;
      first_prev = rw (nx, same') refl;
      other_prev = λ b n m. rw (m, n) refl;
    }

-- On a ring read from its head on, `list_add_tail` of a node that is not in it gives the ring with
-- the node behind the others.
pub list_add_tail-Ring :
    (h : Links) (head new : ℕ) (xs : List ℕ)
    → Ring h head xs
    → IsNew new (head ∷ xs)
    → Ring (list_add_tail new head h) head (xs ++ new ∷ [])
list_add_tail-Ring h head new xs ring fresh =
    added-Ring h (list_add_tail new head h) head new xs
      (list_add_tail-IsAdded h head (last head xs) new (prev-last h head xs head ring.0) fresh.0
        (IsNew-last new head xs fresh))
      ring fresh

list_del-IsRemoved :
    (h : Links) (x y l : ℕ) → h.next x ≡ y → h.prev x ≡ l → IsRemoved h (list_del x h) x y l
unfolding list_del
list_del-IsRemoved h x y l n p = record {
  next_left = λ b e. rw (n, p) refl;
  prev_left = λ b e. rw (n, p) refl;
}

list_del-from : (h : Links) (x y : ℕ) (ys : List ℕ) → Ring h x (y ∷ ys) → Ring (list_del x h) y ys
list_del-from h x y ys ring =
    removed-Ring h (list_del x h) x y ys
      (list_del-IsRemoved h x y (last y ys) ring.0.0 (prev-last h x (y ∷ ys) x ring.0)) ring

append_empty : (xs : List ℕ) → xs ++ [] ≡ xs
append_empty [] = refl
append_empty (x ∷ xs) = rw (append_empty xs) refl

-- On a ring read from its head on, `list_del` of a node that is not the head gives the ring of the
-- others in their order.
pub list_del-Ring :
    (h : Links) (head : ℕ) (xs : List ℕ) (entry : ℕ) (ys : List ℕ)
    → Ring h head (xs ++ entry ∷ ys)
    → Ring (list_del entry h) head (xs ++ ys)
list_del-Ring h head xs entry [] ring =
    let left = list_del-from h entry head xs (rotate h head xs entry [] ring) in
    rw (append_empty xs) left
list_del-Ring h head xs entry (y ∷ ys) ring =
    let left = list_del-from h entry y (ys ++ head ∷ xs) (rotate h head xs entry (y ∷ ys) ring) in
    rotate (list_del entry h) y ys head xs left
