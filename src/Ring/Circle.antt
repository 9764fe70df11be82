-- ===== src/Ring/Circle.antt =====
-- The rings of libtnX/tnX_record.c and of tn3270d/tn3270_list.c, and adding a node behind the others.
use linux_sna.Base.{ℕ, List, [], ◌∷◌, ◌++◌, some, true, false, ◌==◌, All, ◌≡◌, refl, arith}
use linux_sna.Ring.{Links, add_between, record_list_add}
use linux_sna.Ring.Chain.{Chain, IsNew, Distinct, last, IsNew-last, prev-last, join, retarget}

-- The nodes of a circular list from its first on, linked both ways.
abbrev pub Ring : Links → ℕ → List ℕ → Type 0
Ring h x xs = Chain h x xs x × Distinct (x ∷ xs)

IsNew-snoc : (a b : ℕ) (xs : List ℕ) → IsNew a xs → (a == b) ≡ false → IsNew a (xs ++ b ∷ [])
IsNew-snoc a b [] h n = (n, tt)
IsNew-snoc a b (x ∷ xs) h n = (h.0, IsNew-snoc a b xs h.1 n)

pub Distinct-snoc : (r : ℕ) (xs : List ℕ) → Distinct xs → IsNew r xs → Distinct (xs ++ r ∷ [])
Distinct-snoc r [] d n = (tt, tt)
Distinct-snoc r (x ∷ xs) d n =
    let other : (x == r) ≡ false = ground (arith, n.0) in
    (IsNew-snoc x r xs d.0 other, Distinct-snoc r xs d.1 n.1)

-- The links between the last node, the first one and a new one, as each way of adding sets them.
pub record IsAdded (h h' : Links) (x l r : ℕ) : Type 0 where
  pub last_next : h'.next l ≡ r
  pub new_next : h'.next r ≡ x
  pub other_next : (b : ℕ) → (b == l) ≡ false → (r == b) ≡ false → h'.next b ≡ h.next b
  pub new_prev : h'.prev r ≡ l
  pub first_prev : h'.prev x ≡ r
  pub other_prev : (b : ℕ) → (x == b) ≡ false → (r == b) ≡ false → h'.prev b ≡ h.prev b

nexts_kept :
    (h h' : Links) (x l r : ℕ) (xs : List ℕ)
    → IsAdded h h' x l r
    → IsNew r xs
    → All (λ b. (b == l) ≡ false → h'.next b ≡ h.next b) xs
nexts_kept h h' x l r [] added new = tt
nexts_kept h h' x l r (b ∷ xs) added new =
    ((λ n. added.other_next b n new.0), nexts_kept h h' x l r xs added new.1)

prevs_kept :
    (h h' : Links) (x l r : ℕ) (xs : List ℕ)
    → IsAdded h h' x l r
    → IsNew x xs
    → IsNew r xs
    → All (λ b. h'.prev b ≡ h.prev b) xs
prevs_kept h h' x l r [] added old new = tt
prevs_kept h h' x l r (b ∷ xs) added old new =
    (added.other_prev b old.0 new.0, prevs_kept h h' x l r xs added old.1 new.1)

pub added-Ring :
    (h h' : Links) (x r : ℕ) (xs : List ℕ)
    → IsAdded h h' x (last x xs) r
    → Ring h x xs
    → IsNew r (x ∷ xs)
    → Ring h' x (xs ++ r ∷ [])
added-Ring h h' x r xs added ring new = (
  join h' x xs r [] x
      (retarget h h' x xs x r ring.0 ring.1 added.last_next added.new_prev
        (nexts_kept h h' x (last x xs) r (x ∷ xs) added new)
        (prevs_kept h h' x (last x xs) r xs added ring.1.0 new.1))
      (added.new_next, added.first_prev),
  Distinct-snoc r (x ∷ xs) ring.1 new,
)

record_list_add-IsAdded :
    (h : Links) (x l r : ℕ)
    → h.prev x ≡ l
    → (r == x) ≡ false
    → (r == l) ≡ false
    → IsAdded h (add_between x r h) x l r
record_list_add-IsAdded h x l r e nx nl =
    let here : (r == r) ≡ true = ground arith in
    let nl' : (l == r) ≡ false = ground (arith, nl) in
    let nx' : (x == r) ≡ false = ground (arith, nx) in
    let same : (l == l) ≡ true = ground arith in
    let same' : (x == x) ≡ true = ground arith in
    record {
      last_next = rw (here, e, same) refl;
      new_next = rw (here, e, nl') refl;
      other_next =
          λ b n m. let n' : (l == b) ≡ false = ground (arith, n) in rw (here, e, n', m) refl;
      new_prev = rw (here, e, nl', nx') refl;
      first_prev = rw (here, e, nl', same') refl;
      other_prev = λ b n m. rw (here, e, nl', n, m) refl;
    }

-- On a ring of records with `list` as its head, `tnX_record_list_add` of a record that is not in it
-- gives a ring with the same head and the record behind the others.
pub record_list_add-Ring :
    (h : Links) (list r : ℕ) (xs : List ℕ)
    → Ring h list xs
    → IsNew r (list ∷ xs)
    → ((record_list_add (some list) r h).0 ≡ list)
      × Ring (record_list_add (some list) r h).1 list (xs ++ r ∷ [])
unfolding record_list_add
record_list_add-Ring h list r xs ring new = (
  refl,
  added-Ring h (add_between list r h) list r xs
      (record_list_add-IsAdded h list (last list xs) r (prev-last h list xs list ring.0) new.0
        (IsNew-last r list xs new))
      ring new,
)
