-- ===== src/Ring/Removal.antt =====
-- Taking a record out of the links.
use linux_sna.Base.{
  ℕ, List, [], ◌∷◌, some, true, false, ◌==◌, if◌then◌else◌, All, ◌≡◌, refl, arith, Bool-cases, inl,
  inr,
}
use linux_sna.Ring.{Links, unlink, record_list_remove}
use linux_sna.Ring.Chain.{Chain, IsNew, Distinct, OneOf, last, IsNew-last, prev-last, retarget}
use linux_sna.Ring.Circle.{Ring}

-- The links without the node `x` between `l` and `y`, as each way of removing sets them. What the
-- links of `x` are is left open.
pub record IsRemoved (h h' : Links) (x y l : ℕ) : Type 0 where
  pub next_left : (b : ℕ) → (x == b) ≡ false → h'.next b ≡ (if l == b then y else h.next b)
  pub prev_left : (b : ℕ) → (x == b) ≡ false → h'.prev b ≡ (if y == b then l else h.prev b)

unlink-IsRemoved :
    (h : Links) (x y l : ℕ) → h.next x ≡ y → h.prev x ≡ l → IsRemoved h (unlink x h) x y l
unlink-IsRemoved h x y l n p = record {
  next_left = λ b e. elim (Bool-cases (y == x)) [
    | inl t ↦ rw (e, n, p, t) refl
    | inr f ↦ rw (e, n, p, f) refl
  ];
  prev_left = λ b e. rw (e, n, p) refl;
}

module _ (h h' : Links) (x y l : ℕ) (removed : IsRemoved h h' x y l) where
  nexts_left : (xs : List ℕ) → IsNew x xs → All (λ b. (b == l) ≡ false → h'.next b ≡ h.next b) xs
  nexts_left [] new = tt
  nexts_left (b ∷ xs) new = (
    (λ f. let f' : (l == b) ≡ false = ground (arith, f) in rw (removed.next_left b new.0, f') refl),
    nexts_left xs new.1,
  )

  prevs_left : (xs : List ℕ) → IsNew x xs → IsNew y xs → All (λ b. h'.prev b ≡ h.prev b) xs
  prevs_left [] new old = tt
  prevs_left (b ∷ xs) new old =
      (rw (removed.prev_left b new.0, old.0) refl, prevs_left xs new.1 old.1)

pub removed-Ring :
    (h h' : Links) (x y : ℕ) (ys : List ℕ)
    → IsRemoved h h' x y (last y ys)
    → Ring h x (y ∷ ys)
    → Ring h' y ys
removed-Ring h h' x y ys removed ring =
    let l = last y ys in
    let end : (l == l) ≡ true = ground arith in
    let first : (y == y) ≡ true = ground arith in
    let to : h'.next l ≡ y = rw (removed.next_left l (IsNew-last x y ys ring.1.0), end) refl in
    let back : h'.prev y ≡ l = rw (removed.prev_left y ring.1.0.0, first) refl in
    (
      retarget h h' y ys x y ring.0.2 ring.1.1 to back
          (nexts_left h h' x y l removed (y ∷ ys) ring.1.0)
          (prevs_left h h' x y l removed ys ring.1.0.1 ring.1.1.0),
      ring.1.1,
    )

unlink-Ring : (h : Links) (x y : ℕ) (ys : List ℕ) → Ring h x (y ∷ ys) → Ring (unlink x h) y ys
unlink-Ring h x y ys ring =
    removed-Ring h (unlink x h) x y ys
      (unlink-IsRemoved h x y (last y ys) ring.0.0 (prev-last h x (y ∷ ys) x ring.0)) ring

-- No node of a chain that ends elsewhere follows itself.
next-other :
    (h : Links) (a z : ℕ) (xs : List ℕ) (b : ℕ)
    → Chain h a xs z
    → Distinct (a ∷ xs)
    → (z == last a xs) ≡ false
    → OneOf b (a ∷ xs)
    → (h.next b == b) ≡ false
next-other h a z [] b c d end (inl e) = rw (e, c.0) end
next-other h a z [] b c d end (inr i) = elim i [ ]
next-other h a z (e ∷ xs) b c d end (inl same) = rw (same, c.0) (let n = d.0.0 in ground (arith, n))
next-other h a z (e ∷ xs) b c d end (inr there) = next-other h e z xs b c.2 d.1 end there

head_eq :
    (h : Links) (list x y : ℕ)
    → h.next x ≡ y
    → some (if list == x then h.next list else list) ≡ some (if list == x then y else list)
head_eq h list x y n = elim (Bool-cases (list == x)) [
  | inl t ↦ let same : list ≡ x = ground (arith, t) in rw (t, same, n) refl
  | inr f ↦ rw f refl
]

-- On a ring of two records at least, read from the record `x` on, with any of its records as the
-- head of the list, `tnX_record_list_remove` of `x` gives the ring of the others in their order; the
-- head is the record behind `x` if `x` was the head, and the same as before otherwise.
pub record_list_remove-Ring :
    (h : Links) (list x y : ℕ) (ys : List ℕ)
    → Ring h x (y ∷ ys)
    → OneOf list (x ∷ y ∷ ys)
    → ((record_list_remove (some list) x h).0 ≡ some (if list == x then y else list))
      × Ring (record_list_remove (some list) x h).1 y ys
unfolding record_list_remove
record_list_remove-Ring h list x y ys ring one =
    let more : (h.next list == list) ≡ false =
      next-other h x x (y ∷ ys) list ring.0 ring.1 (IsNew-last x y ys ring.1.0) one in
    rw more (head_eq h list x y ring.0.0, unlink-Ring h x y ys ring)
