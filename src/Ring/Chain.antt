-- ===== src/Ring/Chain.antt =====
-- Chains of links, and what a change of the links of two nodes does to them.
use linux_sna.Base.{ℕ, List, [], ◌∷◌, ◌++◌, false, ◌==◌, All, ◌≡◌, ◌∙◌, ◌⊎◌}
use linux_sna.Ring.{Links}

-- From `a` over the nodes to `z`, forwards and backwards
abbrev pub Chain : Links → ℕ → List ℕ → ℕ → Type 0
Chain h a [] z = (h.next a ≡ z) × (h.prev z ≡ a)
Chain h a (b ∷ xs) z = (h.next a ≡ b) × (h.prev b ≡ a) × Chain h b xs z

-- `a` is none of the nodes.
abbrev pub IsNew : ℕ → List ℕ → Type 0
IsNew a = All λ b. (a == b) ≡ false

abbrev pub Distinct : List ℕ → Type 0
Distinct [] = Unit
Distinct (x ∷ xs) = IsNew x xs × Distinct xs

-- `a` is one of the nodes.
abbrev pub OneOf : ℕ → List ℕ → Type 0
OneOf a [] = ⊥
OneOf a (x ∷ xs) = (a ≡ x) ⊎ OneOf a xs

abbrev pub last : ℕ → List ℕ → ℕ
last a [] = a
last a (b ∷ xs) = last b xs

pub IsNew-last : (a b : ℕ) (xs : List ℕ) → IsNew a (b ∷ xs) → (a == last b xs) ≡ false
IsNew-last a b [] h = h.0
IsNew-last a b (c ∷ xs) h = IsNew-last a c xs h.1

pub prev-last : (h : Links) (a : ℕ) (xs : List ℕ) (z : ℕ) → Chain h a xs z → h.prev z ≡ last a xs
prev-last h a [] z c = c.1
prev-last h a (b ∷ xs) z c = prev-last h b xs z c.2

pub join :
    (h : Links) (a : ℕ) (xs : List ℕ) (b : ℕ) (ys : List ℕ) (z : ℕ)
    → Chain h a xs b
    → Chain h b ys z
    → Chain h a (xs ++ b ∷ ys) z
join h a [] b ys z c d = (c.0, c.1, d)
join h a (e ∷ xs) b ys z c d = (c.0, c.1, join h e xs b ys z c.2 d)

pub split :
    (h : Links) (a : ℕ) (xs : List ℕ) (b : ℕ) (ys : List ℕ) (z : ℕ)
    → Chain h a (xs ++ b ∷ ys) z
    → Chain h a xs b × Chain h b ys z
split h a [] b ys z c = ((c.0, c.1), c.2)
split h a (e ∷ xs) b ys z c = let rest = split h e xs b ys z c.2 in ((c.0, c.1, rest.0), rest.1)

-- The last link goes to `w` now; the links between the nodes stay.
pub retarget :
    (h h' : Links) (a : ℕ) (xs : List ℕ) (z w : ℕ)
    → Chain h a xs z
    → Distinct (a ∷ xs)
    → h'.next (last a xs) ≡ w
    → h'.prev w ≡ last a xs
    → All (λ b. (b == last a xs) ≡ false → h'.next b ≡ h.next b) (a ∷ xs)
    → All (λ b. h'.prev b ≡ h.prev b) xs
    → Chain h' a xs w
retarget h h' a [] z w c d to back nexts prevs = (to, back)
retarget h h' a (b ∷ xs) z w c d to back nexts prevs = (
  nexts.0 (IsNew-last a b xs d.0) ∙ c.0,
  prevs.0 ∙ c.1,
  retarget h h' b xs z w c.2 d.1 to back nexts.1 prevs.1,
)
