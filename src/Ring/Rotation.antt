-- ===== src/Ring/Rotation.antt =====
-- A ring read from another of its nodes on.
use linux_sna.Base.{List, [], ◌∷◌, ◌++◌, ℕ, false, ◌==◌, All, ◌≡◌, arith}
use linux_sna.Ring.{Links}
use linux_sna.Ring.Chain.{IsNew, Distinct, join, split}
use linux_sna.Ring.Circle.{Ring}

abbrev Apart : List ℕ → List ℕ → Type 0
Apart xs ys = All (λ x. IsNew x ys) xs

IsNew-parts : (a : ℕ) (xs ys : List ℕ) → IsNew a (xs ++ ys) → IsNew a xs × IsNew a ys
IsNew-parts a [] ys n = (tt, n)
IsNew-parts a (x ∷ xs) ys n = let rest = IsNew-parts a xs ys n.1 in ((n.0, rest.0), rest.1)

IsNew-append : (a : ℕ) (xs ys : List ℕ) → IsNew a xs → IsNew a ys → IsNew a (xs ++ ys)
IsNew-append a [] ys n m = m
IsNew-append a (x ∷ xs) ys n m = (n.0, IsNew-append a xs ys n.1 m)

Distinct-parts : (xs ys : List ℕ) → Distinct (xs ++ ys) → Distinct xs × (Distinct ys × Apart xs ys)
Distinct-parts [] ys d = (tt, (d, tt))
Distinct-parts (x ∷ xs) ys d =
    let here = IsNew-parts x xs ys d.0 in
    let rest = Distinct-parts xs ys d.1 in ((here.0, rest.0), (rest.1.0, (here.1, rest.1.1)))

Distinct-append : (xs ys : List ℕ) → Distinct xs → Distinct ys → Apart xs ys → Distinct (xs ++ ys)
Distinct-append [] ys d e a = e
Distinct-append (x ∷ xs) ys d e a = (IsNew-append x xs ys d.0 a.0, Distinct-append xs ys d.1 e a.1)

Apart-cons : (x : ℕ) (xs ys : List ℕ) → IsNew x ys → Apart ys xs → Apart ys (x ∷ xs)
Apart-cons x xs [] n a = tt
Apart-cons x xs (y ∷ ys) n a =
    let other : (y == x) ≡ false = let m = n.0 in ground (arith, m) in
    ((other, a.0), Apart-cons x xs ys n.1 a.1)

Apart-empty : (ys : List ℕ) → Apart ys []
Apart-empty [] = tt
Apart-empty (y ∷ ys) = (tt, Apart-empty ys)

Apart-swap : (xs ys : List ℕ) → Apart xs ys → Apart ys xs
Apart-swap [] ys a = Apart-empty ys
Apart-swap (x ∷ xs) ys a = Apart-cons x xs ys a.0 (Apart-swap xs ys a.1)

Distinct-swap : (xs ys : List ℕ) → Distinct (xs ++ ys) → Distinct (ys ++ xs)
Distinct-swap xs ys d =
    let parts = Distinct-parts xs ys d in
    Distinct-append ys xs parts.1.0 parts.0 (Apart-swap xs ys parts.1.1)

-- The ring from the node `y` on.
pub rotate :
    (h : Links) (x : ℕ) (xs : List ℕ) (y : ℕ) (ys : List ℕ)
    → Ring h x (xs ++ y ∷ ys)
    → Ring h y (ys ++ x ∷ xs)
rotate h x xs y ys ring =
    let parts = split h x xs y ys x ring.0 in
    (join h y ys x xs y parts.1 parts.0, Distinct-swap (x ∷ xs) (y ∷ ys) ring.1)
