-- ===== src/Config/Promote.antt =====
-- The loop of `tnX_config_promote` ends, although it appends to the list that it walks.
use native.Mathlib.Numerals.{add-one}
use linux_sna.Base.{
  ℕ, zero, suc, ◌+◌, ◌≤◌, ◌<◌, true, Option, none, some, List, [], ◌∷◌, ◌++◌, ◌≡◌, ◌≢◌, refl, arith,
  inl, inr, Bool-cases, Bytes, length, drop, get_elem?, length-drop,
}
use linux_sna.Config.{
  Value, text, items, Kind, config_string, config_list, Var, Config, str_new, get_str, replace,
  append_new, set_old, set_found, set_vars, set, with_vars, is_prefixed, promotes, promote_one,
  out_of_fuel, promote_then, promote_var, promote_from, weight, promote,
}

weight-append :
    (n : ℕ) (vars : List Var) (v : Var)
    → weight (drop n (vars ++ v ∷ [])) ≤ weight (drop n vars) + length v.name + 1
weight-append zero [] v = omega arith
weight-append zero (x ∷ vars) v = omega (arith, weight-append zero vars v)
weight-append (suc zero) [] v = ground arith
weight-append (suc (suc n)) [] v = ground arith
weight-append (suc n) (x ∷ vars) v = weight-append n vars v

weight-replace :
    (n : ℕ) (vars : List Var) (name : Bytes) (w : Value)
    → weight (drop n (replace name w vars)) ≡ weight (drop n vars)
unfolding replace
weight-replace zero [] name w = refl
weight-replace (suc n) [] name w = refl
weight-replace zero (x ∷ vars) name w = ground (arith, weight-replace zero vars name w)
weight-replace (suc n) (x ∷ vars) name w = ground (arith, weight-replace n vars name w)

weight-drop :
    (i : ℕ) (vars : List Var) (v : Var)
    → get_elem? vars i ≡ some v
    → weight (drop i vars) ≡ length v.name + 1 + weight (drop (suc i) vars)
weight-drop i [] v h = cc
weight-drop zero (x ∷ vars) v h = ground arith
weight-drop (suc i) (x ∷ vars) v h = ground (arith, weight-drop i vars v)

-- A variable that is set adds its own weight at most.
abbrev Grows : ℕ → List Var → Bytes → Option (List Var) → Type 0
Grows n vars name none = Unit
Grows n vars name (some vars') = weight (drop n vars') ≤ weight (drop n vars) + length name + 1

append_new-Grows :
    (n : ℕ) (vars : List Var) (name : Bytes) (k : Kind) (w : Value)
    → Grows n vars name (append_new vars (str_new name k w))
unfolding append_new str_new
append_new-Grows n vars name config_string (text v) = weight-append n vars _
append_new-Grows n vars name config_string (items xs) = tt
append_new-Grows n vars name config_list w = weight-append n vars _

set_old-Grows :
    (n : ℕ) (old : Kind) (vars : List Var) (name : Bytes) (k : Kind) (w : Value)
    → Grows n vars name (set_old old vars name k w)
unfolding set_old
set_old-Grows n config_string vars name k (text v) =
    omega (arith, weight-replace n vars name (text v))
set_old-Grows n config_string vars name k (items xs) = tt
set_old-Grows n config_list vars name k w = append_new-Grows n vars name k w

set_vars-Grows :
    (n : ℕ) (vars : List Var) (o : Option Var) (name : Bytes) (k : Kind) (w : Value)
    → Grows n vars name (set_found vars o name k w)
unfolding set_found
set_vars-Grows n vars none name k w = append_new-Grows n vars name k w
set_vars-Grows n vars (some old) name k w = set_old-Grows n old.kind vars name k w

is_prefixed-length : (p name : Bytes) → is_prefixed p name ≡ true → length p + 1 ≤ length name
unfolding is_prefixed
is_prefixed-length [] [] h = cc
is_prefixed-length [] (c ∷ name) h = ground arith
is_prefixed-length (p ∷ prefix) [] h = cc
is_prefixed-length (p ∷ prefix) (c ∷ name) h = ground (arith, is_prefixed-length prefix name)

-- After a round, what is ahead of the next position weighs less than what was ahead of this one.
abbrev Lighter : ℕ → Config → Option Config → Type 0
Lighter i c none = Unit
Lighter i c (some d) = weight (drop (suc i) d.vars) < weight (drop i c.vars)

set-Lighter :
    (i : ℕ) (c : Config) (v : Var) (name : Bytes) (k : Kind) (w : Value)
    → get_elem? c.vars i ≡ some v
    → length name + 1 ≤ length v.name
    → Lighter i c (set c name k w)
unfolding set set_vars
set-Lighter i c v name k w e h =
    go (set_found c.vars (get_str c.vars name) name k w)
      (set_vars-Grows (suc i) c.vars (get_str c.vars name) name k w)
  where
    go : (o : Option (List Var)) → Grows (suc i) c.vars name o → Lighter i c (with_vars c o)
    go none g = tt
    go (some vars) g = omega (arith, weight-drop i c.vars v e)

promote_one-Lighter :
    (i : ℕ) (c : Config) (v : Var) (prefix : Bytes)
    → get_elem? c.vars i ≡ some v
    → Lighter i c (promote_one prefix v c)
unfolding promote_one promotes
promote_one-Lighter i c v prefix e = elim (Bool-cases (promotes prefix v.name)) [
  | inl y ↦
      let longer = is_prefixed-length prefix v.name (ground arith) in
      rw y (
        set-Lighter i c v (drop (length prefix + 1) v.name) v.kind v.value e
          (omega (arith, length-drop (length prefix + 1) v.name)))
  | inr n ↦ rw n (omega (arith, weight-drop i c.vars v e))
]

module _ (prefix : Bytes) where
  promote_from-ends :
      (fuel i : ℕ) (c : Config)
      → weight (drop i c.vars) < fuel
      → promote_from fuel prefix i c ≢ out_of_fuel
  unfolding promote_from
  promote_from-ends zero i c h = absurd (omega arith)
  promote_from-ends (suc fuel) i c h =
      at_var (get_elem? c.vars i) refl (λ d. promote_from-ends fuel (i + 1) d)
    where
      then_ends :
          (v : Var) (o : Option Config)
          → Lighter i c o
          → ((d : Config)
              → weight (drop (i + 1) d.vars) < fuel
              → promote_from fuel prefix (i + 1) d ≢ out_of_fuel)
          → promote_then (promote_from fuel prefix (i + 1)) o ≢ out_of_fuel
      then_ends v none l next = cc
      then_ends v (some d) l next = next d (rw add-one (omega arith))

      at_var :
          (o : Option Var)
          → get_elem? c.vars i ≡ o
          → ((d : Config)
              → weight (drop (i + 1) d.vars) < fuel
              → promote_from fuel prefix (i + 1) d ≢ out_of_fuel)
          → promote_var (promote_from fuel prefix (i + 1)) prefix o c ≢ out_of_fuel
      at_var none e next = cc
      at_var (some v) e next =
          then_ends v (promote_one prefix v c) (promote_one-Lighter i c v prefix e) next

  -- `tnX_config_promote` ends on every table, in one round more than its names have letters and
  -- NULs.
  pub promote-ends : (c : Config) → promote c prefix ≢ out_of_fuel
  unfolding promote
  promote-ends c = promote_from-ends (weight c.vars + 1) 0 c (omega arith)
