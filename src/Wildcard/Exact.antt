-- ===== src/Wildcard/Exact.antt =====
-- `wc_match` on patterns of letters and single stars: safe, and exact.
use linux_sna.Base.{
  ℕ, Bool, ◌||◌, ◌&&◌, true, false, [], ◌∷◌, ◌==◌, ==_iff, if◌then◌else◌, Bytes, ◌≡◌, ◌≢◌, ◌↔◌,
  refl, arith, Bool-cases, inl, inr,
}
use linux_sna.Wildcard.{Match, no, yes, overrun, literal, is_special, or_on, seek, matches}
use linux_sna.Wildcard.Glob.{Matches, ends, one, star_ends, star_more, IsGlob, matches-Matches}

yes≢overrun : yes ≢ overrun
yes≢overrun = cc

if-safe :
    (b : Bool) (o rest : Match) → o ≢ overrun → rest ≢ overrun → (if b then o else rest) ≢ overrun
if-safe true o rest h k = h
if-safe false o rest h k = k

module _ (next : Bytes → Match) (safe : (s : Bytes) → next s ≢ overrun) where
  or_on-safe : (o rest : Match) → o ≢ overrun → rest ≢ overrun → or_on o rest ≢ overrun
  or_on-safe yes rest h k = cc
  or_on-safe overrun rest h k = h
  or_on-safe no rest h k = k

  seek-safe : (first : ℕ) (s : Bytes) → seek first next s ≢ overrun
  unfolding seek
  seek-safe first [] = cc
  seek-safe first (c ∷ str) =
      if-safe (is_special first || c == first) _ _
        (or_on-safe _ _ (safe (c ∷ str)) (seek-safe first str)) (seek-safe first str)

  literal-safe : (ch : ℕ) (s : Bytes) → literal ch next s ≢ overrun
  unfolding literal
  literal-safe ch [] = cc
  literal-safe ch (c ∷ str) = if-safe (c == ch) _ _ (safe str) cc

-- A pattern of this kind is never read behind its end, nor the string.
matches-safe : (pattern s : Bytes) → IsGlob pattern → matches pattern s ≢ overrun
unfolding matches
matches-safe [] [] g = cc
matches-safe [] (c ∷ str) g = cc
matches-safe (ch ∷ []) s g = elim (Bool-cases (ch == b'*')) [
  | inl y ↦ rw (g.0, y) yes≢overrun
  | inr n ↦ rw (g.0, g.1, n) (literal-safe (matches []) (λ t. matches-safe [] t tt) ch s)
]
matches-safe (ch ∷ d ∷ pattern) s g =
    let next = matches (d ∷ pattern) in
    let safe = λ (t : Bytes). matches-safe (d ∷ pattern) t g.3 in
    elim (Bool-cases (ch == b'*')) [
      | inl y ↦ rw (g.0, y) (seek-safe next safe d s)
      | inr n ↦ rw (g.0, g.1, n) (literal-safe next safe ch s)
    ]

nothing : (pattern s : Bytes) → pattern ≡ [] → Matches pattern s → s ≡ []
nothing _ _ e ends = refl
nothing _ _ e (one n m) = cc
nothing _ _ e (star_ends y m) = cc
nothing _ _ e (star_more y m) = cc

first_is :
    (ch : ℕ) (pattern s : Bytes)
    → (ch == b'*') ≡ false
    → Matches (ch ∷ pattern) s
    → (t : Bytes) × (s ≡ ch ∷ t) × Matches pattern t
first_is ch pattern _ k (one n m) = (_, refl, m)
first_is ch pattern _ k (star_ends y m) = cc
first_is ch pattern _ k (star_more y m) = cc

module _ (d : ℕ) (pattern : Bytes) (next : Bytes → Match) (safe : (s : Bytes) → next s ≢ overrun)
    (complete : (s : Bytes) → Matches (d ∷ pattern) s → next s ≡ yes)
    (plain : (d == b'*') ≡ false) where
  or_on-yes :
      (b : Bool) (o rest : Match)
      → o ≢ overrun
      → rest ≡ yes
      → (if b then or_on o rest else rest) ≡ yes
  or_on-yes true yes rest h k = refl
  or_on-yes true no rest h k = k
  or_on-yes true overrun rest h k = absurd (h refl)
  or_on-yes false o rest h k = k

  starts : (d c : ℕ) (str t : Bytes) → c ∷ str ≡ d ∷ t → (is_special d || c == d) ≡ true
  starts d c str t e = let same : c ≡ d = cc in ground (arith, same)

  seek_complete :
      (ch : ℕ) (s : Bytes)
      → (ch == b'*') ≡ true
      → Matches (ch ∷ d ∷ pattern) s
      → seek d next s ≡ yes
  unfolding seek
  seek_complete ch [] k (star_ends y m) = let (t, e, m') = first_is d pattern [] plain m in cc
  seek_complete ch (c ∷ str) k (star_ends y m) =
      let (t, e, m') = first_is d pattern (c ∷ str) plain m in
      let test : (is_special d || c == d) ≡ true = starts d c str t e in
      rw (test, complete (c ∷ str) m) refl
  seek_complete ch (c ∷ str) k (star_more y m) =
      or_on-yes (is_special d || c == d) (next (c ∷ str)) (seek d next str) (safe (c ∷ str))
        (seek_complete ch str k m)
  seek_complete ch (c ∷ str) k (one n m) = cc

not_nil : {c : ℕ} {str : Bytes} → (c ∷ str) ≢ []
not_nil = cc

second_plain : {a b : Bool} → (a && b) ≡ false → a ≡ true → b ≡ false
second_plain {a = true} h k = h
second_plain {a = false} h k = cc

literal_complete :
    (ch : ℕ) (pattern s : Bytes) (next : Bytes → Match)
    → ((t : Bytes) → Matches pattern t → next t ≡ yes)
    → (ch == b'*') ≡ false
    → Matches (ch ∷ pattern) s
    → literal ch next s ≡ yes
unfolding literal
literal_complete ch pattern s next complete k m =
    let (t, e, m') = first_is ch pattern s k m in rw e (rw ((==_iff ch ch).1 refl) (complete t m'))

matches_complete :
    (pattern s : Bytes) → IsGlob pattern → Matches pattern s → matches pattern s ≡ yes
unfolding matches
matches_complete [] [] g m = refl
matches_complete [] (c ∷ str) g m = absurd (not_nil (nothing [] (c ∷ str) refl m))
matches_complete (ch ∷ []) s g m = elim (Bool-cases (ch == b'*')) [
  | inl y ↦ rw (g.0, y) refl
  | inr n ↦
      rw (g.0, g.1, n) (literal_complete ch [] s (matches []) (λ t. matches_complete [] t tt) n m)
]
matches_complete (ch ∷ d ∷ pattern) s g m =
    let next = matches (d ∷ pattern) in
    let complete = λ (t : Bytes). matches_complete (d ∷ pattern) t g.3 in
    elim (Bool-cases (ch == b'*')) [
      | inl y ↦
          rw (g.0, y)
            (seek_complete d pattern next (λ t. matches-safe (d ∷ pattern) t g.3) complete
              (second_plain g.2 y) ch s y m)
      | inr n ↦ rw (g.0, g.1, n) (literal_complete ch (d ∷ pattern) s next complete n m)
    ]

-- For a pattern of ordinary characters and stars, no two stars in a row, `wc_match` reads nothing
-- behind the end of the string or the pattern, and gives 1 exactly for the strings in which each
-- ordinary character stands for itself and each star for any characters.
pub wc_match_lem :
    (pattern s : Bytes)
    → IsGlob pattern
    → (matches pattern s ≢ overrun) × ((matches pattern s ≡ yes) ↔ Matches pattern s)
wc_match_lem pattern s g =
    (matches-safe pattern s g, (matches-Matches pattern s g, matches_complete pattern s g))
