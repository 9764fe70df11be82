-- ===== src/Wildcard/Glob.antt =====
-- Patterns of letters and single stars.
use linux_sna.Base.{
  ℕ, ◌||◌, ◌&&◌, true, false, [], ◌∷◌, ◌==◌, ==_iff, Bytes, ◌≡◌, ◌≢◌, refl, Bool-cases, inl, inr,
}
use linux_sna.Wildcard.{Match, no, yes, overrun, literal, is_special, or_on, seek, matches}

-- A star stands for any bytes, any other byte for itself.
pub data Matches : Bytes → Bytes → Type 0 where
  ends : Matches [] []
  one :
      {ch : ℕ} {pattern str : Bytes}
      → (ch == b'*') ≡ false
      → Matches pattern str
      → Matches (ch ∷ pattern) (ch ∷ str)
  star_ends :
      {ch : ℕ} {pattern str : Bytes}
      → (ch == b'*') ≡ true
      → Matches pattern str
      → Matches (ch ∷ pattern) str
  star_more :
      {ch c : ℕ} {pattern str : Bytes}
      → (ch == b'*') ≡ true
      → Matches (ch ∷ pattern) str
      → Matches (ch ∷ pattern) (c ∷ str)

-- No question mark, no backslash, and no two stars in a row.
abbrev pub IsGlob : Bytes → Type 0
IsGlob [] = Unit
IsGlob (ch ∷ []) = ((ch == b'?') ≡ false) × ((ch == b'\\') ≡ false)
IsGlob (ch ∷ d ∷ pattern) =
    ((ch == b'?') ≡ false)
    × ((ch == b'\\') ≡ false)
    × ((ch == b'*' && d == b'*') ≡ false)
    × IsGlob (d ∷ pattern)

pub stars : (ch : ℕ) (str : Bytes) → (ch == b'*') ≡ true → Matches (ch ∷ []) str
stars ch [] k = star_ends k ends
stars ch (c ∷ str) k = star_more k (stars ch str k)

no≢yes : no ≢ yes
no≢yes = cc

module _ (ch : ℕ) (pattern : Bytes) (next : Bytes → Match)
    (sound : (s : Bytes) → next s ≡ yes → Matches pattern s) where
  or_on-Matches :
      (c : ℕ) (str : Bytes) (o rest : Match)
      → (ch == b'*') ≡ true
      → (o ≡ yes → Matches pattern (c ∷ str))
      → (rest ≡ yes → Matches (ch ∷ pattern) str)
      → or_on o rest ≡ yes
      → Matches (ch ∷ pattern) (c ∷ str)
  or_on-Matches c str yes rest k now later h = star_ends k (now refl)
  or_on-Matches c str overrun rest k now later h = cc
  or_on-Matches c str no rest k now later h = star_more k (later h)

  seek-Matches :
      (first : ℕ) (s : Bytes)
      → (ch == b'*') ≡ true
      → seek first next s ≡ yes
      → Matches (ch ∷ pattern) s
  unfolding seek
  seek-Matches first [] k h = cc
  seek-Matches first (c ∷ str) k h = elim (Bool-cases (is_special first || c == first)) [
    | inl y ↦ or_on-Matches c str _ _ k (sound (c ∷ str)) (seek-Matches first str k) (rw y at h)
    | inr n ↦ star_more k (seek-Matches first str k (rw n at h))
  ]

  literal-Matches :
      (s : Bytes) → (ch == b'*') ≡ false → literal ch next s ≡ yes → Matches (ch ∷ pattern) s
  unfolding literal
  literal-Matches [] k h = cc
  literal-Matches (c ∷ str) k h = elim (Bool-cases (c == ch)) [
    | inl y ↦ rw ((==_iff c ch).0 y) (one k (sound str (rw y at h)))
    | inr n ↦ absurd (no≢yes (rw n at h))
  ]

pub matches-Matches :
    (pattern s : Bytes) → IsGlob pattern → matches pattern s ≡ yes → Matches pattern s
unfolding matches
matches-Matches [] [] g h = ends
matches-Matches [] (c ∷ str) g h = cc
matches-Matches (ch ∷ []) s g h = elim (Bool-cases (ch == b'*')) [
  | inl y ↦ stars ch s y
  | inr n ↦
      literal-Matches ch [] (matches []) (λ t. matches-Matches [] t tt) s n (rw (g.0, g.1, n) at h)
]
matches-Matches (ch ∷ d ∷ pattern) s g h =
    let sound = λ (t : Bytes). matches-Matches (d ∷ pattern) t g.3 in
    elim (Bool-cases (ch == b'*')) [
      | inl y ↦ seek-Matches ch (d ∷ pattern) (matches (d ∷ pattern)) sound d s y (rw (g.0, y) at h)
      | inr n ↦
          literal-Matches ch (d ∷ pattern) (matches (d ∷ pattern)) sound s n (rw (g.0, g.1, n) at h)
    ]
