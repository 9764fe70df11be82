-- ===== src/Config/Load/Lines.antt =====
-- The calls of `fgets` by libtnX/tnX_conf.c on a file of short lines.
use linux_sna.Base.{
  ℕ, ◌-◌, ◌≤◌, false, List, [], ◌∷◌, ◌++◌, ◌≡◌, refl, ap, ◌∙◌, arith, ◌==◌, leb, Bytes, All, length,
}
use linux_sna.Config.Load.{max_line, onto, fgets_lines}

-- A byte in the middle of a line
abbrev pub IsLineChar : ℕ → Type 0
IsLineChar c = ((c == 10) ≡ false) × ((c == 0) ≡ false)

-- A line that ends in its only newline, and that one call of `fgets` reads.
abbrev pub IsLine : Bytes → Type 0
IsLine line =
    (body : Bytes) × (line ≡ body ++ 10 ∷ []) × All IsLineChar body × (length line ≤ max_line)

-- The file of these lines
abbrev pub file_of : List Bytes → Bytes
file_of [] = []
file_of (line ∷ lines) = line ++ file_of lines

fgets_lines-step :
    (c : ℕ) (file : Bytes) (left : ℕ)
    → (c == 10) ≡ false
    → leb left 1 ≡ false
    → fgets_lines left (c ∷ file) ≡ onto c (fgets_lines (left - 1) file)
unfolding fgets_lines
fgets_lines-step c file left other not_full = rw (other, not_full, fgets_lines) refl

fgets_lines-line :
    (body rest : Bytes) (left : ℕ)
    → All IsLineChar body
    → length (body ++ 10 ∷ []) ≤ left
    → fgets_lines left ((body ++ 10 ∷ []) ++ rest) ≡ (body ++ 10 ∷ []) ∷ fgets_lines max_line rest
unfolding fgets_lines onto
fgets_lines-line [] rest left h fits = refl
fgets_lines-line (c ∷ body) rest left h fits =
    let behind : 1 ≤ length (body ++ 10 ∷ []) = length-line body in
    let not_full : leb left 1 ≡ false = ground (arith, behind) in
    fgets_lines-step c ((body ++ 10 ∷ []) ++ rest) left h.0.0 not_full
    ∙ ap (onto c) (fgets_lines-line body rest (left - 1) h.1 (omega (arith, behind)))
  where
    length-line : (xs : Bytes) → 1 ≤ length (xs ++ 10 ∷ [])
    length-line [] = omega arith
    length-line (x ∷ xs) = omega arith

pub fgets_lines-file_of :
    (lines : List Bytes) → All IsLine lines → fgets_lines max_line (file_of lines) ≡ lines
unfolding fgets_lines
fgets_lines-file_of [] h = refl
fgets_lines-file_of (line ∷ lines) h =
    let one = h.0 in
    let fits = one.3 in
    let rest = file_of lines in
    rw one.1 (
      fgets_lines-line one.0 rest max_line one.2 (rw (← one.1) fits)
      ∙ ap (λ ls. (one.0 ++ 10 ∷ []) ∷ ls) (fgets_lines-file_of lines h.1))
