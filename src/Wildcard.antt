-- ===== src/Wildcard.antt =====
-- libasuite/wildcard.c: `wc_match`. Strings and patterns are their bytes before the NUL.
pub mod Exact
pub mod Glob
use linux_sna.Base.{ℕ, Bool, ◌||◌, [], ◌∷◌, ◌==◌, if◌then◌else◌, Bytes}

-- The result, or that a byte behind the NUL of the string or the pattern is read.
pub data Match : Type 0 where
  no yes overrun : Match

-- The rest of the pattern when `str` points behind the NUL: only a last `*` does not read it.
past : Bytes → Match
past [] = overrun
past (ch ∷ []) = if ch == b'*' then yes else overrun
past (ch ∷ d ∷ pattern) = overrun

-- case '?'
any : Bytes → (Bytes → Match) → Bytes → Match
unfolding past
any pattern next [] = past pattern
any pattern next (c ∷ str) = next str

-- the default case
unfoldable pub literal : ℕ → (Bytes → Match) → Bytes → Match
literal ch next [] = no
literal ch next (c ∷ str) = if c == ch then next str else no

-- A backslash at the end of the pattern: its NUL is compared, and what is behind it read.
trailing : Bytes → Match
trailing [] = overrun
trailing (c ∷ str) = no

abbrev pub is_special : ℕ → Bool
is_special ch = ch == b'?' || ch == b'\\' || ch == b'*'

abbrev pub or_on : Match → Match → Match
or_on yes rest = yes
or_on overrun rest = overrun
or_on no rest = rest

-- case '*' with more of the pattern behind it, which starts with `first`
unfoldable pub seek : ℕ → (Bytes → Match) → Bytes → Match
seek first next [] = no
seek first next (c ∷ str) =
    let rest = seek first next str in
    if is_special first || c == first then or_on (next (c ∷ str)) rest else rest

-- `wc_match`, the pattern first
unfoldable pub matches : Bytes → Bytes → Match
unfolding any literal trailing seek
matches [] [] = yes
matches [] (c ∷ str) = no
matches (ch ∷ []) str =
    if ch == b'?'
    then any [] (matches []) str
    else if ch == b'*'
    then yes
    else if ch == b'\\'
    then trailing str
    else literal ch (matches []) str
matches (ch ∷ d ∷ pattern) str =
    if ch == b'?'
    then any (d ∷ pattern) (matches (d ∷ pattern)) str
    else if ch == b'*'
    then seek d (matches (d ∷ pattern)) str
    else if ch == b'\\'
    then literal d (matches pattern) str
    else literal ch (matches (d ∷ pattern)) str
