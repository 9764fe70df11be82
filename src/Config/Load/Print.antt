-- ===== src/Config/Load/Print.antt =====
-- Files of sections and variables, and what the reader makes of them.
use linux_sna.Base.{
  ℕ, true, false, Option, none, some, List, [], ◌∷◌, ◌++◌, map, ◌≡◌, refl, ap, ◌∙◌, arith, ◌==◌,
  Bytes, All, ◌≤◌, length,
}
use linux_sna.Config.{Config, config_string, text, set}
use linux_sna.Config.Load.Lines.{IsLineChar, IsLine}
use linux_sna.Config.Load.{
  is_space, max_line, chomp, skip_spaces, trim_end, has_char, word, prefixed, after_set, value_line,
  equals_line, named_line, scan_line, plain_line, line_step, then_line, load_lines,
}

-- A variable and its text.
pub record Entry : Type 0 where
  pub name : Bytes
  pub value : Bytes

-- `name=value`, and the end of the line
abbrev pub entry_line : Entry → Bytes
entry_line e = (e.name ++ b'=' ∷ e.value) ++ 10 ∷ []

abbrev pub IsNameChar : ℕ → Type 0
IsNameChar c = (is_space c ≡ false) × ((c == b'=') ≡ false) × ((c == 0) ≡ false)

-- What a line may start with.
abbrev pub IsStart : Bytes → Type 0
IsStart [] = ⊥
IsStart (x ∷ name) = ((x == b'#') ≡ false) × ((x == b'+') ≡ false) × ((x == b'-') ≡ false)

abbrev pub IsNoBracket : Bytes → Type 0
IsNoBracket [] = Unit
IsNoBracket (x ∷ v) = (x == b'[') ≡ false

-- A variable that can be written on one line: a name with no space and no `=`, and a value with
-- no newline, no spaces at its ends and no `[` at its start, both with no NUL, on a line of at most
-- 126 bytes.
pub record IsEntry (e : Entry) : Type 0 where
  pub start : IsStart e.name
  pub chars : All IsNameChar e.name
  pub one_line : All IsLineChar e.value
  pub unspaced : skip_spaces e.value ≡ e.value
  pub trimmed : trim_end e.value ≡ e.value
  pub no_list : IsNoBracket e.value
  pub fits : length (entry_line e) ≤ max_line

pub chomp-line : (xs : Bytes) → All IsLineChar xs → chomp (xs ++ 10 ∷ []) ≡ xs
unfolding chomp
chomp-line [] h = refl
chomp-line (c ∷ xs) h = rw (h.0.0, h.0.1) (ap (◌∷◌ c) (chomp-line xs h.1))

pub All-append : (xs ys : Bytes) → All IsLineChar xs → All IsLineChar ys → All IsLineChar (xs ++ ys)
All-append [] ys h k = k
All-append (x ∷ xs) ys h k = (h.0, All-append xs ys h.1 k)

name_char-newline : (c : ℕ) → IsNameChar c → IsLineChar c
name_char-newline c h = let space = h.0 in (ground (arith, space), h.2)

pub names-newline : (xs : Bytes) → All IsNameChar xs → All IsLineChar xs
names-newline [] h = tt
names-newline (x ∷ xs) h = (name_char-newline x h.0, names-newline xs h.1)

has_char-append : (xs ys : Bytes) → has_char b'=' (xs ++ b'=' ∷ ys) ≡ true
unfolding has_char
has_char-append [] ys = refl
has_char-append (x ∷ xs) ys = ground (arith, has_char-append xs ys)

word-name : (xs ys : Bytes) → All IsNameChar xs → word b'=' (xs ++ b'=' ∷ ys) ≡ (xs, b'=' ∷ ys)
unfolding word
word-name [] ys h = refl
word-name (x ∷ xs) ys h = rw (h.0.0, h.0.1, word-name xs ys h.1)

value_line_lem :
    (c : Config) (prefixes : List Bytes) (name v : Bytes)
    → trim_end v ≡ v
    → IsNoBracket v
    → value_line c prefixes name v ≡ after_set prefixes (set c name config_string (text v))
unfolding value_line
value_line_lem c prefixes name [] t h = refl
value_line_lem c prefixes name (x ∷ v) t h = rw (h, t)

equals_line_lem :
    (c : Config) (prefixes : List Bytes) (name v : Bytes)
    → equals_line c prefixes name (skip_spaces (b'=' ∷ v))
      ≡ value_line c prefixes name (skip_spaces v)
unfolding equals_line skip_spaces
equals_line_lem c prefixes name v = refl

plain_line-entry :
    (c : Config) (prefixes : List Bytes) (name v : Bytes)
    → IsStart name
    → All IsNameChar name
    → skip_spaces v ≡ v
    → trim_end v ≡ v
    → IsNoBracket v
    → plain_line c prefixes (skip_spaces (name ++ b'=' ∷ v))
      ≡ after_set prefixes (set c (prefixed prefixes name) config_string (text v))
unfolding plain_line scan_line named_line skip_spaces
plain_line-entry c prefixes [] v s h u t l = absurd s
plain_line-entry c prefixes (x ∷ name) v s h u t l =
    rw (h.0.0, s.0, s.1, s.2)
      (rw (has_char-append (x ∷ name) v) (
        rw (word-name (x ∷ name) v h) (
          equals_line_lem c prefixes (prefixed prefixes (x ∷ name)) v
          ∙ rw u (value_line_lem c prefixes (prefixed prefixes (x ∷ name)) v t l))))

line_step-entry :
    (c : Config) (prefixes : List Bytes) (e : Entry)
    → IsEntry e
    → line_step c prefixes none (entry_line e)
      ≡ after_set prefixes (set c (prefixed prefixes e.name) config_string (text e.value))
unfolding line_step
line_step-entry c prefixes e h =
    let line = e.name ++ b'=' ∷ e.value in
    let plain =
      All-append e.name (b'=' ∷ e.value) (names-newline e.name h.chars)
        ((refl, refl), h.one_line) in
    ap (λ l. plain_line c prefixes (skip_spaces l)) (chomp-line line plain)
    ∙ plain_line-entry c prefixes e.name e.value h.start h.chars h.unspaced h.trimmed h.no_list

pub entry_line-IsLine : (e : Entry) → IsEntry e → IsLine (entry_line e)
entry_line-IsLine e h = (
  e.name ++ b'=' ∷ e.value,
  refl,
  All-append e.name (b'=' ∷ e.value) (names-newline e.name h.chars) ((refl, refl), h.one_line),
  h.fits,
)

-- The calls of `tnX_config_set` for these variables, in the sections of `prefixes`.
abbrev pub set_then : (Config → Option Config) → Option Config → Option Config
set_then next none = none
set_then next (some c) = next c

unfoldable pub set_all : List Bytes → List Entry → Config → Option Config
set_all prefixes [] c = some c
set_all prefixes (e ∷ es) c =
    set_then (set_all prefixes es) (set c (prefixed prefixes e.name) config_string (text e.value))

pub load_lines-entries :
    (es : List Entry) (rest : List Bytes) (prefixes : List Bytes) (c d : Config)
    → All IsEntry es
    → set_all prefixes es c ≡ some d
    → load_lines (map entry_line es ++ rest) c prefixes none ≡ load_lines rest d prefixes none
unfolding set_all load_lines
load_lines-entries [] rest prefixes c d h e = ap (λ o. load_lines rest (or_else o) prefixes none) e
  where
    or_else : Option Config → Config
    or_else none = c
    or_else (some x) = x
load_lines-entries (x ∷ es) rest prefixes c d h e = rw (line_step-entry c prefixes x h.0) (
    at_set (set c (prefixed prefixes x.name) config_string (text x.value)) e
      (λ c' e'. load_lines-entries es rest prefixes c' d h.1 e'))
  where
    at_set :
        (o : Option Config)
        → set_then (set_all prefixes es) o ≡ some d
        → ((c' : Config)
            → set_all prefixes es c' ≡ some d
            → load_lines (map entry_line es ++ rest) c' prefixes none
              ≡ load_lines rest d prefixes none)
        → then_line c (load_lines (map entry_line es ++ rest)) (after_set prefixes o)
          ≡ load_lines rest d prefixes none
    at_set none e ih = cc
    at_set (some c') e ih = ih c' e
