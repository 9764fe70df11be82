-- ===== src/Config/Load/Sections.antt =====
-- Files with sections, and the whole file.
use mathlib.Core.List.{append_assoc}
use linux_sna.Base.{
  ℕ, true, false, Option, none, some, List, [], ◌∷◌, ◌++◌, map, ◌≡◌, refl, ap, ◌∙◌, arith, ◌==◌,
  pos, Bytes, All, ◌≤◌, length,
}
use linux_sna.Config.{Config}
use linux_sna.Config.Load.Lines.{IsLine, file_of, fgets_lines-file_of}
use linux_sna.Config.Load.{
  max_line, skip_spaces, has_char, word, goes_on, push_line, scan_line, plain_line, line_step,
  at_end, load_lines, load, loaded,
}
use linux_sna.Config.Load.Print.{
  Entry, entry_line, entry_line-IsLine, IsEntry, IsStart, IsNameChar, chomp-line, All-append,
  names-newline, set_then, set_all, load_lines-entries,
}

-- A section with its variables, written `title {`, a line for each variable, and `}`.
pub record Section : Type 0 where
  pub title : Bytes
  pub entries : List Entry

abbrev opening : Bytes → Bytes
opening title = title ++ 32 ∷ b'{' ∷ []

abbrev pub section_lines : Section → List Bytes
section_lines x = (opening x.title ++ 10 ∷ []) ∷ (map entry_line x.entries ++ (b'}' ∷ 10 ∷ []) ∷ [])

abbrev pub IsNoBrace : ℕ → Type 0
IsNoBrace c = (c == b'{') ≡ false

pub record IsSection (x : Section) : Type 0 where
  pub start : IsStart x.title
  pub chars : All IsNameChar x.title
  pub no_brace : All IsNoBrace x.title
  pub entries_ok : All IsEntry x.entries
  pub fits : length (opening x.title ++ 10 ∷ []) ≤ max_line

has_char-opening : (t : Bytes) → All IsNameChar t → has_char b'=' (opening t) ≡ false
unfolding has_char
has_char-opening [] h = refl
has_char-opening (x ∷ t) h = rw h.0.1 (has_char-opening t h.1)

has_char-brace : (t : Bytes) → has_char b'{' (opening t) ≡ true
unfolding has_char
has_char-brace [] = refl
has_char-brace (x ∷ t) = ground (arith, has_char-brace t)

word-opening :
    (t : Bytes) → All IsNameChar t → All IsNoBrace t → word b'{' (opening t) ≡ (t, 32 ∷ b'{' ∷ [])
unfolding word
word-opening [] h k = refl
word-opening (x ∷ t) h k = rw (h.0.0, k.0, word-opening t h.1 k.1)

plain_line-opening :
    (c : Config) (t : Bytes)
    → IsStart t
    → All IsNameChar t
    → All IsNoBrace t
    → plain_line c [] (skip_spaces (opening t)) ≡ goes_on c (t ∷ []) none
unfolding plain_line scan_line push_line skip_spaces
plain_line-opening c [] s h k = absurd s
plain_line-opening c (x ∷ t) s h k =
    rw (h.0.0, s.0, s.1, s.2)
      (rw (has_char-opening (x ∷ t) h)
        (rw (has_char-brace (x ∷ t)) (rw (word-opening (x ∷ t) h k))))

line_step-opening :
    (c : Config) (x : Section)
    → IsSection x
    → line_step c [] none (opening x.title ++ 10 ∷ []) ≡ goes_on c (x.title ∷ []) none
unfolding line_step
line_step-opening c x h =
    let plain =
      All-append x.title (32 ∷ b'{' ∷ []) (names-newline x.title h.chars)
        ((refl, refl), ((refl, refl), tt)) in
    ap (λ l. plain_line c [] (skip_spaces l)) (chomp-line (opening x.title) plain)
    ∙ plain_line-opening c x.title h.start h.chars h.no_brace

load_lines-closing :
    (c : Config) (t : Bytes) (rest : List Bytes)
    → load_lines ((b'}' ∷ 10 ∷ []) ∷ rest) c (t ∷ []) none ≡ load_lines rest c [] none
unfolding load_lines
load_lines-closing c t rest = refl

-- The variables of the sections, each with its section's title and a dot in front.
unfoldable pub set_sections : List Section → Config → Option Config
set_sections [] c = some c
set_sections (x ∷ xs) c = set_then (set_sections xs) (set_all (x.title ∷ []) x.entries c)

abbrev pub print_sections : List Section → List Bytes
print_sections [] = []
print_sections (x ∷ xs) = section_lines x ++ print_sections xs

load_lines-sections :
    (xs : List Section) (c d : Config)
    → All IsSection xs
    → set_sections xs c ≡ some d
    → load_lines (print_sections xs) c [] none ≡ loaded (pos 0) d
unfolding set_sections load_lines at_end
load_lines-sections [] c d h e = ap (λ o. loaded (pos 0) (or_else o)) e
  where
    or_else : Option Config → Config
    or_else none = c
    or_else (some x) = x
load_lines-sections (x ∷ xs) c d h e =
    rw (line_step-opening c x h.0) (
      at_set (set_all (x.title ∷ []) x.entries c) refl e
        (λ c' f. load_lines-sections xs c' d h.1 f))
  where
    rest : List Bytes
    rest = (b'}' ∷ 10 ∷ []) ∷ print_sections xs

    shape :
        load_lines
          ((map entry_line x.entries ++ (b'}' ∷ 10 ∷ []) ∷ []) ++ print_sections xs)
          c
          (x.title ∷ [])
          none
        ≡ load_lines (map entry_line x.entries ++ rest) c (x.title ∷ []) none
    shape =
        ap (λ l. load_lines l c (x.title ∷ []) none) (append_assoc (map entry_line x.entries) _ _)

    at_set :
        (o : Option Config)
        → set_all (x.title ∷ []) x.entries c ≡ o
        → set_then (set_sections xs) o ≡ some d
        → ((c' : Config)
            → set_sections xs c' ≡ some d
            → load_lines (print_sections xs) c' [] none ≡ loaded (pos 0) d)
        → load_lines
            ((map entry_line x.entries ++ (b'}' ∷ 10 ∷ []) ∷ []) ++ print_sections xs)
            c
            (x.title ∷ [])
            none
          ≡ loaded (pos 0) d
    at_set none q e ih = cc
    at_set (some c') q e ih =
        shape
        ∙ load_lines-entries x.entries rest (x.title ∷ []) c c' h.0.entries_ok q
        ∙ load_lines-closing c' x.title (print_sections xs)
        ∙ ih c' e

All-append-lines : (xs ys : List Bytes) → All IsLine xs → All IsLine ys → All IsLine (xs ++ ys)
All-append-lines [] ys h k = k
All-append-lines (x ∷ xs) ys h k = (h.0, All-append-lines xs ys h.1 k)

entries-IsLine : (es : List Entry) → All IsEntry es → All IsLine (map entry_line es)
entries-IsLine [] h = tt
entries-IsLine (e ∷ es) h = (entry_line-IsLine e h.0, entries-IsLine es h.1)

section_lines-IsLine : (x : Section) → IsSection x → All IsLine (section_lines x)
section_lines-IsLine x h = (
  (
    opening x.title,
    refl,
    All-append x.title (32 ∷ b'{' ∷ []) (names-newline x.title h.chars)
        ((refl, refl), ((refl, refl), tt)),
    h.fits,
  ),
  All-append-lines (map entry_line x.entries) ((b'}' ∷ 10 ∷ []) ∷ [])
      (entries-IsLine x.entries h.entries_ok)
      ((b'}' ∷ [], refl, ((refl, refl), tt), omega arith), tt),
)

print_sections-IsLine : (xs : List Section) → All IsSection xs → All IsLine (print_sections xs)
print_sections-IsLine [] h = tt
print_sections-IsLine (x ∷ xs) h =
    All-append-lines (section_lines x) (print_sections xs) (section_lines-IsLine x h.0)
      (print_sections-IsLine xs h.1)

-- The file of these variables and sections
abbrev pub print : List Entry → List Section → Bytes
print es xs = file_of (map entry_line es ++ print_sections xs)

-- For variables and sections of variables that can be written (a name with no
-- space, `=` or mark of the syntax; a value on one line with no space at its ends and no `[` at its
-- start; a title with no space, `=` or brace; no NUL in any of them; each line of at most 126 bytes
-- with its newline, which one `fgets` reads), `tnX_config_load` on the file of the lines
-- `name=value` and `title {`, `name=value`, `}` returns 0 and the configuration that the calls of
-- `tnX_config_set` for `name` and for `title.name`, in this order, make of the one it was given,
-- when these calls are defined.
pub load-print :
    (es : List Entry) (xs : List Section) (c c' d : Config)
    → All IsEntry es
    → All IsSection xs
    → set_all [] es c ≡ some c'
    → set_sections xs c' ≡ some d
    → load (print es xs) c ≡ loaded (pos 0) d
unfolding load
load-print es xs c c' d h k e f =
    let lines = map entry_line es ++ print_sections xs in
    let short =
      All-append-lines (map entry_line es) (print_sections xs) (entries-IsLine es h)
        (print_sections-IsLine xs k) in
    ap (λ ls. load_lines ls c [] none) (fgets_lines-file_of lines short)
    ∙ load_lines-entries es (print_sections xs) [] c c' h e
    ∙ load_lines-sections xs c' d k f
