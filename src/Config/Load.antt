-- ===== src/Config/Load.antt =====
-- libtnX/tnX_conf.c, `tnX_config_load`: the reader of configuration files, over the bytes of the
-- file. Bytes are below 128, where `isspace` is that of the C locale, and no name starts
-- with `]`, which would end a list that the end of the file has left open.
pub mod Lines
pub mod Print
pub mod Sections
use linux_sna.Base.{
  ℕ, zero, suc, ◌+◌, ◌-◌, Bool, true, false, not, ◌&&◌, ◌||◌, Option, none, some, List, [], ◌∷◌,
  ◌++◌, leb, ltb, ◌==◌, if◌then◌else◌, ℤ, pos, negsuc, Bytes, codes, length,
}
use linux_sna.Config.{Config, Kind, config_string, config_list, Value, text, items, set}

-- `isspace`
abbrev pub is_space : ℕ → Bool
is_space c = c == 32 || (leb 9 c && leb c 13)

-- The bytes that one `fgets(buf, sizeof(buf)-1, f)` reads at most: 127 with the NUL behind them.
abbrev pub max_line : ℕ
max_line = 126

-- A byte in front of what the same `fgets` reads further.
onto : ℕ → List Bytes → List Bytes
onto c [] = (c ∷ []) ∷ []
onto c (line ∷ lines) = (c ∷ line) ∷ lines

-- What the calls of `fgets` read, if the first of them may read `left` bytes: each stops behind a
-- newline, when `buf` is full, or at the end of the file.
unfoldable pub fgets_lines : ℕ → Bytes → List Bytes
unfolding onto
fgets_lines left [] = []
fgets_lines left (c ∷ file) = elim (c == 10 || leb left 1) [
  | true ↦ (c ∷ []) ∷ fgets_lines max_line file
  | false ↦ onto c (fgets_lines (left - 1) file)
]

-- `*strchr(buf, '\n') = '\0'`: the string in `buf`, which ends at its first NUL.
unfoldable pub chomp : Bytes → Bytes
chomp [] = []
chomp (c ∷ line) = let rest = c ∷ chomp line in if c == 10 || c == 0 then [] else rest

-- `while (*scan && isspace(*scan)) scan++`
unfoldable pub skip_spaces : Bytes → Bytes
skip_spaces [] = []
skip_spaces (c ∷ scan) = let rest = skip_spaces scan in if is_space c then rest else c ∷ scan

-- `len = strlen(scan) - 1; while (len > 0 && isspace(scan[len])) scan[len--] = '\0'` for the
-- characters behind the first, which is always kept.
unfoldable pub trim_tail : Bytes → Bytes
trim_tail [] = []
trim_tail (c ∷ scan) = elim (trim_tail scan) [
  | [] ↦ if is_space c then [] else c ∷ []
  | d ∷ rest ↦ c ∷ d ∷ rest
]

unfoldable pub trim_end : Bytes → Bytes
unfolding trim_tail
trim_end [] = []
trim_end (c ∷ scan) = c ∷ trim_tail scan

-- `strchr(scan, c) != NULL`
unfoldable pub has_char : ℕ → Bytes → Bool
has_char c [] = false
has_char c (x ∷ scan) = x == c || has_char c scan

-- The characters up to a space or `stop`, and the rest from there on.
unfoldable pub word : ℕ → Bytes → Bytes × Bytes
word stop [] = ([], [])
word stop (c ∷ scan) =
    let (w, rest) = word stop scan in
    if is_space c || c == stop then ([], c ∷ scan) else (c ∷ w, rest)

-- The name in front of which the open sections stand, each with a dot.
unfoldable pub prefixed : List Bytes → Bytes → Bytes
prefixed [] name = name
prefixed (p ∷ prefixes) name = p ++ b'.' ∷ prefixed prefixes name

-- What a call of `tnX_config_load` comes to: its result, a failed assertion, undefined behaviour,
-- or the loop over a `[` list whose file ends in it, which goes round without end.
pub data Loaded : Type 0 where
  loaded : ℤ → Config → Loaded
  aborts : Loaded
  fault : Loaded
  hangs : Loaded

-- The list being read, by the name that it will get.
abbrev pub Pending : Type 0
Pending = Option (Bytes × List Bytes)

-- What one line does: go on, or the end of the call.
pub data Next : Type 0 where
  goes_on : Config → List Bytes → Pending → Next
  bad : Next
  asserts : Next
  faults : Next

-- `tnX_config_set` in the middle of the loop
unfoldable pub after_set : List Bytes → Option Config → Next
after_set prefixes none = faults
after_set prefixes (some c) = goes_on c prefixes none

-- The line of a variable behind its name: `=` and a value, or the start of a list.
value_line : Config → List Bytes → Bytes → Bytes → Next
value_line c prefixes name [] = after_set prefixes (set c name config_string (text []))
value_line c prefixes name (v ∷ scan) =
    if v == b'['
    then goes_on c prefixes (some (name, []))
    else after_set prefixes (set c name config_string (text (trim_end (v ∷ scan))))

equals_line : Config → List Bytes → Bytes → Bytes → Next
equals_line c prefixes name [] = bad
equals_line c prefixes name (e ∷ scan) =
    if e == b'=' then value_line c prefixes name (skip_spaces scan) else bad

-- The part of a word is missing: `goto config_error`.
named_line : Config → List Bytes → Bytes × Bytes → Next
named_line c prefixes ([], rest) = bad
named_line c prefixes (x ∷ name, rest) =
    equals_line c prefixes (prefixed prefixes (x ∷ name)) (skip_spaces rest)

-- MAX_PREFIX_STACK
abbrev pub max_prefix_stack : ℕ
max_prefix_stack = 50

push_line : Config → List Bytes → Bytes × Bytes → Next
push_line c prefixes ([], rest) = bad
push_line c prefixes (x ∷ name, rest) =
    if ltb (length prefixes) max_prefix_stack
    then goes_on c (prefixes ++ (x ∷ name) ∷ []) none
    else asserts

without_last : List Bytes → Option (List Bytes)
without_last [] = none
without_last (p ∷ prefixes) = elim (without_last prefixes) [
  | none ↦ some []
  | some ps ↦ some (p ∷ ps)
]

popped : Config → Option (List Bytes) → Next
popped c none = asserts
popped c (some prefixes) = goes_on c prefixes none

-- Behind `}` there may be spaces and a comment.
pop_line : Config → List Bytes → Bytes → Next
pop_line c prefixes [] = popped c (without_last prefixes)
pop_line c prefixes (x ∷ scan) = if x == b'#' then popped c (without_last prefixes) else bad

-- A line whose first characters that are no spaces are `x` and `scan`.
scan_line : Config → List Bytes → ℕ → Bytes → Next
scan_line c prefixes x scan =
    if x == b'#'
    then goes_on c prefixes none
    else if x == b'+'
    then after_set prefixes (set c (trim_end (skip_spaces scan)) config_string (text (codes "1")))
    else if x == b'-'
    then after_set prefixes (set c (trim_end (skip_spaces scan)) config_string (text (codes "0")))
    else if has_char b'=' (x ∷ scan)
    then named_line c prefixes (word b'=' (x ∷ scan))
    else if has_char b'{' (x ∷ scan)
    then push_line c prefixes (word b'{' (x ∷ scan))
    else if x == b'}'
    then pop_line c prefixes (skip_spaces scan)
    else bad

plain_line : Config → List Bytes → Bytes → Next
plain_line c prefixes [] = goes_on c prefixes none
plain_line c prefixes (x ∷ scan) = scan_line c prefixes x scan

after_list : List Bytes → Option Config → Next
after_list prefixes none = faults
after_list prefixes (some c) = goes_on c prefixes none

-- A line of a `[` list: the end of the list, or an item.
item_line : Config → List Bytes → Bytes → List Bytes → Bytes → Next
unfolding after_list
item_line c prefixes name list [] = goes_on c prefixes (some (name, list ++ [] ∷ []))
item_line c prefixes name list (x ∷ scan) =
    if x == b']'
    then after_list prefixes (set c name config_list (items list))
    else goes_on c prefixes (some (name, list ++ (x ∷ scan) ∷ []))

unfoldable pub line_step : Config → List Bytes → Pending → Bytes → Next
unfolding plain_line scan_line named_line equals_line value_line after_set push_line pop_line popped
    without_last item_line chomp skip_spaces trim_end has_char word prefixed set
line_step c prefixes none line = plain_line c prefixes (skip_spaces (chomp line))
line_step c prefixes (some (name, list)) line =
    item_line c prefixes name list (skip_spaces (chomp line))

-- At the end of the file.
unfoldable pub at_end : Config → List Bytes → Pending → Loaded
at_end c prefixes (some p) = hangs
at_end c [] none = loaded (pos 0) c
at_end c (p ∷ prefixes) none = loaded (negsuc 0) c

abbrev pub then_line : Config → (Config → List Bytes → Pending → Loaded) → Next → Loaded
then_line c more (goes_on d prefixes pending) = more d prefixes pending
then_line c more bad = loaded (negsuc 0) c
then_line c more asserts = aborts
then_line c more faults = fault

unfoldable pub load_lines : List Bytes → Config → List Bytes → Pending → Loaded
unfolding at_end line_step
load_lines [] c prefixes pending = at_end c prefixes pending
load_lines (line ∷ lines) c prefixes pending =
    then_line c (load_lines lines) (line_step c prefixes pending line)

-- `tnX_config_load` on a file that could be opened
unfoldable pub load : Bytes → Config → Loaded
unfolding fgets_lines load_lines
load file c = load_lines (fgets_lines max_line file) c [] none
