-- ===== src/Record/Read.antt =====
-- Reading a record to its end with `tnX_record_get_byte`.
use native.Mathlib.Numerals.{add-one}
use linux_sna.Base.{
  ℕ, zero, suc, ◌+◌, ◌-◌, ◌≤◌, ◌<◌, Option, none, some, [], ◌∷◌, ◌≡◌, refl, sym, ap, ◌∙◌, arith,
  Bytes, length, get_or, drop,
}
use linux_sna.Buffer.Contents.{Holds, Holds-length}
use linux_sna.Record.{Rec, get_byte, set_cur_pos}

abbrev consed : ℕ → Option Bytes → Option Bytes
consed c none = none
consed c (some xs) = some (c ∷ xs)

abbrev then_read : (Rec → Option Bytes) → Option (ℕ × Rec) → Option Bytes
then_read more none = none
then_read more (some (c, r)) = consed c (more r)

-- So many calls of `tnX_record_get_byte`; `none` when the assertion of one fails.
pub read_bytes : ℕ → Rec → Option Bytes
read_bytes zero r = some []
read_bytes (suc n) r = then_read (read_bytes n) (get_byte r)

drop-get_or : (xs : Bytes) (k : ℕ) → k < length xs → drop k xs ≡ get_or xs k 0 ∷ drop (suc k) xs
drop-get_or [] k h = absurd (omega arith)
drop-get_or (x ∷ xs) zero h = ground arith
drop-get_or (x ∷ xs) (suc k) h = drop-get_or xs k (omega arith)

get_byte-inside :
    (r : Rec) (xs : Bytes)
    → Holds r.buffer xs
    → r.cur_pos < length xs
    → get_byte r ≡ some (get_or xs r.cur_pos 0, set_cur_pos r (r.cur_pos + 1))
unfolding get_byte
get_byte-inside r xs h lt =
    let back : r.cur_pos + 1 - 1 ≡ r.cur_pos = omega arith in
    rw (h.bytes, back) (ground (arith, Holds-length h))

drop-all : (xs : Bytes) (k : ℕ) → k ≡ length xs → drop k xs ≡ []
drop-all [] zero h = refl
drop-all [] (suc k) h = refl
drop-all (x ∷ xs) zero h = absurd (omega arith)
drop-all (x ∷ xs) (suc k) h = drop-all xs k (omega arith)

read_bytes-drop :
    (n : ℕ) (r : Rec) (xs : Bytes)
    → Holds r.buffer xs
    → r.cur_pos + n ≡ length xs
    → read_bytes n r ≡ some (drop r.cur_pos xs)
unfolding read_bytes
read_bytes-drop zero r xs h e = rw (drop-all xs r.cur_pos (omega arith)) refl
read_bytes-drop (suc n) r xs h e =
    let step = get_byte-inside r xs h (omega arith) in
    let rest = read_bytes-drop n (set_cur_pos r (r.cur_pos + 1)) xs h (omega arith) in
    let at : drop r.cur_pos xs ≡ get_or xs r.cur_pos 0 ∷ drop (r.cur_pos + 1) xs =
      rw add-one (drop-get_or xs r.cur_pos (omega arith)) in
    ap (then_read (read_bytes n)) step ∙ ap (consed (get_or xs r.cur_pos 0)) rest ∙ ap some (sym at)

get_byte-end :
    (r : Rec) (xs : Bytes) → Holds r.buffer xs → length xs ≤ r.cur_pos → get_byte r ≡ none
unfolding get_byte
get_byte-end r xs h le = ground (arith, Holds-length h)

-- A record over a well-formed buffer that holds `xs`, with its position inside or at the end:
-- calls of `tnX_record_get_byte` give the bytes from there on in order, as many as are left,
-- and the call after them fails its assertion.
pub read_bytes_lem :
    (r : Rec) (xs : Bytes)
    → Holds r.buffer xs
    → r.cur_pos ≤ length xs
    → (read_bytes (length xs - r.cur_pos) r ≡ some (drop r.cur_pos xs))
      × (get_byte (set_cur_pos r (length xs)) ≡ none)
read_bytes_lem r xs h le = (
  read_bytes-drop (length xs - r.cur_pos) r xs h (omega arith),
  get_byte-end (set_cur_pos r (length xs)) xs h (omega arith),
)
