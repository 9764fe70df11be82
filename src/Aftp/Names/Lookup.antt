-- ===== src/Aftp/Names/Lookup.antt =====
-- What `get_code_string` finds.
use linux_sna.Base.{
  ℕ, zero, suc, ◌+◌, ◌<◌, List, [], ◌∷◌, ltb, ◌==◌, if◌then◌else◌, Bytes, length, Option, none,
  some, get_elem?, ◌≡◌, refl, arith, true, false,
}
use linux_sna.Asuite.Codes.{rc_ok}
use linux_sna.Aftp.Names.{get_code_string, numbered}

-- The code and the text for an entry that is there, if the text is shorter than the buffer.
abbrev pub text_of : ℕ → Option Bytes → Option (ℕ × Bytes)
text_of size none = none
text_of size (some text) = if ltb (length text) size then some (rc_ok, text) else none

numbered-under :
    (texts : List Bytes) (first code size : ℕ)
    → code < first
    → code < 4294967295
    → get_code_string (numbered first texts) code size ≡ none
unfolding get_code_string
numbered-under [] first code size lt small =
    let other : (4294967295 == code) ≡ false = ground arith in rw other refl
numbered-under (t ∷ texts) first code size lt small =
    let other : (first == code) ≡ false = ground arith in
    rw other (numbered-under texts (suc first) code size (omega arith) small)

numbered_lem :
    (texts : List Bytes) (first i size : ℕ)
    → first + i < 4294967295
    → get_code_string (numbered first texts) (first + i) size ≡ text_of size (get_elem? texts i)
unfolding get_code_string
numbered_lem [] first i size small =
    let other : (4294967295 == first + i) ≡ false = ground arith in rw other refl
numbered_lem (t ∷ texts) first zero size small =
    let here : (first == first + 0) ≡ true = ground arith in
    let rest = numbered-under texts (suc first) (first + 0) size (omega arith) small in
    rw (here, rest) (ground arith)
numbered_lem (t ∷ texts) first (suc i) size small =
    let other : (first == first + suc i) ≡ false = ground arith in
    let next : first + suc i ≡ suc first + i = omega arith in
    rw (other, next) (numbered_lem texts (suc first) i size (omega arith))

-- For a map of texts numbered from 0 and a code below that of its last entry: `get_code_string`
-- gives AFTP_RC_OK and the text, if the map has the code and the text is shorter than the
-- caller's buffer; if not, it reads behind the map or writes behind the buffer.
pub get_code_string_lem :
    (texts : List Bytes) (code size : ℕ)
    → code < 4294967295
    → get_code_string (numbered 0 texts) code size ≡ text_of size (get_elem? texts code)
get_code_string_lem texts code size small =
    let same : 0 + code ≡ code = omega arith in
    let found = numbered_lem texts 0 code size (omega arith) in rw same at found
