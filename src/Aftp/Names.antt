-- ===== src/Aftp/Names.antt =====
-- libasuite/libaftp.c: the names of codes, `get_code_string` and its maps.
pub mod Lookup
use mathlib.Core.Option
use linux_sna.Base.{
  ℕ, suc, List, [], ◌∷◌, ltb, leb, ◌==◌, if◌then◌else◌, Bytes, codes, length, Option, none, some,
}
use linux_sna.Asuite.Codes.{rc_ok}

-- A `codemap`: the entries up to the one with the code -1 and no text, which they include.
abbrev pub CodeMap : Type 0
CodeMap = List (ℕ × Bytes)

-- `strlen(map[curindex].string) <= string_size` and then `strcpy`, for which the NUL must fit too;
-- a text that is too long does not end the loop.
abbrev pub copy_or : Bytes → ℕ → Option (ℕ × Bytes) → Option (ℕ × Bytes)
copy_or text size rest =
    if leb (length text) size
    then if ltb (length text) size then some (rc_ok, text) else none
    else rest

-- `get_code_string`: the return code and the text stored, or `none` if memory that is not its own
-- is read or written. A code is unsigned, so the test `>= 0` never ends the loop, which goes
-- on behind the map.
unfoldable pub get_code_string : CodeMap → ℕ → ℕ → Option (ℕ × Bytes)
get_code_string [] code size = none
get_code_string (entry ∷ entries) code size =
    let rest = get_code_string entries code size in
    if entry.0 == code then copy_or entry.1 size rest else rest

-- {-1, ""}: the code is the largest `unsigned long`, of 32 bits here
abbrev pub last_entry : ℕ × Bytes
last_entry = (4294967295, [])

-- The texts for the codes from `code` on, and the last entry.
abbrev pub numbered : ℕ → List Bytes → CodeMap
numbered code [] = last_entry ∷ []
numbered code (text ∷ texts) = (code, text) ∷ numbered (suc code) texts

abbrev pub data_types : List Bytes
data_types = codes "ASCII" ∷ codes "BINARY" ∷ []

abbrev pub date_modes : List Bytes
date_modes = codes "OLD" ∷ codes "NEW" ∷ []

abbrev pub record_formats : List Bytes
record_formats =
    codes "Default"
    ∷ codes "V"
    ∷ codes "VA"
    ∷ codes "VB"
    ∷ codes "VM"
    ∷ codes "VS"
    ∷ codes "VBA"
    ∷ codes "VBM"
    ∷ codes "VBS"
    ∷ codes "VSA"
    ∷ codes "VSM"
    ∷ codes "VBSA"
    ∷ codes "VBSM"
    ∷ codes "F"
    ∷ codes "FA"
    ∷ codes "FB"
    ∷ codes "FM"
    ∷ codes "FBA"
    ∷ codes "FBM"
    ∷ codes "FBS"
    ∷ codes "FBSM"
    ∷ codes "FBSA"
    ∷ codes "U"
    ∷ codes "UA"
    ∷ codes "UM"
    ∷ []

abbrev pub write_modes : List Bytes
write_modes = codes "REPLACE" ∷ codes "APPEND" ∷ codes "NOREPLACE" ∷ codes "STOREUNIQUE" ∷ []

-- `aftp_get_data_type_string`
unfoldable pub get_data_type_string : ℕ → ℕ → Option (ℕ × Bytes)
unfolding get_code_string
get_data_type_string = get_code_string (numbered 0 data_types)

-- `aftp_get_date_mode_string`
unfoldable pub get_date_mode_string : ℕ → ℕ → Option (ℕ × Bytes)
unfolding get_code_string
get_date_mode_string = get_code_string (numbered 0 date_modes)

-- `aftp_get_record_format_string`
unfoldable pub get_record_format_string : ℕ → ℕ → Option (ℕ × Bytes)
unfolding get_code_string
get_record_format_string = get_code_string (numbered 0 record_formats)

-- `aftp_get_write_mode_string`
unfoldable pub get_write_mode_string : ℕ → ℕ → Option (ℕ × Bytes)
unfolding get_code_string
get_write_mode_string = get_code_string (numbered 0 write_modes)
