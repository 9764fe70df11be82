-- ===== src/Host/Errors.antt =====
-- The messages of tn3270d/tn3270_host.c: `getErrMsg` and `processErr`.
use linux_sna.Base.{
  ℕ, ◌+◌, ◌*◌, not, ◌&&◌, ◌||◌, List, [], ◌∷◌, ◌==◌, if◌then◌else◌, Bytes, codes, get_or,
}

-- The cases of `getErrMsg`, less those for JAPAN.
abbrev pub help_texts : List (ℕ × Bytes)
help_texts =
    (0x01, codes "Keyboard overrun.")
    ∷ (0x04, codes "Entry of data not allowed in this input/output field.")
    ∷ (0x05, codes "Cursor in protected area of display.")
    ∷ (0x06, codes "Key pressed following System Request key was not valid.")
    ∷ (0x07, codes "Mandatory data entry field. Must have data entered.")
    ∷ (0x08, codes "Field requires alphabetic characters.")
    ∷ (0x09, codes "Field requires numeric characters.")
    ∷ (0x10, codes "Only characters 0 through 9 allowed.")
    ∷ (0x11, codes "Key for sign position of field not valid.")
    ∷ (0x12, codes "No room to insert data.")
    ∷ (0x14, codes "Mandatory fill field. Must fill to exit.")
    ∷ (0x15, codes "Modulo 10 or 11 check digit error.")
    ∷ (0x16, codes "Field Minus key not valid in field.")
    ∷ (0x18, codes "The key used to exit field not valid.")
    ∷ (0x19, codes "Duplicate key or Field Mark key not allowed in field.")
    ∷ (0x20, codes "Enter key not allowed in field.")
    ∷ (0x26, codes "Field- entry not allowed.")
    ∷ (0x27, codes "Cannot use undefined key.")
    ∷ []

-- The entry with the code, or the text of the default case.
unfoldable pub text_for : List (ℕ × Bytes) → ℕ → Bytes → Bytes
text_for [] code default = default
text_for ((c, msg) ∷ table) code default = if c == code then msg else text_for table code default

-- `getErrMsg`
unfoldable pub get_err_msg : ℕ → Bytes
unfolding text_for
get_err_msg ecode = text_for help_texts ecode (codes "No help text is available.")

-- dsnrMsgTable, up to its last entry
abbrev pub dsnr_msg_table : List (ℕ × Bytes)
dsnr_msg_table =
    (0x03, codes "Format table resequencing error.")
    ∷ (0x22, codes "Write to display order row/col address is not valid")
    ∷ (0x23, codes "Repeat to Address less than the current WS address.")
    ∷ (0x26, codes "Start-of-field order address not valid")
    ∷ (0x28, codes "Field extends past the end of the display.")
    ∷ (0x29, codes "Format table overflow.")
    ∷ (0x2a, codes "Attempted to write past the end of display.")
    ∷ (0x2b, codes "Start-of-header length not valid.")
    ∷ (0x2c, codes "Invalid ROLL command parameter.")
    ∷ (0x31, codes "No escape code was found where it was expected.")
    ∷ (0x32, codes "Invalid row/col address on WEC TO WINDOW command.")
    ∷ []

abbrev pub inv_cmd : Bytes
inv_cmd = codes "Invalid command encountered in data stream."

-- `processErr`, on the bytes of `buf`. `unknown` is the text that `sprintf` writes for a category
-- with modifier, a byte and a code.
unfoldable pub process_err : (unknown : ℕ → ℕ → ℕ → Bytes) → Bytes → Bytes
unfolding text_for
process_err unknown buf =
    let catmod = get_or buf 0 0 * 256 + get_or buf 1 0 in
    let ubyte1 = get_or buf 2 0 in
    let code = get_or buf 3 0 in
    if catmod == 0x1003 && ubyte1 == 1 && code == 1
    then inv_cmd
    else if not (catmod == 0x1005) || not (ubyte1 == 1)
    then unknown catmod ubyte1 code
    else text_for dsnr_msg_table code (unknown catmod ubyte1 code)
