-- ===== src/Asuite.antt =====
-- libasuite/asuitecommon.c and asuitecommon.h: the records of the transfer protocol. The host is
-- little-endian, and a record that is NULL is not modelled, so the functions that say so by their
-- result have none here.
pub mod Codes
pub mod Cpic
pub mod Emit
pub mod Respond
use mathlib.Core.Option
use linux_sna.Base.{
  ℕ, zero, suc, ◌+◌, ◌*◌, ◌/◌, ◌%◌, List, [], ◌∷◌, Option, none, some, ltb, ◌==◌, if◌then◌else◌,
  Bytes, length, Cmd, Outcome, ok, fault, pure, get, modify, ◌>>=◌, ◌>>◌, and_then, get_or, map,
}

-- `asuiterecord`. The cells that were not written have any contents.
pub record AsuiteRecord : Type 0 where
  pub position : ℕ
  pub buffer : ℕ → ℕ

-- MAX_BUFFER_SIZE
abbrev pub max_buffer_size : ℕ
max_buffer_size = 32763

-- `buffer[i] = c` without its bound
abbrev pub update : (ℕ → ℕ) → ℕ → ℕ → ℕ → ℕ
update f i c j = if i == j then c else f j

-- `record->buffer[i] = c`
abbrev pub poke : ℕ → ℕ → Cmd AsuiteRecord (Unit {0})
poke i c r =
    if ltb i max_buffer_size then ok tt (record r { buffer = update r.buffer i c }) else fault

-- `record->buffer[i]`
abbrev pub peek : ℕ → Cmd AsuiteRecord ℕ
peek i r = if ltb i max_buffer_size then ok (r.buffer i) r else fault

-- `record->buffer[record->position] = c; record->position++;`
unfoldable pub put : ℕ → Cmd AsuiteRecord (Unit {0})
put c r =
    if ltb r.position max_buffer_size
    then ok tt (record r { position = r.position + 1; buffer = update r.buffer r.position c })
    else fault

unfoldable pub put_all : Bytes → Cmd AsuiteRecord (Unit {0})
put_all [] = pure tt
put_all (c ∷ bytes) = put c >> put_all bytes

-- `htons((u_int16_t)n)`
abbrev pub htons : ℕ → ℕ
htons n = n % 256 * 256 + n % 65536 / 256

-- `htonl(n)` for the low 32 bits of `n`
abbrev pub htonl : ℕ → ℕ
htonl n = n % 256 * 16777216 + n / 256 % 256 * 65536 + n / 65536 % 256 * 256 + n / 16777216 % 256

-- `ntohs`
abbrev pub ntohs : ℕ → ℕ
ntohs n = n % 256 * 256 + n % 65536 / 256

-- `get_cat_index`
unfoldable pub get_cat_index : ℕ → Cmd AsuiteRecord ℕ
get_cat_index curpos = do
  high ← peek (curpos + 1)
  low ← peek curpos
  pure (ntohs (high * 256 + low))

-- `get_param_len`
unfoldable pub get_param_len : ℕ → Cmd AsuiteRecord ℕ
get_param_len curpos = do
  high ← peek (curpos + 1)
  low ← peek curpos
  pure (ntohs (high * 256 + low))

-- `get_major_code`
abbrev pub get_major_code : Cmd AsuiteRecord ℕ
get_major_code = peek 1

-- `get_received_len`
abbrev pub get_received_len : Cmd AsuiteRecord ℕ
get_received_len r = ok r.position r

-- `get_key`
abbrev pub get_key : ℕ → Cmd AsuiteRecord ℕ
get_key curpos = peek (curpos + 2)

-- `asuiterecord_get_char`
abbrev pub get_char : ℕ → Cmd AsuiteRecord ℕ
get_char = peek

-- `asuiterecord_new`, with what `malloc` gives
abbrev pub new : Option AsuiteRecord → Option AsuiteRecord
new none = none
new (some r) = some (record r { position = 2 })

-- `asuiterecord_clear`
abbrev pub clear : Cmd AsuiteRecord (Unit {0})
clear = modify λ r. record r { position = 2 }

-- `asuiterecord_settype`
unfoldable pub settype : ℕ → Cmd AsuiteRecord (Unit {0})
settype rectype = do poke 0 (htons rectype % 256); poke 1 (htons rectype / 256)

abbrev pub zeros : ℕ → Bytes
zeros zero = []
zeros (suc n) = 0 ∷ zeros n

-- What `strncpy` of `n` bytes writes; `none` if it reads behind the memory that is there.
unfoldable pub strncpy : ℕ → Bytes → Option Bytes
strncpy zero memory = some []
strncpy (suc n) [] = none
strncpy (suc n) (c ∷ memory) =
    let rest = strncpy n memory in
    if c == 0 then some (zeros (suc n)) else Option.map (λ (s : Bytes). c ∷ s) rest

put_copy : Option Bytes → Cmd AsuiteRecord (Unit {0})
unfolding put_all
put_copy none r = fault
put_copy (some bytes) r = put_all bytes r

-- `asuiterecord_append` of the memory at `bytes`
unfoldable pub append : ℕ → Bytes → ℕ → Cmd AsuiteRecord (Unit {0})
unfolding put put_copy strncpy
append key bytes length = do
  put (htons (length + 3) % 256)
  put (htons (length + 3) / 256)
  put key
  put_copy (strncpy length bytes)

-- `asuiterecord_append_char`
unfoldable pub append_char : ℕ → ℕ → Cmd AsuiteRecord (Unit {0})
unfolding put
append_char key ch = do put (htons 4 % 256); put (htons 4 / 256); put key; put ch

-- `asuiterecord_append_fourbyte`
unfoldable pub append_fourbyte : ℕ → ℕ → Cmd AsuiteRecord (Unit {0})
unfolding put
append_fourbyte key n = do
  put (htons 4 % 256)
  put (htons 4 / 256)
  put key
  put (htonl n % 256)
  put (htonl n / 256 % 256)
  put (htonl n / 65536 % 256)
  put (htonl n / 16777216 % 256)

-- The loop of `asuiterecord_append_twobyte`. Its last `va_arg`, of an argument behind the values
-- and whose result is not used, is left out.
unfoldable pub put_twobytes : ℕ → List ℕ → Cmd AsuiteRecord (Unit {0})
unfolding put
put_twobytes zero values = pure tt
put_twobytes (suc count) [] = λ r. fault
put_twobytes (suc count) (p ∷ values) = do
  put (htons p % 256)
  put (htons p / 256)
  put_twobytes count values

skip : ℕ → Cmd AsuiteRecord (Unit {0})
skip n = modify λ r. record r { position = r.position + n }

-- `asuiterecord_append_twobyte`, which writes the length last
unfoldable pub append_twobyte : ℕ → ℕ → List ℕ → Cmd AsuiteRecord (Unit {0})
unfolding put put_twobytes skip
append_twobyte key count values = do
  r ← get
  skip 2
  put key
  put_twobytes count values
  poke r.position (htons (3 + 2 * count) % 256)
  poke (r.position + 1) (htons (3 + 2 * count) / 256)

-- `asuiterecord_append_bare_twobyte`
unfoldable pub append_bare_twobyte : ℕ → Cmd AsuiteRecord (Unit {0})
unfolding put
append_bare_twobyte n = do put (htons n % 256); put (htons n / 256)

-- `count` cells from `i` on
unfoldable pub cells : (ℕ → ℕ) → ℕ → ℕ → Bytes
cells f i zero = []
cells f i (suc count) = f i ∷ cells f (suc i) count

-- What `cmsend` reads: the first `position` cells.
unfoldable pub sent : AsuiteRecord → Bytes
unfolding cells
sent r = cells r.buffer 0 r.position
