-- ===== src/Record.antt =====
-- libtnX/tnX_record.c: a record of the data stream, less the links of the ring it
-- stands in, and the macros on it in libtnX/libtnX.h.
pub mod Read
use linux_sna.Base.{ℕ, ◌+◌, ◌-◌, Option, none, some, leb, if◌then◌else◌, get_or}
use linux_sna.Buffer.{Buffer, init, append_byte, contents}

-- `tnXrec`
pub record Rec : Type 0 where
  pub buffer : Buffer
  pub cur_pos : ℕ

-- `tnX_record_new`
abbrev pub new : Rec
new = record { buffer = init; cur_pos = 0 }

-- `tnX_record_append_byte`
abbrev pub append : Rec → ℕ → Rec
append r b = record r { buffer = append_byte r.buffer b }

-- `tnX_record_set_cur_pos`
abbrev pub set_cur_pos : Rec → ℕ → Rec
set_cur_pos r pos = record r { cur_pos = pos }

-- `tnX_record_get_byte`; `none` when its assertion fails
unfoldable pub get_byte : Rec → Option (ℕ × Rec)
get_byte r =
    let pos = r.cur_pos + 1 in
    if leb pos r.buffer.len
    then some (get_or (contents r.buffer) (pos - 1) 0, record r { cur_pos = pos })
    else none
