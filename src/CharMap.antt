-- ===== src/CharMap.antt =====
-- Translation between the local character set and EBCDIC: libtnX/libtnX.c and libtnX/transmaps.h.
pub mod Reversible
pub mod Tables
use linux_sna.Base.{ℕ, Option, none, some, List, [], ◌∷◌, ◌==◌, if◌then◌else◌, Bytes, equal, get_or}

-- `tnXchar_map`
pub record CharMap : Type 0 where
  pub name : Bytes
  pub to_remote_map : Bytes
  pub to_local_map : Bytes

-- `tnX_char_map_to_remote`, of a byte, which the table of 256 covers
unfoldable pub to_remote : CharMap → ℕ → ℕ
to_remote m ascii = get_or m.to_remote_map ascii 0

-- `tnX_char_map_to_local`: DUP is shown as an asterisk and NUL as a blank
unfoldable pub to_local : CharMap → ℕ → ℕ
to_local m ebcdic =
    if ebcdic == 0x1C then b'*' else if ebcdic == 0 then b' ' else get_or m.to_local_map ebcdic 0

-- `tnX_char_map_new`, in a given table of maps
unfoldable pub find : List CharMap → Bytes → Option CharMap
find [] name = none
find (m ∷ maps) name = if equal m.name name then some m else find maps name
