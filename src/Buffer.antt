-- ===== src/Buffer.antt =====
-- libtnX/tnX_buffer.c: the growing byte buffer that carries records, sub-options and screens.
-- The C `int` fields are unbounded here, so a buffer of two gigabytes is out of the model.
pub mod Contents
use linux_sna.Base.{ℕ, zero, suc, ◌+◌, List, [], ◌∷◌, leb, if◌then◌else◌, Bytes, take}

-- `data` with `allocated`, the size of its block. `init` and `free` set `allocated` to 0 with
-- `data` to NULL. The cells are those written so far, the first of the block.
pub data Store : Type 0 where
  null : Store
  block : (allocated : ℕ) → (cells : Bytes) → Store

pub record Buffer : Type 0 where
  pub store : Store
  pub len : ℕ

-- BUFFER_DELTA
abbrev pub buffer_delta : ℕ
buffer_delta = 128

-- `tnX_buffer_init`
abbrev pub init : Buffer
init = record { store = null; len = 0 }

-- `tnX_buffer_free`
abbrev pub free : Buffer → Buffer
free buff = init

-- The block that `tnX_buffer_append_byte` writes into: as it is, allocated, or reallocated.
pub allocated_for : ℕ → Store → ℕ
allocated_for len null = buffer_delta
allocated_for len (block allocated cells) =
    if leb allocated (len + 1) then allocated + buffer_delta else allocated

abbrev pub cells_of : Store → Bytes
cells_of null = []
cells_of (block allocated cells) = cells

-- `data[i] = b`
abbrev pub write_at : Bytes → ℕ → ℕ → Bytes
write_at [] i b = b ∷ []
write_at (x ∷ xs) zero b = b ∷ xs
write_at (x ∷ xs) (suc i) b = x ∷ write_at xs i b

-- `tnX_buffer_append_byte`
unfoldable pub append_byte : Buffer → ℕ → Buffer
unfolding allocated_for
append_byte buff b = record {
  store = block (allocated_for buff.len buff.store) (write_at (cells_of buff.store) buff.len b);
  len = buff.len + 1;
}

-- `tnX_buffer_append_data`, over the bytes from `data` on that `len` counts
unfoldable pub append_data : Buffer → Bytes → Buffer
append_data buff [] = buff
append_data buff (b ∷ bytes) = append_data (append_byte buff b) bytes

-- What the macro `tnX_buffer_data` points at, as far as `len` reaches.
unfoldable pub contents : Buffer → Bytes
contents buff = take buff.len (cells_of buff.store)
