-- ===== src/Buffer/Contents.antt =====
-- A buffer implements a byte string, and each write falls inside its block.
use mathlib.Core.List.{append_assoc, append-nil}
use native.Mathlib.Numerals.{add-one}
use linux_sna.Base.{
  ℕ, zero, suc, ◌+◌, ◌≤◌, ◌<◌, [], ◌∷◌, ◌++◌, ◌≡◌, refl, ap, ◌∙◌, arith, Bytes, take, length,
  length-take,
}
use linux_sna.Buffer.{
  Store, null, block, Buffer, init, cells_of, write_at, allocated_for, append_byte, append_data,
  contents,
}

-- The cells reach up to `len` at least, and a block has room for one byte more than `len`.
abbrev pub StoreFits : ℕ → Store → Type 0
StoreFits len null = len ≡ 0
StoreFits len (block allocated cells) =
    (len ≤ length cells) × (length cells ≤ allocated) × (len < allocated)

pub record IsValid (buff : Buffer) : Type 0 where
  pub fits : StoreFits buff.len buff.store

pub init-IsValid : IsValid init
init-IsValid = record { fits = refl }

take-write_at :
    (xs : Bytes) (n b : ℕ) → n ≤ length xs → take (suc n) (write_at xs n b) ≡ take n xs ++ b ∷ []
take-write_at [] zero b h = refl
take-write_at [] (suc n) b h = absurd (omega arith)
take-write_at (x ∷ xs) zero b h = refl
take-write_at (x ∷ xs) (suc n) b h = rw (take-write_at xs n b (omega arith))

length-write_at :
    (xs : Bytes) (n b : ℕ)
    → n ≤ length xs
    → (suc n ≤ length (write_at xs n b))
      × (length (write_at xs n b) ≤ length xs + 1)
      × (n < length xs → length (write_at xs n b) ≡ length xs)
length-write_at [] zero b h = ground arith
length-write_at [] (suc n) b h = absurd (omega arith)
length-write_at (x ∷ xs) zero b h = omega arith
length-write_at (x ∷ xs) (suc n) b h = ground (arith, length-write_at xs n b)

allocated_for-bounds :
    (len : ℕ) (s : Store)
    → StoreFits len s
    → (suc len < allocated_for len s) × (length (cells_of s) ≤ allocated_for len s)
unfolding allocated_for
allocated_for-bounds len null h = ground arith
allocated_for-bounds len (block allocated cells) h = ground arith

StoreFits-length : (len : ℕ) (s : Store) → StoreFits len s → len ≤ length (cells_of s)
StoreFits-length len null h = ground arith
StoreFits-length len (block allocated cells) h = h.0

module _ {buff : Buffer} (v : IsValid buff) where
  -- The byte is stored inside the block, however full the buffer is.
  pub append_byte_in_block : buff.len < allocated_for buff.len buff.store
  append_byte_in_block = omega (arith, allocated_for-bounds buff.len buff.store v.fits)

  append_byte-IsValid : (b : ℕ) → IsValid (append_byte buff b)
  unfolding append_byte
  append_byte-IsValid b = record {
    fits = ground (
      arith,
      allocated_for-bounds buff.len buff.store v.fits,
      StoreFits-length buff.len buff.store v.fits,
      length-write_at (cells_of buff.store) buff.len b,
    );
  }

  contents-append_byte : (b : ℕ) → contents (append_byte buff b) ≡ contents buff ++ b ∷ []
  unfolding append_byte contents
  contents-append_byte b =
      rw add-one (
        take-write_at (cells_of buff.store) buff.len b
          (StoreFits-length buff.len buff.store v.fits))

-- The buffer is well formed and its bytes are `xs`.
pub record Holds (buff : Buffer) (xs : Bytes) : Type 0 where
  pub valid : IsValid buff
  pub bytes : contents buff ≡ xs

pub init-Holds : Holds init []
unfolding contents
init-Holds = record { valid = init-IsValid; bytes = refl }

pub append_byte-Holds :
    {buff : Buffer} {xs : Bytes} (b : ℕ) → Holds buff xs → Holds (append_byte buff b) (xs ++ b ∷ [])
append_byte-Holds b h = record {
  valid = append_byte-IsValid h.valid b;
  bytes = contents-append_byte h.valid b ∙ ap (λ (z : Bytes). z ++ b ∷ []) h.bytes;
}

pub append_data-Holds :
    (ys : Bytes) {buff : Buffer} {xs : Bytes}
    → Holds buff xs
    → Holds (append_data buff ys) (xs ++ ys)
unfolding append_data
append_data-Holds [] h = rw append-nil h
append_data-Holds (y ∷ ys) {xs} h =
    rw (← append_assoc xs (y ∷ []) ys) (append_data-Holds ys (append_byte-Holds y h))

-- From a well-formed buffer `tnX_buffer_append_data` gives a well-formed buffer that holds the
-- old bytes and then the new ones, whatever part of the block was in use.
pub append_data_lem :
    (buff : Buffer) (ys : Bytes)
    → IsValid buff
    → IsValid (append_data buff ys) × (contents (append_data buff ys) ≡ contents buff ++ ys)
append_data_lem buff ys v =
    let h = append_data-Holds ys (record { valid = v; bytes = refl }) in (h.valid, h.bytes)

-- The macro `tnX_buffer_length` counts the bytes held.
pub Holds-length : {buff : Buffer} {xs : Bytes} → Holds buff xs → buff.len ≡ length xs
unfolding contents
Holds-length {buff} h = omega (
  arith,
  ap length h.bytes,
  length-take buff.len (cells_of buff.store),
  StoreFits-length buff.len buff.store h.valid.fits,
)
