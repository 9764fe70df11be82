-- ===== src/Host/Address.antt =====
-- tn3270d/tn3270_host.c, `setBufferAddr`: the two bytes of a buffer address.
use linux_sna.Base.{
  ℕ, ◌+◌, ◌-◌, ◌*◌, ◌%◌, ◌<◌, ◌≤◌, true, ◌≡◌, refl, arith, ◌==◌, ==_iff, checked, checked_lem,
}
use linux_sna.Host.{address, addr1, addr2}

-- The 12-bit address that a terminal reads out of the two bytes.
abbrev pub decode : ℕ → ℕ → ℕ
decode b1 b2 = (b1 % 64) * 64 + b2 % 64

decode_table : checked (λ a. decode (addr1 a) (addr2 a) == a) 4096 ≡ true
unfolding checked addr1 addr2
decode_table = refl

address_lem :
    (row col : ℕ) → row * 80 + col < 4097 → 1 ≤ col → address row col ≡ row * 80 + (col - 1)
unfolding address
address_lem row col h l = omega arith

-- A terminal that takes the low six bits of each of the two bytes that `setBufferAddr` appends has
-- the position of the row and the column (which counts from 1) on a screen of 80 columns, as long
-- as the position is below 4096.
pub decode-address :
    (row col : ℕ)
    → 1 ≤ col
    → row * 80 + col < 4097
    → decode (addr1 (address row col)) (addr2 (address row col)) ≡ row * 80 + (col - 1)
decode-address row col l h =
    rw (address_lem row col h l)
      ((==_iff _ _).0 (checked_lem _ 4096 (row * 80 + (col - 1)) (omega arith) decode_table))
