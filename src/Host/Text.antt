-- ===== src/Host/Text.antt =====
-- tn3270d/tn3270_host.c, `appendBlock2Ebcdic`: text on its way to the screen.
use mathlib.Core.List.{append_assoc, append-nil}
use linux_sna.Base.{
  some, ℕ, true, [], ◌∷◌, ◌++◌, map, ◌≡◌, refl, ◌∙◌, arith, if◌then◌else◌, Bytes, Bool-cases, inl,
  inr,
}
use linux_sna.Buffer.{Buffer, contents}
use linux_sna.Buffer.Contents.{IsValid, Holds, append_byte-Holds}
use linux_sna.CharMap.{CharMap, to_remote, to_local, find}
use linux_sna.CharMap.Tables.{transmaps}
use linux_sna.CharMap.Reversible.{to_local-to_remote}
use linux_sna.Host.{append_block, is_print}

-- The characters of a text that `isprint` lets through.
abbrev pub printable : Bytes → Bytes
printable [] = []
printable (c ∷ str) = if is_print c then c ∷ printable str else printable str

append_block-Holds :
    (str : Bytes) (m : CharMap) {buff : Buffer} {xs : Bytes}
    → Holds buff xs
    → Holds (append_block buff str m) (xs ++ map (to_remote m) (printable str))
unfolding append_block
append_block-Holds [] m h = rw append-nil h
append_block-Holds (c ∷ str) m {buff} {xs} h = elim (Bool-cases (is_print c)) [
  | inl y ↦
      rw (y, ← append_assoc xs (to_remote m c ∷ []) (map (to_remote m) (printable str)))
        (append_block-Holds str m (append_byte-Holds (to_remote m c) h))
  | inr n ↦ rw n (append_block-Holds str m h)
]

module _ (code_page : Bytes) {m : CharMap} (found : find transmaps code_page ≡ some m) where
  shown-print : (c : ℕ) → is_print c ≡ true → to_local m (to_remote m c) ≡ c
  shown-print c h = to_local-to_remote code_page c found (ground arith) ∙ ground arith

  shown-printable :
      (str : Bytes) → map (to_local m) (map (to_remote m) (printable str)) ≡ printable str
  shown-printable [] = refl
  shown-printable (c ∷ str) = elim (Bool-cases (is_print c)) [
    | inl y ↦ rw y (rw (shown-print c y, shown-printable str) refl)
    | inr n ↦ rw n (shown-printable str)
  ]

-- A text that `appendBlock2Ebcdic` translates, with a map that `tnX_char_map_new` finds by its name
-- in `tnX_transmaps`, behind the bytes of a well-formed buffer leaves these bytes as they are and
-- the buffer well formed, and what is new reads, byte by byte with the same map, as the text
-- without its characters that cannot be printed.
pub append_block-to_local :
    (buff : Buffer) (str code_page : Bytes) {m : CharMap}
    → IsValid buff
    → find transmaps code_page ≡ some m
    → (new : Bytes) × IsValid (append_block buff str m)
      × (contents (append_block buff str m) ≡ contents buff ++ new)
      × (map (to_local m) new ≡ printable str)
append_block-to_local buff str code_page {m} v found =
    let h = append_block-Holds str m (record { valid = v; bytes = refl }) in
    (map (to_remote m) (printable str), h.valid, h.bytes, shown-printable code_page found str)
