-- ===== src/CharMap/Reversible.antt =====
-- The code pages are reversible, but for the two characters that are shown as others.
use linux_sna.Base.{
  ℕ, ◌<◌, Bool, true, some, List, [], ◌∷◌, ◌&&◌, ◌≡◌, refl, arith, ◌==◌, ==_iff, if◌then◌else◌,
  Bytes, checked, checked_lem,
}
use linux_sna.CharMap.{CharMap, to_remote, to_local, find}
use linux_sna.CharMap.Tables.{transmaps}

-- What `to_local` shows for a character that went to the remote side and came back.
abbrev pub shown : ℕ → ℕ
shown c = if c == 0x1C then b'*' else if c == 0 then b' ' else c

every : (CharMap → Bool) → List CharMap → Bool
every test [] = true
every test (m ∷ maps) = test m && every test maps

find-every :
    (test : CharMap → Bool) (maps : List CharMap) (name : Bytes) {m : CharMap}
    → every test maps ≡ true
    → find maps name ≡ some m
    → test m ≡ true
unfolding every find
find-every test [] name all found = cc
find-every test (x ∷ maps) name {m} all found = ground (arith, find-every test maps name {m = m})

reverses : CharMap → Bool
reverses m = checked (λ c. to_local m (to_remote m c) == shown c) 256

transmaps_table : every reverses transmaps ≡ true
unfolding every reverses checked to_local to_remote
transmaps_table = refl

-- With each map that `tnX_char_map_new` finds by its name in `tnX_transmaps`, a character that is
-- sent and read back is itself, but that NUL comes back as a blank and the character 28 as an
-- asterisk.
pub to_local-to_remote :
    (name : Bytes) {m : CharMap} (c : ℕ)
    → find transmaps name ≡ some m
    → c < 256
    → to_local m (to_remote m c) ≡ shown c
unfolding reverses
to_local-to_remote name {m} c found h = (==_iff _ _).0 (
    checked_lem (λ c. to_local m (to_remote m c) == shown c) 256 c h
      (find-every reverses transmaps name transmaps_table found))
