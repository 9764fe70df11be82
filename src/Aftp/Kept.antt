-- ===== src/Aftp/Kept.antt =====
-- A name that was set in a session is the one that is extracted.

use linux_sna.Base.{
  ℕ, suc, ◌+◌, ◌≤◌, [], ◌∷◌, ◌++◌, ltb, leb, ◌==◌, Bytes, length, some, ok, ◌≡◌, refl, arith, true,
  false, ◌>>◌,
}
use linux_sna.Asuite.{strncpy, zeros}
use linux_sna.Asuite.Codes.{rc_ok}
use linux_sna.Asuite.Emit.{NulFree}
use linux_sna.Aftp.{Session, Library, with_session}
use linux_sna.Aftp.Request.{before_nul}
use linux_sna.Aftp.Attributes.{set_tp_name}
use linux_sna.Aftp.Extract.{extract_tp_name}
use linux_sna.Aftp.Replies.{Opens}

pub before_nul-name : (name rest : Bytes) → NulFree name → before_nul (name ++ 0 ∷ rest) ≡ some name
unfolding before_nul
before_nul-name [] rest free = refl
before_nul-name (c ∷ name) rest free =
    let not_nul : (c == 0) ≡ false = ground arith in
    rw (not_nul, before_nul-name name rest free.1) refl

strncpy-padded :
    (name : Bytes) (n : ℕ)
    → NulFree name
    → strncpy (length name + suc n) (name ++ 0 ∷ []) ≡ some (name ++ zeros (suc n))
unfolding strncpy
strncpy-padded [] n free = let same : 0 + suc n ≡ suc n = omega arith in rw same refl
strncpy-padded (c ∷ name) n free =
    let more : suc (length name) + suc n ≡ suc (length name + suc n) = omega arith in
    let not_nul : (c == 0) ≡ false = ground arith in
    rw (more, not_nul, strncpy-padded name n free.1) refl

-- A name of 1 to 64 bytes without a NUL, set as the program's name of an open session with its
-- length, is what `aftp_extract_tp_name` then copies into a buffer that is longer, with NULs
-- behind it; the code is AFTP_RC_OK and the returned length that of the name.
pub set_tp_name-extract_tp_name :
    (w : Library) (handle n : ℕ) (s : Session) (name : Bytes)
    → Opens w handle s
    → NulFree name
    → 1 ≤ length name
    → length name ≤ 64
    → (w' : Library) × ((set_tp_name handle (name ++ 0 ∷ []) (length name)
            >> extract_tp_name handle (length name + suc n))
          w
        ≡ ok tt w')
      × (w'.rc ≡ rc_ok)
      × (w'.answer ≡ name ++ zeros (suc n))
      × (w'.returned_length ≡ length name)
unfolding set_tp_name extract_tp_name with_session
set_tp_name-extract_tp_name w handle n s name found free some_bytes short =
    let small : ltb handle 20 ≡ true = ground arith in
    let same : (handle == handle) ≡ true = ground arith in
    let allowed : leb (length name) 64 ≡ true = ground arith in
    let fits : ltb (length name) 65 ≡ true = ground arith in
    let nonempty : ltb 0 (length name) ≡ true = ground arith in
    let room : leb (length name) (length name + suc n) ≡ true = ground arith in
    let read = before_nul-name name [] free in
    let back = before_nul-name name (zeros n) free in
    let copy = strncpy-padded name n free in
    rw (small, found.1, allowed, read, fits, same, nonempty, room, copy, back)
      (rw small (_, refl, refl, refl, refl))
