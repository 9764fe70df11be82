-- ===== src/CpicSession/Setup.antt =====
-- What the setters of libasuite/cpicsession.c make `cpic_session_init` ask for.
use linux_sna.Base.{ℕ, ◌≤◌, ◌<◌, List, ◌∷◌, Bytes, length, fault, ◌≡◌, refl}
use linux_sna.Aftp.Params.{less}
use linux_sna.CpicSession.{
  CpicSession, Call, cminit, cmspln, cmstpn, cmsmn, Cpic, blanks, max_name, set_symbolic_name,
  end_sym_dest_name,
}

-- `toupper` makes no NUL of another character.
abbrev pub KeepsNul : (ℕ → ℕ) → Type 0
KeepsNul toupper = (c : ℕ) → 1 ≤ c → 1 ≤ toupper c

-- The calls of `cpic_session_init` for a destination by its name.
abbrev pub named_calls : Bytes → Bytes → Bytes → List Call → List Call
named_calls destination tp mode calls =
    cmsmn mode ∷ cmstpn tp ∷ cmspln destination ∷ cminit (blanks max_name) ∷ calls

-- Each of these calls but the last succeeds.
abbrev pub Opens : Cpic → Bytes → Bytes → List Call → Type 0
Opens cpic destination tp calls =
    ((cpic (cminit (blanks max_name) ∷ calls)).cm_rc ≡ 0)
    × ((cpic (cmspln destination ∷ cminit (blanks max_name) ∷ calls)).cm_rc ≡ 0)
    × ((cpic (cmstpn tp ∷ cmspln destination ∷ cminit (blanks max_name) ∷ calls)).cm_rc ≡ 0)

-- A symbolic name of up to eight characters, so one that fits: `cpic_session_set_symbolic_name`
-- writes its NUL behind the array.
pub set_symbolic_name-faults :
    (toupper : ℕ → ℕ) (name : Bytes) (s : CpicSession)
    → length name < 9
    → set_symbolic_name toupper name s ≡ fault
unfolding set_symbolic_name end_sym_dest_name
set_symbolic_name-faults toupper name s fits = rw (less (length name) 9 fits) refl
