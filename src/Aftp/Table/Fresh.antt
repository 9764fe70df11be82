-- ===== src/Aftp/Table/Fresh.antt =====
-- The handles that `aftp_create` of libasuite/libaftp.c gives.
use mathlib.Core.Path.{subst}
use linux_sna.Base.{
  ℕ, ◌+◌, ◌<◌, List, ltb, Option, none, some, Outcome, ok, ◌≡◌, ◌≢◌, refl, arith, Bool-cases, inl,
  inr,
}
use linux_sna.Asuite.{AsuiteRecord}
use linux_sna.Asuite.Cpic.{Cpic}
use linux_sna.Aftp.{Session, Slot, Library}
use linux_sna.Aftp.Receive.{Client}
use linux_sna.Aftp.Table.{Cwd, create, created}
use linux_sna.Aftp.Table.Invariant.{IsTable, Lands, Above, create-Above, safe_get_cwd-cases}
use linux_sna.Aftp.Table.Transfers.{ClientAbove}
use linux_sna.Aftp.Table.Operation.{Operation, run}
use linux_sna.Aftp.Table.Runs.{run-Above}
use linux_sna.Aftpd.{Os}

-- If a handle comes back, it is the counter, which is below 20 and has gone up by one.
abbrev Gave : Library → Outcome Library (Option ℕ) → Type 0
Gave w (ok (some h) w') = (h ≡ w.ftp_handle_counter) × (h < 20) × (w'.ftp_handle_counter ≡ h + 1)
Gave w _ = Unit

create-Gave :
    (fresh : Option Session) (r : Option AsuiteRecord) (getcwd : ℕ → Cwd) (fuel : ℕ) (w : Library)
    → Gave w (create fresh r getcwd fuel w)
unfolding create created
create-Gave none r getcwd fuel w = tt
create-Gave (some s) none getcwd fuel w = tt
create-Gave (some s) (some r) getcwd fuel w = elim (Bool-cases (ltb w.ftp_handle_counter 20)) [
  | inl y ↦ rw y (elim (safe_get_cwd-cases getcwd fuel w (getcwd 64) refl) [
    | inl e ↦ rw e tt
    | inr found ↦ rw found.1 (refl, ground (arith, y), ground (arith, y))
  ])
  | inr m ↦ rw m tt
]

-- The table is in order, `aftp_create` returns with a handle, any sequence of the calls of
-- `Operation` follows and returns (`aftp_create` and `aftp_destroy` are among them), and then
-- `aftp_create` returns with a handle once more. Then the second handle is greater than the first
-- and below 20, and the entry of each was NULL when it was given, while that of the first is not
-- NULL when the second is: no handle is given twice, also not one that was destroyed.
pub create-run-create :
    (cpic : Cpic) (os : Os) (ops : List Operation) (fresh fresh' : Option Session)
    (r r' : Option AsuiteRecord) (getcwd getcwd' : ℕ → Cwd) (fuel fuel' h h' : ℕ) (w w' : Client)
    (l l' : Library)
    → IsTable w.library
    → create fresh r getcwd fuel w.library ≡ ok (some h) l
    → run cpic os ops (record w { library = l }) ≡ ok tt w'
    → create fresh' r' getcwd' fuel' w'.library ≡ ok (some h') l'
    → (h < h')
      × (h' < 20)
      × (w.library.sessions h ≡ Slot.null)
      × (w'.library.sessions h' ≡ Slot.null)
      × (w'.library.sessions h ≢ Slot.null)
create-run-create cpic os ops fresh fresh' r r' getcwd getcwd' fuel fuel' h h' w w' l l' t gives
      runs gives' =
    let first : Gave w.library (ok (some h) l) =
      subst (Gave w.library) gives (create-Gave fresh r getcwd fuel w.library) in
    let second : Gave w'.library (ok (some h') l') =
      subst (Gave w'.library) gives' (create-Gave fresh' r' getcwd' fuel' w'.library) in
    let kept : Above 0 l =
      subst (Lands (Above 0)) gives
        (create-Above 0 fresh r getcwd fuel w.library (t, omega arith)) in
    let next = first.2 in
    let above : Above (h + 1) l = (kept.0, omega arith) in
    let end : ClientAbove (h + 1) w' =
      subst (Lands (ClientAbove (h + 1))) runs
        (run-Above cpic os (h + 1) ops (record w { library = l }) above) in
    let same = first.0 in
    let same' = second.0 in
    let most = end.1 in
    (omega arith, second.1, t.2 h (omega arith), end.0.2 h' (omega arith), end.0.1 h (omega arith))
