-- ===== src/Aftp/Table/Invariant.antt =====
-- Sequences of calls of the library, and what holds of the table of sessions between them.
use linux_sna.Base.{
  ℕ, zero, suc, ◌+◌, ◌%◌, ◌≤◌, ◌<◌, ◌++◌, codes, ltb, ◌==◌, ==_iff, Bytes, Option, none, some, Cmd,
  Outcome, ok, exit, abort, fault, out_of_fuel, ◌≡◌, ◌≢◌, refl, arith, false, Bool-cases, ◌⊎◌, inl,
  inr,
}
use linux_sna.Asuite.{AsuiteRecord}
use linux_sna.Aftp.{
  Session, Slot, Library, Conn, conn_of, with_session, in_library, run_on, set_rc, set_slot,
}
use linux_sna.Aftp.Extract.{at_handle, extract}
use linux_sna.Aftp.Table.{Cwd, safe_get_cwd, create, slot_of, destroy, destroy_slot}

-- Each entry below the counter was stored, and each other entry is still NULL.
abbrev pub Table : (ℕ → Slot) → ℕ → Type 0
Table f counter =
    (counter ≤ 20)
    × ((i : ℕ) → i < counter → f i ≢ Slot.null)
    × ((i : ℕ) → counter ≤ i → f i ≡ Slot.null)

abbrev pub IsTable : Library → Type 0
IsTable w = Table w.sessions w.ftp_handle_counter

pub live≢null : (s : Session) → Slot.live s ≢ Slot.null
live≢null s = cc

freed≢null : Slot.freed ≢ Slot.null
freed≢null = cc

slot_of≢null : (s : Session) (r : AsuiteRecord) (cwd : Option Bytes) → slot_of s r cwd ≢ Slot.null
slot_of≢null s r none = cc
slot_of≢null s r (some d) = cc

-- The entry at a handle that was given out changes, but not to NULL.
pub set_slot-Table :
    (f : ℕ → Slot) (counter handle : ℕ) (slot : Slot)
    → slot ≢ Slot.null
    → f handle ≢ Slot.null
    → Table f counter
    → Table (set_slot f handle slot) counter
set_slot-Table f counter handle slot new old t = (
  t.0,
  (λ i lt. elim (Bool-cases (handle == i)) [ inl y ↦ rw y new | inr n ↦ rw n (t.1 i lt) ]),
  (λ i le. elim (Bool-cases (handle == i)) [
    | inl y ↦ absurd (old (rw ((==_iff handle i).0 y) (t.2 i le)))
    | inr n ↦ rw n (t.2 i le)
  ]),
)

-- The next entry is filled.
next_slot-Table :
    (f : ℕ → Slot) (counter : ℕ) (slot : Slot)
    → slot ≢ Slot.null
    → counter < 20
    → Table f counter
    → Table (set_slot f counter slot) ((counter + 1) % 256)
next_slot-Table f counter slot new small t =
    let next : (counter + 1) % 256 ≡ counter + 1 = omega arith in
    rw next (
      omega arith,
      (λ i lt. elim (Bool-cases (counter == i)) [
        | inl y ↦ rw y new
        | inr n ↦ rw n (t.1 i (ground (arith, n)))
      ]),
      (λ i le. let other : (counter == i) ≡ false = ground arith in rw other (t.2 i (omega arith))),
    )

-- The table is in order, and at least `n` handles were given out.
abbrev pub Above : ℕ → Library → Type 0
Above n w = IsTable w × (n ≤ w.ftp_handle_counter)

-- If code returns, the state has the property.
abbrev pub Lands : {S A : Type 0} → (S → Type 0) → Outcome S A → Type 0
Lands P (ok a w) = P w
Lands P _ = Unit

in_library-Above :
    (n : ℕ) (handle : ℕ) (w : Library) (o : Outcome Conn (Unit {0}))
    → w.sessions handle ≢ Slot.null
    → Above n w
    → Lands (Above n) (in_library handle w o)
in_library-Above n handle w (ok a c) old t = (
  set_slot-Table w.sessions w.ftp_handle_counter handle (Slot.live c.session) (live≢null c.session)
      old t.0,
  t.1,
)
in_library-Above n handle w (exit m) old t = tt
in_library-Above n handle w abort old t = tt
in_library-Above n handle w fault old t = tt
in_library-Above n handle w out_of_fuel old t = tt

run_on-Above :
    (n : ℕ) (handle invalid : ℕ) (m : Cmd Conn (Unit {0})) (slot : Slot) (w : Library)
    → w.sessions handle ≡ slot
    → Above n w
    → Lands (Above n) (run_on handle m (set_rc invalid) slot w)
run_on-Above n handle invalid m Slot.null w e t = t
run_on-Above n handle invalid m Slot.freed w e t = tt
run_on-Above n handle invalid m (Slot.live s) w e t =
    in_library-Above n handle w (m (conn_of w s)) (rw e (live≢null s)) t

-- A function that works on one session keeps the table in order.
pub with_session-Above :
    (n : ℕ) (handle invalid : ℕ) (m : Cmd Conn (Unit {0})) (w : Library)
    → Above n w
    → Lands (Above n) (with_session handle invalid m w)
unfolding with_session
with_session-Above n handle invalid m w t = elim (Bool-cases (ltb handle 20)) [
  | inl y ↦ rw y (run_on-Above n handle invalid m (w.sessions handle) w refl t)
  | inr m ↦ rw m t
]

-- `safe_get_cwd` never ends if the path is too long for its first try.
pub safe_get_cwd-erange :
    {S : Type 0} (getcwd : ℕ → Cwd) (fuel : ℕ) (s : S)
    → getcwd 64 ≡ Cwd.erange
    → safe_get_cwd getcwd fuel s ≡ out_of_fuel
unfolding safe_get_cwd
safe_get_cwd-erange getcwd zero s e = refl
safe_get_cwd-erange getcwd (suc fuel) s e =
    rw (e, safe_get_cwd) (safe_get_cwd-erange getcwd fuel s e)

pub safe_get_cwd-cases :
    {S : Type 0} (getcwd : ℕ → Cwd) (fuel : ℕ) (s : S) (o : Cwd)
    → getcwd 64 ≡ o
    → (safe_get_cwd getcwd fuel s ≡ out_of_fuel)
      ⊎ ((cwd : Option Bytes) × (safe_get_cwd getcwd fuel s ≡ ok cwd s))
unfolding safe_get_cwd
safe_get_cwd-cases getcwd zero s o e = inl refl
safe_get_cwd-cases getcwd (suc fuel) s Cwd.erange e =
    inl (safe_get_cwd-erange getcwd (suc fuel) s e)
safe_get_cwd-cases getcwd (suc fuel) s Cwd.failed e = inr (none, rw (e, safe_get_cwd) refl)
safe_get_cwd-cases getcwd (suc fuel) s (Cwd.path p) e =
    inr (some (p ++ codes "/"), rw (e, safe_get_cwd) refl)

pub create-Above :
    (n : ℕ) (fresh : Option Session) (r : Option AsuiteRecord) (getcwd : ℕ → Cwd) (fuel : ℕ)
    (w : Library)
    → Above n w
    → Lands (Above n) (create fresh r getcwd fuel w)
unfolding create
create-Above n none r getcwd fuel w t = t
create-Above n (some s) none getcwd fuel w t = tt
create-Above n (some s) (some r) getcwd fuel w t = elim (Bool-cases (ltb w.ftp_handle_counter 20)) [
  | inl y ↦ rw y (elim (safe_get_cwd-cases getcwd fuel w (getcwd 64) refl) [
    | inl e ↦ rw e tt
    | inr found ↦
        let next : (w.ftp_handle_counter + 1) % 256 ≡ w.ftp_handle_counter + 1 =
          ground (arith, y) in
        let most = t.1 in
        rw found.1 (
          next_slot-Table w.sessions w.ftp_handle_counter (slot_of s r found.0)
              (slot_of≢null s r found.0) (ground arith) t.0,
          rw next (omega arith),
        )
  ])
  | inr m ↦ rw m tt
]

destroy_slot-Above :
    (n : ℕ) (handle : ℕ) (slot : Slot) (w : Library)
    → w.sessions handle ≡ slot
    → Above n w
    → Lands (Above n) (destroy_slot handle slot w)
unfolding destroy_slot
destroy_slot-Above n handle Slot.null w e t = t
destroy_slot-Above n handle Slot.freed w e t = tt
destroy_slot-Above n handle (Slot.live s) w e t = (
  set_slot-Table w.sessions w.ftp_handle_counter handle Slot.freed freed≢null (rw e (live≢null s))
      t.0,
  t.1,
)

pub destroy-Above :
    (n : ℕ) (handle : ℕ) (w : Library) → Above n w → Lands (Above n) (destroy handle w)
unfolding destroy
destroy-Above n handle w t = elim (Bool-cases (ltb handle 20)) [
  | inl y ↦ rw y (destroy_slot-Above n handle (w.sessions handle) w refl t)
  | inr m ↦ rw m t
]

-- A function that only reads its session
pub at_handle-Above :
    {A : Type 0} (n handle : ℕ) (f : Session → Cmd Library A) (w : Library)
    → ((s : Session) → Lands (Above n) (f s w))
    → Lands (Above n) (at_handle handle f w)
unfolding at_handle extract
at_handle-Above n handle f w keeps = elim (Bool-cases (ltb handle 20)) [
  | inl y ↦ rw y (go (w.sessions handle))
  | inr m ↦ rw m tt
]
  where
    go : (slot : Slot) → Lands (Above n) (extract slot f w)
    go Slot.null = tt
    go Slot.freed = tt
    go (Slot.live s) = keeps s
