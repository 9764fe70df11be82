-- ===== src/Aftp/Table/Transfers.antt =====
-- The transfers of files of libasuite/libaftp.c, and the table of sessions.
use linux_sna.Base.{
  ℕ, ltb, Bytes, Cmd, Outcome, ok, exit, abort, fault, out_of_fuel, ◌≡◌, ◌≢◌, refl, Bool-cases, inl,
  inr,
}
use linux_sna.Aftp.{Slot}
use linux_sna.Asuite.Cpic.{Cpic}
use linux_sna.Aftp.Request.{before_nul}
use linux_sna.Aftp.Receive.{Receiver, Client, in_client, on_slot, open_or_fail, receive_file}
use linux_sna.Aftp.Send.{open_source, send_file}
use linux_sna.Aftpd.{Os}
use linux_sna.Aftp.Table.Invariant.{Above, Lands, set_slot-Table, live≢null}

-- The client's table is in order, and at least `n` handles were given out.
abbrev pub ClientAbove : ℕ → Client → Type 0
ClientAbove n w = Above n w.library

module _ (cpic : Cpic) (os : Os) (n handle : ℕ) (w : Client) (t : ClientAbove n w) where
  in_client-Above :
      (o : Outcome Receiver (Unit {0}))
      → w.library.sessions handle ≢ Slot.null
      → Lands (ClientAbove n) (in_client cpic os handle w o)
  in_client-Above (ok a e) old = (
    set_slot-Table w.library.sessions w.library.ftp_handle_counter handle (Slot.live e.conn.session)
        (live≢null e.conn.session) old t.0,
    t.1,
  )
  in_client-Above (exit m) old = tt
  in_client-Above abort old = tt
  in_client-Above fault old = tt
  in_client-Above out_of_fuel old = tt

  on_slot-Above :
      (m : Cmd Receiver (Unit {0})) (slot : Slot)
      → w.library.sessions handle ≡ slot
      → Lands (ClientAbove n) (on_slot cpic os handle m slot w)
  on_slot-Above m Slot.null e = t
  on_slot-Above m Slot.freed e = tt
  on_slot-Above m (Slot.live s) e = in_client-Above _ (rw e (live≢null s))

  pub receive_file-Above :
      (local_file : Bytes) (m : ℕ) (remote_file : Bytes) (m' fuel : ℕ)
      → Lands (ClientAbove n) (receive_file cpic os handle local_file m remote_file m' fuel w)
  unfolding receive_file
  receive_file-Above local_file m remote_file m' fuel = elim (Bool-cases (ltb handle 20)) [
    | inl y ↦ rw y (
        on_slot-Above
          (open_or_fail cpic os local_file m remote_file m' fuel (before_nul local_file))
          (w.library.sessions handle) refl)
    | inr k ↦ rw k t
  ]

  pub send_file-Above :
      (local_file : Bytes) (m : ℕ) (remote_file : Bytes) (m' fuel : ℕ)
      → Lands (ClientAbove n) (send_file cpic os handle local_file m remote_file m' fuel w)
  unfolding send_file
  send_file-Above local_file m remote_file m' fuel = elim (Bool-cases (ltb handle 20)) [
    | inl y ↦ rw y (
        on_slot-Above (open_source cpic os local_file m remote_file m' fuel (before_nul local_file))
          (w.library.sessions handle) refl)
    | inr k ↦ rw k t
  ]
