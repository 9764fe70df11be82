-- ===== src/Aftp/Table/Parts.antt =====
-- The functions of libasuite/libaftp.c that work on one session, and the table of sessions.
use linux_sna.Base.{
  ℕ, Bytes, Option, none, some, length, ltb, leb, Bool-cases, inl, inr, Cmd, ◌≡◌, refl,
}
use linux_sna.Asuite.Cpic.{Cpic}
use linux_sna.Aftp.{Session, Library, Conn, with_session}
use linux_sna.Aftp.Request.{
  change_dir, create_dir, delete, remove_dir, rename, query_current_dir, query_system_info,
}
use linux_sna.Aftp.Table.{close, connect}
use linux_sna.Aftp.Table.Invariant.{Lands, Above, with_session-Above, at_handle-Above}
use linux_sna.Aftp.Extract.{
  extract_allocation_size, extract_block_size, extract_data_type, extract_date_mode,
  extract_record_format, extract_record_length, extract_security_type, extract_write_mode,
  extract_destination, extract_mode_name, extract_tp_name, extract_password, extract_userid,
  extract_partner_lu_name, extract_field, extract_name, answer_name, store_answer,
}
use linux_sna.Aftp.Attributes.{
  set_allocation_size, set_block_size, set_data_type, set_date_mode, set_record_format,
  set_record_length, set_security_type, set_write_mode, set_destination, set_mode_name, set_tp_name,
  set_password, set_userid,
}
use linux_sna.Aftp.Table.Operation.{
  Number, Name, Extracted, destination, mode_name, tp_name, password, userid, the_name,
  partner_lu_name, allocation_size, block_size, data_type, date_mode, record_format, record_length,
  security_type, write_mode, number_setter, name_setter, number_getter, name_getter,
}

-- A function that does what it does to the session at one handle.
unfoldable pub OnSession : Cmd Library (Unit {0}) → Type 0
OnSession f =
    (handle : ℕ) × (invalid : ℕ) × (m : Cmd Conn (Unit {0})) × (f ≡ with_session handle invalid m)

pub OnSession-Above :
    (n : ℕ) (f : Cmd Library (Unit {0})) (w : Library)
    → OnSession f
    → Above n w
    → Lands (Above n) (f w)
unfolding OnSession
OnSession-Above n f w found t = rw found.3 (with_session-Above n found.0 found.1 found.2 w t)

pub number_setter-OnSession :
    (number : Number) (handle n : ℕ) → OnSession (number_setter number handle n)
unfolding OnSession number_setter set_allocation_size set_block_size set_data_type set_date_mode
    set_record_format set_record_length set_security_type set_write_mode
number_setter-OnSession allocation_size handle n = (handle, _, _, refl)
number_setter-OnSession block_size handle n = (handle, _, _, refl)
number_setter-OnSession data_type handle n = (handle, _, _, refl)
number_setter-OnSession date_mode handle n = (handle, _, _, refl)
number_setter-OnSession record_format handle n = (handle, _, _, refl)
number_setter-OnSession record_length handle n = (handle, _, _, refl)
number_setter-OnSession security_type handle n = (handle, _, _, refl)
number_setter-OnSession write_mode handle n = (handle, _, _, refl)

pub name_setter-OnSession :
    (name : Name) (handle n : ℕ) (memory : Bytes) → OnSession (name_setter name handle memory n)
unfolding OnSession name_setter set_destination set_mode_name set_tp_name set_password set_userid
name_setter-OnSession destination handle n memory = (handle, _, _, refl)
name_setter-OnSession mode_name handle n memory = (handle, _, _, refl)
name_setter-OnSession tp_name handle n memory = (handle, _, _, refl)
name_setter-OnSession password handle n memory = (handle, _, _, refl)
name_setter-OnSession userid handle n memory = (handle, _, _, refl)

pub requests-OnSession :
    (cpic : Cpic) (handle m n : ℕ) (name new : Bytes)
    → OnSession (close cpic handle)
      × OnSession (connect cpic handle)
      × OnSession (change_dir cpic handle name n)
      × OnSession (create_dir cpic handle name n)
      × OnSession (remove_dir cpic handle name n)
      × OnSession (delete cpic handle name n)
      × OnSession (rename cpic handle name m new n)
      × OnSession (query_current_dir cpic handle n)
      × OnSession (query_system_info cpic handle n)
unfolding OnSession close connect change_dir create_dir remove_dir delete rename query_current_dir
    query_system_info
requests-OnSession cpic handle m n name new = (
  (handle, _, _, refl),
  (handle, _, _, refl),
  (handle, _, _, refl),
  (handle, _, _, refl),
  (handle, _, _, refl),
  (handle, _, _, refl),
  (handle, _, _, refl),
  (handle, _, _, refl),
  (handle, _, _, refl),
)

pub number_getter-Above :
    (n : ℕ) (number : Number) (handle : ℕ) (w : Library)
    → Above n w
    → Lands (Above n) (number_getter number handle w)
unfolding number_getter extract_allocation_size extract_block_size extract_data_type
    extract_date_mode extract_record_format extract_record_length extract_security_type
    extract_write_mode extract_field
number_getter-Above n allocation_size handle w t = at_handle-Above n handle _ w (λ s. t)
number_getter-Above n block_size handle w t = at_handle-Above n handle _ w (λ s. t)
number_getter-Above n data_type handle w t = at_handle-Above n handle _ w (λ s. t)
number_getter-Above n date_mode handle w t = at_handle-Above n handle _ w (λ s. t)
number_getter-Above n record_format handle w t = at_handle-Above n handle _ w (λ s. t)
number_getter-Above n record_length handle w t = at_handle-Above n handle _ w (λ s. t)
number_getter-Above n security_type handle w t = at_handle-Above n handle _ w (λ s. t)
number_getter-Above n write_mode handle w t = at_handle-Above n handle _ w (λ s. t)

store_answer-Above :
    (n : ℕ) (o o' : Option Bytes) (w : Library) → Above n w → Lands (Above n) (store_answer o o' w)
unfolding store_answer
store_answer-Above n (some bytes) (some s) w t = t
store_answer-Above n (some bytes) none w t = tt
store_answer-Above n none o w t = tt

extract_name-Above :
    (n : ℕ) (field : Session → Bytes) (handle size : ℕ) (w : Library)
    → Above n w
    → Lands (Above n) (extract_name field handle size w)
unfolding extract_name answer_name
extract_name-Above n field handle size w t = at_handle-Above n handle _ w (λ s.
    elim (Bool-cases (ltb 0 (length (field s)))) [
      | inl y ↦ rw y (elim (Bool-cases (leb (length (field s)) size)) [
        | inl y' ↦ rw y' (store_answer-Above n _ _ w t)
        | inr m ↦ rw m t
      ])
      | inr m ↦ rw m t
    ])

pub name_getter-Above :
    (n : ℕ) (name : Extracted) (handle size : ℕ) (w : Library)
    → Above n w
    → Lands (Above n) (name_getter name handle size w)
unfolding name_getter extract_destination extract_mode_name extract_tp_name extract_password
    extract_userid extract_partner_lu_name
name_getter-Above n (the_name destination) handle size w t =
    extract_name-Above n (λ s. s.destination) handle size w t
name_getter-Above n (the_name mode_name) handle size w t =
    extract_name-Above n (λ s. s.mode_name) handle size w t
name_getter-Above n (the_name tp_name) handle size w t =
    extract_name-Above n (λ s. s.tp_name) handle size w t
name_getter-Above n (the_name password) handle size w t =
    extract_name-Above n (λ s. s.password) handle size w t
name_getter-Above n (the_name userid) handle size w t =
    extract_name-Above n (λ s. s.userid) handle size w t
name_getter-Above n partner_lu_name handle size w t =
    extract_name-Above n (λ s. s.destination) handle size w t
