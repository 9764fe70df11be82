-- ===== src/Aftpd.antt =====
-- asuite/aftpd.c: the server's side of the file transfer, over the calls of the operating system
-- as a parameter: what each answers, by the calls made so far, the latest first.
pub mod Names
pub mod Files
pub mod Serve
pub mod Parse
pub mod Respond
pub mod Exchange
pub mod Stuck
pub mod Download
pub mod Whole
pub mod Upload
pub mod Delivery
pub mod Fetch
pub mod Asked
pub mod Downloaded
use linux_sna.Base.{
  ℕ, zero, suc, ◌+◌, List, [], ◌∷◌, ltb, ◌==◌, if◌then◌else◌, Bytes, ℤ, pos, negsuc, Option, none,
  some, Bool, true, false, Cmd, Outcome, ok, exit, abort, fault, out_of_fuel, pure, get, modify,
  ◌>>=◌, ◌>>◌, and_then,
}
use linux_sna.Asuite.{AsuiteRecord, peek, get_param_len, get_key, max_buffer_size}
use linux_sna.Asuite.Codes.{rc_ok, fail_input_error, program_internal_error, unknown_parameter}
use linux_sna.Asuite.Cpic.{Call, Cpic, Link, on_rec, send_asuiterecord, send_simple_response}

-- `errno`, with those values that the source tells apart
pub data Errno : Type 0 where
  enoent eacces eperm eexist exdev other : Errno

-- A call with its arguments. `open_read` is `open` with O_RDONLY, `open_write` that with O_CREAT
-- and O_WRONLY; `read` has the number of bytes that it may give.
pub data OsCall : Type 0 where
  chdir mkdir rmdir unlink open_read open_write : Bytes → OsCall
  rename : Bytes → Bytes → OsCall
  read : ℤ → ℕ → OsCall
  write : ℤ → Bytes → OsCall
  close : ℤ → OsCall

-- The result, `errno` if that is negative, and the bytes that `read` gives.
pub record OsReply : Type 0 where
  pub result : ℤ
  pub errno : Errno
  pub bytes : Bytes

abbrev pub Os : Type 0
Os = List OsCall → OsReply

-- The static variables, and the calls of CPI-C and of the system so far
pub record Globals : Type 0 where
  pub conv_id : Bytes
  pub rec : AsuiteRecord
  pub returned_length : ℕ
  pub curpos : ℕ
  pub dest_file : ℤ
  pub calls : List Call
  pub os_calls : List OsCall

-- The variables of a function that reads parameters; `none` is a pointer that was not set.
pub record Locals : Type 0 where
  pub filespec_ptr : Option Bytes
  pub newfilespec_ptr : Option Bytes
  pub data_type : ℕ

-- AFTP_ASCII is 0.
abbrev pub no_locals : Locals
no_locals = record { filespec_ptr = none; newfilespec_ptr = none; data_type = 0 }

abbrev pub in_globals : {A : Type 0} → Globals → Outcome Link A → Outcome Globals A
in_globals g (ok a l) = ok a (record g { rec = l.rec; calls = l.calls })
in_globals g (exit n) = exit n
in_globals g abort = abort
in_globals g fault = fault
in_globals g out_of_fuel = out_of_fuel

abbrev pub on_link : {A : Type 0} → Cmd Link A → Cmd Globals A
on_link m g = in_globals g (m (record { rec = g.rec; calls = g.calls }))

abbrev pub on_record : {A : Type 0} → Cmd AsuiteRecord A → Cmd Globals A
on_record m = on_link (on_rec m)

-- The string at `i` in the buffer, up to its NUL
unfoldable pub read_string : ℕ → ℕ → Cmd AsuiteRecord Bytes
read_string zero i = λ r. out_of_fuel
read_string (suc fuel) i = do
  c ← peek i
  if c == 0 then pure [] else do rest ← read_string fuel (suc i); pure (c ∷ rest)

-- The copy of the string in the parameter at `curpos`; `malloc` is taken to succeed.
unfoldable pub param_string : Cmd Globals Bytes
unfolding read_string
param_string = do g ← get; on_record (read_string max_buffer_size (g.curpos + 3))

-- The loop over the parameters, with what is done for a key; the result `none` is a return from
-- inside the loop. A parameter of length 0 is never left, and then the fuel runs out.
unfoldable pub parse :
    (ℕ → Locals → Cmd Globals (Option Locals)) → ℕ → Locals → Cmd Globals (Option Locals)
unfolding get_param_len
parse param zero vars = λ g. out_of_fuel
parse param (suc fuel) vars = do
  g ← get
  param_len ← on_record (get_param_len g.curpos)
  key ← on_record (get_key g.curpos)
  result ← param key vars
  elim result [
    | none ↦ pure none
    | some vars' ↦ do
      modify (λ g'. record g' { curpos = g'.curpos + param_len })
      g'' ← get
      if ltb g''.curpos g''.returned_length then parse param fuel vars' else pure (some vars')
  ]

-- What a function does behind its loop; a use of a pointer that was not set is undefined.
abbrev pub finish : (Locals → Cmd Globals (Unit {0})) → Option Locals → Cmd Globals (Unit {0})
finish body none = pure tt
finish body (some vars) = body vars

abbrev pub needs : Option Bytes → (Bytes → Cmd Globals (Unit {0})) → Cmd Globals (Unit {0})
needs none body g = fault
needs (some s) body g = body s g

unfoldable pub with_params :
    (ℕ → Locals → Cmd Globals (Option Locals))
    → (Locals → Cmd Globals (Unit {0}))
    → Cmd Globals (Unit {0})
unfolding parse
with_params param body = do
  g ← get
  vars ← parse param (suc g.returned_length) no_locals
  finish body vars

abbrev pub negative : ℤ → Bool
negative (pos n) = false
negative (negsuc n) = true

abbrev pub keep_rec : Globals → Outcome Link (Unit {0}) → Outcome Globals (Unit {0})
keep_rec g (ok a l) = ok tt (record g { calls = l.calls })
keep_rec g (exit n) = exit n
keep_rec g abort = abort
keep_rec g fault = fault
keep_rec g out_of_fuel = out_of_fuel

unfoldable pub os_call : Os → OsCall → Cmd Globals OsReply
os_call os call g = let calls = call ∷ g.os_calls in ok (os calls) (record g { os_calls = calls })

module _ (cpic : Cpic) (fresh : AsuiteRecord) where
  -- `send_simple_response(conv_id, errcode, 0, index)`, which works on a record of its own; `fresh`
  -- is what `malloc` leaves in that.
  unfoldable pub respond : ℕ → ℕ → Cmd Globals (Unit {0})
  unfolding send_simple_response
  respond errcode index g = keep_rec g (
      send_simple_response cpic g.conv_id errcode 0 index (record { rec = fresh; calls = g.calls }))

  -- `send_asuiterecord(conv_id, record)`
  unfoldable pub send_record : Cmd Globals ℕ
  unfolding send_asuiterecord
  send_record g = on_link (send_asuiterecord cpic g.conv_id) g

  -- A key that the function does not know
  unfoldable pub unknown : Cmd Globals (Option Locals)
  unfolding respond
  unknown = do respond program_internal_error unknown_parameter; pure none

  -- The response to a call of the system, with the index for its error
  unfoldable pub on_result : (Errno → ℕ) → OsReply → Cmd Globals (Unit {0})
  unfolding respond
  on_result index reply =
      if negative reply.result
      then respond fail_input_error (index reply.errno)
      else respond rc_ok 0
