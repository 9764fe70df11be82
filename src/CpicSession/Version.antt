-- ===== src/CpicSession/Version.antt =====
-- The exchange of versions of libasuite/cpicsession.c.
use mathlib.Core.Option
use linux_sna.Base.{
  ℕ, zero, suc, ◌+◌, ◌-◌, List, [], ◌∷◌, ◌++◌, ltb, ◌==◌, ◌&&◌, if◌then◌else◌, Bytes, codes, length,
  take, Option, none, some, Cmd, fault, pure, get, modify, ◌>>=◌, ◌>>◌,
}
use linux_sna.Asuite.{update, cells}
use linux_sna.Asuite.Cpic.{fill}
use linux_sna.CpicSession.{
  Status, confirm_received, send_received, other_status, Call, cmsptr, cmsst, cmsend, cmrcv, cmcfmd,
  cmptr, Reply, Cpic,
}

-- EXCHANGE_BUFFER_SIZE, EXCHANGE_VERSION, EXCHANGE_OS_NAME and OS_NAME
abbrev pub buffer_size : ℕ
buffer_size = 128

abbrev pub exchange_version : ℕ
exchange_version = 1

abbrev pub exchange_os_name : ℕ
exchange_os_name = 2

abbrev pub local_os_name : Bytes
local_os_name = codes "Linux"

-- The variables of a function and of its caller: the buffer, the calls so far, `*rc`, the two
-- numbers, and the string in `os_name`.
pub record Exchange : Type 0 where
  pub buffer : ℕ → ℕ
  pub calls : List Call
  pub rc : ℕ
  pub major : ℕ
  pub minor : ℕ
  pub os_name : Bytes

-- The string at `i` in a buffer of `n` more bytes
unfoldable pub string_at : (ℕ → ℕ) → ℕ → ℕ → Option Bytes
string_at f zero i = none
string_at f (suc n) i =
    let rest = string_at f n (suc i) in
    if f i == 0 then some [] else Option.map (λ (s : Bytes). f i ∷ s) rest

-- `if (received_len > 2 && buffer[0]==EXCHANGE_VERSION)`
unfoldable pub read_version : ℕ → Cmd Exchange (Unit {0})
read_version received_len = modify λ e.
    if ltb 2 received_len && (e.buffer 0 == exchange_version)
    then record e { major = e.buffer 1; minor = e.buffer 2 }
    else e

-- `memcpy` and the NUL, in the caller's array of `size` bytes; `strlen` reads behind the buffer if
-- there is no NUL.
abbrev pub store_os_name : ℕ → Option Bytes → Cmd Exchange (Unit {0})
store_os_name size none = λ e. fault
store_os_name size (some name) = modify λ e. record e { os_name = take (size - 1) name }

-- The name of the system behind the version; the NUL behind 128 received bytes is written behind
-- the buffer.
unfoldable pub read_os_name : ℕ → ℕ → Cmd Exchange (Unit {0})
unfolding string_at
read_os_name size received_len = do
  e ← get
  if ltb 4 received_len && (e.buffer 3 == exchange_os_name)
      then (if ltb received_len buffer_size
          then (do
            modify (λ e'. record e' { buffer = update e'.buffer received_len 0 })
            e'' ← get
            store_os_name size (string_at e''.buffer 124 4))
          else (λ e'. fault))
      else modify (λ e'. record e' { os_name = [] })

-- `if (os_name != NULL && os_name_len > 1)`; a pointer NULL is `none`.
abbrev pub read_os : Option ℕ → ℕ → Cmd Exchange (Unit {0})
read_os none received_len = pure tt
read_os (some size) received_len = if ltb 1 size then read_os_name size received_len else pure tt

abbrev pub clear_version : Cmd Exchange (Unit {0})
clear_version = modify λ e. record e { major = 0; minor = 0 }

-- What `get_client_version` sends: the version and, if there is room for it, the system's name
abbrev pub own_version : ℕ → ℕ → Bytes
own_version tp_major tp_minor =
    exchange_version
    ∷ tp_major
    ∷ tp_minor
    ∷ (if ltb (length local_os_name + 5) buffer_size
        then exchange_os_name ∷ (local_os_name ++ 0 ∷ [])
        else [])

-- `received_len`
abbrev pub received_len : Reply → ℕ
received_len reply = length (take buffer_size reply.bytes)

module _ (cpic : Cpic) where
  -- A call that sets `*rc`
  unfoldable pub call : Call → Cmd Exchange (Unit {0})
  call c = modify λ e. record e { calls = c ∷ e.calls; rc = (cpic (c ∷ e.calls)).cm_rc }

  -- `if (*rc != CM_OK) goto errout;`
  unfoldable pub or_errout : Cmd Exchange ℕ → Cmd Exchange ℕ
  or_errout next = do e ← get; if e.rc == 0 then next else pure 0

  -- `cmrcv` into the buffer, at most its size
  unfoldable pub receive : Cmd Exchange Reply
  unfolding call
  receive = do
    call cmrcv
    e ← get
    let reply = cpic e.calls
    let bytes = take buffer_size reply.bytes
    if reply.cm_rc == 0 then modify (λ e'. record e' { buffer = fill bytes e'.buffer }) else pure tt
    pure reply

  -- `cmsptr` and `cmsst`, and what follows if both succeed
  unfoldable pub prepared : Cmd Exchange ℕ → Cmd Exchange ℕ
  unfolding call or_errout
  prepared next = clear_version >> call cmsptr >> or_errout (call cmsst >> or_errout next)

  -- `switch (status_received)` of `get_server_version`
  abbrev pub server_status : Status → Cmd Exchange ℕ
  unfolding call
  server_status confirm_received = call cmcfmd >> pure 0
  server_status send_received = pure 0
  server_status other_status = pure 0

  abbrev pub on_server_reply : Option ℕ → Reply → Cmd Exchange ℕ
  on_server_reply os_name_len reply =
      if reply.cm_rc == 0
      then (if reply.no_data
          then pure 1
          else read_version (received_len reply)
            >> read_os os_name_len (received_len reply)
            >> server_status reply.status)
      else pure 0

  -- `get_server_version`
  unfoldable pub get_server_version : ℕ → ℕ → Option ℕ → Cmd Exchange ℕ
  unfolding prepared call or_errout receive read_version read_os_name
  get_server_version client_major client_minor os_name_len = prepared (do
    modify (λ e. record e {
      buffer = update (update (update e.buffer 0 exchange_version) 1 client_major) 2 client_minor;
    })
    e ← get
    call (cmsend (cells e.buffer 0 3))
    or_errout (receive >>= on_server_reply os_name_len))

  -- The answer of `get_client_version`, if the partner may not send any more
  abbrev pub answer : ℕ → ℕ → Status → Cmd Exchange ℕ
  unfolding call or_errout
  answer tp_major tp_minor send_received =
      call (cmsend (own_version tp_major tp_minor)) >> or_errout (call cmptr >> pure 0)
  answer tp_major tp_minor confirm_received = do
    call cmcfmd
    e ← get
    if e.rc == 0 then pure 0 else pure 1
  answer tp_major tp_minor other_status = pure 0

  abbrev pub on_client_reply : ℕ → ℕ → Option ℕ → Reply → Cmd Exchange ℕ
  on_client_reply tp_major tp_minor os_name_len reply =
      if reply.cm_rc == 0
      then (if reply.no_data
          then pure tt
          else read_version (received_len reply) >> read_os os_name_len (received_len reply))
        >> answer tp_major tp_minor reply.status
      else pure 1

  -- `get_client_version`
  unfoldable pub get_client_version : ℕ → ℕ → Option ℕ → Cmd Exchange ℕ
  unfolding prepared receive read_version read_os_name call or_errout
  get_client_version tp_major tp_minor os_name_len =
      prepared (receive >>= on_client_reply tp_major tp_minor os_name_len)
