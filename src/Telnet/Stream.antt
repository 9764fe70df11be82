-- ===== src/Telnet/Stream.antt =====
-- The stream object, and its reads and writes of the socket.
pub mod Environment
pub mod Write
pub mod Rounds
use Prim.Native.Nat.{bit_and}
use linux_sna.Base.{
  ℕ, zero, suc, ◌-◌, Bool, true, false, not, Option, none, some, List, [], ◌∷◌, ◌++◌, ◌==◌,
  if◌then◌else◌, ℤ, pos, negsuc, Bytes, length, take, drop, codes, Outcome, ok, exit, Cmd, pure,
  get, modify, ◌>>=◌, ◌>>◌, and_then,
}
use linux_sna.Buffer.{Buffer}
use linux_sna.Config
use linux_sna.Config.{Config, Value, text}
use linux_sna.Record.{Rec}
use linux_sna.Telnet.Codes.{host}

-- What one wait and `recv` of a byte meets: a byte, no data in time, EAGAIN or EINTR, another
-- error, or the end of the connection. When the list is used up nothing more arrives.
pub data Event : Type 0 where
  byte : ℕ → Event
  idle again broken closed : Event

-- What one `select` and `send` meets: the kernel takes so many bytes at most, `send` gives
-- EAGAIN, `select` gives EINTR or EAGAIN, or either fails otherwise. When the list is used up
-- each `send` takes all.
pub data SendResult : Type 0 where
  takes : ℕ → SendResult
  busy interrupted failed : SendResult

-- TN5250_STREAM_STATE_*
pub data State : Type 0 where
  no_data data_state have_iac have_verb have_sb have_sb_iac : State

pub data StreamType : Type 0 where
  tn3270 tn3270e tn5250 : StreamType

-- Which of the two `*_telnet_stream_init` has set the function pointers. That of TN5250 leaves
-- `accept` as `malloc` gave it and `send_packet` NULL.
pub data Handlers : Type 0 where
  unset set_tn5250 set_tn3270 : Handlers

-- `tnXstream`, with the socket behind `sockfd`. `config` and `current_record` are `none` for
-- NULL. `records` lists the ring from its head on. `junk` is what a byte that was never written
-- reads as.
pub record Stream : Type 0 where
  pub config : Option Config
  pub records : List Rec
  pub current_record : Option Rec
  pub record_count : ℕ
  pub sb_buf : Buffer
  pub sockfd : ℤ
  pub status : ℕ
  pub state : State
  pub streamtype : StreamType
  pub msec_wait : ℕ
  pub handlers : Handlers
  pub input : List Event
  pub sends : List SendResult
  pub output : Bytes
  pub last_error : ℤ
  pub junk : ℕ

-- `This->status & HOST`
abbrev pub is_host : Stream → Bool
is_host s = not (bit_and s.status host == 0)

-- `env.` in front of a name
abbrev pub env_name : Bytes → Bytes
env_name name = codes "env." ++ name

or_new : Option Config → Config
or_new none = Config.new
or_new (some c) = c

store_config : Option Config → Cmd Stream (Unit {0})
store_config none s = Outcome.fault
store_config (some c) s = ok tt (record s { config = some c })

-- `tnX_stream_setenv`
unfoldable pub setenv : Bytes → Bytes → Cmd Stream (Unit {0})
unfolding or_new store_config
setenv name v s =
    store_config (Config.set (or_new s.config) (env_name name) Config.config_string (text v)) s

-- `tnX_stream_getenv`
unfoldable pub getenv : Stream → Bytes → Option Value
getenv s name = elim s.config [ none ↦ none | some c ↦ Config.get c (env_name name) ]

-- `telnet_stream_get_next` at one event: a byte, -1 for no data, -2 for a lost connection
abbrev pub got : Event → ℤ
got (byte c) = pos c
got idle = negsuc 0
got again = negsuc 0
got broken = negsuc 1
got closed = negsuc 1

-- A plain `send` of a reply: what of it is taken goes out, and the result says if it failed.
sent : List SendResult → Bytes → Cmd Stream Bool
sent [] bytes s = ok false (record s { output = s.output ++ bytes })
sent (takes n ∷ rs) bytes s = ok false (record s { sends = rs; output = s.output ++ take n bytes })
sent (busy ∷ rs) bytes s = ok true (record s { sends = rs })
sent (interrupted ∷ rs) bytes s = ok true (record s { sends = rs })
sent (failed ∷ rs) bytes s = ok true (record s { sends = rs })

unfoldable pub send_reply : Bytes → Cmd Stream Bool
unfolding sent
send_reply bytes s = sent s.sends bytes s

-- The test behind a round of `telnet_stream_write` that met no other error: are bytes left?
unfoldable pub while_left : Bytes → Stream → Outcome Stream (Unit {0}) → Outcome Stream (Unit {0})
while_left [] s rest = ok tt s
while_left (b ∷ bytes) s rest = rest

-- The loop of `telnet_stream_write`. EAGAIN and EINTR bring it round again with the same bytes.
unfoldable pub write_loop : List SendResult → Bytes → Cmd Stream (Unit {0})
unfolding while_left
write_loop [] bytes s = ok tt (record s { sends = []; output = s.output ++ bytes })
write_loop (takes n ∷ rs) bytes s =
    let s' = record s { sends = rs; output = s.output ++ take n bytes } in
    while_left (drop n bytes) s' (write_loop rs (drop n bytes) s')
write_loop (busy ∷ rs) bytes s =
    while_left bytes (record s { sends = rs }) (write_loop rs bytes (record s { sends = rs }))
write_loop (interrupted ∷ rs) bytes s =
    while_left bytes (record s { sends = rs }) (write_loop rs bytes (record s { sends = rs }))
write_loop (failed ∷ rs) bytes s = exit 5

-- `telnet_stream_write`
unfoldable pub stream_write : Bytes → Cmd Stream (Unit {0})
unfolding write_loop
stream_write bytes s = write_loop s.sends bytes s
