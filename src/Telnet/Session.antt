-- ===== src/Telnet/Session.antt =====
-- The life of a stream: set-up, the opening negotiation, delivery of records and the end.
pub mod Deliver
use linux_sna.Base.{
  ℕ, ◌+◌, ◌-◌, Bool, true, false, Option, none, some, List, [], ◌∷◌, ◌==◌, leb, if◌then◌else◌, ℤ,
  pos, negsuc, get_or, Outcome, ok, Cmd, Bytes, and_then,
}
use linux_sna.Buffer
use linux_sna.Buffer.{contents}
use linux_sna.Config
use linux_sna.Config.{Config}
use linux_sna.Record
use linux_sna.Record.{Rec}
use linux_sna.Telnet.Codes.{host, host_do_table}
use linux_sna.Telnet.Receive.{handle_receive}
use linux_sna.Telnet.Stream.{
  Event, data_state, StreamType, tn3270, tn3270e, tn5250, Handlers, unset, set_tn5250, set_tn3270,
  Stream, send_reply,
}

-- `streamInit`, on the memory as `malloc` gave it: `state` and `accept` are not written.
abbrev pub stream_init : ℕ → Stream → Stream
stream_init timeout s = record s {
  status = 0;
  config = none;
  handlers = unset;
  record_count = 0;
  records = [];
  current_record = none;
  sockfd = negsuc 0;
  msec_wait = timeout;
  streamtype = tn5250;
  sb_buf = Buffer.init;
}

-- `tn5250_telnet_stream_init` and `tn3270_telnet_stream_init`, by the type asked for
abbrev pub type_init : StreamType → Stream → Stream
type_init tn5250 s = record s { handlers = set_tn5250; streamtype = tn5250 }
type_init tn3270 s = record s { handlers = set_tn3270; streamtype = tn3270 }
type_init tn3270e s = record s { handlers = set_tn3270; streamtype = tn3270 }

-- The wait of at most five seconds in `telnet_stream_accept`: is there something to read?
readable : List Event → Cmd Stream Bool
readable [] s = ok false s
readable (Event.idle ∷ events) s = ok false (record s { input = events })
readable (e ∷ events) s = ok true s

abbrev or_minus_one : ℤ → ℤ
or_minus_one (pos n) = if n == 0 then negsuc 0 else pos n
or_minus_one (negsuc n) = negsuc n

-- The rest of a round of `telnet_stream_accept` once the request is written.
accept_answer : Cmd Stream ℤ → Bool → Cmd Stream ℤ
accept_answer next false s = ok (negsuc 0) s
accept_answer next true s =
    and_then (handle_receive s)
      (λ alive t. if alive then next t else ok (or_minus_one t.last_error) t)

-- The loop of `telnet_stream_accept` over `hostDoTable`; 0 for success.
accept_loop : List Bytes → Cmd Stream ℤ
unfolding readable accept_answer
accept_loop [] s = ok (pos 0) s
accept_loop (cmd ∷ cmds) s = and_then (send_reply cmd s) (λ bad t.
    if bad
    then ok t.last_error t
    else and_then (readable t.input t) (accept_answer (accept_loop cmds)))

-- `telnet_stream_accept`
unfoldable pub accept : ℤ → Cmd Stream ℤ
unfolding accept_loop
accept masterfd s =
    accept_loop host_do_table (record s { sockfd = masterfd; state = data_state; status = host })

-- `This->accept`, where `*_telnet_stream_init` has set it; that of TN5250 does not.
accept_pointer : Handlers → Option (ℤ → Cmd Stream ℤ)
unfolding accept
accept_pointer set_tn3270 = some accept
accept_pointer set_tn5250 = none
accept_pointer unset = none

-- The call through that pointer, which is undefined behaviour if nothing has written it.
call_accept : Option (ℤ → Cmd Stream ℤ) → ℤ → Cmd Stream ℤ
call_accept none masterfd s = Outcome.fault
call_accept (some f) masterfd s = f masterfd s

unref : Option Config → Option Config
unref none = none
unref (some c) = Config.unref c

-- `tnX_stream_destroy`: what it releases. The record under construction is not among it.
unfoldable pub stream_destroy : Stream → Stream
unfolding unref
stream_destroy s = record s { config = unref s.config; sb_buf = Buffer.free s.sb_buf; records = [] }

abbrev is_zero : ℤ → Bool
is_zero (pos n) = n == 0
is_zero (negsuc n) = false

-- `tnX_stream_host` on the memory that `malloc` gave; `true` is a stream, `false` NULL
unfoldable pub stream_host : ℤ → ℕ → StreamType → Cmd Stream Bool
unfolding call_accept accept_pointer stream_destroy
stream_host masterfd timeout streamtype raw =
    let s = type_init streamtype (stream_init timeout raw) in
    and_then (call_accept (accept_pointer s.handlers) masterfd s)
      (λ ret t. if is_zero ret then ok true t else ok false (stream_destroy t))

-- The offset of the data in a record, with the assertion on its length.
offset_of : StreamType → Rec → Option ℕ
offset_of tn5250 r = if leb 10 r.buffer.len then some (6 + get_or (contents r.buffer) 6 0) else none
offset_of tn3270 r = some 0
offset_of tn3270e r = some 0

positioned : Option ℕ → Rec → Cmd Stream Rec
positioned none r s = Outcome.abort
positioned (some offset) r s = ok (Record.set_cur_pos r offset) s

take_record : List Rec → Cmd Stream Rec
unfolding offset_of positioned
take_record [] s = Outcome.abort
take_record (r ∷ rs) s =
    positioned (offset_of s.streamtype r) r
      (record s { records = rs; record_count = s.record_count - 1 })

-- `tnX_stream_get_record`
unfoldable pub get_record : Cmd Stream Rec
unfolding take_record
get_record s = if leb 1 s.record_count then take_record s.records s else Outcome.abort
