-- ===== src/Tests.antt =====
-- The theorems on streams at concrete inputs: packets of two and one bytes, a kernel that splits
-- the writes, a client with a terminal type.
pub mod Data
pub mod Transfer
pub mod Gateway
pub mod Rings
pub mod Serving
pub mod Downloads
pub mod Versions
use linux_sna.Base.{
  ℕ, zero, suc, ◌↔◌, ◌+◌, ◌-◌, ◌*◌, true, false, none, some, List, [], ◌∷◌, ◌++◌, map, ◌≡◌, ◌≢◌,
  refl, arith, if◌then◌else◌, pos, negsuc, Bytes, codes, equal, Outcome, ok, out_of_fuel,
}
use linux_sna.Buffer
use linux_sna.Buffer.{Buffer, append_byte, append_data, contents, init}
use linux_sna.Buffer.Contents.{
  IsValid, init-IsValid, init-Holds, append_data-Holds, append_data_lem,
}
use linux_sna.Config
use linux_sna.Config.{Config, Var, Value, text, items, config_string, config_list, set, promote}
use linux_sna.Config.Lookup.{set-get, set-get_list}
use linux_sna.Config.Promote.{promote-ends}
use linux_sna.Config.Load.{load, loaded, skip_spaces, trim_end, prefixed}
use linux_sna.Config.Load.Print.{Entry, entry_line, set_all}
use linux_sna.Config.Load.Sections.{Section, print_sections, set_sections, load-print}
use linux_sna.Record
use linux_sna.Record.{Rec, set_cur_pos}
use linux_sna.Record.Read.{read_bytes, read_bytes_lem}
use linux_sna.CharMap.{CharMap, to_remote, to_local, find}
use linux_sna.CharMap.Tables.{iso_8859_1_to_ibm273, ibm273_to_iso_8859_1}
use linux_sna.CharMap.Reversible.{shown, to_local-to_remote}
use linux_sna.Host.{address, addr1, addr2, append_block}
use linux_sna.Host.Address.{decode, decode-address}
use linux_sna.Host.Text.{printable, append_block-to_local}
use linux_sna.Wildcard.{overrun, yes, matches}
use linux_sna.Wildcard.Glob.{Matches}
use linux_sna.Wildcard.Exact.{wc_match_lem}
use linux_sna.Telnet.Codes.{iac, do_it, new_environ, terminal_type, end_of_record}
use linux_sna.Telnet.Stream.{
  byte, idle, SendResult, takes, busy, interrupted, data_state, tn3270, tn5250, set_tn3270, Stream,
  stream_write, setenv, getenv, env_name, send_reply,
}
use linux_sna.Telnet.Stream.Write.{Sent, stream_write-Sent}
use linux_sna.Telnet.Stream.Rounds.{write_rounds, IsSoft, Steady, write_rounds-ends}
use linux_sna.Telnet.Stream.Environment.{setenv-getenv}
use linux_sna.Telnet.Negotiate.{client_sb, reply_verb}
use linux_sna.Telnet.Send.{send_packet}
use linux_sna.Telnet.Send.Wire.{wire, send_packet-Sent}
use linux_sna.Telnet.Receive.{get_byte, get_byte_from, handle_receive}
use linux_sna.Telnet.Receive.Framing.{frame, arrive}
use linux_sna.Telnet.Receive.Ends.{handle_receive-ends}
use linux_sna.Telnet.Receive.Packets.{HasReceived, bytes_of, send_all, receive-send}
use linux_sna.Telnet.Receive.Empty.{receive_empty_packet}
use linux_sna.Telnet.Receive.Exchange.{HasTerm, term_type_exchange}
use linux_sna.Telnet.Receive.SubOption.{inside, doubled_iac_drops}
use linux_sna.Telnet.Receive.Verb.{waiting, split_verb_lost}
use linux_sna.Telnet.Session.{stream_host}
use linux_sna.Telnet.Session.Deliver.{take_all, rewound, holding, delivered_in_order}

-- A stream of a TN3270 host between two bytes of data, with nothing read or written yet.
abbrev blank : Stream
blank = record {
  config = none;
  records = [];
  current_record = none;
  record_count = 0;
  sb_buf = Buffer.init;
  sockfd = pos 4;
  status = 8;
  state = data_state;
  streamtype = tn3270;
  msec_wait = 10;
  handlers = set_tn3270;
  input = [];
  sends = [];
  output = [];
  last_error = pos 0;
  junk = 251;
}

-- A kernel that takes three bytes, is full, is interrupted, and then takes the rest.
abbrev slow : Stream
slow = record blank { sends = takes 3 ∷ busy ∷ interrupted ∷ [] }

abbrev two_packets : List Bytes
two_packets = (7 ∷ 255 ∷ []) ∷ (8 ∷ []) ∷ []

abbrev two_packets_wire : Bytes
two_packets_wire = 7 ∷ 255 ∷ 255 ∷ 255 ∷ 239 ∷ 8 ∷ 255 ∷ 239 ∷ []

abbrev slow_after : Stream
slow_after = record slow { sends = []; output = two_packets_wire }

abbrev listener : Stream
listener = record blank { input = arrive two_packets_wire }

receive-send_example :
    (b' : Stream) × (handle_receive listener ≡ ok true b') × HasReceived listener b' two_packets
unfolding send_all send_packet stream_write contents append_byte append_data
receive-send_example =
    receive-send two_packets slow slow_after listener
      ((omega arith, (omega arith, tt)), ((omega arith, tt), tt)) refl refl refl refl refl

delivered_in_order_example :
    (b' : Stream) × (rs : List Rec) × (handle_receive listener ≡ ok true b')
    × (take_all b'.record_count b' ≡ ok (map rewound rs) (holding b' [] 0))
    × (map bytes_of (map rewound rs) ≡ two_packets)
unfolding send_all send_packet stream_write contents append_byte append_data
delivered_in_order_example =
    delivered_in_order two_packets slow slow_after listener
      ((omega arith, (omega arith, tt)), ((omega arith, tt), tt)) refl refl refl refl refl refl refl
      refl

send_packet-Sent_example : Sent slow (wire (7 ∷ 255 ∷ [])) (send_packet (7 ∷ 255 ∷ []) slow)
send_packet-Sent_example = send_packet-Sent (7 ∷ 255 ∷ []) slow

stream_write-Sent_example : Sent slow two_packets_wire (stream_write two_packets_wire slow)
stream_write-Sent_example = stream_write-Sent two_packets_wire slow

-- Each second round gives EAGAIN, and each other takes one byte.
abbrev slow_socket : ℕ → SendResult
slow_socket zero = busy
slow_socket (suc zero) = takes 1
slow_socket (suc (suc i)) = slow_socket i

slow_socket-IsSoft : (i : ℕ) → IsSoft (slow_socket i)
slow_socket-IsSoft zero = tt
slow_socket-IsSoft (suc zero) = tt
slow_socket-IsSoft (suc (suc i)) = slow_socket-IsSoft i

slow_socket-Steady : Steady 2 slow_socket
slow_socket-Steady zero = (1, omega arith, omega arith, 0, refl)
slow_socket-Steady (suc zero) = (1, omega arith, omega arith, 0, refl)
slow_socket-Steady (suc (suc j)) =
    let at = slow_socket-Steady j in
    let low = at.1 in
    let high = at.2 in (suc (suc at.0), omega (arith, low), omega (arith, high), at.3, at.4)

write_rounds-ends_example :
    write_rounds 20 slow_socket two_packets_wire slow
    ≡ ok tt (record slow { output = slow.output ++ two_packets_wire })
write_rounds-ends_example =
    write_rounds-ends 2 20 slow_socket two_packets_wire slow slow_socket-IsSoft slow_socket-Steady
      (omega arith)

handle_receive-ends_example : handle_receive listener ≢ out_of_fuel
handle_receive-ends_example = handle_receive-ends listener

-- A client whose terminal type is set, before and after its answer.
abbrev client_config : Config
client_config = record {
  ref = 1;
  vars =
      record { name = codes "env.TERM"; kind = config_string; value = text (codes "IBM-3278") }
      ∷ [];
}

abbrev client : Stream
client = record blank { status = 0; config = some client_config }

abbrev answer : Bytes
answer = 255 ∷ 250 ∷ 24 ∷ 0 ∷ (codes "IBM-3278" ++ 255 ∷ 240 ∷ [])

abbrev client_after : Stream
client_after = record client { status = 1; output = answer }

abbrev asking : Stream
asking = record blank { input = arrive answer }

term_type_exchange_example :
    (h' : Stream) × (handle_receive asking ≡ ok true h') × HasTerm asking h' (codes "IBM-3278")
unfolding getenv client_sb append_data append_byte contents Config.get send_reply
term_type_exchange_example =
    term_type_exchange (codes "IBM-3278") client client_after asking
      (refl, (refl, (refl, (refl, (refl, (refl, (refl, (refl, tt))))))))
      (refl, (refl, (refl, (refl, (refl, (refl, (refl, (refl, tt)))))))) refl refl refl refl refl tt
      refl refl

-- An end of record with nothing before it, and a packet.
abbrev empty_first : Stream
empty_first = record blank { input = arrive (255 ∷ 239 ∷ 5 ∷ 255 ∷ 239 ∷ []) }

receive_empty_packet_example :
    (b' : Stream) × (handle_receive empty_first ≡ ok true b')
    × HasReceived empty_first b' ((231 ∷ 5 ∷ []) ∷ [])
receive_empty_packet_example =
    receive_empty_packet 5 [] empty_first (omega arith, tt) refl refl refl

doubled_iac_drops_example :
    get_byte_from
      (byte iac ∷ byte iac ∷ byte 65 ∷ idle ∷ [])
      none
      (inside blank (byte iac ∷ byte iac ∷ byte 65 ∷ idle ∷ []) init)
    ≡ get_byte_from (idle ∷ []) none (inside blank (idle ∷ []) (append_byte init iac))
doubled_iac_drops_example = doubled_iac_drops blank none 65 (idle ∷ []) init refl refl

split_verb_lost_example :
    (get_byte (frame client (byte iac ∷ byte do_it ∷ idle ∷ byte end_of_record ∷ []) none)
      ≡ ok (negsuc 0) (waiting client (byte end_of_record ∷ [])))
    × (get_byte (waiting client (byte end_of_record ∷ []))
        ≡ ok (negsuc 0) (record client {
          state = data_state;
          input = [];
          output = iac ∷ reply_verb 251 251 end_of_record ∷ end_of_record ∷ [];
        }))
split_verb_lost_example = split_verb_lost do_it end_of_record client refl refl refl
