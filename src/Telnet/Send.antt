-- ===== src/Telnet/Send.antt =====
-- The sending side: records to bytes.
pub mod Wire
use linux_sna.Base.{ℕ, suc, [], ◌∷◌, ◌==◌, if◌then◌else◌, Bytes, Cmd}
use linux_sna.Buffer.{Buffer, init, append_byte, append_data, contents}
use linux_sna.Telnet.Codes.{eor, iac}
use linux_sna.Telnet.Stream.{Stream, stream_write}

-- The loop of `telnet_stream_escape`: the bytes of `in` are copied to `out`, IAC twice.
escape_byte : Buffer → ℕ → Buffer
escape_byte out c = let out' = append_byte out c in if c == iac then append_byte out' iac else out'

escape_onto : Buffer → Bytes → Buffer
unfolding escape_byte
escape_onto out [] = out
escape_onto out (c ∷ bytes) = escape_onto (escape_byte out c) bytes

-- `telnet_stream_escape`
unfoldable pub escape : Buffer → Buffer
unfolding escape_onto
escape buff = escape_onto init (contents buff)

-- The bytes that `tn3270_stream_send_packet` writes.
unfoldable pub packet : Bytes → Buffer
unfolding escape
packet data_bytes = append_byte (append_byte (escape (append_data init data_bytes)) iac) eor

-- `tn3270_stream_send_packet`; its flow type, flags and opcode are not used
unfoldable pub send_packet : Bytes → Cmd Stream (Unit {0})
unfolding packet stream_write
send_packet data_bytes = stream_write (contents (packet data_bytes))
