-- ===== src/Telnet.antt =====
-- libtnX/tnX_stream.c: the telnet layer of the TN3270 and TN5250 streams.
pub mod Codes
pub mod Stream
pub mod Negotiate
pub mod Receive
pub mod Send
pub mod Session
