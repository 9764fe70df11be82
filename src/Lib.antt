-- ===== src/Lib.antt =====
-- Linux-SNA: the library libtnX (byte buffers, records, configuration, Telnet streams, character
-- maps), the host side and the daemon of the TN3270 server tn3270d, and of libasuite the wildcards and
-- the client of the file transfer.
--
-- The parts and their files. Paths are from the repository's root.
--
-- - Base: Boolean tests, lists and integers over the native numbers, and `Outcome`, the result of
--   code that changes a state: it returns, ends the process (`exit`), fails an assertion (`abort`)
--   or leaves defined behaviour (`fault`). A loop on fuel may also be `out_of_fuel`.
-- - Buffer: libtnX/tnX_buffer.c. `Buffer` is `tnXbuff` with its block; `append_byte` and
--   `append_data` are `tnX_buffer_append_byte` and `tnX_buffer_append_data`. Buffer/Contents says
--   when a buffer is well formed and which bytes it holds.
-- - Record: libtnX/tnX_record.c and the macros of libtnX/libtnX.h. The streams keep the list of their
--   records from the head on (`Stream.records`) for the ring that `tnX_record_list_add` builds.
-- - Ring: that ring itself and the lists of tn3270d/tn3270_list.c, on a store of the links of each
--   address (`Links`); `record_list_add`, `record_list_remove` and `destroy_from` are
--   `tnX_record_list_add`, `_remove` and the loop of `_destroy`, `list_add_tail` and `list_del` have
--   the names of the source. `Ring.Circle.Ring` says that the links are those of a list of nodes.
--   The other files of Ring/ hold the lemmas on adding, removing and reading from another node.
-- - Config: libtnX/tnX_conf.c. `Config` is `tnXconfig`; `set`, `get`, `unset`, `promote` and
--   `parse_argv` are the functions `tnX_config_*`. `Config.Load.load` is `tnX_config_load` on the
--   bytes of the file, which `fgets_lines` reads in lines as `fgets` does. Config/Lookup,
--   Config/Promote and Config/Load/* hold the lemmas.
-- - Telnet: libtnX/tnX_stream.c. Telnet/Stream has `Stream`, which is `tnXstream` with its socket: the
--   events that reading meets, the results that writing meets, and the bytes sent.
--   Telnet/Stream/Rounds has `telnet_stream_write` on a socket that goes on without end.
--   Telnet/Negotiate has the verbs and the sub-options, Telnet/Receive `telnet_stream_get_byte` and
--   `telnet_stream_handle_receive`, Telnet/Send `tn3270_stream_send_packet`, and Telnet/Session the
--   set-up, `telnet_stream_accept`, `tnX_stream_get_record` and the end.
-- - CharMap: the translation in libtnX/libtnX.c, and in CharMap/Tables the tables of libtnX/transmaps.h
--   with their index `tnX_transmaps`.
-- - Host: tn3270d/tn3270_host.c. `Host` is `tnXhost`; Host/Screen has whole screens, Host/Interrupt
--   `processFlags` with the save and the restore of the screen, Host/Errors the messages.
-- - Wildcard: libasuite/wildcard.c, `wc_match`. Wildcard/Glob has the relation it is compared with.
-- - Asuite: libasuite/asuitecommon.c. `AsuiteRecord` is `asuiterecord`, with its buffer as a function
--   from positions; `append`, `append_char`, `append_twobyte` and the others are the functions
--   `asuiterecord_*`. Asuite/Cpic has the calls of CPI-C and `send_simple_response`, Asuite/Codes the
--   numbers of the protocol; Asuite/Emit and Asuite/Respond hold what is written.
-- - Aftp: libasuite/libaftp.c. `Library` is its static variables, `Session` is `ftpsession`.
--   Aftp/Request has the requests `aftp_change_dir` to `aftp_rename` and the loop over the parameters of
--   a response, Aftp/Table the start and the end of a session, Aftp/Attributes `aftp_set_*`,
--   Aftp/Extract `aftp_extract_*`, Aftp/Names `get_code_string` and its maps. Aftp/Params and
--   Aftp/Outcomes hold the lemmas on a response, Aftp/Table/Operation and
--   Aftp/Table/Runs sequences of calls (Aftp/Table/Parts and Aftp/Table/Transfers single
--   ones), Aftp/Table/Fresh the handles that they give. Aftp/Receive has
--   `aftp_receive_file` and Aftp/Send `aftp_send_file`, with the calls of the system that Aftpd has too.
-- - CpicSession: libasuite/cpicsession.c. `CpicSession` is `cpic_session` with its arrays; its setters
--   and `init` are the functions `cpic_session_*`. CpicSession/Version has `get_server_version` and
--   `get_client_version`, CpicSession/Agree joins the two, CpicSession/Setup the setters with `init`.
-- - Aftpd: asuite/aftpd.c, the server's side. `Globals` is its static variables with the calls of
--   CPI-C and of the system so far; Aftpd/Names has `a_change_dir` to `a_rename`, Aftpd/Files the
--   sending and receiving of files, Aftpd/Serve the queries, `switch(major_code)` and `main`. What it
--   takes from elsewhere is the record `Outside`. Aftpd/Exchange and
--   Aftpd/Downloaded join it with the client of Aftp.
-- - Daemon: tn3270d/tn3270_daemon.c. `Server` is `server_info` with the descriptors that are open;
--   `accept_new_client`, `close_session`, `serve` and `rounds` are `tn3270_accept_new_client`,
--   `tn3270_close_session` and the loops of `tn3270_server_doit`. Daemon/Verbs has the verbs of the
--   session with the LU.
-- - Tests: the theorems at concrete inputs.
--
-- The parts interact as in the code: the host appends orders to its buffer and sends it through the
-- stream (`on_stream`), the stream escapes it into another buffer and writes it; the receiver fills
-- sub-option buffers and records, the negotiation stores the terminal type in the configuration.
-- The client of the file transfer fills a record, sends it over a conversation, receives the response
-- into the same record and walks over its parameters; the server's side of that is
-- `send_simple_response`.
--
-- Fuel. `handle_receive` has one round more than there are events, since each round but the last uses
-- one up; `promote` has one more than the letters and NULs of the names, since a name that is appended
-- is shorter than the one it comes from. `wait_record` has one round more than there are events; the
-- loop that it models goes round without end when the client is silent, and so the fuel runs out.
-- `write_rounds` needs as many rounds for each byte as the socket lets pass before it takes one.
-- `visit` has one round more than the limit of its loop, since a parameter of one byte or more moves
-- on; at a parameter of length 0 the code stays for ever. `safe_get_cwd` is given its fuel by the
-- caller; one round is enough unless the code tries for ever. `serve` has two rounds more than
-- FD_SETSIZE has descriptors from 3 on, and never runs out.
--
-- Parameters: `atoi` of the C library and the text of `sprintf` for an unknown error; the calls of
-- CPI-C, as a function from the calls made so far to what the last one answers; what `malloc`,
-- `getcwd`, `select` and `accept` give. Integers go to the wire as on a little-endian host. `host_new`
-- takes the table of character maps, which is `transmaps`. Numbers are unbounded where the code has
-- `int` lengths and counts; bytes are kept below 256 by the code (`to_byte`, the tables). The
-- characters of a configuration file are below 128, and no name in it starts with `]`.
--
-- Not modelled: logging, failures of `malloc` but for `aftp_create`, `fork` and sockets, signals and the
-- table of users of tn3270d/tn3270_daemon.c, and what is compiled out there; of libasuite/libaftp.c the
-- listing of directories, the local directory and `aftp_format_error`; of asuite/aftpd.c `a_list_request` with the text of an entry; memory that is
-- released twice or not at all, but for the sessions of the file transfer; and the other programs of
-- the repository (the rest of asuite and of libasuite, libsna, snaconfig, snatchd, sense).
pub mod Aftp
pub mod Aftpd
pub mod Asuite
pub mod Base
pub mod Buffer
pub mod CharMap
pub mod Config
pub mod CpicSession
pub mod Daemon
pub mod Host
pub mod Record
pub mod Ring
pub mod Telnet
pub mod Tests
pub mod Wildcard
