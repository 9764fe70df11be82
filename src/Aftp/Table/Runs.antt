-- ===== src/Aftp/Table/Runs.antt =====
-- Sequences of calls of libasuite/libaftp.c by one program.
use linux_sna.Base.{
  ℕ, List, [], ◌∷◌, arith, Cmd, Outcome, ok, exit, abort, fault, out_of_fuel, and_then,
}
use linux_sna.Asuite.Cpic.{Cpic}
use linux_sna.Aftp.{Library}
use linux_sna.Aftp.Table.Invariant.{IsTable, Lands, Above, create-Above, destroy-Above}
use linux_sna.Aftp.Table.Transfers.{ClientAbove, receive_file-Above, send_file-Above}
use linux_sna.Aftp.Receive.{Client}
use linux_sna.Aftpd.{Os}
use linux_sna.Aftp.Table.Operation.{
  Operation, create_op, destroy_op, close_op, connect_op, change_dir_op, create_dir_op,
  remove_dir_op, delete_op, rename_op, query_current_dir_op, query_system_info_op, set_number,
  set_name, get_number, get_name, receive_op, send_op, set_trace_level_op, extract_trace_level_op,
  set_connection_info_op, extract_connection_info_op, dir_close_op, query_local_version_op,
  with_library, on_library, perform, run,
}
use linux_sna.Aftp.Table.Parts.{
  OnSession, OnSession-Above, number_setter-OnSession, name_setter-OnSession, requests-OnSession,
  number_getter-Above, name_getter-Above,
}

Lands-then :
    {A : Type 0} (P : Client → Type 0) (o : Outcome Client A) (k : Cmd Client (Unit {0}))
    → Lands P o
    → ((w : Client) → P w → Lands P (k w))
    → Lands P (and_then o (λ _. k))
Lands-then P (ok a w) k t step = step w t
Lands-then P (exit n) k t step = tt
Lands-then P abort k t step = tt
Lands-then P fault k t step = tt
Lands-then P out_of_fuel k t step = tt

with_library-Above :
    {A : Type 0} (n : ℕ) (w : Client) (o : Outcome Library A)
    → Lands (Above n) o
    → Lands (ClientAbove n) (with_library w o)
with_library-Above n w (ok a l) t = t
with_library-Above n w (exit m) t = tt
with_library-Above n w abort t = tt
with_library-Above n w fault t = tt
with_library-Above n w out_of_fuel t = tt

-- A call of a function that works on one session
request-Above :
    (n : ℕ) (f : Cmd Library (Unit {0})) (w : Client)
    → OnSession f
    → ClientAbove n w
    → Lands (ClientAbove n) (on_library f w)
request-Above n f w found t =
    with_library-Above n w (f w.library) (OnSession-Above n f w.library found t)

-- One call keeps the table in order, and takes back no handle.
pub perform-Above :
    (cpic : Cpic) (os : Os) (n : ℕ) (op : Operation) (w : Client)
    → ClientAbove n w
    → Lands (ClientAbove n) (perform cpic os op w)
unfolding perform
perform-Above cpic os k (create_op fresh r getcwd fuel) w t =
    with_library-Above k w _ (create-Above k fresh r getcwd fuel w.library t)
perform-Above cpic os k (destroy_op handle) w t =
    with_library-Above k w _ (destroy-Above k handle w.library t)
perform-Above cpic os k (close_op handle) w t =
    request-Above k _ w (requests-OnSession cpic handle 0 0 [] []).0 t
perform-Above cpic os k (connect_op handle) w t =
    request-Above k _ w (requests-OnSession cpic handle 0 0 [] []).1 t
perform-Above cpic os k (change_dir_op handle name n) w t =
    request-Above k _ w (requests-OnSession cpic handle 0 n name []).2 t
perform-Above cpic os k (create_dir_op handle name n) w t =
    request-Above k _ w (requests-OnSession cpic handle 0 n name []).3 t
perform-Above cpic os k (remove_dir_op handle name n) w t =
    request-Above k _ w (requests-OnSession cpic handle 0 n name []).4 t
perform-Above cpic os k (delete_op handle name n) w t =
    request-Above k _ w (requests-OnSession cpic handle 0 n name []).5 t
perform-Above cpic os k (rename_op handle old m new n) w t =
    request-Above k _ w (requests-OnSession cpic handle m n old new).6 t
perform-Above cpic os k (query_current_dir_op handle n) w t =
    request-Above k _ w (requests-OnSession cpic handle 0 n [] []).7 t
perform-Above cpic os k (query_system_info_op handle n) w t =
    request-Above k _ w (requests-OnSession cpic handle 0 n [] []).8 t
perform-Above cpic os k (set_number number handle n) w t =
    request-Above k _ w (number_setter-OnSession number handle n) t
perform-Above cpic os k (set_name name handle memory n) w t =
    request-Above k _ w (name_setter-OnSession name handle n memory) t
perform-Above cpic os k (get_number number handle) w t =
    with_library-Above k w _ (number_getter-Above k number handle w.library t)
perform-Above cpic os k (get_name name handle n) w t =
    with_library-Above k w _ (name_getter-Above k name handle n w.library t)
perform-Above cpic os k (receive_op handle name n other m fuel) w t =
    receive_file-Above cpic os k handle w t name n other m fuel
perform-Above cpic os k (send_op handle name n other m fuel) w t =
    send_file-Above cpic os k handle w t name n other m fuel
perform-Above cpic os k (set_trace_level_op n) w t = t
perform-Above cpic os k extract_trace_level_op w t = t
perform-Above cpic os k set_connection_info_op w t = t
perform-Above cpic os k extract_connection_info_op w t = t
perform-Above cpic os k dir_close_op w t = t
perform-Above cpic os k query_local_version_op w t = t

pub run-Above :
    (cpic : Cpic) (os : Os) (n : ℕ) (ops : List Operation) (w : Client)
    → ClientAbove n w
    → Lands (ClientAbove n) (run cpic os ops w)
unfolding run
run-Above cpic os n [] w t = t
run-Above cpic os n (op ∷ ops) w t =
    Lands-then (ClientAbove n) (perform cpic os op w) (run cpic os ops)
      (perform-Above cpic os n op w t) (run-Above cpic os n ops)

abbrev pub ClientIsTable : Client → Type 0
ClientIsTable w = IsTable w.library

Lands-IsTable :
    (n : ℕ) (o : Outcome Client (Unit {0})) → Lands (ClientAbove n) o → Lands ClientIsTable o
Lands-IsTable n (ok a w) t = t.0
Lands-IsTable n (exit m) t = tt
Lands-IsTable n abort t = tt
Lands-IsTable n fault t = tt
Lands-IsTable n out_of_fuel t = tt

-- A table that is in order, and any sequence of calls of the functions that create, connect, close
-- and destroy a session, set and extract its attributes, send a request with one response, receive
-- and send a file, with those of the trace level, the connection's info, the local version and
-- `aftp_dir_close`: if they return, then at most 20 handles were given out, the table has an entry
-- for each of these, of a session or of one that was released, and NULL behind them.
pub run-IsTable :
    (cpic : Cpic) (os : Os) (ops : List Operation) (w : Client)
    → ClientIsTable w
    → Lands ClientIsTable (run cpic os ops w)
run-IsTable cpic os ops w t = Lands-IsTable 0 _ (run-Above cpic os 0 ops w (t, omega arith))
