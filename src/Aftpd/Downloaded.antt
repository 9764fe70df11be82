-- ===== src/Aftpd/Downloaded.antt =====
-- One file from asuite/aftpd.c to `aftp_receive_file` of libasuite/libaftp.c.
use linux_sna.Base.{
  ℕ, ◌+◌, ◌%◌, ◌≤◌, ◌<◌, List, [], ◌∷◌, ◌++◌, Bytes, length, length-append, ℤ, ok, ◌≡◌, arith,
  false,
}
use linux_sna.Asuite.{max_buffer_size}
use linux_sna.Asuite.Codes.{filespec, new_filespec, data_type_key}
use linux_sna.Asuite.Cpic.{Cpic, cmrcv, cmsend}
use linux_sna.Asuite.Emit.{NulFree, encode_param}
use linux_sna.Aftp.{Session}
use linux_sna.Aftp.Replies.{Opens}
use linux_sna.Aftp.Receive.{Client, receive_file}
use linux_sna.Aftpd.{OsCall, Os, Globals, open_read, open_write, negative}
use linux_sna.Aftpd.Serve.{Outside}
use linux_sna.Aftpd.Download.{FileReads, Succeeds, room}
use linux_sna.Aftpd.Delivery.{data_packets, Delivers, Small, WritesAll}
use linux_sna.Aftpd.Whole.{header}
use linux_sna.Aftpd.Fetch.{file_request, Received, receive_file-Received}
use linux_sna.Aftpd
use linux_sna.Aftpd.Asked.{SentFile, request_file-SentFile}

FileReads-Small :
    (os : Os) (fd : ℤ) (calls : List OsCall) (file : List Bytes)
    → FileReads os fd calls file
    → Small file
FileReads-Small os fd calls [] reads = tt
FileReads-Small os fd calls (part ∷ parts) reads =
    (reads.2, FileReads-Small os fd (Aftpd.read fd room ∷ calls) parts reads.3)

-- The header is no longer than the request.
header_fits :
    (local_file remote_file : Bytes) (data_type : ℕ)
    → length (file_request local_file remote_file data_type) ≤ max_buffer_size
    → length (header remote_file data_type) ≤ max_buffer_size
header_fits local_file remote_file data_type fits =
    let remote_bytes = encode_param (filespec, remote_file ++ 0 ∷ []) in
    let local_bytes = encode_param (new_filespec, local_file ++ 0 ∷ []) in
    let type_bytes = encode_param (data_type_key, data_type ∷ []) in
    let lens1 = length-append remote_bytes local_bytes in
    let lens2 = length-append (remote_bytes ++ local_bytes) type_bytes in
    let lens3 = length-append remote_bytes type_bytes in omega arith

-- A session without a size of blocks, two names without NULs, that of the remote file without a
-- directory, that fit into a record, and both files open. `cmrcv` gives the server the request
-- that the client sends, and gives the client the records that the server sends; each `cmsend`
-- succeeds. `read` gives the parts of the file, none of them empty, and then nothing; `write` takes
-- all of its bytes; the rounds of the loops are more than the parts, those of the client by two.
-- Then the server answers the request with the header, the parts and the end, and closes the file.
-- The client returns with AFTP_RC_OK, has closed its file, and has written the bytes of the parts,
-- in order and once each.
pub receive_file-request_file :
    (o : Outside) (g : Globals) (cpic : Cpic) (os : Os) (handle : ℕ)
    (local_file remote_file : Bytes) (source dest : ℤ) (w : Client) (s : Session)
    (file : List Bytes) (fuel : ℕ)
    → Opens w.library handle s
    → s.block_size ≡ 0
    → NulFree local_file
    → NulFree remote_file
    → o.basename remote_file ≡ remote_file
    → length (file_request local_file remote_file (s.data_type % 256)) ≤ max_buffer_size
    → (o.os (open_read remote_file ∷ g.os_calls)).result ≡ source
    → negative source ≡ false
    → (os (open_write local_file ∷ w.os_calls)).result ≡ dest
    → negative dest ≡ false
    → o.cpic (cmrcv g.conv_id ∷ g.calls)
      ≡ record { cm_rc = 0; bytes = file_request local_file remote_file (s.data_type % 256) }
    → Succeeds o.cpic g.conv_id
    → Succeeds cpic s.conversation_id
    → Delivers cpic s.conversation_id
        (cmsend s.conversation_id (file_request local_file remote_file (s.data_type % 256))
          ∷ w.library.calls)
        (header remote_file (s.data_type % 256) ∷ data_packets file)
    → FileReads o.os source (open_read remote_file ∷ g.os_calls) file
    → WritesAll os dest
    → length file < o.rounds
    → length file + 1 < fuel
    → ((g' : Globals) × SentFile o g g' remote_file (s.data_type % 256) source file)
      × ((w' : Client) × (receive_file cpic os handle
              (local_file ++ 0 ∷ [])
              (length local_file)
              (remote_file ++ 0 ∷ [])
              (length remote_file)
              fuel
              w
            ≡ ok tt w')
          × Received os w w' local_file dest file)
receive_file-request_file o g cpic os handle local_file remote_file source dest w s file fuel found
      no_blocks local_free remote_free base request_fits opens_source source_open opens_dest
      dest_open asks serves accepts arrives reads writes rounds enough =
    (
      request_file-SentFile o g local_file remote_file (s.data_type % 256) source file local_free
          remote_free base request_fits
          (header_fits local_file remote_file (s.data_type % 256) request_fits) asks serves
          opens_source source_open reads rounds,
      receive_file-Received cpic os handle local_file remote_file dest w s fuel found no_blocks
          local_free remote_free request_fits opens_dest dest_open
          (accepts (file_request local_file remote_file (s.data_type % 256)) w.library.calls)
          remote_file (s.data_type % 256) file
          (header_fits local_file remote_file (s.data_type % 256) request_fits) arrives
          (FileReads-Small o.os source (open_read remote_file ∷ g.os_calls) file reads) writes
          enough,
    )
