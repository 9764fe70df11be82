-- ===== src/Aftpd/Download.antt =====
-- The file that asuite/aftpd.c sends to its client.
use linux_sna.Base.{
  ℕ, zero, suc, ◌+◌, ◌≤◌, ◌<◌, List, [], ◌∷◌, Bytes, length, ℤ, pos, ok, ◌≡◌, refl, arith, false,
  ◌∙◌,
}
use linux_sna.Asuite.{AsuiteRecord, sent, cells, settype}
use linux_sna.Asuite.Codes.{file_data}
use linux_sna.Asuite.Cpic.{Call, Cpic, cmsend, send_asuiterecord}
use linux_sna.Asuite.Emit.{written, overlay-under, sent-written}
use linux_sna.Aftp.Outcomes.{take_all, typed}
use linux_sna.Aftpd.{OsCall, OsReply, Os, Globals, negative, os_call, send_record}
use linux_sna.Aftpd.Files.{read_file, read_rounds, send_data}
use linux_sna.Aftpd

-- Room in a record behind its type
abbrev pub room : ℕ
room = 32761

-- The reply of `read` with these bytes
abbrev Gives : OsReply → Bytes → Type 0
Gives reply bytes = (negative reply.result ≡ false) × (reply.bytes ≡ bytes)

-- `read` gives the parts of a file, none of them empty, and then that nothing is left.
abbrev pub FileReads : Os → ℤ → List OsCall → List Bytes → Type 0
FileReads os fd calls [] = Gives (os (Aftpd.read fd room ∷ calls)) []
FileReads os fd calls (part ∷ parts) =
    Gives (os (Aftpd.read fd room ∷ calls)) part
    × (1 ≤ length part)
    × (length part ≤ room)
    × FileReads os fd (Aftpd.read fd room ∷ calls) parts

-- One call for each part, the latest first.
abbrev pub data_calls : Bytes → List Bytes → List Call → List Call
data_calls conv_id [] calls = calls
data_calls conv_id (part ∷ parts) calls =
    data_calls conv_id parts (cmsend conv_id (0 ∷ file_data ∷ part) ∷ calls)

-- The calls of `cmsend` with this conversation succeed.
abbrev pub Succeeds : Cpic → Bytes → Type 0
Succeeds cpic conv_id =
    (bytes : Bytes) (calls : List Call) → (cpic (cmsend conv_id bytes ∷ calls)).cm_rc ≡ 0

-- The calls of `read`, one for each part and the last for the end, the latest first.
abbrev pub read_calls : ℤ → List Bytes → List OsCall → List OsCall
read_calls fd [] calls = Aftpd.read fd room ∷ calls
read_calls fd (part ∷ parts) calls = read_calls fd parts (Aftpd.read fd room ∷ calls)

-- A record with its type and nothing else
abbrev Typed : AsuiteRecord → Type 0
Typed r = (r.position ≡ 2) × (r.buffer 0 ≡ 0) × (r.buffer 1 ≡ file_data)

sent-Typed : (r : AsuiteRecord) → Typed r → sent r ≡ 0 ∷ file_data ∷ []
unfolding sent cells
sent-Typed r t = rw (t.0, t.1, t.2) refl

module _ (cpic : Cpic) (os : Os) (fresh : AsuiteRecord) (fd : ℤ) where
  read_file_lem :
      (part : Bytes) (g : Globals)
      → Gives (os (Aftpd.read fd room ∷ g.os_calls)) part
      → length part ≤ room
      → g.rec.position ≡ 2
      → read_file cpic os fresh fd g
        ≡ ok
            (pos (length part))
            (record g { rec = written g.rec part; os_calls = Aftpd.read fd room ∷ g.os_calls })
  unfolding read_file os_call
  read_file_lem part g gives fits two = rw two (rw (gives.0, gives.1, take_all room part fits) refl)

  -- The loop has sent the part that was read and the others.
  abbrev Sent : Globals → Globals → Bytes → List Bytes → Type 0
  Sent g g' part parts =
      (g'.calls ≡ data_calls g.conv_id (part ∷ parts) g.calls)
      × (g'.os_calls ≡ read_calls fd parts g.os_calls)
      × (g'.conv_id ≡ g.conv_id)

  Typed-clear :
      (r : AsuiteRecord) (part : Bytes) → Typed r → Typed (record (written r part) { position = 2 })
  Typed-clear r part t = rw t.0 (
    refl,
    overlay-under r.buffer 2 0 part (omega arith) ∙ t.1,
    overlay-under r.buffer 2 1 part (omega arith) ∙ t.2,
  )

  -- After a part was sent, the next one stands in the record.
  read_rounds-step :
      (b : ℕ) (bytes next : Bytes) (fuel : ℕ) (g : Globals) (r : AsuiteRecord)
      → Typed r
      → g.rec ≡ written r (b ∷ bytes)
      → Succeeds cpic g.conv_id
      → Gives (os (Aftpd.read fd room ∷ g.os_calls)) next
      → length next ≤ room
      → read_rounds cpic os fresh fd (suc fuel) (pos (length (b ∷ bytes))) g
        ≡ read_rounds cpic os fresh fd fuel (pos (length next)) (record g {
          rec = written (record (written r (b ∷ bytes)) { position = 2 }) next;
          os_calls = Aftpd.read fd room ∷ g.os_calls;
          calls = cmsend g.conv_id (0 ∷ file_data ∷ b ∷ bytes) ∷ g.calls;
        })
  unfolding read_rounds send_record send_asuiterecord
  read_rounds-step b bytes next fuel g r t holds succeeds gives fits =
      let sends : sent (written r (b ∷ bytes)) ≡ 0 ∷ file_data ∷ b ∷ bytes =
        sent-written r (b ∷ bytes) ∙ rw (sent-Typed r t) refl in
      let g1 = record g {
        rec = record (written r (b ∷ bytes)) { position = 2 };
        calls = cmsend g.conv_id (0 ∷ file_data ∷ b ∷ bytes) ∷ g.calls;
      } in
      rw
        (
          holds,
          sends,
          succeeds (0 ∷ file_data ∷ b ∷ bytes) g.calls,
          read_file_lem next g1 gives fits refl,
        )
        refl

  read_rounds-end :
      (fuel : ℕ) (g : Globals) → 1 ≤ fuel → read_rounds cpic os fresh fd fuel (pos 0) g ≡ ok tt g
  unfolding read_rounds
  read_rounds-end zero g enough = absurd (omega arith)
  read_rounds-end (suc fuel) g enough = refl

  read_rounds_lem :
      (parts : List Bytes) (part : Bytes) (fuel : ℕ) (g : Globals) (r : AsuiteRecord)
      → Typed r
      → g.rec ≡ written r part
      → 1 ≤ length part
      → Succeeds cpic g.conv_id
      → FileReads os fd g.os_calls parts
      → length parts + 1 < fuel
      → (g' : Globals) × (read_rounds cpic os fresh fd fuel (pos (length part)) g ≡ ok tt g')
        × Sent g g' part parts
  read_rounds_lem parts part zero g r t holds full succeeds reads enough = absurd (omega arith)
  read_rounds_lem parts [] (suc fuel) g r t holds full succeeds reads enough = absurd (omega arith)
  read_rounds_lem [] (b ∷ bytes) (suc fuel) g r t holds full succeeds reads enough = (
    _,
    read_rounds-step b bytes [] fuel g r t holds succeeds reads (omega arith)
        ∙ read_rounds-end fuel _ (omega arith),
    (refl, refl, refl),
  )
  read_rounds_lem (next ∷ parts) (b ∷ bytes) (suc fuel) g r t holds full succeeds reads enough =
      let r' = record (written r (b ∷ bytes)) { position = 2 } in
      let g1 = record g {
        rec = written r' next;
        os_calls = Aftpd.read fd room ∷ g.os_calls;
        calls = cmsend g.conv_id (0 ∷ file_data ∷ b ∷ bytes) ∷ g.calls;
      } in
      let rest =
        read_rounds_lem parts next fuel g1 r' (Typed-clear r (b ∷ bytes) t) refl reads.1 succeeds
          reads.3 (omega arith) in
      (
        rest.0,
        read_rounds-step b bytes next fuel g r t holds succeeds reads.0 reads.2 ∙ rest.1,
        rest.2,
      )

  -- `send_data` sends each part of the file in a record of its own.
  pub send_data_lem :
      (file : List Bytes) (rounds : ℕ) (g : Globals)
      → Succeeds cpic g.conv_id
      → FileReads os fd g.os_calls file
      → length file < rounds
      → (g' : Globals) × (send_data cpic os fresh rounds fd g ≡ ok tt g')
        × (g'.calls ≡ data_calls g.conv_id file g.calls)
        × (g'.os_calls ≡ read_calls fd file g.os_calls)
        × (g'.conv_id ≡ g.conv_id)
  unfolding send_data settype
  send_data_lem [] rounds g succeeds reads enough =
      let g1 = record g { rec = typed file_data g.rec } in
      let g2 = record g1 { rec = written g1.rec []; os_calls = Aftpd.read fd room ∷ g.os_calls } in
      (
        g2,
        rw (read_file_lem [] g1 reads (omega arith) refl) (read_rounds-end rounds g2 enough),
        refl,
        refl,
        refl,
      )
  send_data_lem (part ∷ parts) rounds g succeeds reads enough =
      let g1 = record g { rec = typed file_data g.rec } in
      let g2 = record g1 {
        rec = written g1.rec part;
        os_calls = Aftpd.read fd room ∷ g.os_calls;
      } in
      let rest =
        read_rounds_lem parts part rounds g2 g1.rec (refl, refl, refl) refl reads.1 succeeds reads.3
          (omega arith) in
      (rest.0, rw (read_file_lem part g1 reads.0 reads.2 refl) rest.1, rest.2.0, rest.2.1, rest.2.2)
