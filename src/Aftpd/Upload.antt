-- ===== src/Aftpd/Upload.antt =====
-- The data of a file that asuite/aftpd.c receives from its client.
use mathlib.Core.List.{append_assoc, append-nil}
use linux_sna.Base.{
  ℕ, zero, suc, ◌+◌, ◌-◌, ◌≤◌, ◌<◌, List, [], ◌∷◌, ◌++◌, ltb, if◌then◌else◌, Bytes, length, take, ℤ,
  pos, ok, ◌≡◌, refl, arith, false, ◌∙◌, sym, Bool-cases, inl, inr,
}
use linux_sna.Asuite.{AsuiteRecord, max_buffer_size, cells}
use linux_sna.Asuite.Codes.{file_data}
use linux_sna.Asuite.Cpic.{Cpic, cmrcv, fill}
use linux_sna.Aftp.Params.{HoldsAt, fill-HoldsAt}
use linux_sna.Aftpd.{OsCall, OsReply, Os, Globals, negative, os_call}
use linux_sna.Aftpd.Files.{a_file_data, moved}
use linux_sna.Aftpd.Serve.{Outside, serve_record, dispatch}
use linux_sna.Aftpd.Exchange.{received, serve_record-received}
use linux_sna.Aftpd

-- What the calls of `write` have taken, the earliest first.
unfoldable pub stored : Os → List OsCall → Bytes
stored os [] = []
stored os (Aftpd.write fd bytes ∷ calls) =
    stored os calls ++ take (moved (os (Aftpd.write fd bytes ∷ calls)).result) bytes
stored os (_ ∷ calls) = stored os calls

-- `write` of some bytes takes at least one of them, and says how many.
abbrev pub Writes : Os → ℤ → Type 0
Writes os fd =
    (bytes : Bytes) (calls : List OsCall)
    → 1 ≤ length bytes
    → (n : ℕ) × ((os (Aftpd.write fd bytes ∷ calls)).result ≡ pos n) × (1 ≤ n) × (n ≤ length bytes)

length-cells : (f : ℕ → ℕ) (i n : ℕ) → length (cells f i n) ≡ n
unfolding cells
length-cells f i zero = refl
length-cells f i (suc n) = rw (length-cells f (suc i) n) refl

cells-split :
    (f : ℕ → ℕ) (i k n : ℕ) → take k (cells f i (k + n)) ++ cells f (i + k) n ≡ cells f i (k + n)
unfolding cells
cells-split f i zero n =
    let at : i + 0 ≡ i = omega arith in let count : 0 + n ≡ n = omega arith in rw (at, count) refl
cells-split f i (suc k) n =
    let at : i + suc k ≡ suc i + k = omega arith in
    let count : suc k + n ≡ suc (k + n) = omega arith in
    rw (at, count, cells-split f (suc i) k n) refl

pub cells-HoldsAt :
    (f : ℕ → ℕ) (i : ℕ) (bytes : Bytes) → HoldsAt f i bytes → cells f i (length bytes) ≡ bytes
unfolding cells
cells-HoldsAt f i [] h = refl
cells-HoldsAt f i (c ∷ bytes) h = rw (h.0, cells-HoldsAt f (suc i) bytes h.1) refl

module _ (cpic : Cpic) (os : Os) (fresh : AsuiteRecord) where
  -- The bytes of the record that are not written yet.
  abbrev left : Globals → Bytes
  left g = cells g.rec.buffer g.curpos (g.rec.position - g.curpos)

  -- The state after one call of `write`.
  abbrev wrote : Globals → ℕ → Globals
  wrote g n = record g {
    curpos = g.curpos + n;
    os_calls = Aftpd.write g.dest_file (left g) ∷ g.os_calls;
  }

  file_data-step :
      (rounds n : ℕ) (g : Globals)
      → g.curpos ≤ g.rec.position
      → (os (Aftpd.write g.dest_file (left g) ∷ g.os_calls)).result ≡ pos n
      → a_file_data cpic os fresh (suc rounds) g ≡ (
          if ltb (g.curpos + n) g.rec.position
          then a_file_data cpic os fresh rounds (wrote g n)
          else ok tt (wrote g n))
  unfolding a_file_data os_call
  file_data-step rounds n g below e =
      let not_over : ltb g.rec.position g.curpos ≡ false = ground arith in
      rw (not_over, e)
        (elim (Bool-cases (ltb (g.curpos + n) g.rec.position)) [
          | inl y ↦ rw y refl
          | inr m ↦ rw m refl
        ])

  stored-wrote :
      (n : ℕ) (g : Globals)
      → (os (Aftpd.write g.dest_file (left g) ∷ g.os_calls)).result ≡ pos n
      → n ≤ g.rec.position - g.curpos
      → stored os (wrote g n).os_calls ++ left (wrote g n) ≡ stored os g.os_calls ++ left g
  unfolding stored
  stored-wrote n g e fits =
      let count : g.rec.position - g.curpos ≡ n + (g.rec.position - (g.curpos + n)) = omega arith in
      let parts = cells-split g.rec.buffer g.curpos n (g.rec.position - (g.curpos + n)) in
      rw (e, append_assoc) (rw count (rw parts refl))

  none_left :
      (n : ℕ) (g : Globals)
      → g.rec.position ≤ g.curpos + n
      → stored os (wrote g n).os_calls ++ left (wrote g n) ≡ stored os g.os_calls ++ left g
      → stored os (wrote g n).os_calls ≡ stored os g.os_calls ++ left g
  unfolding cells
  none_left n g over kept =
      let zero_left : g.rec.position - (g.curpos + n) ≡ 0 = omega arith in
      sym (append-nil (stored os (wrote g n).os_calls)) ∙ (rw zero_left at kept)

  file_data_lem :
      (rounds : ℕ) (g : Globals)
      → Writes os g.dest_file
      → g.curpos < g.rec.position
      → g.rec.position - g.curpos ≤ rounds
      → (g' : Globals) × (a_file_data cpic os fresh rounds g ≡ ok tt g')
        × (stored os g'.os_calls ≡ stored os g.os_calls ++ left g)
        × (g'.calls ≡ g.calls)
  file_data_lem zero g writes below enough = absurd (omega arith)
  file_data_lem (suc rounds) g writes below enough =
      let count = length-cells g.rec.buffer g.curpos (g.rec.position - g.curpos) in
      let one = writes (left g) g.os_calls (omega (arith, count)) in
      let n = one.0 in
      let fits : n ≤ g.rec.position - g.curpos = let few = one.3 in omega (arith, count) in
      let step = file_data-step rounds n g (omega arith) one.1 in
      let kept = stored-wrote n g one.1 fits in
      elim (Bool-cases (ltb (g.curpos + n) g.rec.position)) [
        | inl y ↦
            let some_more : g.curpos + n < g.rec.position = ground (arith, y) in
            let moves = one.2 in
            let rest = file_data_lem rounds (wrote g n) writes some_more (omega arith) in
            (rest.0, step ∙ rw y rest.1, rest.2 ∙ kept, rest.3)
        | inr done ↦
            let over : g.rec.position ≤ g.curpos + n = ground (arith, done) in
            (wrote g n, step ∙ rw done refl, none_left n g over kept, refl)
      ]

-- A record of AFTP_FILE_DATA with some bytes, while each call of `write` takes at least one byte of
-- what it is given: the server writes all of the bytes, in order and once each, and answers
-- nothing.
pub serve_record-file_data :
    (o : Outside) (g : Globals) (bytes : Bytes)
    → Writes o.os g.dest_file
    → 1 ≤ length bytes
    → length (0 ∷ file_data ∷ bytes) ≤ max_buffer_size
    → length bytes ≤ o.rounds
    → o.cpic (cmrcv g.conv_id ∷ g.calls) ≡ record { cm_rc = 0; bytes = 0 ∷ file_data ∷ bytes }
    → (g' : Globals) × (serve_record o g ≡ ok false g')
      × (stored o.os g'.os_calls ≡ stored o.os g.os_calls ++ bytes)
      × (g'.calls ≡ cmrcv g.conv_id ∷ g.calls)
unfolding dispatch
serve_record-file_data o g bytes writes full fits enough e =
    let packet = 0 ∷ file_data ∷ bytes in
    let g0 = received g packet in
    let count : suc (suc (length bytes)) - 2 ≡ length bytes = omega arith in
    let same =
      cells-HoldsAt (fill packet g.rec.buffer) 2 bytes ((fill-HoldsAt packet g.rec.buffer).1.1) in
    let all = file_data_lem o.cpic o.os o.fresh o.rounds g0 writes (omega arith) (omega arith) in
    (
      all.0,
      rw (serve_record-received o g file_data packet fits refl e, all.1) refl,
      all.2 ∙ rw (count, same) refl,
      all.3,
    )
