-- ===== src/Telnet/Session/Deliver.antt =====
-- From the ring of records to the caller: packets come out of `tnX_stream_get_record` in order.
use linux_sna.Base.{
  ℕ, zero, suc, List, [], ◌∷◌, map, ◌≡◌, refl, ap, ◌∙◌, arith, Bytes, All, length, ok, Cmd,
  and_then, true, none,
}
use linux_sna.Record
use linux_sna.Record.{Rec}
use linux_sna.Telnet.Stream.{Stream, tn3270, data_state}
use linux_sna.Telnet.Receive.{handle_receive}
use linux_sna.Telnet.Receive.Framing.{arrive}
use linux_sna.Telnet.Receive.Packets.{bytes_of, IsPacket, send_all, receive-send}
use linux_sna.Telnet.Session.{get_record}

-- So many calls of `tnX_stream_get_record`.
pub take_all : ℕ → Cmd Stream (List Rec)
take_all zero s = ok [] s
take_all (suc n) s =
    and_then (get_record s) (λ r t. and_then (take_all n t) (λ rs u. ok (r ∷ rs) u))

abbrev pub rewound : Rec → Rec
rewound r = Record.set_cur_pos r 0

abbrev pub holding : Stream → List Rec → ℕ → Stream
holding s rs n = record s { records = rs; record_count = n; streamtype = tn3270 }

get_record-holding :
    (s : Stream) (r : Rec) (rs : List Rec)
    → get_record (holding s (r ∷ rs) (suc (length rs))) ≡ ok (rewound r) (holding s rs (length rs))
unfolding get_record
get_record-holding s r rs = ground arith

take_all-holding :
    (rs : List Rec) (s : Stream)
    → take_all (length rs) (holding s rs (length rs)) ≡ ok (map rewound rs) (holding s [] 0)
unfolding take_all
take_all-holding [] s = refl
take_all-holding (r ∷ rs) s = rw (get_record-holding s r rs, take_all-holding rs s) refl

take_all-records :
    (s : Stream)
    → s.streamtype ≡ tn3270
    → s.record_count ≡ length s.records
    → take_all s.record_count s ≡ ok (map rewound s.records) (holding s [] 0)
take_all-records s t c =
    let same : s ≡ holding s s.records (length s.records) =
      λ i. record s { record_count = c i; streamtype = t i } in
    ap (λ n. take_all n s) c ∙ ap (take_all (length s.records)) same ∙ take_all-holding s.records s

bytes_of-rewound : (rs : List Rec) → map bytes_of (map rewound rs) ≡ map bytes_of rs
bytes_of-rewound [] = refl
bytes_of-rewound (r ∷ rs) = ap (◌∷◌ (bytes_of r)) (bytes_of-rewound rs)

length-map : (rs : List Rec) → length (map bytes_of rs) ≡ length rs
length-map [] = refl
length-map (r ∷ rs) = ap suc (length-map rs)

-- A stream of TN3270 with no record in its ring or begun, between two bytes of data, reads what
-- another stream sent: packets of some bytes each. Then as many calls of `tnX_stream_get_record`
-- as `record_count` says succeed, give records with the packets' bytes in the order sent, each
-- with its position at the first byte, and leave the ring empty.
pub delivered_in_order :
    (ds : List Bytes) (a a' b : Stream)
    → All IsPacket ds
    → a.output ≡ []
    → send_all ds a ≡ ok tt a'
    → b.streamtype ≡ tn3270
    → b.records ≡ []
    → b.record_count ≡ 0
    → b.state ≡ data_state
    → b.current_record ≡ none
    → b.input ≡ arrive a'.output
    → (b' : Stream) × (rs : List Rec) × (handle_receive b ≡ ok true b')
      × (take_all b'.record_count b' ≡ ok (map rewound rs) (holding b' [] 0))
      × (map bytes_of (map rewound rs) ≡ ds)
delivered_in_order ds a a' b h clean done t empty zero_count p w q =
    let (b', received, has) = receive-send ds a a' b h clean done p w q in
    let bytes : map bytes_of b'.records ≡ ds = has.received ∙ rw empty refl in
    let count : b'.record_count ≡ length b'.records =
      omega (arith, has.counted, zero_count, length-map b'.records, ap length bytes) in
    (
      b',
      b'.records,
      received,
      take_all-records b' (has.same_type ∙ t) count,
      bytes_of-rewound b'.records ∙ bytes,
    )
