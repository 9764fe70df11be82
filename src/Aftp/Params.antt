-- ===== src/Aftp/Params.antt =====
-- The loop over the parameters of a response, against the list of parameters.
use native.Mathlib.Numerals.{add-one}
use linux_sna.Base.{
  ℕ, zero, suc, ◌+◌, ◌*◌, ◌/◌, ◌%◌, ◌≤◌, ◌<◌, List, [], ◌∷◌, ◌++◌, ltb, ◌==◌, ==_iff, if◌then◌else◌,
  Bytes, length, length-append, get_or, Option, none, some, All, Cmd, ok, ◌≡◌, ◌≢◌, refl, arith,
  Bool-cases, Option-cases, inl, inr, true, false,
}
use linux_sna.Asuite.{
  AsuiteRecord, max_buffer_size, get_param_len, get_cat_index, get_key, strncpy, peek,
}
use linux_sna.Asuite.Emit.{Param, encode_param, encode}
use linux_sna.Asuite.Codes.{return_code, category_index, primary_msg_key, fail_fatal}
use linux_sna.Asuite.Cpic.{fill}
use linux_sna.Aftp.{Conn, on_record}
use linux_sna.Aftp.Request.{
  copy_from, visit, status_param, store_status, store_category, set_primary_msg, msg_buffer_length,
}

-- The cells from `i` on start with the bytes.
abbrev pub HoldsAt : (ℕ → ℕ) → ℕ → Bytes → Type 0
HoldsAt f i [] = Unit
HoldsAt f i (c ∷ bytes) = (f i ≡ c) × HoldsAt f (suc i) bytes

HoldsAt-shift :
    (f : ℕ → ℕ) (i : ℕ) (bytes : Bytes) → HoldsAt (λ j. f (suc j)) i bytes → HoldsAt f (suc i) bytes
HoldsAt-shift f i [] h = tt
HoldsAt-shift f i (c ∷ bytes) h = (h.0, HoldsAt-shift f (suc i) bytes h.1)

pub fill-HoldsAt : (bytes : Bytes) (f : ℕ → ℕ) → HoldsAt (fill bytes f) 0 bytes
fill-HoldsAt [] f = tt
fill-HoldsAt (c ∷ bytes) f =
    (refl, HoldsAt-shift (fill (c ∷ bytes) f) 0 bytes (fill-HoldsAt bytes (λ j. f (suc j))))

pub HoldsAt-append :
    (f : ℕ → ℕ) (i : ℕ) (xs ys : Bytes)
    → HoldsAt f i (xs ++ ys)
    → HoldsAt f i xs × HoldsAt f (i + length xs) ys
HoldsAt-append f i [] ys h = let same : i + 0 ≡ i = omega arith in (tt, rw same h)
HoldsAt-append f i (c ∷ xs) ys h =
    let rest = HoldsAt-append f (suc i) xs ys h.1 in
    let same : i + suc (length xs) ≡ suc i + length xs = omega arith in
    ((h.0, rest.0), rw same rest.1)

-- The data of a return code has a byte, that of a category and an index four, and a message has a
-- NUL in it or fills the buffer for it.
abbrev pub IsParam : Param → Type 0
IsParam p =
    (p.0 ≡ return_code → 1 ≤ length p.1)
    × (p.0 ≡ category_index → 4 ≤ length p.1)
    × (p.0 ≡ primary_msg_key → (msg : Bytes) × (strncpy msg_buffer_length p.1 ≡ some msg))

abbrev or_empty : Option Bytes → Bytes
or_empty none = []
or_empty (some bytes) = bytes

abbrev pub with_status : Bytes → Conn → Conn
with_status d c = record c { session = record c.session { status = get_or d 0 0 } }

abbrev pub with_category : Bytes → Conn → Conn
with_category d c = record c {
  rc = fail_fatal;
  session = record c.session {
    msg_category = get_or d 0 0 * 256 + get_or d 1 0;
    msg_index = get_or d 2 0 * 256 + get_or d 3 0;
  };
}

abbrev pub with_msg : Bytes → Conn → Conn
with_msg d c = record c {
  session = record c.session { primary_msg = or_empty (strncpy msg_buffer_length d) };
}

-- What one parameter of a status means to the session and to `*rc`.
unfoldable pub apply_param : Param → Conn → Conn
apply_param p c =
    if p.0 == return_code
    then with_status p.1 c
    else if p.0 == category_index
    then with_category p.1 c
    else if p.0 == primary_msg_key
    then with_msg p.1 c
    else c

unfoldable pub apply_params : List Param → Conn → Conn
apply_params [] c = c
apply_params (p ∷ params) c = apply_params params (apply_param p c)

pub less : (a b : ℕ) → a < b → ltb a b ≡ true
less a b h = ground arith

pub peek_lem :
    (i c : ℕ) (r : AsuiteRecord) → r.buffer i ≡ c → i < max_buffer_size → peek i r ≡ ok c r
peek_lem i c r h lt = rw (less i max_buffer_size lt, h)

none≢some : (bytes : Bytes) → none ≢ some bytes
none≢some bytes = cc

copy_from-strncpy :
    (n i : ℕ) (d msg : Bytes) (r : AsuiteRecord)
    → HoldsAt r.buffer i d
    → i + length d ≤ max_buffer_size
    → strncpy n d ≡ some msg
    → copy_from n i r ≡ ok msg r
unfolding copy_from strncpy
copy_from-strncpy zero i d msg r h fits e = ground arith
copy_from-strncpy (suc n) i [] msg r h fits e = cc
copy_from-strncpy (suc n) i (c ∷ d) msg r h fits e = elim (Bool-cases (c == 0)) [
  | inl y ↦ rw (peek_lem i c r h.0 (omega arith), y) (ground (arith, rw y at e))
  | inr m ↦ elim (Option-cases (strncpy n d)) [
    | inl o ↦ absurd (none≢some msg (rw (m, o) at e))
    | inr o ↦
        rw
          (
            peek_lem i c r h.0 (omega arith),
            m,
            copy_from-strncpy n (suc i) d o.0 r h.1 (omega arith) o.1,
          )
          (ground (arith, rw (m, o.1) at e))
  ]
]

halves :
    (n : ℕ)
    → n < 65536
    → ((n % 256 * 256 + n / 256) % 256 * 256 + (n % 256 * 256 + n / 256) % 65536 / 256) ≡ n
halves n lt = omega arith

pub get_param_len-encode :
    (i : ℕ) (p : Param) (r : AsuiteRecord)
    → HoldsAt r.buffer i (encode_param p)
    → i + length (encode_param p) ≤ max_buffer_size
    → get_param_len i r ≡ ok (length p.1 + 3) r
unfolding get_param_len
get_param_len-encode i p r h fits = rw (
  add-one,
  less (suc i) max_buffer_size (omega arith),
  less i max_buffer_size (omega arith),
  h.0,
  h.1.0,
  halves (length p.1 + 3) (omega arith),
)

get_cat_index-bytes :
    (i a b : ℕ) (r : AsuiteRecord)
    → HoldsAt r.buffer i (a ∷ b ∷ [])
    → (a < 256) × (b < 256)
    → i + 2 ≤ max_buffer_size
    → get_cat_index i r ≡ ok (a * 256 + b) r
unfolding get_cat_index
get_cat_index-bytes i a b r h small fits =
    let value : (b * 256 + a) % 256 * 256 + (b * 256 + a) % 65536 / 256 ≡ a * 256 + b =
      omega arith in
    rw
      (
        add-one,
        less (suc i) max_buffer_size (omega arith),
        less i max_buffer_size (omega arith),
        h.0,
        h.1.0,
        value,
      )
      refl

on_record-read :
    {A : Type 0} (m : Cmd AsuiteRecord A) (a : A) (c : Conn)
    → m c.session.rec ≡ ok a c.session.rec
    → on_record m c ≡ ok a c
on_record-read m a c e = rw e refl

store_status-apply :
    (i : ℕ) (d : Bytes) (c : Conn)
    → HoldsAt c.session.rec.buffer (i + 3) d
    → i + 3 + length d ≤ max_buffer_size
    → 1 ≤ length d
    → store_status i c ≡ ok tt (with_status d c)
unfolding store_status
store_status-apply i [] c h fits long = absurd (omega arith)
store_status-apply i (e ∷ d) c h fits long =
    rw (on_record-read (peek (i + 3)) e c (peek_lem (i + 3) e c.session.rec h.0 (omega arith))) refl

store_category-apply :
    (i : ℕ) (d : Bytes) (c : Conn)
    → HoldsAt c.session.rec.buffer (i + 3) d
    → All (λ b. b < 256) d
    → i + 3 + length d ≤ max_buffer_size
    → 4 ≤ length d
    → store_category i c ≡ ok tt (with_category d c)
unfolding store_category
store_category-apply i [] c h small fits long = absurd (omega arith)
store_category-apply i (a ∷ []) c h small fits long = absurd (omega arith)
store_category-apply i (a ∷ b ∷ []) c h small fits long = absurd (omega arith)
store_category-apply i (a ∷ b ∷ e ∷ []) c h small fits long = absurd (omega arith)
store_category-apply i (a ∷ b ∷ e ∷ f ∷ d) c h small fits long =
    let next : i + 5 ≡ suc (suc (i + 3)) = omega arith in
    let category =
      get_cat_index-bytes (i + 3) a b c.session.rec (h.0, (h.1.0, tt)) (small.0, small.1.0)
        (omega arith) in
    let index : get_cat_index (i + 5) c.session.rec ≡ ok (e * 256 + f) c.session.rec = rw next (
      get_cat_index-bytes (suc (suc (i + 3))) e f c.session.rec (h.1.1.0, (h.1.1.1.0, tt))
        (small.1.1.0, small.1.1.1.0) (omega arith)) in
    rw (category, index) refl

set_primary_msg-apply :
    (i : ℕ) (d msg : Bytes) (c : Conn)
    → HoldsAt c.session.rec.buffer (i + 3) d
    → i + 3 + length d ≤ max_buffer_size
    → strncpy msg_buffer_length d ≡ some msg
    → set_primary_msg i c ≡ ok tt (with_msg d c)
unfolding set_primary_msg
set_primary_msg-apply i d msg c h fits e =
    rw
      (
        on_record-read (copy_from msg_buffer_length (i + 3)) msg c
            (copy_from-strncpy msg_buffer_length (i + 3) d msg c.session.rec h fits e),
        e,
      )
      refl

status_param-apply :
    (i : ℕ) (p : Param) (c : Conn)
    → HoldsAt c.session.rec.buffer (i + 3) p.1
    → All (λ b. b < 256) p.1
    → i + 3 + length p.1 ≤ max_buffer_size
    → IsParam p
    → status_param p.0 i c ≡ ok tt (apply_param p c)
unfolding status_param apply_param
status_param-apply i p c h small fits good = elim (Bool-cases (p.0 == return_code)) [
  | inl y ↦ rw y (store_status-apply i p.1 c h fits (good.0 ((==_iff p.0 return_code).0 y)))
  | inr n ↦ elim (Bool-cases (p.0 == category_index)) [
    | inl y ↦
        rw (n, y)
          (store_category-apply i p.1 c h small fits (good.1 ((==_iff p.0 category_index).0 y)))
    | inr n' ↦ elim (Bool-cases (p.0 == primary_msg_key)) [
      | inl y ↦
          let msg = good.2 ((==_iff p.0 primary_msg_key).0 y) in
          rw (n, n', y) (set_primary_msg-apply i p.1 msg.0 c h fits msg.1)
      | inr n'' ↦ rw (n, n', n'') refl
    ]
  ]
]

rec-apply_param : (p : Param) (c : Conn) → (apply_param p c).session.rec ≡ c.session.rec
unfolding apply_param
rec-apply_param p c = ground arith

HoldsAt-same :
    (r r' : AsuiteRecord) (i : ℕ) (bytes : Bytes)
    → r' ≡ r
    → HoldsAt r.buffer i bytes
    → HoldsAt r'.buffer i bytes
HoldsAt-same r r' i bytes e h = rw e h

visit-step :
    (p : Param) (limit fuel i : ℕ) (c : Conn)
    → HoldsAt c.session.rec.buffer i (encode_param p)
    → All (λ b. b < 256) p.1
    → IsParam p
    → i + (length p.1 + 3) ≤ max_buffer_size
    → visit status_param limit (suc fuel) i c ≡ (
        if ltb (i + (length p.1 + 3)) limit
        then visit status_param limit fuel (i + (length p.1 + 3)) (apply_param p c)
        else ok tt (apply_param p c))
unfolding visit
visit-step p limit fuel i c h small good fits =
    let body : i + 3 ≡ suc (suc (suc i)) = omega arith in
    let two : i + 2 ≡ suc (suc i) = omega arith in
    let at_body : HoldsAt c.session.rec.buffer (i + 3) p.1 = rw body h.1.1.1 in
    let key : peek (i + 2) c.session.rec ≡ ok p.0 c.session.rec =
      rw two (peek_lem (suc (suc i)) p.0 c.session.rec h.1.1.0 (omega arith)) in
    rw
      (
        on_record-read (get_param_len i) (length p.1 + 3) c
            (get_param_len-encode i p c.session.rec h (omega arith)),
        on_record-read (get_key i) p.0 c key,
        status_param-apply i p c at_body small (omega arith) good,
      )
      (elim (Bool-cases (ltb (i + (length p.1 + 3)) limit)) [
        | inl y ↦ rw y refl
        | inr n ↦ rw n refl
      ])

-- The loop ends and has applied each parameter, in order.
pub visit_lem :
    (p : Param) (params : List Param) (limit fuel i : ℕ) (c : Conn)
    → HoldsAt c.session.rec.buffer i (encode (p ∷ params))
    → All (λ q. All (λ b. b < 256) q.1) (p ∷ params)
    → All IsParam (p ∷ params)
    → i + length (encode (p ∷ params)) ≡ limit
    → limit ≤ max_buffer_size
    → length (encode (p ∷ params)) ≤ fuel
    → visit status_param limit fuel i c ≡ ok tt (apply_params (p ∷ params) c)
unfolding visit encode apply_params
visit_lem p params limit zero i c h small good ends fits enough = absurd (omega arith)
visit_lem p [] limit (suc fuel) i c h small good ends fits enough =
    let lens = length-append (encode_param p) [] in
    let here = (HoldsAt-append c.session.rec.buffer i (encode_param p) [] h).0 in
    let last : ltb (i + (length p.1 + 3)) limit ≡ false = ground arith in
    rw (visit-step p limit fuel i c here small.0 good.0 (omega arith), last) refl
visit_lem p (q ∷ params) limit (suc fuel) i c h small good ends fits enough =
    let lens = length-append (encode_param p) (encode (q ∷ params)) in
    let both = HoldsAt-append c.session.rec.buffer i (encode_param p) (encode (q ∷ params)) h in
    let at : i + (length p.1 + 3) ≡ i + length (encode_param p) = omega arith in
    let there : HoldsAt (apply_param p c).session.rec.buffer (i + (length p.1 + 3))
        (encode (q ∷ params)) =
      HoldsAt-same c.session.rec (apply_param p c).session.rec (i + (length p.1 + 3))
        (encode (q ∷ params)) (rec-apply_param p c) (rw at both.1) in
    let more = length-append (encode_param q) (encode params) in
    rw
      (
        visit-step p limit fuel i c both.0 small.0 good.0 (omega arith),
        less (i + (length p.1 + 3)) limit (omega arith),
        visit_lem q params limit fuel (i + (length p.1 + 3)) (apply_param p c) there small.1 good.1
            (omega arith) fits (omega arith),
      )
      refl
