-- ===== src/Asuite/Emit.antt =====
-- What the functions `asuiterecord_append*` write behind the record's position.
use linux_sna.Base.{
  ℕ, zero, suc, ◌+◌, ◌/◌, ◌%◌, ◌≤◌, ◌<◌, List, [], ◌∷◌, ◌++◌, ◌==◌, Bytes, length, length-append,
  some, All, Cmd, ok, ◌≡◌, true, false, refl, arith, ◌>>◌, ◌∙◌,
}
use linux_sna.Asuite.{
  AsuiteRecord, max_buffer_size, update, put, put_all, strncpy, append, htons, cells, sent,
  put_copy,
}

-- The cells with the bytes written from `i` on.
unfoldable pub overlay : (ℕ → ℕ) → ℕ → Bytes → ℕ → ℕ
overlay f i [] = f
overlay f i (c ∷ bytes) = overlay (update f i c) (suc i) bytes

-- The record with the bytes written at its position.
abbrev pub written : AsuiteRecord → Bytes → AsuiteRecord
written r bytes = record {
  position = r.position + length bytes;
  buffer = overlay r.buffer r.position bytes;
}

-- The command writes exactly these bytes, if they fit.
abbrev pub Emits : Cmd AsuiteRecord (Unit {0}) → Bytes → Type 0
Emits m bytes =
    (r : AsuiteRecord) → r.position + length bytes ≤ max_buffer_size → m r ≡ ok tt (written r bytes)

overlay-append :
    (f : ℕ → ℕ) (i : ℕ) (xs ys : Bytes)
    → overlay f i (xs ++ ys) ≡ overlay (overlay f i xs) (i + length xs) ys
unfolding overlay
overlay-append f i [] ys = let same : i + 0 ≡ i = omega arith in rw same refl
overlay-append f i (c ∷ xs) ys =
    let same : i + suc (length xs) ≡ suc i + length xs = omega arith in
    rw same (overlay-append (update f i c) (suc i) xs ys)

written-append :
    (r : AsuiteRecord) (xs ys : Bytes) → written (written r xs) ys ≡ written r (xs ++ ys)
written-append r xs ys =
    let same : r.position + length xs + length ys ≡ r.position + length (xs ++ ys) =
      omega (arith, length-append xs ys) in
    rw (overlay-append r.buffer r.position xs ys, same) refl

pub put-Emits : (c : ℕ) → Emits (put c) (c ∷ [])
unfolding put overlay
put-Emits c r fits = ground arith

-- One command after another.
pub then-Emits :
    (m n : Cmd AsuiteRecord (Unit {0})) (xs ys : Bytes)
    → Emits m xs
    → Emits n ys
    → Emits (m >> n) (xs ++ ys)
then-Emits m n xs ys hm hn r fits =
    let lens = length-append xs ys in
    rw (hm r (omega arith), hn (written r xs) (omega arith), written-append r xs ys) refl

put_all-Emits : (bytes : Bytes) → Emits (put_all bytes) bytes
unfolding put_all overlay
put_all-Emits [] = λ r fits. let same : r.position + 0 ≡ r.position = omega arith in rw same refl
put_all-Emits (c ∷ bytes) =
    then-Emits (put c) (put_all bytes) (c ∷ []) bytes (put-Emits c) (put_all-Emits bytes)

pub overlay-under : (f : ℕ → ℕ) (i j : ℕ) (bytes : Bytes) → j < i → overlay f i bytes j ≡ f j
unfolding overlay
overlay-under f i j [] lt = refl
overlay-under f i j (c ∷ bytes) lt =
    let other : (i == j) ≡ false = ground arith in
    overlay-under (update f i c) (suc i) j bytes (omega arith) ∙ rw other refl

cells-overlay :
    (f : ℕ → ℕ) (i : ℕ) (bytes : Bytes) → cells (overlay f i bytes) i (length bytes) ≡ bytes
unfolding cells overlay
cells-overlay f i [] = refl
cells-overlay f i (c ∷ bytes) =
    let here : (i == i) ≡ true = ground arith in
    rw
      (
        overlay-under (update f i c) (suc i) i bytes (omega arith),
        here,
        cells-overlay (update f i c) (suc i) bytes,
      )
      refl

cells-before :
    (f : ℕ → ℕ) (i j n : ℕ) (bytes : Bytes)
    → i ≡ j + n
    → cells (overlay f i bytes) j (n + length bytes) ≡ cells f j n ++ bytes
unfolding cells
cells-before f i j zero bytes e =
    let same : i ≡ j = omega arith in
    let none_more : 0 + length bytes ≡ length bytes = omega arith in
    rw (none_more, ← same) (cells-overlay f i bytes)
cells-before f i j (suc n) bytes e =
    let more : suc n + length bytes ≡ suc (n + length bytes) = omega arith in
    rw
      (
        more,
        overlay-under f i j bytes (omega arith),
        cells-before f i (suc j) n bytes (omega arith),
      )
      refl

-- The bytes that `cmsend` reads grow by what is written.
pub sent-written : (r : AsuiteRecord) (bytes : Bytes) → sent (written r bytes) ≡ sent r ++ bytes
unfolding sent
sent-written r bytes = cells-before r.buffer r.position 0 r.position bytes (omega arith)

abbrev pub big_endian : ℕ → Bytes
big_endian n = n / 256 % 256 ∷ n % 256 ∷ []

pub htons-bytes : (n : ℕ) → (htons n % 256 ≡ n / 256 % 256) × (htons n / 256 ≡ n % 256)
htons-bytes n = (omega arith, omega arith)

pub then_put :
    (c : ℕ) (n : Cmd AsuiteRecord (Unit {0})) (ys : Bytes)
    → Emits n ys
    → Emits (put c >> n) (c ∷ ys)
then_put c n ys hn = then-Emits (put c) n (c ∷ []) ys (put-Emits c) hn

append-Emits :
    (key n : ℕ) (memory bytes : Bytes)
    → strncpy n memory ≡ some bytes
    → Emits (append key memory n) (big_endian (n + 3) ++ key ∷ bytes)
unfolding append put_copy
append-Emits key n memory bytes e r fits =
    let value = htons-bytes (n + 3) in
    rw (value.0, value.1, e)
      (then_put ((n + 3) / 256 % 256) (put ((n + 3) % 256) >> (put key >> put_all bytes))
        ((n + 3) % 256 ∷ key ∷ bytes)
        (then_put ((n + 3) % 256) (put key >> put_all bytes) (key ∷ bytes)
          (then_put key (put_all bytes) bytes (put_all-Emits bytes)))
        r fits)

-- A parameter: its key and its data.
abbrev pub Param : Type 0
Param = ℕ × Bytes

abbrev pub encode_param : Param → Bytes
encode_param p = (length p.1 + 3) / 256 ∷ (length p.1 + 3) % 256 ∷ p.0 ∷ p.1

unfoldable pub encode : List Param → Bytes
encode [] = []
encode (p ∷ params) = encode_param p ++ encode params

-- Bytes before a NUL.
abbrev pub NulFree : Bytes → Type 0
NulFree = All (λ c. 1 ≤ c)

strncpy-name :
    (name rest : Bytes)
    → NulFree name
    → strncpy (length name + 1) (name ++ 0 ∷ rest) ≡ some (name ++ 0 ∷ [])
unfolding strncpy
strncpy-name [] rest free = refl
strncpy-name (c ∷ name) rest free =
    let more : suc (length name) + 1 ≡ suc (length name + 1) = omega arith in
    let not_nul : (c == 0) ≡ false = ground arith in
    rw (more, not_nul, strncpy-name name rest free.1) refl

pub append_name :
    (key : ℕ) (name rest : Bytes)
    → NulFree name
    → Emits (append key (name ++ 0 ∷ rest) (length name + 1)) (encode_param (key, name ++ 0 ∷ []))
append_name key name rest free r fits =
    let lens = length-append name (0 ∷ []) in
    let high : (length name + 1 + 3) / 256 % 256 ≡ (length (name ++ 0 ∷ []) + 3) / 256 =
      omega arith in
    let low : (length name + 1 + 3) % 256 ≡ (length (name ++ 0 ∷ []) + 3) % 256 = omega arith in
    rw (← high, ← low)
      (append-Emits key (length name + 1) (name ++ 0 ∷ rest) (name ++ 0 ∷ [])
        (strncpy-name name rest free) r (omega arith))
