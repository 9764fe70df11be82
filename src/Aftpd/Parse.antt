-- ===== src/Aftpd/Parse.antt =====
-- The loop over the parameters of a request, on a record that holds them.
use linux_sna.Base.{
  ℕ, zero, suc, ◌+◌, ◌-◌, ◌≤◌, ◌<◌, [], ◌∷◌, ◌++◌, ltb, ◌==◌, if◌then◌else◌, Bytes, length,
  length-append, Option, some, Cmd, ok, ◌≡◌, refl, arith, false, Bool-cases, inl, inr,
}
use linux_sna.Asuite.{AsuiteRecord, max_buffer_size, get_param_len, get_key, peek}
use linux_sna.Asuite.Emit.{Param, encode_param, NulFree}
use linux_sna.Aftp.Params.{HoldsAt, get_param_len-encode, peek_lem, less}
use linux_sna.Aftpd.{Globals, Locals, on_record, read_string, param_string, parse}

read_string-name :
    (name : Bytes) (i fuel : ℕ) (r : AsuiteRecord)
    → NulFree name
    → HoldsAt r.buffer i (name ++ 0 ∷ [])
    → i + length name < max_buffer_size
    → length name < fuel
    → read_string fuel i r ≡ ok name r
unfolding read_string
read_string-name name i zero r free h fits enough = absurd (omega arith)
read_string-name [] i (suc fuel) r free h fits enough = rw (peek_lem i 0 r h.0 (omega arith)) refl
read_string-name (c ∷ name) i (suc fuel) r free h fits enough =
    let some_byte : (c == 0) ≡ false = let n = free.0 in ground (arith, n) in
    rw
      (
        peek_lem i c r h.0 (omega arith),
        some_byte,
        read_string-name name (suc i) fuel r free.1 h.1 (omega arith) (omega arith),
      )
      refl

on_record-read :
    {A : Type 0} (m : Cmd AsuiteRecord A) (a : A) (g : Globals)
    → m g.rec ≡ ok a g.rec
    → on_record m g ≡ ok a g
on_record-read m a g e = rw e refl

-- A parameter with a name in it
abbrev pub named : ℕ → Bytes → Param
named key name = (key, name ++ 0 ∷ [])

pub param_string-name :
    (key : ℕ) (name : Bytes) (g : Globals)
    → NulFree name
    → HoldsAt g.rec.buffer g.curpos (encode_param (named key name))
    → g.curpos + length (encode_param (named key name)) ≤ max_buffer_size
    → param_string g ≡ ok name g
unfolding param_string
param_string-name key name g free h fits =
    let lens = length-append name (0 ∷ []) in
    let body : g.curpos + 3 ≡ suc (suc (suc g.curpos)) = omega arith in
    let at_body : HoldsAt g.rec.buffer (g.curpos + 3) (name ++ 0 ∷ []) = rw body h.1.1.1 in
    on_record-read (read_string max_buffer_size (g.curpos + 3)) name g (
      read_string-name name (g.curpos + 3) max_buffer_size g.rec free at_body (omega arith)
        (omega arith))

-- One round of the loop, if the parameter is taken and nothing else is done.
pub parse-step :
    (param : ℕ → Locals → Cmd Globals (Option Locals)) (p : Param) (fuel : ℕ) (vars vars' : Locals)
    (g : Globals)
    → HoldsAt g.rec.buffer g.curpos (encode_param p)
    → g.curpos + length (encode_param p) ≤ max_buffer_size
    → param p.0 vars g ≡ ok (some vars') g
    → parse param (suc fuel) vars g ≡ (
        if ltb (g.curpos + (length p.1 + 3)) g.returned_length
        then parse param fuel vars' (record g { curpos = g.curpos + (length p.1 + 3) })
        else ok (some vars') (record g { curpos = g.curpos + (length p.1 + 3) }))
unfolding parse
parse-step param p fuel vars vars' g h fits taken =
    let two : g.curpos + 2 ≡ suc (suc g.curpos) = omega arith in
    let key : peek (g.curpos + 2) g.rec ≡ ok p.0 g.rec =
      rw two (peek_lem (suc (suc g.curpos)) p.0 g.rec h.1.1.0 (omega arith)) in
    rw
      (
        on_record-read (get_param_len g.curpos) (length p.1 + 3) g
            (get_param_len-encode g.curpos p g.rec h fits),
        on_record-read (get_key g.curpos) p.0 g key,
        taken,
      )
      (elim (Bool-cases (ltb (g.curpos + (length p.1 + 3)) g.returned_length)) [
        | inl y ↦ rw y refl
        | inr n ↦ rw n refl
      ])

-- The last parameter ends the loop.
pub parse-last :
    (param : ℕ → Locals → Cmd Globals (Option Locals)) (p : Param) (fuel : ℕ) (vars vars' : Locals)
    (g : Globals)
    → HoldsAt g.rec.buffer g.curpos (encode_param p)
    → g.curpos + length (encode_param p) ≤ max_buffer_size
    → param p.0 vars g ≡ ok (some vars') g
    → g.returned_length ≤ g.curpos + length (encode_param p)
    → 1 ≤ fuel
    → parse param fuel vars g ≡ ok (some vars') (record g { curpos = g.curpos + (length p.1 + 3) })
parse-last param p zero vars vars' g h fits taken ends enough = absurd (omega arith)
parse-last param p (suc fuel) vars vars' g h fits taken ends enough =
    let last : ltb (g.curpos + (length p.1 + 3)) g.returned_length ≡ false = ground arith in
    rw (parse-step param p fuel vars vars' g h fits taken, last) refl

-- A parameter that is not the last one
pub parse-more :
    (param : ℕ → Locals → Cmd Globals (Option Locals)) (p : Param) (fuel : ℕ) (vars vars' : Locals)
    (g : Globals)
    → HoldsAt g.rec.buffer g.curpos (encode_param p)
    → g.curpos + length (encode_param p) ≤ max_buffer_size
    → param p.0 vars g ≡ ok (some vars') g
    → g.curpos + (length p.1 + 3) < g.returned_length
    → 1 ≤ fuel
    → parse param fuel vars g
      ≡ parse param (fuel - 1) vars' (record g { curpos = g.curpos + (length p.1 + 3) })
parse-more param p zero vars vars' g h fits taken goes_on enough = absurd (omega arith)
parse-more param p (suc fuel) vars vars' g h fits taken goes_on enough =
    let one_less : suc fuel - 1 ≡ fuel = omega arith in
    rw
      (
        parse-step param p fuel vars vars' g h fits taken,
        less (g.curpos + (length p.1 + 3)) g.returned_length goes_on,
        one_less,
      )
      refl
