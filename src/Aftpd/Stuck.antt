-- ===== src/Aftpd/Stuck.antt =====
-- A request that the server of asuite/aftpd.c never finishes reading.
use linux_sna.Base.{
  ℕ, zero, suc, ◌+◌, ◌≤◌, ◌<◌, ◌∷◌, ◌==◌, Bytes, length, Option, some, Cmd, ok, out_of_fuel, ◌≡◌,
  ◌≢◌, refl, arith, false,
}
use linux_sna.Asuite.{max_buffer_size, get_param_len, get_key}
use linux_sna.Asuite.Codes.{change_dir_code, filespec}
use linux_sna.Asuite.Cpic.{cmrcv}
use linux_sna.Aftp.Params.{less}
use linux_sna.Aftpd.{Globals, Locals, no_locals, with_params, parse}
use linux_sna.Aftpd.Names.{change_dir_key, a_change_dir}
use linux_sna.Aftpd.Serve.{Outside, serve_record, dispatch}
use linux_sna.Aftpd.Exchange.{received, serve_record-received}

-- A parameter of length 0 is read again and again.
parse-stuck :
    (param : ℕ → Locals → Cmd Globals (Option Locals)) (key : ℕ) (vars : Locals) (g : Globals)
    (fuel : ℕ)
    → get_param_len g.curpos g.rec ≡ ok 0 g.rec
    → get_key g.curpos g.rec ≡ ok key g.rec
    → param key vars g ≡ ok (some vars) g
    → g.curpos < g.returned_length
    → parse param fuel vars g ≡ out_of_fuel
unfolding parse
parse-stuck param key vars g zero a b c more = refl
parse-stuck param key vars g (suc fuel) a b c more =
    let same : g.curpos + 0 ≡ g.curpos = omega arith in
    rw (a, b, c, same, less g.curpos g.returned_length more)
      (parse-stuck param key vars g fuel a b c more)

-- A record of `a_change_dir` whose first parameter has the length 0 and a key other than
-- AFTP_FILESPEC: the loop over its parameters does not end, however many rounds it is given, so
-- the server never takes another record.
pub change_dir-stuck :
    (o : Outside) (g : Globals) (key : ℕ) (rest : Bytes) (fuel : ℕ)
    → key ≢ filespec
    → length (0 ∷ change_dir_code ∷ 0 ∷ 0 ∷ key ∷ rest) ≤ max_buffer_size
    → o.cpic (cmrcv g.conv_id ∷ g.calls)
      ≡ record { cm_rc = 0; bytes = 0 ∷ change_dir_code ∷ 0 ∷ 0 ∷ key ∷ rest }
    → (serve_record o g ≡ out_of_fuel)
      × (parse
            (change_dir_key o.cpic o.os o.fresh)
            fuel
            no_locals
            (received g (0 ∷ change_dir_code ∷ 0 ∷ 0 ∷ key ∷ rest))
          ≡ out_of_fuel)
unfolding change_dir_key dispatch a_change_dir with_params get_param_len
change_dir-stuck o g key rest fuel ne fits e =
    let bytes = 0 ∷ change_dir_code ∷ 0 ∷ 0 ∷ key ∷ rest in
    let other_key : (key == filespec) ≡ false = ground (arith, ne) in
    let keep : change_dir_key o.cpic o.os o.fresh key no_locals (received g bytes)
        ≡ ok (some no_locals) (received g bytes) =
      rw other_key refl in
    let stuck = λ (n : ℕ).
      parse-stuck (change_dir_key o.cpic o.os o.fresh) key no_locals (received g bytes) n refl refl
        keep (omega arith) in
    (
      rw (serve_record-received o g change_dir_code bytes fits refl e, stuck (suc (length bytes)))
          refl,
      stuck fuel,
    )
