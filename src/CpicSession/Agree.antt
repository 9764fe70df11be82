-- ===== src/CpicSession/Agree.antt =====
-- The two sides of the exchange of versions of libasuite/cpicsession.c.
use linux_sna.Base.{
  ℕ, ◌-◌, ◌≤◌, List, [], ◌∷◌, ltb, ◌==◌, if◌then◌else◌, Bytes, length, length-take, take, some,
  Bool-cases, inl, inr, ok, fault, ◌≡◌, refl, arith, true, false,
}
use linux_sna.Asuite.{update, cells}
use linux_sna.Asuite.Cpic.{fill}
use linux_sna.CpicSession.{send_received, Call, cmsptr, cmsst, cmsend, cmrcv, cmptr, Cpic}
use linux_sna.CpicSession.Version.{
  Exchange, exchange_version, exchange_os_name, local_os_name, own_version, get_server_version,
  get_client_version, string_at,
}

abbrev pub prepared_calls : List Call → List Call
prepared_calls calls = cmsst ∷ cmsptr ∷ calls

-- What the program that calls `get_server_version` sends.
abbrev pub asked : ℕ → ℕ → Bytes
asked major minor = exchange_version ∷ major ∷ minor ∷ []

abbrev pub asking_calls : ℕ → ℕ → List Call → List Call
asking_calls major minor calls = cmsend (asked major minor) ∷ prepared_calls calls

-- Each call on the way of `get_server_version` succeeds, and `cmrcv` gives these bytes.
abbrev pub AnswersServer : Cpic → ℕ → ℕ → List Call → Bytes → Type 0
AnswersServer cpic major minor calls bytes =
    ((cpic (cmsptr ∷ calls)).cm_rc ≡ 0)
    × ((cpic (prepared_calls calls)).cm_rc ≡ 0)
    × ((cpic (asking_calls major minor calls)).cm_rc ≡ 0)
    × (cpic (cmrcv ∷ asking_calls major minor calls)
        ≡ record { cm_rc = 0; bytes = bytes; no_data = false; status = send_received })

-- The same for `get_client_version`, up to `cmptr`.
abbrev pub AnswersClient : Cpic → ℕ → ℕ → List Call → Bytes → Type 0
AnswersClient cpic major minor calls bytes =
    ((cpic (cmsptr ∷ calls)).cm_rc ≡ 0)
    × ((cpic (prepared_calls calls)).cm_rc ≡ 0)
    × (cpic (cmrcv ∷ prepared_calls calls)
        ≡ record { cm_rc = 0; bytes = bytes; no_data = false; status = send_received })
    × ((cpic (cmsend (own_version major minor) ∷ cmrcv ∷ prepared_calls calls)).cm_rc ≡ 0)

-- The program that has sent its version takes the version and the name out of the answer.
get_server_version_lem :
    (cpic : Cpic) (major minor tp_major tp_minor size : ℕ) (e : Exchange)
    → 2 ≤ size
    → AnswersServer cpic major minor e.calls (own_version tp_major tp_minor)
    → (e' : Exchange) × (get_server_version cpic major minor (some size) e ≡ ok 0 e')
      × (e'.calls ≡ cmrcv ∷ asking_calls major minor e.calls)
      × (e'.major ≡ tp_major)
      × (e'.minor ≡ tp_minor)
      × (e'.os_name ≡ take (size - 1) local_os_name)
unfolding get_server_version cells string_at
get_server_version_lem cpic major minor tp_major tp_minor size e room answers =
    let roomy : ltb 1 size ≡ true = ground arith in
    let own = own_version tp_major tp_minor in
    let asking = update (update (update e.buffer 0 exchange_version) 1 major) 2 minor in
    (
      record {
        buffer = update (fill own asking) 10 0;
        calls = cmrcv ∷ asking_calls major minor e.calls;
        rc = 0;
        major = tp_major;
        minor = tp_minor;
        os_name = take (size - 1) local_os_name;
      },
      rw (answers.0, answers.1, answers.2, answers.3, roomy) refl,
      refl,
      refl,
      refl,
      refl,
    )

length-take_full : (n : ℕ) (xs : Bytes) → n ≤ length xs → length (take n xs) ≡ n
length-take_full n xs h = omega (arith, length-take n xs)

get_client_version_lem :
    (cpic : Cpic) (major minor tp_major tp_minor size : ℕ) (e : Exchange)
    → AnswersClient cpic tp_major tp_minor e.calls (asked major minor)
    → (e' : Exchange) × (get_client_version cpic tp_major tp_minor (some size) e ≡ ok 0 e')
      × (e'.calls ≡ cmptr ∷ cmsend (own_version tp_major tp_minor) ∷ cmrcv ∷ prepared_calls e.calls)
      × (e'.major ≡ major)
      × (e'.minor ≡ minor)
unfolding get_client_version
get_client_version_lem cpic major minor tp_major tp_minor size e answers =
    let calls = cmsend (own_version tp_major tp_minor) ∷ cmrcv ∷ prepared_calls e.calls in
    (
      record {
        buffer = fill (asked major minor) e.buffer;
        calls = cmptr ∷ calls;
        rc = (cpic (cmptr ∷ calls)).cm_rc;
        major = major;
        minor = minor;
        os_name = if ltb 1 size then [] else e.os_name;
      },
      elim (Bool-cases (ltb 1 size)) [
        | inl y ↦ rw (answers.0, answers.1, answers.2, y) (rw answers.3 refl)
        | inr n ↦ rw (answers.0, answers.1, answers.2, n) (rw answers.3 refl)
      ],
      refl,
      refl,
      refl,
    )

-- Two programs on one conversation, every call of CPI-C succeeds, and what each of them sends the
-- other receives. The one calls `get_server_version` with room for a name, the other
-- `get_client_version`: both return RC_OK, each has the other's two numbers, and the first has the
-- name of the other's system, as much of it as has room.
pub version_exchange :
    (cpic cpic' : Cpic) (major minor tp_major tp_minor size size' : ℕ) (e e' : Exchange)
    → 2 ≤ size
    → AnswersServer cpic major minor e.calls (own_version tp_major tp_minor)
    → AnswersClient cpic' tp_major tp_minor e'.calls (asked major minor)
    → ((f : Exchange) × (get_server_version cpic major minor (some size) e ≡ ok 0 f)
        × (f.calls ≡ cmrcv ∷ asking_calls major minor e.calls)
        × (f.major ≡ tp_major)
        × (f.minor ≡ tp_minor)
        × (f.os_name ≡ take (size - 1) local_os_name))
      × ((f' : Exchange) × (get_client_version cpic' tp_major tp_minor (some size') e' ≡ ok 0 f')
          × (f'.calls
              ≡ cmptr ∷ cmsend (own_version tp_major tp_minor) ∷ cmrcv ∷ prepared_calls e'.calls)
          × (f'.major ≡ major)
          × (f'.minor ≡ minor))
version_exchange cpic cpic' major minor tp_major tp_minor size size' e e' room answers answers' = (
  get_server_version_lem cpic major minor tp_major tp_minor size e room answers,
  get_client_version_lem cpic' major minor tp_major tp_minor size' e' answers',
)

-- The partner answers with 128 bytes or more, and the fourth of the first 128 announces a name:
-- `get_server_version`, called with room for a name, writes behind its buffer.
pub long_answer_faults :
    (cpic : Cpic) (major minor size a b c : ℕ) (rest : Bytes) (e : Exchange)
    → 2 ≤ size
    → 124 ≤ length rest
    → AnswersServer cpic major minor e.calls (a ∷ b ∷ c ∷ exchange_os_name ∷ rest)
    → get_server_version cpic major minor (some size) e ≡ fault
unfolding get_server_version cells
long_answer_faults cpic major minor size a b c rest e room long answers =
    let roomy : ltb 1 size ≡ true = ground arith in
    let full = length-take_full 124 rest long in
    rw (answers.0, answers.1, answers.2, answers.3, roomy)
      (elim (Bool-cases (a == exchange_version)) [
        | inl y ↦ rw (full, y) refl
        | inr n ↦ rw (full, n) refl
      ])
