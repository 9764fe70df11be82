-- ===== src/Base/Run.antt =====
-- Code that changes a state of type S, and may end the process or leave defined behaviour.
use Prim.Native.Nat.{ℕ}

-- `exit n` is `exit(n)`, `abort` a failed `tnX_assert`, `fault` undefined behaviour in C, and
-- `out_of_fuel` marks a loop of the model that was given too few rounds.
pub data Outcome (S A : Type 0) : Type 0 where
  ok : A → S → Outcome S A
  exit : ℕ → Outcome S A
  abort : Outcome S A
  fault : Outcome S A
  out_of_fuel : Outcome S A

abbrev pub Cmd : Type 0 → Type 0 → Type 0
Cmd S A = S → Outcome S A

module _ {S A B : Type 0} where
  abbrev pub and_then : Outcome S A → (A → Cmd S B) → Outcome S B
  and_then (ok a s) k = k a s
  and_then (exit n) k = exit n
  and_then abort k = abort
  and_then fault k = fault
  and_then out_of_fuel k = out_of_fuel

  infixl 5 ◌>>=◌ ◌>>◌
  abbrev pub ◌>>=◌ : Cmd S A → (A → Cmd S B) → Cmd S B
  m >>= k = λ s. and_then (m s) k

  abbrev pub ◌>>◌ : Cmd S A → Cmd S B → Cmd S B
  m >> n = m >>= λ _. n

abbrev pub pure : {S A : Type 0} → A → Cmd S A
pure = ok

abbrev pub get : {S : Type 0} → Cmd S S
get s = ok s s

abbrev pub modify : {S : Type 0} → (S → S) → Cmd S (Unit {0})
modify f s = ok tt (f s)
