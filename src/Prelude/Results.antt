-- ===== src/Prelude/Results.antt =====
-- What a C call can do instead of returning, and the monad of calls that may do so.
use Prim.Native.Nat.{ℕ}
use mathlib.Core.Bool.{Bool, true, false}
use mathlib.Core.Option.{Option, none, some}

-- Undefined behaviour by its cause, a failed assert, `exit`, and fuel that ran out.
pub data Trap : Type 0 where
  null_deref : Trap
  out_of_bounds : Trap
  uninitialised : Trap
  div_by_zero : Trap
  overflow : Trap
  use_after_free : Trap
  assert_failed : Trap
  out_of_fuel : Trap
  exited : ℕ → Trap

pub data Result {ℓ} (A : Type ℓ) : Type ℓ where
  ok : A → Result A
  trap : Trap → Result A

infixl 5 ◌>>=◌ ◌>>◌
abbrev pub ◌>>=◌ {ℓ κ} : {A : Type ℓ} {B : Type κ} → Result A → (A → Result B) → Result B
ok a >>= f = f a
trap t >>= f = trap t

abbrev pub ◌>>◌ {ℓ} : {B : Type ℓ} → Result (Unit {0}) → Result B → Result B
m >> k = m >>= λ _. k

-- The run goes on only where the test holds.
abbrev pub check : Bool → Trap → Result (Unit {0})
check true t = ok tt
check false t = trap t

-- What a pointer that may be null points at.
abbrev pub deref {ℓ} : {A : Type ℓ} → Option A → Result A
deref none = trap null_deref
deref (some a) = ok a
