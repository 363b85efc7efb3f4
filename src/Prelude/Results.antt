-- ===== src/Prelude/Results.antt =====
-- Exceptions as values, and the integers that an `int` argument stands for.
use Prim.Native.Nat.{ℕ}
use mathlib.Core.Option.{Option, none, some}

-- `std::range_error` and `util::Bug`; the last is no exception, but code whose behaviour is
-- undefined.
pub data Exception : Type 0 where
  range_error bug undefined_behaviour : Exception

pub data Result {ℓ} (A : Type ℓ) : Type ℓ where
  ok : A → Result A
  err : Exception → Result A

-- What a library of JSON makes of a text: parse_error for one that is not JSON, and `too_large` for
-- the out_of_range of a number that no double holds.
pub data Parsed {ℓ} (A : Type ℓ) : Type ℓ where
  parsed : A → Parsed A
  parse_error too_large : Parsed A

-- `negsuc n` is -(n + 1).
pub data ℤ : Type 0 where
  pos : ℕ → ℤ
  negsuc : ℕ → ℤ

-- A chain of steps that may fail.
infixl 5 ◌>>=◌
abbrev pub ◌>>=◌ {ℓ κ} : {A : Type ℓ} {B : Type κ} → Option A → (A → Option B) → Option B
none >>= f = none
some a >>= f = f a
