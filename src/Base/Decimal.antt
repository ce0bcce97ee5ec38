-- ===== src/Base/Decimal.antt =====
-- Python's `str` of an integer.
pub mod Reading
use Prim.Native.Nat.{ℕ, zero, suc, ◌+◌, ◌/◌, ◌%◌}
use mathlib.Core.List.{[], ◌∷◌, ◌++◌}
use native.Mathlib.Decide.{ℕ_discrete}
use codex_context_guard.Base.Tests.{ltb, if◌then◌else◌}
use codex_context_guard.Base.Equality.{Eq, Text}
use codex_context_guard.Base.Texts.{codes}

-- The decimal digits of a number, on a fuel beyond it.
unfoldable pub digits : ℕ → ℕ → Text
digits zero n = []
digits (suc fuel) n =
    let front = digits fuel (n / 10) in
    if ltb n 10 then (48 + n) ∷ [] else front ++ (48 + n % 10) ∷ []

-- An integer: a number, or one less than minus a number.
pub data ℤ : Type 0 where
  pos : ℕ → ℤ
  negsuc : ℕ → ℤ

int_dec : Discrete ℤ
unfolding ℕ_discrete
int_dec = hlevel (ℕ_discrete)

instance unfoldable pub int_eq : Eq ℤ
unfolding int_dec
int_eq = record { dec = int_dec }

-- `str(number)`
unfoldable pub decimal : ℤ → Text
unfolding digits
decimal (pos n) = digits (suc n) n
decimal (negsuc n) = codes "-" ++ digits (suc (suc n)) (suc n)
