-- ===== src/Base/Decimal/Reading.antt =====
-- Decimal digits, read back: `str` gives two integers two texts, without redundant zeros.
use codex_context_guard.Base.Tests.{ltb, if◌then◌else◌, Bool-cases}
use Prim.Native.Nat.{ℕ, zero, suc, ◌+◌, ◌-◌, ◌*◌, ◌/◌, ◌%◌, ◌<◌, ◌≤◌}
use mathlib.Core.Path.{◌≡◌, refl, ap, ◌∙◌}
use mathlib.Core.Logic.{inl, inr}
use mathlib.Core.List.{[], ◌∷◌, ◌++◌}
use native.Mathlib.Omega.{arith}
use codex_context_guard.Base.Lists.{All}
use codex_context_guard.Base.Equality.{Text, nat_eq, ◌==◌}
use codex_context_guard.Base.Texts.Utf8.{All-append}
use codex_context_guard.Base.Decimal.{digits, decimal, ℤ, pos, negsuc}

-- The number that some digits stand for, after those before them.
abbrev read : ℕ → Text → ℕ
read acc [] = acc
read acc (c ∷ s) = read (10 * acc + (c - 48)) s

read-append : (acc : ℕ) (s : Text) (c : ℕ) → read acc (s ++ c ∷ []) ≡ 10 * read acc s + (c - 48)
read-append acc [] c = refl
read-append acc (d ∷ s) c = read-append (10 * acc + (d - 48)) s c

read-digits : (fuel n : ℕ) → n < fuel → read 0 (digits fuel n) ≡ n
unfolding digits
read-digits zero n h = absurd (omega arith)
read-digits (suc fuel) n h = elim (Bool-cases (ltb n 10)) [
  | inl small ↦ rw small (omega arith)
  | inr large ↦
      rw
        (
          large,
          read-append 0 (digits fuel (n / 10)) (48 + n % 10),
          read-digits fuel (n / 10) (ground arith),
        )
        (omega arith)
]

digits-AtLeast : (fuel n : ℕ) → All (λ c. 48 ≤ c) (digits fuel n)
unfolding digits
digits-AtLeast zero n = tt
digits-AtLeast (suc fuel) n = elim (Bool-cases (ltb n 10)) [
  | inl small ↦ rw small (omega arith, tt)
  | inr large ↦ rw large (
      All-append (λ c. 48 ≤ c) (digits fuel (n / 10)) _ (digits-AtLeast fuel (n / 10))
        (omega arith, tt))
]

-- A positive number starts with a digit that is not zero.
pub digits-lead :
    (fuel n : ℕ) → 0 < n → n < fuel → (c : ℕ) × (s : Text) × (digits fuel n ≡ c ∷ s) × (48 < c)
unfolding digits
digits-lead zero n p h = absurd (omega arith)
digits-lead (suc fuel) n p h = elim (Bool-cases (ltb n 10)) [
  | inl small ↦ (48 + n, [], rw small refl, omega arith)
  | inr large ↦
      let (c, s, e, above) = digits-lead fuel (n / 10) (ground arith) (ground arith) in
      (c, s ++ (48 + n % 10) ∷ [], rw (large, e) refl, above)
]

-- `int(text)`, on what `str` writes.
unfoldable pub parse_decimal : Text → ℤ
parse_decimal [] = pos 0
parse_decimal (c ∷ s) = if c == 45 then negsuc (read 0 s - 1) else pos (read 0 (c ∷ s))

parse_decimal-digits : (s : Text) → All (λ c. 48 ≤ c) s → parse_decimal s ≡ pos (read 0 s)
unfolding parse_decimal
parse_decimal-digits [] h = refl
parse_decimal-digits (c ∷ s) (h, hs) = ground arith

-- An integer is read back from its text.
pub parse_decimal-decimal : (n : ℤ) → parse_decimal (decimal n) ≡ n
unfolding decimal nat_eq
parse_decimal-decimal (pos n) =
    parse_decimal-digits (digits (suc n) n) (digits-AtLeast (suc n) n)
    ∙ ap pos (read-digits (suc n) n (omega arith))
parse_decimal-decimal (negsuc n) =
    unfold parse_decimal in ap negsuc (omega (arith, read-digits (suc (suc n)) (suc n)))
