-- ===== src/Base/Lists.antt =====
-- Lists measured by native numbers, and Python's `any`, `all`, `filter` and comprehensions.
use Prim.Native.Nat.{ℕ, zero, suc, ◌+◌}
use mathlib.Core.Path.{◌≡◌, refl}
use mathlib.Core.Bool.{Bool, true, false, ◌&&◌, ◌||◌}
use mathlib.Core.Option.{Option, none, some}
use mathlib.Core.List.{List, [], ◌∷◌, ◌++◌, Memᴰ}
use native.Mathlib.Omega.{arith}
use codex_context_guard.Base.Tests.{if◌then◌else◌}

module _ {ℓ} {A : Type ℓ} where
  abbrev pub length : List A → ℕ
  length [] = 0
  length (x ∷ xs) = suc (length xs)

  abbrev pub take : ℕ → List A → List A
  take zero xs = []
  take (suc n) [] = []
  take (suc n) (x ∷ xs) = x ∷ take n xs

  abbrev pub drop : ℕ → List A → List A
  drop zero xs = xs
  drop (suc n) [] = []
  drop (suc n) (x ∷ xs) = drop n xs

  abbrev pub any : (A → Bool) → List A → Bool
  any p [] = false
  any p (x ∷ xs) = p x || any p xs

  abbrev pub all : (A → Bool) → List A → Bool
  all p [] = true
  all p (x ∷ xs) = p x && all p xs

  -- `[x for x in xs if p(x)]`
  abbrev pub keep : (A → Bool) → List A → List A
  keep p [] = []
  keep p (x ∷ xs) = let rest = keep p xs in if p x then x ∷ rest else rest

  abbrev pub is_empty : List A → Bool
  is_empty [] = true
  is_empty (x ∷ xs) = false

  -- `xs[-1:]`
  abbrev pub last? : List A → Option A
  last? [] = none
  last? (x ∷ []) = some x
  last? (x ∷ y ∷ ys) = last? (y ∷ ys)

  pub keep-append : (p : A → Bool) (xs ys : List A) → keep p (xs ++ ys) ≡ keep p xs ++ keep p ys
  keep-append p [] ys = refl
  keep-append p (x ∷ xs) ys = ground (arith, keep-append p xs ys)

abbrev pub is_some {ℓ} : {A : Type ℓ} → Option A → Bool
is_some none = false
is_some (some a) = true

-- A predicate holds of every element.
abbrev pub All {ℓ κ} : {A : Type ℓ} → (A → Type κ) → List A → Type κ
All P [] = Unit
All P (x ∷ xs) = P x × All P xs

module _ {ℓ κ} {A : Type ℓ} (P : A → Type κ) where
  pub All-keep : (p : A → Bool) (xs : List A) → All P xs → All P (keep p xs)
  All-keep p [] h = tt
  All-keep p (x ∷ xs) (h, hs) =
      elim (p x) as (λ b. All P (if b then x ∷ keep p xs else keep p xs)) [
        | true ↦ (h, All-keep p xs hs)
        | false ↦ All-keep p xs hs
      ]

  pub All-map {μ} : (Q : A → Type μ) (xs : List A) → ((x : A) → P x → Q x) → All P xs → All Q xs
  All-map Q [] f h = tt
  All-map Q (x ∷ xs) f (h, hs) = (f x h, All-map Q xs f hs)

-- What a test keeps passes it.
pub All-keep_self {ℓ} :
    {A : Type ℓ} (p : A → Bool) (xs : List A) → All (λ x. p x ≡ true) (keep p xs)
All-keep_self p [] = tt
All-keep_self p (x ∷ xs) =
    let rest = All-keep_self p xs in
    (elim (p x) as (λ b. p x ≡ b → All (λ y. p y ≡ true) (if b then x ∷ keep p xs else keep p xs)) [
      | true ↦ λ e. (e, rest)
      | false ↦ λ e. rest
    ])
      refl

All-map_tail {ℓ} :
    {A : Type ℓ} (p : A → Bool) (x : A) (xs ys : List A)
    → All (λ y. (p y ≡ true) × Memᴰ y xs) ys
    → All (λ y. (p y ≡ true) × Memᴰ y (x ∷ xs)) ys
All-map_tail p x xs [] h = tt
All-map_tail p x xs (y ∷ ys) ((e, m), hs) = ((e, Memᴰ.tail m), All-map_tail p x xs ys hs)

-- What a test keeps passes it, and stands in the list.
pub All-keep_mem {ℓ} :
    {A : Type ℓ} (p : A → Bool) (xs : List A) → All (λ x. (p x ≡ true) × Memᴰ x xs) (keep p xs)
All-keep_mem p [] = tt
All-keep_mem p (x ∷ xs) =
    let rest = All-map_tail p x xs (keep p xs) (All-keep_mem p xs) in
    (elim (p x)
        as (λ b.
          p x ≡ b
          → All (λ y. (p y ≡ true) × Memᴰ y (x ∷ xs)) (if b then x ∷ keep p xs else keep p xs)) [
            | true ↦ λ e. ((e, Memᴰ.head refl), rest)
            | false ↦ λ e. rest
          ])
      refl

pub is_empty-true {ℓ} : {A : Type ℓ} (xs : List A) → is_empty xs ≡ true → xs ≡ []
is_empty-true [] h = refl
is_empty-true (x ∷ xs) h = cc

pub length-append {ℓ} : {A : Type ℓ} (xs ys : List A) → length (xs ++ ys) ≡ length xs + length ys
length-append [] ys = omega arith
length-append (x ∷ xs) ys = omega (arith, length-append xs ys)
