-- ===== src/Base/Sorting.antt =====
-- `sorted(rows, key=...)`: a stable sort by an order on the rows.
pub mod Keep
pub mod Order
pub mod Keyed
use mathlib.Core.Logic.{inl, inr}
use Prim.Native.Nat.{ℕ, ◌≤◌}
use mathlib.Core.Path.{◌≡◌, refl, ap, subst}
use mathlib.Core.Option
use mathlib.Core.Option.{some, some-injective}
use mathlib.Core.List.{Memᴰ}
use native.Mathlib.Nat.{le_trans}
use native.Mathlib.Omega.{arith}
use codex_context_guard.Base.Tests.{if◌then◌else◌, Bool-cases, leb, leb→le}
use codex_context_guard.Base.Lists.{All, All-map, last?}
use mathlib.Core.Bool.{Bool, true, false}
use mathlib.Core.List.{List, [], ◌∷◌}

module _ {A : Type 0} (before : A → A → Bool) where
  -- Before the first row that does not stand before it.
  unfoldable pub insert : A → List A → List A
  insert x [] = x ∷ []
  insert x (y ∷ ys) = let rest = insert x ys in if before x y then x ∷ y ∷ ys else y ∷ rest

  insert-All : (P : A → Type 0) (x : A) (ys : List A) → All P (insert x ys) → P x × All P ys
  unfolding insert
  insert-All P x [] h = h
  insert-All P x (y ∷ ys) h = elim (Bool-cases (before x y)) [
    | inl first ↦ rw first at h
    | inr later ↦
        let (hy, rest) = rw later at h in let (hx, hys) = insert-All P x ys rest in (hx, (hy, hys))
  ]

  unfoldable pub sort : List A → List A
  unfolding insert
  sort [] = []
  sort (x ∷ xs) = insert x (sort xs)

module _ {A : Type 0} (P : A → Type 0) (before : A → A → Bool) where
  -- What holds of every row of the sorted list holds of every row.
  pub sort-All : (xs : List A) → All P (sort before xs) → All P xs
  unfolding sort
  sort-All [] h = tt
  sort-All (x ∷ xs) h =
      let (hx, rest) = insert-All before P x (sort before xs) h in (hx, sort-All xs rest)

last-All : {A : Type 0} (P : A → Type 0) (xs : List A) {m : A} → last? xs ≡ some m → All P xs → P m
last-All P [] e h = cc
last-All P (x ∷ []) e (h, _) = subst P (some-injective _ _ e) h
last-All P (x ∷ y ∷ ys) e (_, h) = last-All P (y ∷ ys) e h

pub All-Memᴰ :
    {A : Type 0} (xs ys : List A) → ((x : A) → Memᴰ x ys → Memᴰ x xs) → All (λ y. Memᴰ y xs) ys
All-Memᴰ xs [] f = tt
All-Memᴰ xs (y ∷ ys) f = (f y (Memᴰ.head refl), All-Memᴰ xs ys (λ x m. f x (Memᴰ.tail m)))

-- Rows sorted by a number.
module _ {A : Type 0} (seq : A → ℕ) where
  abbrev by : A → A → Bool
  by a b = leb (seq a) (seq b)

  abbrev Ascending : List A → Type 0
  Ascending [] = Unit
  Ascending (x ∷ xs) = All (λ y. seq x ≤ seq y) xs × Ascending xs

  insert-All_to : (P : A → Type 0) (x : A) (ys : List A) → P x → All P ys → All P (insert by x ys)
  unfolding insert
  insert-All_to P x [] h hs = (h, hs)
  insert-All_to P x (y ∷ ys) h (hy, hs) = elim (Bool-cases (by x y)) [
    | inl first ↦ rw first (h, (hy, hs))
    | inr later ↦ rw later (hy, insert-All_to P x ys h hs)
  ]

  sort-All_to : (P : A → Type 0) (xs : List A) → All P xs → All P (sort by xs)
  unfolding sort
  sort-All_to P [] h = h
  sort-All_to P (x ∷ xs) (h, hs) = insert-All_to P x (sort by xs) h (sort-All_to P xs hs)

  insert-Ascending : (x : A) (ys : List A) → Ascending ys → Ascending (insert by x ys)
  unfolding insert
  insert-Ascending x [] h = (tt, h)
  insert-Ascending x (y ∷ ys) (least, h) = elim (Bool-cases (by x y)) [
    | inl first ↦
        let below : seq x ≤ seq y = leb→le (seq x) (seq y) first in
        rw first (
          (
            below,
            All-map (λ z. seq y ≤ seq z) (λ z. seq x ≤ seq z) ys (λ z p. le_trans below p) least,
          ),
          (least, h),
        )
    | inr later ↦
        rw later
          (insert-All_to (λ z. seq y ≤ seq z) x ys (ground arith) least, insert-Ascending x ys h)
  ]

  sort-Ascending : (xs : List A) → Ascending (sort by xs)
  unfolding sort
  sort-Ascending [] = tt
  sort-Ascending (x ∷ xs) = insert-Ascending x (sort by xs) (sort-Ascending xs)

  last-Ascending :
      (xs : List A) {m : A} → last? xs ≡ some m → Ascending xs → All (λ x. seq x ≤ seq m) xs
  last-Ascending [] e h = tt
  last-Ascending (x ∷ []) e h = (ground (arith, ap (Option.map seq) e), tt)
  last-Ascending (x ∷ y ∷ ys) e ((below, _), h) =
      let (hy, rest) = last-Ascending (y ∷ ys) e h in (le_trans below hy, (hy, rest))

  -- The last row of the sorted list is one of the rows, and none has a greater number.
  pub last-sort :
      (xs : List A) {m : A} → last? (sort by xs) ≡ some m → Memᴰ m xs × All (λ x. seq x ≤ seq m) xs
  last-sort xs e = (
    last-All (λ x. Memᴰ x xs) (sort by xs) e
        (sort-All_to (λ x. Memᴰ x xs) xs (All-Memᴰ xs xs (λ x m. m))),
    sort-All (λ x. seq x ≤ _) by xs (last-Ascending (sort by xs) e (sort-Ascending xs)),
  )
