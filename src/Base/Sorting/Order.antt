-- ===== src/Base/Sorting/Order.antt =====
-- Sorting forgets the order of its rows: lists with the same rows are sorted to the same list.
use mathlib.Core.Path.{◌≡◌, refl, sym, subst, ◌∙◌}
use mathlib.Core.Logic.{inl, inr}
use mathlib.Core.Bool.{Bool, true}
use mathlib.Core.List.{List, [], ◌∷◌, Memᴰ}
use mathlib.Core.List.{Permᴰ}
use mathlib.Core.List.Permᴰ
use native.Mathlib.Omega.{arith}
use codex_context_guard.Base.Tests.{Bool-cases}
use codex_context_guard.Base.Sorting.{insert, sort}
use codex_context_guard.Base.Sorting.Keep.{IsOrder}

module _ {A : Type 0} (before : A → A → Bool) (order : IsOrder before) where
  -- Two rows that stand before each other are one.
  abbrev Apart : A → A → Type 0
  Apart x y = before x y ≡ true → before y x ≡ true → x ≡ y

  insert_swap :
      (x y : A) (zs : List A)
      → Apart x y
      → insert before x (insert before y zs) ≡ insert before y (insert before x zs)
  unfolding insert
  insert_swap x y [] apart = ground (arith, order.total x y, apart)
  insert_swap x y (z ∷ zs) apart = ground (
    arith,
    order.total x y,
    order.trans x y z,
    order.trans y x z,
    order.trans x z y,
    order.trans y z x,
    insert_swap x y zs apart,
    apart,
  )

  perm_mem : {a : A} {xs ys : List A} → Permᴰ xs ys → Memᴰ a ys → Memᴰ a xs
  perm_mem Permᴰ.nil m = elim m [ ]
  perm_mem (Permᴰ.cons e p) (Memᴰ.head q) = Memᴰ.head (q ∙ sym e)
  perm_mem (Permᴰ.cons e p) (Memᴰ.tail m) = Memᴰ.tail (perm_mem p m)
  perm_mem (Permᴰ.swap e d) (Memᴰ.head q) = Memᴰ.tail (Memᴰ.head (q ∙ sym d))
  perm_mem (Permᴰ.swap e d) (Memᴰ.tail (Memᴰ.head q)) = Memᴰ.head (q ∙ sym e)
  perm_mem (Permᴰ.swap e d) (Memᴰ.tail (Memᴰ.tail m)) = Memᴰ.tail (Memᴰ.tail m)
  perm_mem (Permᴰ.trans p q) m = perm_mem p (perm_mem q m)

  -- Rows that no other row ties with.
  abbrev pub AllApart : List A → Type 0
  AllApart xs = (x y : A) → Memᴰ x xs → Memᴰ y xs → Apart x y

  -- The sorted list depends on the rows only, not on their order.
  pub sort-Permᴰ : {xs ys : List A} → Permᴰ xs ys → AllApart xs → sort before xs ≡ sort before ys
  unfolding sort
  sort-Permᴰ Permᴰ.nil apart = refl
  sort-Permᴰ (Permᴰ.cons e p) apart =
      cc (e, sort-Permᴰ p (λ x y m n. apart x y (Memᴰ.tail m) (Memᴰ.tail n)))
  sort-Permᴰ (Permᴰ.swap {a = a} {b = b} {l = l} e d) apart =
      insert_swap a b (sort before l) (apart a b (Memᴰ.head refl) (Memᴰ.tail (Memᴰ.head refl)))
      ∙ cc (e, d)
  sort-Permᴰ (Permᴰ.trans p q) apart =
      sort-Permᴰ p apart ∙ sort-Permᴰ q (λ x y m n. apart x y (perm_mem p m) (perm_mem p n))

  insert-Permᴰ : (x : A) (ys : List A) → Permᴰ (x ∷ ys) (insert before x ys)
  unfolding insert
  insert-Permᴰ x [] = Permᴰ.refl (x ∷ [])
  insert-Permᴰ x (y ∷ ys) = elim (Bool-cases (before x y)) [
    | inl first ↦ rw first (Permᴰ.refl (x ∷ y ∷ ys))
    | inr later ↦
        rw later (Permᴰ.trans (Permᴰ.swap refl refl) (Permᴰ.cons refl (insert-Permᴰ x ys)))
  ]

  -- The sorted list has the rows of the list.
  pub sort_permutes : (xs : List A) → Permᴰ xs (sort before xs)
  unfolding sort
  sort_permutes [] = Permᴰ.nil
  sort_permutes (x ∷ xs) =
      Permᴰ.trans (Permᴰ.cons refl (sort_permutes xs)) (insert-Permᴰ x (sort before xs))

  pub sort_unique : (xs ys : List A) → sort before xs ≡ sort before ys → Permᴰ xs ys
  sort_unique xs ys e =
      Permᴰ.trans (sort_permutes xs)
        (subst (λ zs. Permᴰ zs ys) (sym e) (Permᴰ.symm (sort_permutes ys)))
