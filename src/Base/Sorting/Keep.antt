-- ===== src/Base/Sorting/Keep.antt =====
-- Filtering commutes with the stable sort, for an order that is total and transitive.
use mathlib.Core.Path.{◌≡◌, refl, ap, ◌∙◌}
use mathlib.Core.Logic.{◌⊎◌, inl, inr}
use mathlib.Core.Bool.{Bool, true, false}
use mathlib.Core.List.{List, [], ◌∷◌}
use native.Mathlib.Omega.{arith}
use codex_context_guard.Base.Tests.{if◌then◌else◌, Bool-cases}
use codex_context_guard.Base.Lists.{All, All-map, All-keep, keep}
use codex_context_guard.Base.Equality.{Text, nat_eq, text_eq}
use codex_context_guard.Base.Sorting.{insert, sort}
use codex_context_guard.Base.Texts.{text_leb}

pub record IsOrder {A : Type 0} (before : A → A → Bool) : Type 0 where
  pub total : (a b : A) → (before a b ≡ true) ⊎ (before b a ≡ true)
  pub trans : (a b c : A) → before a b ≡ true → before b c ≡ true → before a c ≡ true

module _ {A : Type 0} (before : A → A → Bool) (order : IsOrder before) where
  abbrev pub Sorted : List A → Type 0
  Sorted [] = Unit
  Sorted (x ∷ xs) = All (λ y. before x y ≡ true) xs × Sorted xs

  insert-All_to :
      (P : A → Type 0) (x : A) (ys : List A) → P x → All P ys → All P (insert before x ys)
  unfolding insert
  insert-All_to P x [] h hs = (h, hs)
  insert-All_to P x (y ∷ ys) h (hy, hs) = elim (Bool-cases (before x y)) [
    | inl first ↦ rw first (h, (hy, hs))
    | inr later ↦ rw later (hy, insert-All_to P x ys h hs)
  ]

  behind : (x y : A) → before x y ≡ false → before y x ≡ true
  behind x y h = elim (order.total x y) [ inl e ↦ cc | inr e ↦ e ]

  insert-Sorted : (x : A) (ys : List A) → Sorted ys → Sorted (insert before x ys)
  unfolding insert
  insert-Sorted x [] h = (tt, h)
  insert-Sorted x (y ∷ ys) (least, h) = elim (Bool-cases (before x y)) [
    | inl first ↦ rw first (
      (
        first,
        All-map (λ z. before y z ≡ true) (λ z. before x z ≡ true) ys
            (λ z p. order.trans x y z first p) least,
      ),
      (least, h),
    )
    | inr later ↦
        rw later (
          insert-All_to (λ z. before y z ≡ true) x ys (behind x y later) least,
          insert-Sorted x ys h,
        )
  ]

  pub sort-Sorted : (xs : List A) → Sorted (sort before xs)
  unfolding sort
  sort-Sorted [] = tt
  sort-Sorted (x ∷ xs) = insert-Sorted x (sort before xs) (sort-Sorted xs)

  pub sort-All_to : (P : A → Type 0) (xs : List A) → All P xs → All P (sort before xs)
  unfolding sort
  sort-All_to P [] h = h
  sort-All_to P (x ∷ xs) (h, hs) = insert-All_to P x (sort before xs) h (sort-All_to P xs hs)

  insert_first :
      (x : A) (zs : List A) → All (λ z. before x z ≡ true) zs → insert before x zs ≡ x ∷ zs
  unfolding insert
  insert_first x [] h = refl
  insert_first x (z ∷ zs) (h, _) = rw h

  keep-insert :
      (p : A → Bool) (x : A) (ys : List A)
      → Sorted ys
      → keep p (insert before x ys) ≡ (if p x then insert before x (keep p ys) else keep p ys)
  unfolding insert
  keep-insert p x [] h = refl
  keep-insert p x (y ∷ ys) (least, h) = elim (Bool-cases (before x y)) [
    | inl first ↦
        let below =
          All-keep (λ z. before x z ≡ true) p (y ∷ ys)
            (
              first,
              All-map (λ z. before y z ≡ true) (λ z. before x z ≡ true) ys
                  (λ z q. order.trans x y z first q) least,
            ) in
        rw (first, insert_first x (keep p (y ∷ ys)) below)
    | inr later ↦ rw later (ground (arith, keep-insert p x ys h))
  ]

  -- The rows that a test keeps stand in the same order, sorted before or after.
  pub keep-sort : (p : A → Bool) (xs : List A) → keep p (sort before xs) ≡ sort before (keep p xs)
  unfolding sort
  keep-sort p [] = refl
  keep-sort p (x ∷ xs) =
      keep-insert p x (sort before xs) (sort-Sorted xs)
      ∙ (elim (p x)
          as (λ b.
            (if b then insert before x (keep p (sort before xs)) else keep p (sort before xs))
            ≡ sort before (if b then x ∷ keep p xs else keep p xs)) [
              | true ↦ ap (insert before x) (keep-sort p xs)
              | false ↦ keep-sort p xs
            ])

text_leb_total : (s t : Text) → (text_leb s t ≡ true) ⊎ (text_leb t s ≡ true)
unfolding text_leb
text_leb_total [] t = inl refl
text_leb_total (c ∷ s) [] = inr refl
text_leb_total (c ∷ s) (d ∷ t) = ground (arith, text_leb_total s t)

text_leb_trans : (s t u : Text) → text_leb s t ≡ true → text_leb t u ≡ true → text_leb s u ≡ true
unfolding text_leb
text_leb_trans [] t u h k = refl
text_leb_trans (c ∷ s) [] u h k = cc
text_leb_trans (c ∷ s) (d ∷ t) [] h k = cc
text_leb_trans (c ∷ s) (d ∷ t) (e ∷ u) h k = ground (arith, text_leb_trans s t u)

pub text_leb-IsOrder : IsOrder text_leb
text_leb-IsOrder = record { total = text_leb_total; trans = text_leb_trans }
