-- ===== src/Base/Sorting/Keyed.antt =====
-- Rows with distinct keys, sorted by their keys.
use mathlib.Core.Path.{◌≡◌, ap, sym, subst, ◌∙◌}
use mathlib.Core.Bool.{true}
use mathlib.Core.List.{List, [], ◌∷◌, map, Memᴰ, Permᴰ}
use native.Mathlib.Omega.{arith}
use codex_context_guard.Base.Lists.{All}
use codex_context_guard.Base.Equality.{Text, text_eq, ==_iff, contains}
use codex_context_guard.Base.Texts.{text_leb}
use codex_context_guard.Base.Texts.Distinct.{distinct, text_leb_antisym}
use codex_context_guard.Base.Sorting.{sort}
use codex_context_guard.Base.Sorting.Keep.{IsOrder, text_leb-IsOrder}
use codex_context_guard.Base.Sorting.Order.{sort-Permᴰ}

module _ {A : Type 0} where
  pub All-Permᴰ : (P : A → Type 0) {xs ys : List A} → Permᴰ xs ys → All P xs → All P ys
  All-Permᴰ P Permᴰ.nil h = h
  All-Permᴰ P (Permᴰ.cons e p) (h, hs) = (subst P e h, All-Permᴰ P p hs)
  All-Permᴰ P (Permᴰ.swap e d) (h, (k, hs)) = (subst P d k, (subst P e h, hs))
  All-Permᴰ P (Permᴰ.trans p q) h = All-Permᴰ P q (All-Permᴰ P p h)

  pub map-Permᴰ : (f : A → Text) {xs ys : List A} → Permᴰ xs ys → Permᴰ (map f xs) (map f ys)
  map-Permᴰ f Permᴰ.nil = Permᴰ.nil
  map-Permᴰ f (Permᴰ.cons e p) = Permᴰ.cons (ap f e) (map-Permᴰ f p)
  map-Permᴰ f (Permᴰ.swap e d) = Permᴰ.swap (ap f e) (ap f d)
  map-Permᴰ f (Permᴰ.trans p q) = Permᴰ.trans (map-Permᴰ f p) (map-Permᴰ f q)

module _ {A : Type 0} (key : A → Text) where
  contains-key :
      (rows : List A) {row : A} → Memᴰ row rows → contains (map key rows) (key row) ≡ true
  contains-key [] m = elim m [ ]
  contains-key (first ∷ rows) {row} (Memᴰ.head e) =
      ground (arith, (==_iff (key row) (key first)).1 (ap key e))
  contains-key (first ∷ rows) (Memᴰ.tail m) = ground (arith, contains-key rows m)

  clash :
      (rows : List A) (row other : A)
      → distinct (map key (row ∷ rows)) ≡ true
      → Memᴰ other rows
      → key row ≡ key other
      → ⊥
  clash rows row other d m same =
      ground (arith, subst (λ k. contains (map key rows) k ≡ true) (sym same) (contains-key rows m))

  one_row :
      (rows : List A) (x y : A)
      → distinct (map key rows) ≡ true
      → Memᴰ x rows
      → Memᴰ y rows
      → key x ≡ key y
      → x ≡ y
  one_row [] x y d m n same = elim m [ ]
  one_row (row ∷ rows) x y d (Memᴰ.head e) (Memᴰ.head e') same = e ∙ sym e'
  one_row (row ∷ rows) x y d (Memᴰ.head e) (Memᴰ.tail m) same =
      absurd (clash rows row y d m (ap key (sym e) ∙ same))
  one_row (row ∷ rows) x y d (Memᴰ.tail m) (Memᴰ.head e) same =
      absurd (clash rows row x d m (ap key (sym e) ∙ sym same))
  one_row (row ∷ rows) x y d (Memᴰ.tail m) (Memᴰ.tail m') same =
      one_row rows x y (ground arith) m m' same

  pub keyed-IsOrder : IsOrder (λ a b. text_leb (key a) (key b))
  keyed-IsOrder = record {
    total = λ a b. text_leb-IsOrder.total (key a) (key b);
    trans = λ a b c. text_leb-IsOrder.trans (key a) (key b) (key c);
  }

  -- Rows with distinct keys are sorted to one list, in whatever order they come.
  pub sort-keys :
      {xs ys : List A}
      → Permᴰ xs ys
      → distinct (map key xs) ≡ true
      → sort (λ a b. text_leb (key a) (key b)) xs ≡ sort (λ a b. text_leb (key a) (key b)) ys
  sort-keys {xs} p d =
      sort-Permᴰ (λ a b. text_leb (key a) (key b)) keyed-IsOrder p
        (λ x y m n h k. one_row xs x y d m n (text_leb_antisym (key x) (key y) h k))
