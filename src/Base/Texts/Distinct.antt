-- ===== src/Base/Texts/Distinct.antt =====
-- Texts without repetition, and the order of texts.
use Prim.Native.Nat.{◌≤◌}
use mathlib.Core.Path.{◌≡◌, refl, ◌∙◌}
use mathlib.Core.Bool.{Bool, true, not, ◌&&◌, ◌||◌}
use mathlib.Core.List.{List, [], ◌∷◌, ◌++◌, Permᴰ}
use native.Mathlib.Omega.{arith}
use codex_context_guard.Base.Lists.{length}
use codex_context_guard.Base.Equality.{Text, ◌==◌, contains, nat_eq, text_eq}
use codex_context_guard.Base.Texts.{text_leb, unique}

-- Each text once.
abbrev pub distinct : List Text → Bool
distinct [] = true
distinct (t ∷ ts) = not (contains ts t) && distinct ts

length-unique-le : (ts : List Text) → length (unique ts) ≤ length ts
unfolding unique
length-unique-le [] = omega arith
length-unique-le (t ∷ ts) = ground (arith, length-unique-le ts)

-- A list is as long as its set where no text is repeated.
pub length-unique-distinct : (ts : List Text) → (length ts == length (unique ts)) ≡ distinct ts
unfolding unique
length-unique-distinct [] = unfold nat_eq in refl
length-unique-distinct (t ∷ ts) = ground (arith, length-unique-le ts, length-unique-distinct ts)

contains_swap : (a x y : Text) (l : List Text) → contains (x ∷ y ∷ l) a ≡ contains (y ∷ x ∷ l) a
contains_swap a x y l = ground arith

distinct_swap : (x y : Text) (l : List Text) → distinct (x ∷ y ∷ l) ≡ distinct (y ∷ x ∷ l)
distinct_swap x y l = ground arith

pub contains-Permᴰ : {xs ys : List Text} (a : Text) → Permᴰ xs ys → contains xs a ≡ contains ys a
contains-Permᴰ a Permᴰ.nil = refl
contains-Permᴰ a (Permᴰ.cons e p) = cc (e, contains-Permᴰ a p)
contains-Permᴰ a (Permᴰ.swap {a = x} {b = y} {l = l} e d) = contains_swap a x y l ∙ cc (e, d)
contains-Permᴰ a (Permᴰ.trans p q) = contains-Permᴰ a p ∙ contains-Permᴰ a q

pub distinct-Permᴰ : {xs ys : List Text} → Permᴰ xs ys → distinct xs ≡ distinct ys
distinct-Permᴰ Permᴰ.nil = refl
distinct-Permᴰ (Permᴰ.cons e p) = cc (e, contains-Permᴰ _ p, distinct-Permᴰ p)
distinct-Permᴰ (Permᴰ.swap {a = x} {b = y} {l = l} e d) = distinct_swap x y l ∙ cc (e, d)
distinct-Permᴰ (Permᴰ.trans p q) = distinct-Permᴰ p ∙ distinct-Permᴰ q

pub text_leb_antisym : (s t : Text) → text_leb s t ≡ true → text_leb t s ≡ true → s ≡ t
unfolding text_leb
text_leb_antisym [] [] h k = refl
text_leb_antisym [] (d ∷ t) h k = cc
text_leb_antisym (c ∷ s) [] h k = cc
text_leb_antisym (c ∷ s) (d ∷ t) h k = ground (arith, text_leb_antisym s t)

pub contains-append :
    (xs ys : List Text) (k : Text) → contains (xs ++ ys) k ≡ (contains xs k || contains ys k)
contains-append [] ys k = refl
contains-append (x ∷ xs) ys k = ground (arith, contains-append xs ys k)
