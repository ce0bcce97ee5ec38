-- ===== src/Base/Equality.antt =====
-- Python's `==` and `in`, for every type whose equality can be decided.
use Prim.Native.Nat.{ℕ}
use mathlib.Core.Path.{◌≡◌, refl, ap}
use mathlib.Core.Logic.{◌↔◌, ite, dite}
use mathlib.Core.Bool.{Bool, true, false, ◌||◌}
use mathlib.Core.Option.{Option, none, some, none-ne-some, some-ne-none, some-injective}
use mathlib.Core.List.{List, [], ◌∷◌}
use native.Mathlib.Decide.{ℕ_discrete}

-- A text is the list of its code points.
abbrev pub Text : Type 0
Text = List ℕ

pub record Eq {ℓ} (A : Type ℓ) : Type ℓ where
  pub dec : Discrete A

module _ {ℓ} {A : Type ℓ} ⦃e : Eq A⦄ where
  infix 50 ◌==◌
  abbrev pub ◌==◌ : A → A → Bool
  a == b = ite (e.dec a b) true false

  abbrev pub contains : List A → A → Bool
  contains [] a = false
  contains (x ∷ xs) a = a == x || contains xs a

  pub ==_iff : (a b : A) → ((a == b) ≡ true) ↔ (a ≡ b)
  ==_iff a b = elim (e.dec a b) as (λ d. (ite d true false ≡ true) ↔ (a ≡ b)) [
    | yes p ↦ (λ _. p, λ _. refl)
    | no n ↦ (λ q. cc, λ q. absurd (n q))
  ]

  pub ==_self : (a : A) → (a == a) ≡ true
  ==_self a = (==_iff a a).1 refl

  option_dec : Discrete (Option A)
  option_dec none none = yes refl
  option_dec none (some b) = no (none-ne-some b)
  option_dec (some a) none = no (some-ne-none a)
  option_dec (some a) (some b) =
      dite (e.dec a b) (λ p. yes (ap some p)) (λ n. no (λ p. n (some-injective a b p)))

  instance unfoldable pub option_eq : Eq (Option A)
  unfolding option_dec
  option_eq = record { dec = option_dec }

module _ {ℓ} {A : Type ℓ} (dec : Discrete A) where
  pub cons_injective : {x y : A} {xs ys : List A} → x ∷ xs ≡ y ∷ ys → (x ≡ y) × (xs ≡ ys)
  cons_injective p = (cc, cc)

  -- Equality of lists, from that of their elements.
  unfoldable pub list_dec : Discrete (List A)
  list_dec [] [] = yes refl
  list_dec [] (y ∷ ys) = no (λ p. cc)
  list_dec (x ∷ xs) [] = no (λ p. cc)
  list_dec (x ∷ xs) (y ∷ ys) =
      let rest = list_dec xs ys in
      dite (dec x y)
        (λ p. dite rest (λ q. yes (λ i. p i ∷ q i)) (λ n. no (λ q. n (cons_injective q).1)))
        (λ n. no (λ q. n (cons_injective q).0))

bool_dec : Discrete Bool
bool_dec = hlevel

instance unfoldable pub bool_eq : Eq Bool
unfolding bool_dec
bool_eq = record { dec = bool_dec }

instance unfoldable pub nat_eq : Eq ℕ
unfolding ℕ_discrete
nat_eq = record { dec = ℕ_discrete }

text_dec : Discrete Text
unfolding ℕ_discrete list_dec
text_dec = list_dec ℕ_discrete

instance unfoldable pub text_eq : Eq Text
unfolding text_dec
text_eq = record { dec = text_dec }
