-- ===== src/Authority/Bind/Laws.antt =====
-- Normalized targets, and the binding that one exact target makes.
use mathlib.Core.Path.{subst}
use codex_context_guard.Base.{
  ℕ, ◌≡◌, inl, inr, refl, sym, ap, ◌∙◌, true, false, Option, none, some, List, [], ◌∷◌, Text,
  text_eq, nat_eq, option_eq, ◌==◌, contains, is_empty, arith, All, Bool-cases,
}
use codex_context_guard.Base.Texts.{sorted_set}
use codex_context_guard.Base.Sorting.{sort}
use codex_context_guard.Base.Decimal.{pos, int_eq}
use codex_context_guard.Authority.Values.{Value}
use codex_context_guard.Authority.Fields.{Dict, lookup, required_fields_for}
use codex_context_guard.Authority.Bind.{
  Status, status_eq, Target, target_eq, normalize_target, exact_value, with_field, Binding,
  is_blank, bind_valid, bind_targets, normalized_from, exact_required, pending_valid,
  bind_authorization,
}

with_field-some :
    (g : Text) (o : Option Text) (p : Option Target) {n : Target}
    → with_field g o p ≡ some n
    → (t : Text) × (m : Target) × (o ≡ some t) × (p ≡ some m) × ((g, t) ∷ m ≡ n)
with_field-some g none p h = cc
with_field-some g (some t) none h = cc
with_field-some g (some t) (some m) h = (t, m, refl, refl, ground arith)

-- A normalized target has in each required field its exact value.
lookup-normalized :
    (target : Dict Value) (required : List Text) (n : Target) (f : Text)
    → normalize_target target required ≡ some n
    → contains required f ≡ true
    → (t : Text) × (lookup f n ≡ some t) × (exact_value f (lookup f target) ≡ some t)
unfolding normalize_target lookup
lookup-normalized target [] n f h k = cc
lookup-normalized target (g ∷ rest) n f h k =
    let (t, m, exact, others, e) =
      with_field-some g (exact_value g (lookup g target)) (normalize_target target rest) h in
    elim (Bool-cases (f == g)) [
      | inl here ↦
          let same : f ≡ g = ground arith in
          (t, subst (λ q. lookup f q ≡ some t) e (rw here refl), rw same exact)
      | inr later ↦
          let (u, found, exact') = lookup-normalized target rest m f others (rw later at k) in
          (u, subst (λ q. lookup f q ≡ some u) e (rw later found), exact')
    ]

-- A target that is precise for some fields is precise for any of them, with the same values.
pub normalize_target-sub :
    (target : Dict Value) (required some_of : List Text) (n : Target)
    → normalize_target target required ≡ some n
    → All (λ f. contains required f ≡ true) some_of
    → (m : Target) × (normalize_target target some_of ≡ some m)
unfolding normalize_target
normalize_target-sub target required [] n h all_in = ([], refl)
normalize_target-sub target required (f ∷ rest) n h (one, later) =
    let (m, others) = normalize_target-sub target required rest n h later in
    let (t, _, exact) = lookup-normalized target required n f h one in
    ((f, t) ∷ m, rw (exact, others) refl)

-- So both have the same value in each of them.
pub lookup_agree :
    (target : Dict Value) (required some_of : List Text) (n m : Target) (f : Text)
    → normalize_target target required ≡ some n
    → normalize_target target some_of ≡ some m
    → contains required f ≡ true
    → contains some_of f ≡ true
    → lookup f m ≡ lookup f n
lookup_agree target required some_of n m f h k a b =
    let (t, found, exact) = lookup-normalized target required n f h a in
    let (u, found', exact') = lookup-normalized target some_of m f k b in
    found' ∙ sym exact' ∙ exact ∙ sym found

exact_required_nil : (required : List Text) → exact_required required [] ≡ required
unfolding exact_required lookup
exact_required_nil [] = refl
exact_required_nil (f ∷ rest) = ap (λ r. f ∷ r) (exact_required_nil rest)

-- The binding of a unique target.
abbrev pub bound_to : List Text → Text → ℕ → Target → Binding
bound_to actions unit generation target = record {
  actions = actions;
  required_fields = required_fields_for actions;
  work_unit_id = some unit;
  generation = some (pos generation);
  pending = [];
  status = Status.authorized_unique;
  target = some target;
  candidates = [];
  reason_code = none;
}

normalized_from_one :
    (target : Dict Value) (required : List Text) (n : Target)
    → normalize_target target required ≡ some n
    → normalized_from [] required (target ∷ []) ≡ some (n ∷ [])
unfolding normalized_from
normalized_from_one target required n precise = rw (normalized_from, precise) refl

bind_valid_one :
    (actions : List Text) (target : Dict Value) (n : Target) (unit : Text) (generation : ℕ)
    → is_empty (required_fields_for actions) ≡ false
    → normalize_target target (required_fields_for actions) ≡ some n
    → bind_valid actions (target ∷ []) unit generation [] ≡ bound_to actions unit generation n
unfolding bind_valid bind_targets
bind_valid_one actions target n unit generation some_required precise =
    rw
      (
        exact_required_nil (required_fields_for actions),
        some_required,
        normalized_from_one target (required_fields_for actions) n precise,
      )
      refl

pub bind_one :
    (actions : List Text) (target : Dict Value) (n : Target) (unit : Text) (generation : ℕ)
    → is_blank unit ≡ false
    → is_empty (required_fields_for (sorted_set actions)) ≡ false
    → normalize_target target (required_fields_for (sorted_set actions)) ≡ some n
    → bind_authorization actions (target ∷ []) (some unit) (some generation) none
      ≡ bound_to (sorted_set actions) unit generation n
unfolding bind_authorization pending_valid sort
bind_one actions target n unit generation given some_required precise =
    rw given (bind_valid_one (sorted_set actions) target n unit generation some_required precise)
