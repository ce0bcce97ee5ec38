-- ===== src/Authority/Laws.antt =====
-- What an authorization guarantees: nothing proceeds without asking except on one exact target, by
-- a binding of its unit and its generation.
use codex_context_guard.Base.{
  ap, subst, ◌==◌, ==_iff, ℕ, ◌≡◌, ◌≢◌, ◌⊎◌, inl, inr, refl, sym, ◌∙◌, true, false, Option, none,
  some, List, [], ◌∷◌, Text, text_eq, nat_eq, option_eq, is_empty, is_empty-true, is_some, arith,
  All, Bool-cases, Option-cases,
}
use mathlib.Core.Option.{some-injective}
use codex_context_guard.Base.Decimal.{ℤ, pos, int_eq}
use codex_context_guard.Authority.Values.{Value}
use codex_context_guard.Authority.Fields.{Dict, lookup, covers, required_fields_for}
use codex_context_guard.Authority.Bind.{Status, status_eq, Target, target_eq, Binding, is_blank}
use codex_context_guard.Authority.Evaluate.{
  Request, or_blank, exact_text, expected, resolved_from, any_incomplete, bound_target,
  resolve_pending, same_target, compare_targets, evaluate_pending, evaluate_bound, evaluate_binding,
  evaluate_in, evaluate,
}

abbrev as_integer : Option ℕ → Option ℤ
as_integer none = none
as_integer (some n) = some (pos n)

-- The value of a field of the one current target: the bound one, or, for a field that the binding
-- left pending, the exact one that the request supplies.
pub IsExpected : Binding → Request → Target → Text → Type 0
IsExpected b request current field =
    ((lookup field b.pending ≡ none)
      × (or_blank (lookup field current) ≡ or_blank (lookup field (bound_target b.target))))
    ⊎ ((value : Text) × (lookup field b.pending ≢ none)
        × (exact_text (lookup field request.resolved_pending) ≡ some value)
        × (or_blank (lookup field current) ≡ value))

-- A binding that authorizes a request: it covers the action, is of the request's unit and generation,
-- no flag stands beside the action, every target of the request is precise, they are one and the same,
-- and it has the expected value in every field that the action requires.
pub record Authorizes (b : Binding) (request : Request) : Type 0 where
  pub covered : covers b.actions request.action ≡ true
  pub same_unit : b.work_unit_id ≡ request.work_unit_id
  pub same_generation : b.generation ≡ as_integer request.generation
  pub unit_given : is_some request.work_unit_id ≡ true
  pub generation_given : is_some request.generation ≡ true
  pub determined : b.status ≢ Status.requires_selection
  pub plain : request.flags ≡ []
  pub current : Target
  pub unique :
      resolved_from [] (required_fields_for (request.action ∷ [])) request.targets ≡ current ∷ []
  pub precise : any_incomplete (required_fields_for (request.action ∷ [])) request.targets ≡ false
  pub agrees : All (IsExpected b request current) (required_fields_for (request.action ∷ []))

-- What the pending fields resolve to.
resolve_pending-lookup :
    (supplied : Dict Value) (pending : Dict Text) (values : Dict Text) (field : Text)
    → resolve_pending supplied pending ≡ some values
    → ((lookup field pending ≡ none) × (lookup field values ≡ none))
      ⊎ ((value : Text) × (lookup field pending ≢ none)
          × (exact_text (lookup field supplied) ≡ some value)
          × (lookup field values ≡ some value))
unfolding resolve_pending lookup
resolve_pending-lookup supplied [] values field h =
    inl (refl, subst (λ v. lookup field v ≡ none) (some-injective [] values h) refl)
resolve_pending-lookup supplied ((f, source) ∷ rest) values field h =
    elim (Option-cases (exact_text (lookup f supplied))) [
      | inl nothing ↦ cc (rw nothing at h)
      | inr (t, exact) ↦ elim (Option-cases (resolve_pending supplied rest)) [
        | inl unresolved ↦ cc (rw (exact, unresolved) at h)
        | inr (others, found) ↦
            let same : (f, t) ∷ others ≡ values =
              some-injective _ values (rw (exact, found) at h) in
            elim (Bool-cases (field == f)) [
              | inl here ↦ inr (
                t,
                rw here (λ e. cc),
                rw ((==_iff field f).0 here) exact,
                subst (λ v. lookup field v ≡ some t) same (rw here refl),
              )
              | inr apart ↦
                  subst
                    (λ v.
                      ((lookup field ((f, source) ∷ rest) ≡ none) × (lookup field v ≡ none))
                      ⊎ ((value : Text) × (lookup field ((f, source) ∷ rest) ≢ none)
                          × (exact_text (lookup field supplied) ≡ some value)
                          × (lookup field v ≡ some value)))
                    same (rw apart (resolve_pending-lookup supplied rest others field found))
            ]
      ]
    ]

expected-none :
    (bound : Target) (values : Dict Text) (field : Text)
    → lookup field values ≡ none
    → expected bound values field ≡ or_blank (lookup field bound)
unfolding expected
expected-none bound values field e =
    ap (λ o. elim o [ none ↦ or_blank (lookup field bound) | some t ↦ t ]) e

expected-some :
    (bound : Target) (values : Dict Text) (field value : Text)
    → lookup field values ≡ some value
    → expected bound values field ≡ value
unfolding expected
expected-some bound values field value e =
    ap (λ o. elim o [ none ↦ or_blank (lookup field bound) | some t ↦ t ]) e

same_target-IsExpected :
    (b : Binding) (request : Request) (current : Target) (values : Dict Text) (required : List Text)
    → resolve_pending request.resolved_pending b.pending ≡ some values
    → same_target required current (bound_target b.target) values ≡ true
    → All (IsExpected b request current) required
unfolding same_target IsExpected
same_target-IsExpected b request current values [] resolved h = tt
same_target-IsExpected b request current values (f ∷ fields) resolved h =
    let agrees : or_blank (lookup f current) ≡ expected (bound_target b.target) values f =
      (==_iff (or_blank (lookup f current)) (expected (bound_target b.target) values f)).0
        (grind arith) in
    (
      elim (resolve_pending-lookup request.resolved_pending b.pending values f resolved) [
        | inl (fixed, absent) ↦
            inl (fixed, agrees ∙ expected-none (bound_target b.target) values f absent)
        | inr (value, pending, exact, given) ↦ inr (
          value,
          pending,
          exact,
          agrees ∙ expected-some (bound_target b.target) values f value given,
        )
      ],
      same_target-IsExpected b request current values fields resolved (grind arith),
    )

compare_parts :
    (required : List Text) (targets : List (Dict Value)) (bound : Target) (values : Dict Text)
    (resolved : List Target)
    → (compare_targets required targets bound values resolved).ask_user ≡ false
    → (current : Target) × (resolved ≡ current ∷ [])
      × (any_incomplete required targets ≡ false)
      × (same_target required current bound values ≡ true)
unfolding compare_targets
compare_parts required targets bound values [] h = cc
compare_parts required targets bound values (current ∷ []) h =
    (current, refl, ground arith, ground arith)
compare_parts required targets bound values (first ∷ second ∷ more) h = cc

pending_parts :
    (b : Binding) (request : Request) (o : Option (Dict Text))
    → (evaluate_pending b request o).ask_user ≡ false
    → (values : Dict Text) × (o ≡ some values)
      × (is_empty request.flags ≡ true)
      × ((compare_targets
            (required_fields_for (request.action ∷ []))
            request.targets
            (bound_target b.target)
            values
            (resolved_from [] (required_fields_for (request.action ∷ [])) request.targets)).ask_user
          ≡ false)
unfolding evaluate_pending
pending_parts b request none h = cc
pending_parts b request (some values) h = elim (Bool-cases (is_empty request.flags)) [
  | inl plain ↦ (values, refl, plain, rw plain at h)
  | inr flagged ↦ cc (rw flagged at h)
]

bound_parts :
    (b : Binding) (request : Request) (unit : Text) (generation : ℕ) (bu : Option Text)
    (bg : Option ℤ)
    → (evaluate_bound b request unit generation bu bg).ask_user ≡ false
    → (bu ≡ some unit)
      × (bg ≡ some (pos generation))
      × (b.status ≢ Status.requires_selection)
      × ((evaluate_pending b request (resolve_pending request.resolved_pending b.pending)).ask_user
          ≡ false)
unfolding evaluate_bound
bound_parts b request unit generation none bg h = cc
bound_parts b request unit generation (some u) none h = cc
bound_parts b request unit generation (some u) (some g) h = ground arith

binding_parts :
    (o : Option Binding) (request : Request) (unit : Text) (generation : ℕ)
    → (evaluate_binding o request unit generation).ask_user ≡ false
    → (b : Binding) × (o ≡ some b)
      × (covers b.actions request.action ≡ true)
      × ((evaluate_bound b request unit generation b.work_unit_id b.generation).ask_user ≡ false)
unfolding evaluate_binding
binding_parts none request unit generation h = cc
binding_parts (some b) request unit generation h =
    elim (Bool-cases (covers b.actions request.action)) [
      | inl covered ↦ (b, refl, covered, rw covered at h)
      | inr other ↦ cc (rw other at h)
    ]

in_parts :
    (o : Option Binding) (request : Request) (unit : Option Text) (generation : Option ℕ)
    → (evaluate_in o request unit generation).ask_user ≡ false
    → (u : Text) × (g : ℕ) × (unit ≡ some u)
      × (generation ≡ some g)
      × ((evaluate_binding o request u g).ask_user ≡ false)
unfolding evaluate_in
in_parts o request none generation h = cc
in_parts o request (some u) none h = cc
in_parts o request (some u) (some g) h = elim (Bool-cases (is_blank u)) [
  | inl blank ↦ cc (rw blank at h)
  | inr given ↦ (u, g, refl, refl, rw given at h)
]

-- No action proceeds without asking unless a binding authorizes it: of the same unit and the same
-- generation, covering the action, without flags, and on one precise target, which has in every field
-- that the action requires the bound value, or, where the binding left the field pending, the exact
-- value that the request supplies for it. An action that requires no field may have any target.
pub evaluate-Authorizes :
    (binding : Option Binding) (request : Request)
    → (evaluate binding request).ask_user ≡ false
    → (b : Binding) × (binding ≡ some b) × Authorizes b request
unfolding evaluate
evaluate-Authorizes binding request h =
    let (u, g, unit, generation, h₁) =
      in_parts binding request request.work_unit_id request.generation h in
    let (b, found, covered, h₂) = binding_parts binding request u g h₁ in
    let (same_unit, same_generation, determined, h₃) =
      bound_parts b request u g b.work_unit_id b.generation h₂ in
    let (values, resolved, plain, h₄) =
      pending_parts b request (resolve_pending request.resolved_pending b.pending) h₃ in
    let (current, unique, precise, agrees) =
      compare_parts (required_fields_for (request.action ∷ [])) request.targets
        (bound_target b.target) values
        (resolved_from [] (required_fields_for (request.action ∷ [])) request.targets) h₄ in
    (
      b,
      found,
      record {
        covered = covered;
        same_unit = same_unit ∙ sym unit;
        same_generation = same_generation ∙ sym (ap as_integer generation);
        unit_given = rw unit refl;
        generation_given = rw generation refl;
        determined = determined;
        plain = is_empty-true request.flags plain;
        current = current;
        unique = unique;
        precise = precise;
        agrees =
            same_target-IsExpected b request current values
              (required_fields_for (request.action ∷ [])) resolved agrees;
      },
    )
