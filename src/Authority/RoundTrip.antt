-- ===== src/Authority/RoundTrip.antt =====
-- A binding made from one exact target authorizes each of its own actions on that target.
use codex_context_guard.Base.{
  ℕ, ◌≡◌, refl, ◌∙◌, true, false, none, some, List, [], ◌∷◌, Text, text_eq, nat_eq, option_eq,
  contains, ==_self, is_empty, arith, All, All-map,
}
use codex_context_guard.Base.Texts.{sorted_set}
use codex_context_guard.Base.Decimal.{pos, int_eq}
use codex_context_guard.Authority.Values.{Value}
use codex_context_guard.Authority.Fields.{Dict, lookup, covers, required_fields_for}
use codex_context_guard.Authority.Bind.{
  Status, status_eq, Reason, Target, target_eq, normalize_target, is_blank, bind_authorization,
}
use codex_context_guard.Authority.Evaluate.{
  Decision, Request, resolved_from, any_incomplete, same_target, compare_targets, evaluate_pending,
  evaluate_bound, evaluate_binding, evaluate_in, evaluate, resolve_pending, expected, or_blank,
}
use codex_context_guard.Authority.Fields.Laws.{required_fields_for_mono, contains-sorted_set}
use codex_context_guard.Authority.Bind.Laws.{normalize_target-sub, lookup_agree, bound_to, bind_one}

same_target-All :
    (current bound : Target) (required : List Text)
    → All (λ f. lookup f current ≡ lookup f bound) required
    → same_target required current bound [] ≡ true
unfolding same_target expected lookup
same_target-All current bound [] h = refl
same_target-All current bound (f ∷ rest) (one, later) =
    rw (one, ==_self (or_blank (lookup f bound))) (same_target-All current bound rest later)

resolved_from_one :
    (target : Dict Value) (required : List Text) (n : Target)
    → normalize_target target required ≡ some n
    → resolved_from [] required (target ∷ []) ≡ n ∷ []
unfolding resolved_from
resolved_from_one target required n precise = rw (resolved_from, precise) refl

any_incomplete_one :
    (target : Dict Value) (required : List Text) (n : Target)
    → normalize_target target required ≡ some n
    → any_incomplete required (target ∷ []) ≡ false
unfolding any_incomplete
any_incomplete_one target required n precise = rw precise refl

abbrev pub plain_request : Text → Dict Value → Text → ℕ → Request
plain_request action target unit generation = record {
  action = action;
  targets = target ∷ [];
  work_unit_id = some unit;
  generation = some generation;
  flags = [];
  resolved_pending = [];
}

abbrev pub granted : Target → Decision
granted target = record {
  status = Status.authorized_unique;
  ask_user = false;
  reason_code = Reason.action_within_authorized_semantics;
  target = some target;
}

compare_one :
    (required : List Text) (target : Dict Value) (n m : Target)
    → normalize_target target required ≡ some m
    → same_target required m n [] ≡ true
    → compare_targets required (target ∷ []) n [] (m ∷ []) ≡ granted n
unfolding compare_targets
compare_one required target n m precise same =
    rw (any_incomplete_one target required m precise, same) refl

evaluate_pending_one :
    (actions : List Text) (action : Text) (target : Dict Value) (n m : Target) (unit : Text)
    (generation : ℕ)
    → normalize_target target (required_fields_for (action ∷ [])) ≡ some m
    → same_target (required_fields_for (action ∷ [])) m n [] ≡ true
    → evaluate_pending
        (bound_to actions unit generation n)
        (plain_request action target unit generation)
        (some [])
      ≡ granted n
unfolding evaluate_pending
evaluate_pending_one actions action target n m unit generation precise same =
    rw (resolved_from_one target (required_fields_for (action ∷ [])) m precise)
      (compare_one (required_fields_for (action ∷ [])) target n m precise same)

evaluate_bound_one :
    (actions : List Text) (action : Text) (target : Dict Value) (n m : Target) (unit : Text)
    (generation : ℕ)
    → is_blank unit ≡ false
    → normalize_target target (required_fields_for (action ∷ [])) ≡ some m
    → same_target (required_fields_for (action ∷ [])) m n [] ≡ true
    → evaluate_bound
        (bound_to actions unit generation n)
        (plain_request action target unit generation)
        unit
        generation
        (some unit)
        (some (pos generation))
      ≡ granted n
unfolding evaluate_bound resolve_pending status_eq
evaluate_bound_one actions action target n m unit generation given precise same =
    rw (given, ==_self unit, ==_self (pos generation))
      (evaluate_pending_one actions action target n m unit generation precise same)

evaluate_one :
    (actions : List Text) (action : Text) (target : Dict Value) (n m : Target) (unit : Text)
    (generation : ℕ)
    → is_blank unit ≡ false
    → contains actions action ≡ true
    → normalize_target target (required_fields_for (action ∷ [])) ≡ some m
    → same_target (required_fields_for (action ∷ [])) m n [] ≡ true
    → evaluate
        (some (bound_to actions unit generation n))
        (plain_request action target unit generation)
      ≡ granted n
unfolding evaluate evaluate_in evaluate_binding covers
evaluate_one actions action target n m unit generation given listed precise same =
    rw (given, listed)
      (evaluate_bound_one actions action target n m unit generation given precise same)

All-contained : (fields : List Text) → All (λ f. contains fields f ≡ true) fields
All-contained [] = tt
All-contained (f ∷ fields) = (
  ground (arith, ==_self f),
  All-map (λ g. contains fields g ≡ true) (λ g. contains (f ∷ fields) g ≡ true) fields
      (λ g h. ground arith) (All-contained fields),
)

-- What is bound is authorized: of a list of semantic actions with one exact target, bound in a unit
-- that is not blank, each action may proceed on that target in the same unit and generation without
-- asking, and the decision names the bound target.
pub bind-evaluate :
    (actions : List Text) (action : Text) (target : Dict Value) (n : Target) (unit : Text)
    (generation : ℕ)
    → contains actions action ≡ true
    → is_blank unit ≡ false
    → is_empty (required_fields_for (sorted_set actions)) ≡ false
    → normalize_target target (required_fields_for (sorted_set actions)) ≡ some n
    → evaluate
        (some (bind_authorization actions (target ∷ []) (some unit) (some generation) none))
        (plain_request action target unit generation)
      ≡ granted n
bind-evaluate actions action target n unit generation listed given some_required precise =
    let all_fields = required_fields_for (sorted_set actions) in
    let fields = required_fields_for (action ∷ []) in
    let in_set = contains-sorted_set actions action ∙ listed in
    let inside : All (λ f. contains all_fields f ≡ true) fields =
      All-map (λ f. contains fields f ≡ true) (λ f. contains all_fields f ≡ true) fields
        (λ f h. required_fields_for_mono (sorted_set actions) action f in_set h)
        (All-contained fields) in
    let (m, precise') = normalize_target-sub target all_fields fields n precise inside in
    let agree =
      All-map (λ f. contains fields f ≡ true) (λ f. lookup f m ≡ lookup f n) fields
        (λ f h.
          lookup_agree target all_fields fields n m f precise precise'
            (required_fields_for_mono (sorted_set actions) action f in_set h) h)
        (All-contained fields) in
    rw (bind_one actions target n unit generation given some_required precise) (
      evaluate_one (sorted_set actions) action target n m unit generation given in_set precise'
        (same_target-All m n fields agree))
