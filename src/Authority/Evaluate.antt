-- ===== src/Authority/Evaluate.antt =====
-- `evaluate_action_authorization`: whether an action may proceed without asking.
use codex_context_guard.Base.{
  ℕ, Bool, true, false, not, Option, none, some, List, [], ◌∷◌, ◌++◌, Text, text_eq, nat_eq,
  option_eq, ◌==◌, contains, all, any, is_empty, is_some, if◌then◌else◌,
}
use codex_context_guard.Base.Decimal.{ℤ, pos, int_eq}
use codex_context_guard.Base.Texts.{strip, is_space}
use codex_context_guard.Authority.Values.{Value, is_exact, text_of}
use codex_context_guard.Authority.Fields.{Dict, lookup, covers, required_fields_for}
use codex_context_guard.Authority.Bind.{
  Status, status_eq, Reason, Target, target_eq, normalize_target, Binding, is_blank,
}

pub record Decision : Type 0 where
  pub status : Status
  pub ask_user : Bool
  pub reason_code : Reason
  pub target : Option Target

abbrev ask : Status → Reason → Decision
ask status reason = record { status = status; ask_user = true; reason_code = reason; target = none }

-- What the caller says of the action: `action_flags` and `resolved_pending` included.
pub record Request : Type 0 where
  pub action : Text
  pub targets : List (Dict Value)
  pub work_unit_id : Option Text
  pub generation : Option ℕ
  pub flags : List Text
  pub resolved_pending : Dict Value

-- `resolved`: the distinct normalized targets; those that are not precise are passed over.
unfoldable pub resolved_from : List Target → List Text → List (Dict Value) → List Target
resolved_from found required [] = found
resolved_from found required (target ∷ rest) = elim (normalize_target target required) [
  | none ↦ resolved_from found required rest
  | some t ↦ resolved_from (if contains found t then found else found ++ t ∷ []) required rest
]

-- `incomplete`
unfoldable pub any_incomplete : List Text → List (Dict Value) → Bool
any_incomplete required targets = any (λ t. not (is_some (normalize_target t required))) targets

abbrev pub or_blank : Option Text → Text
or_blank none = []
or_blank (some t) = t

abbrev pub bound_target : Option Target → Target
bound_target none = []
bound_target (some target) = target

abbrev pub exact_text : Option Value → Option Text
exact_text none = none
exact_text (some value) = if is_exact value then some (strip is_space (text_of value)) else none

-- `resolved_pending_values`, and none where a pending field has no exact value yet.
abbrev with_value : Text → Option Text → Option (Dict Text) → Option (Dict Text)
with_value field (some t) (some rest) = some ((field, t) ∷ rest)
with_value field _ _ = none

unfoldable pub resolve_pending : Dict Value → Dict Text → Option (Dict Text)
resolve_pending supplied [] = some []
resolve_pending supplied ((field, source) ∷ rest) =
    with_value field (exact_text (lookup field supplied)) (resolve_pending supplied rest)

-- `expected[field]`: the value of the transition, or else the bound one.
unfoldable pub expected : Target → Dict Text → Text → Text
expected bound values field = elim (lookup field values) [
  | none ↦ or_blank (lookup field bound)
  | some t ↦ t
]

-- `current == expected`
unfoldable pub same_target : List Text → Target → Target → Dict Text → Bool
same_target required current bound values =
    all (λ f. or_blank (lookup f current) == expected bound values f) required

-- The last part: the current targets against the bound one.
unfoldable pub compare_targets :
    List Text → List (Dict Value) → Target → Dict Text → List Target → Decision
compare_targets required targets bound values [] =
    ask Status.requires_selection Reason.target_undetermined
compare_targets required targets bound values (current ∷ []) =
    if any_incomplete required targets
    then ask Status.requires_selection Reason.target_undetermined
    else if same_target required current bound values
    then record {
      status = Status.authorized_unique;
      ask_user = false;
      reason_code = Reason.action_within_authorized_semantics;
      target = some bound;
    }
    else record {
      status = Status.drifted;
      ask_user = true;
      reason_code = Reason.resolved_target_drifted_from_binding;
      target = some current;
    }
compare_targets required targets bound values (first ∷ second ∷ more) =
    ask Status.requires_selection Reason.multiple_reasonable_candidates

abbrev reason_or : Option Reason → Reason → Reason
reason_or none other = other
reason_or (some reason) other = reason

unfoldable pub evaluate_pending : Binding → Request → Option (Dict Text) → Decision
evaluate_pending b request none =
    ask Status.pending_transition Reason.authorized_commit_not_completed
evaluate_pending b request (some values) =
    let required = required_fields_for (request.action ∷ []) in
    if not (is_empty request.flags)
    then record {
      status = Status.out_of_scope;
      ask_user = true;
      reason_code = Reason.action_outside_authorized_semantics;
      target = b.target;
    }
    else compare_targets required request.targets (bound_target b.target) values
        (resolved_from [] required request.targets)

-- The checks of the binding's own context against the current one.
unfoldable pub evaluate_bound : Binding → Request → Text → ℕ → Option Text → Option ℤ → Decision
evaluate_bound b request unit generation (some bound_unit) (some bound_generation) =
    if is_blank bound_unit
    then ask Status.authorization_invalid Reason.binding_context_incomplete
    else if not (bound_unit == unit)
    then ask Status.authorization_invalid Reason.cross_work_unit_replay
    else if not (bound_generation == pos generation)
    then ask Status.authorization_invalid Reason.authorization_generation_expired
    else if b.status == Status.requires_selection
    then ask Status.requires_selection
        (reason_or b.reason_code Reason.multiple_reasonable_candidates)
    else evaluate_pending b request (resolve_pending request.resolved_pending b.pending)
evaluate_bound b request unit generation _ _ =
    ask Status.authorization_invalid Reason.binding_context_incomplete

unfoldable pub evaluate_binding : Option Binding → Request → Text → ℕ → Decision
evaluate_binding none request unit generation =
    ask Status.out_of_scope Reason.no_authorization_binding
evaluate_binding (some b) request unit generation =
    if not (covers b.actions request.action)
    then ask Status.out_of_scope Reason.action_outside_authorized_semantics
    else evaluate_bound b request unit generation b.work_unit_id b.generation

-- The facts of validity of the request; a unit that is no text and a generation that is no natural
-- number are none.
unfoldable pub evaluate_in : Option Binding → Request → Option Text → Option ℕ → Decision
evaluate_in binding request (some unit) (some generation) =
    if is_blank unit
    then ask Status.authorization_invalid Reason.missing_validity_fact
    else evaluate_binding binding request unit generation
evaluate_in binding request _ _ = ask Status.authorization_invalid Reason.missing_validity_fact

-- `evaluate_action_authorization`
unfoldable pub evaluate : Option Binding → Request → Decision
evaluate binding request = evaluate_in binding request request.work_unit_id request.generation
