-- ===== src/Core/Stops.antt =====
-- What `project` decides at its end: what is missing, the certificate, the reasons and the Stop.
use codex_context_guard.Base.{
  ℕ, Bool, true, false, not, ◌&&◌, ◌||◌, Option, none, some, List, [], ◌∷◌, ◌++◌, Text, text_eq,
  option_eq, nat_eq, ◌==◌, contains, keep, map, is_empty, if◌then◌else◌,
}
use codex_context_guard.Base.Texts.{text_leb, sorted_set}
use codex_context_guard.Base.Sorting.{sort}
use codex_context_guard.Core.Index.{ids, get}
use codex_context_guard.Core.Spans.{scope_open}
use codex_context_guard.Core.Requirements.{get_requirement}
use codex_context_guard.Core.Controls.States.{ControlState, control_state_eq, States, state_of}
use codex_context_guard.Core.Predicates.{Predicate, predicate_eq}
use codex_context_guard.Core.Actions.{predicate_at}
use codex_context_guard.Core.Model.{Snapshot, Requirement, Fact, Condition, Basis}
use codex_context_guard.Core.Kinds.{
  FactKind, fact_kind_eq, Outcome, outcome_eq, ConditionKind, condition_kind_eq, intent_kind_eq,
}

pub data Stop : Type 0 where
  bounded_correction typed_wait ordinary_end : Stop

pub data StopReason : Type 0 where
  wrong_whole_completion explicit_proof_unsatisfied : StopReason
  explicit_user_persistence resume_with_actionable_work : StopReason

abbrev waits_on : Fact → Text → Option Condition → Bool
waits_on fact operation none = false
waits_on fact operation (some condition) =
    condition.kind == ConditionKind.external_dependency && condition.operation_id == some operation

abbrev waits_for : Fact → Option Requirement → Text → Bool
waits_for fact none condition = false
waits_for fact (some req) condition =
    fact.revision == req.revision && contains req.condition_ids condition

-- An unknown external operation that a pending condition of a current requirement waits for.
abbrev registers :
    List Text
    → List Requirement
    → List Condition
    → List Text
    → Fact
    → Option Text
    → Option Text
    → Bool
registers units current conditions released fact (some operation) (some condition) =
    contains units fact.unit
    && fact.kind == FactKind.external_operation
    && fact.outcome == Outcome.unknown
    && not (is_empty operation)
    && waits_for fact (get_requirement fact.requirement_id current) condition
    && not (contains released condition)
    && waits_on fact operation (get (λ c. c.id) condition conditions)
registers units current conditions released fact _ _ = false

abbrev operation_of : Fact → Text
operation_of fact = elim fact.operation_id [ none ↦ [] | some operation ↦ operation ]

-- `external`
unfoldable pub external_operations :
    List Text → List Requirement → List Condition → List Text → List Fact → List Text
external_operations units current conditions released facts = sorted_set (
    map operation_of (
      keep (λ f. registers units current conditions released f f.operation_id f.condition_id)
        facts))

abbrev is_met : Option Predicate → Bool
is_met predicate =
    predicate == some Predicate.satisfied || predicate == some Predicate.constraint_active

-- `missing`
unfoldable pub is_missing : ℕ → List (Text × Predicate) → States → Requirement → Bool
is_missing watermark results states req =
    req.required
    && scope_open req watermark
    && not (state_of req.id states == some ControlState.cancelled)
    && not (is_met (predicate_at req.id results))

unfoldable pub missing_requirements :
    ℕ → List (Text × Predicate) → States → List Requirement → List Text
missing_requirements watermark results states current =
    sort text_leb (ids (λ r. r.id) (keep (is_missing watermark results states) current))

-- `represented`
unfoldable pub represented_sources : List Requirement → List Requirement → List Text → List Text
represented_sources current explained controls =
    map (λ r. r.source.source_id) current ++ map (λ r. r.source.source_id) explained ++ controls

-- `missing_sources`
unfoldable pub unrepresented : List Text → List Text → List Text
unrepresented active represented = keep (λ key. not (contains represented key)) active

-- The members of the snapshot that the decisions at the end of `project` read.
pub record Claims : Type 0 where
  pub completion_claim : Bool
  pub proof_violation : Bool
  pub corrections_used : ℕ
  pub progress_changed : Bool
  pub goal_contract_adopted : Bool

abbrev pub claims_of : Snapshot → Claims
claims_of snapshot = record {
  completion_claim = snapshot.completion_claim;
  proof_violation = snapshot.proof_violation;
  corrections_used = snapshot.corrections_used;
  progress_changed = snapshot.progress_changed;
  goal_contract_adopted = snapshot.goal_contract_adopted;
}

-- What `project` has found when it comes to them.
pub record Findings : Type 0 where
  pub missing : List Text
  pub coverage_errors : List Text
  pub unknown_coverage : List Text
  pub missing_sources : List Text
  pub control_errors : List Text
  pub external : List Text
  pub actions : List Basis
  pub persistence_ready : Bool
  pub resumed : Bool

-- `certifiable`
unfoldable pub is_certifiable : Findings → Bool
is_certifiable found =
    is_empty found.missing
    && is_empty found.coverage_errors
    && is_empty found.unknown_coverage
    && is_empty found.missing_sources
    && is_empty found.control_errors

abbrev when : Bool → StopReason → List StopReason
when true reason = reason ∷ []
when false reason = []

-- `reasons`
unfoldable pub stop_reasons : Claims → Findings → List StopReason
stop_reasons claims found =
    when (claims.completion_claim && not (is_certifiable found)) StopReason.wrong_whole_completion
    ++ when claims.proof_violation StopReason.explicit_proof_unsatisfied
    ++ when found.persistence_ready StopReason.explicit_user_persistence
    ++ when found.resumed StopReason.resume_with_actionable_work

-- `correction`
unfoldable pub corrects : Claims → Findings → Bool
corrects claims found =
    not (is_empty (stop_reasons claims found))
    && claims.corrections_used == 0
    && claims.progress_changed

-- `int(correction)`
abbrev pub as_count : Bool → ℕ
as_count true = 1
as_count false = 0

-- `stop`
unfoldable pub stop_decision : Claims → Findings → Stop
stop_decision claims found =
    if corrects claims found
    then Stop.bounded_correction
    else if not (is_empty found.external) && is_empty found.actions
    then Stop.typed_wait
    else Stop.ordinary_end

-- `goal_complete_allowed`
unfoldable pub goal_allowed : Claims → Findings → Bool
goal_allowed claims found = not claims.goal_contract_adopted || is_certifiable found
