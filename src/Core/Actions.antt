-- ===== src/Core/Actions.antt =====
-- The candidates of `snapshot["actions"]` that become current actions.
pub mod Laws
use codex_context_guard.Base.{
  ℕ, Bool, true, false, not, ◌&&◌, ◌||◌, Option, none, some, List, [], ◌∷◌, Text, text_eq,
  option_eq, nat_eq, ◌==◌, contains, ltb, leb, keep, all, is_empty, if◌then◌else◌,
}
use codex_context_guard.Base.Texts.{codes}
use codex_context_guard.Core.Spans.{source_matches, scope_open}
use codex_context_guard.Core.Facts.{get_fact}
use codex_context_guard.Core.Requirements.{get_requirement}
use codex_context_guard.Core.Predicates.{Predicate, predicate_eq}
use codex_context_guard.Core.Controls.States.{ControlState, control_state_eq, States, state_of}
use codex_context_guard.Core.Model.{Source, Requirement, Fact, Basis, span_eq}
use codex_context_guard.Core.Kinds.{
  FactKind, fact_kind_eq, Outcome, outcome_eq, BasisState, basis_state_eq, Owner, owner_eq,
  Relation, relation_eq, RequirementKind, requirement_kind_eq,
}

-- `predicates[key]`
unfoldable pub predicate_at : Text → List (Text × Predicate) → Option Predicate
predicate_at key [] = none
predicate_at key ((k, p) ∷ rest) = if key == k then some p else predicate_at key rest

-- The first value of `valid`: the candidate restates an open, unmet requirement of execution or proof.
unfoldable pub basis_stands :
    ℕ → List Source → List (Text × Predicate) → List Text → Basis → Requirement → Bool
basis_stands watermark sources predicates released candidate req =
    scope_open req watermark
    && candidate.state == BasisState.current
    && candidate.owner == Owner.assistant
    && not (candidate.action == codes "generic_work" || candidate.action == codes "unknown")
    && predicate_at req.id predicates == some Predicate.insufficient
    && (req.kind == RequirementKind.execution || req.kind == RequirementKind.proof)
    && source_matches candidate.source sources true
    && candidate.source == req.source
    && candidate.unit == req.unit
    && candidate.revision == req.revision
    && candidate.scope_sha256 == req.scope_sha256
    && candidate.target == req.target
    && candidate.predicate == req.predicate
    && leb req.seq candidate.seq
    && all (contains released) req.condition_ids

-- Its relation to the requirement: the action itself, or a substep that the predicate names.
unfoldable pub relation_admits : Basis → Requirement → Bool
relation_admits candidate req =
    candidate.relation == Relation.direct && candidate.action == req.action
    || candidate.relation == Relation.verification_substep
      && req.predicate == codes "test_passed"
      && candidate.action == codes "test_verify"
    || candidate.relation == Relation.readback_substep
      && req.predicate == codes "state_matches"
      && candidate.action == codes "readback"

abbrev shows_ready : Basis → Option Fact → Bool
shows_ready candidate none = false
shows_ready candidate (some fact) =
    fact.kind == FactKind.readiness
    && fact.outcome == Outcome.success
    && fact.requirement_id == candidate.requirement_id
    && fact.unit == candidate.unit
    && fact.revision == candidate.revision
    && fact.target == candidate.target

-- It names facts of readiness, and each is valid, succeeded and is of its own target.
unfoldable pub is_ready : List Fact → Basis → Bool
is_ready facts candidate =
    not (is_empty candidate.readiness_fact_ids)
    && all (λ fid. shows_ready candidate (get_fact fid facts)) candidate.readiness_fact_ids

unfoldable pub candidate_valid :
    ℕ
    → List Source
    → List Fact
    → List (Text × Predicate)
    → List Text
    → Basis
    → Option Requirement
    → Bool
candidate_valid watermark sources facts predicates released candidate none = false
candidate_valid watermark sources facts predicates released candidate (some req) =
    basis_stands watermark sources predicates released candidate req
    && relation_admits candidate req
    && is_ready facts candidate

-- A rejected candidate: its requirement, and the reason.
pub data Reason : Type 0 where
  action_basis_insufficient : Reason
  root_control : ControlState → Reason

-- The loop over the candidates: `actions` and `rejected`. Those behind the watermark are passed over.
unfoldable pub admit_actions :
    ℕ
    → List Source
    → List Requirement
    → List Fact
    → List (Text × Predicate)
    → List Text
    → List Basis
    → List Basis × List (Text × Reason)
admit_actions watermark sources current facts predicates released [] = ([], [])
admit_actions watermark sources current facts predicates released (candidate ∷ rest) =
    let (actions, rejected) =
      admit_actions watermark sources current facts predicates released rest in
    if ltb watermark candidate.seq
    then (actions, rejected)
    else if candidate_valid watermark sources facts predicates released candidate
        (get_requirement candidate.requirement_id current)
    then (candidate ∷ actions, rejected)
    else (actions, (candidate.requirement_id, Reason.action_basis_insufficient) ∷ rejected)

-- The states under which a root control holds an action back.
unfoldable pub holds_back : Option ControlState → Bool
holds_back (some ControlState.paused) = true
holds_back (some ControlState.persistent_paused) = true
holds_back (some ControlState.cancelled) = true
holds_back state = false

abbrev pub held : States → Basis → Bool
held states candidate = holds_back (state_of candidate.requirement_id states)

-- `kept_actions`
unfoldable pub keep_actions : States → List Basis → List Basis
keep_actions states actions = keep (λ a. not (held states a)) actions

abbrev held_reason : Option ControlState → Reason
held_reason none = Reason.action_basis_insufficient
held_reason (some state) = Reason.root_control state

unfoldable pub held_actions : States → List Basis → List (Text × Reason)
held_actions states [] = []
held_actions states (a ∷ rest) =
    let later = held_actions states rest in
    if held states a
    then (a.requirement_id, held_reason (state_of a.requirement_id states)) ∷ later
    else later
