-- ===== src/Core/Kinds.antt =====
-- The enumerations of `core-observation/v2`, with their equality.
use codex_context_guard.Base.{Eq}

pub data SourceKind : Type 0 where
  root host_call host_result final_delivery external_lifecycle candidate : SourceKind

pub data SubjectKind : Type 0 where
  filesystem opaque : SubjectKind

pub data Flavor : Type 0 where
  posix windows : Flavor

pub data ConstraintKind : Type 0 where
  exact directory work_unit : ConstraintKind

pub data RequirementKind : Type 0 where
  information execution constraint unknown proof : RequirementKind

pub data Status : Type 0 where
  pending satisfied legacy_review superseded : Status

pub data EvidenceKind : Type 0 where
  action_event state_outcome delivery none : EvidenceKind

pub data FactKind : Type 0 where
  action_event state_outcome delivery readiness external_operation : FactKind

pub data Outcome : Type 0 where
  success partial failure unknown : Outcome

pub data Owner : Type 0 where
  assistant user external unknown : Owner

pub data Relation : Type 0 where
  direct verification_substep readback_substep : Relation

pub data BasisState : Type 0 where
  current completed future_observation capability_unavailable : BasisState
  evidence_insufficient user_wait external_wait unknown : BasisState

pub data ControlKind : Type 0 where
  persistence pause resume cancel : ControlKind

pub data ScopeKind : Type 0 where
  current_unit exact directory action_class parent_task : ScopeKind

pub data IntentKind : Type 0 where
  none resume persistence persistence_and_resume : IntentKind

pub data CoverageKind : Type 0 where
  interpreted unknown : CoverageKind

pub data ConditionKind : Type 0 where
  user_input external_dependency predicate : ConditionKind

pub data ConditionStatus : Type 0 where
  pending released : ConditionStatus

pub data ReleaseState : Type 0 where
  not_adopted adopted reserved consumed unknown : ReleaseState

-- Equality of the enumerations that the code compares with one another.
source_kind_dec : Discrete SourceKind
source_kind_dec = hlevel

instance unfoldable pub source_kind_eq : Eq SourceKind
unfolding source_kind_dec
source_kind_eq = record { dec = source_kind_dec }

subject_kind_dec : Discrete SubjectKind
subject_kind_dec = hlevel

instance unfoldable pub subject_kind_eq : Eq SubjectKind
unfolding subject_kind_dec
subject_kind_eq = record { dec = subject_kind_dec }

flavor_dec : Discrete Flavor
flavor_dec = hlevel

instance unfoldable pub flavor_eq : Eq Flavor
unfolding flavor_dec
flavor_eq = record { dec = flavor_dec }

constraint_kind_dec : Discrete ConstraintKind
constraint_kind_dec = hlevel

instance unfoldable pub constraint_kind_eq : Eq ConstraintKind
unfolding constraint_kind_dec
constraint_kind_eq = record { dec = constraint_kind_dec }

requirement_kind_dec : Discrete RequirementKind
requirement_kind_dec = hlevel

instance unfoldable pub requirement_kind_eq : Eq RequirementKind
unfolding requirement_kind_dec
requirement_kind_eq = record { dec = requirement_kind_dec }

status_dec : Discrete Status
status_dec = hlevel

instance unfoldable pub status_eq : Eq Status
unfolding status_dec
status_eq = record { dec = status_dec }

evidence_kind_dec : Discrete EvidenceKind
evidence_kind_dec = hlevel

instance unfoldable pub evidence_kind_eq : Eq EvidenceKind
unfolding evidence_kind_dec
evidence_kind_eq = record { dec = evidence_kind_dec }

fact_kind_dec : Discrete FactKind
fact_kind_dec = hlevel

instance unfoldable pub fact_kind_eq : Eq FactKind
unfolding fact_kind_dec
fact_kind_eq = record { dec = fact_kind_dec }

outcome_dec : Discrete Outcome
outcome_dec = hlevel

instance unfoldable pub outcome_eq : Eq Outcome
unfolding outcome_dec
outcome_eq = record { dec = outcome_dec }

owner_dec : Discrete Owner
owner_dec = hlevel

instance unfoldable pub owner_eq : Eq Owner
unfolding owner_dec
owner_eq = record { dec = owner_dec }

relation_dec : Discrete Relation
relation_dec = hlevel

instance unfoldable pub relation_eq : Eq Relation
unfolding relation_dec
relation_eq = record { dec = relation_dec }

basis_state_dec : Discrete BasisState
basis_state_dec = hlevel

instance unfoldable pub basis_state_eq : Eq BasisState
unfolding basis_state_dec
basis_state_eq = record { dec = basis_state_dec }

control_kind_dec : Discrete ControlKind
control_kind_dec = hlevel

instance unfoldable pub control_kind_eq : Eq ControlKind
unfolding control_kind_dec
control_kind_eq = record { dec = control_kind_dec }

scope_kind_dec : Discrete ScopeKind
scope_kind_dec = hlevel

instance unfoldable pub scope_kind_eq : Eq ScopeKind
unfolding scope_kind_dec
scope_kind_eq = record { dec = scope_kind_dec }

intent_kind_dec : Discrete IntentKind
intent_kind_dec = hlevel

instance unfoldable pub intent_kind_eq : Eq IntentKind
unfolding intent_kind_dec
intent_kind_eq = record { dec = intent_kind_dec }

coverage_kind_dec : Discrete CoverageKind
coverage_kind_dec = hlevel

instance unfoldable pub coverage_kind_eq : Eq CoverageKind
unfolding coverage_kind_dec
coverage_kind_eq = record { dec = coverage_kind_dec }

condition_kind_dec : Discrete ConditionKind
condition_kind_dec = hlevel

instance unfoldable pub condition_kind_eq : Eq ConditionKind
unfolding condition_kind_dec
condition_kind_eq = record { dec = condition_kind_dec }

condition_status_dec : Discrete ConditionStatus
condition_status_dec = hlevel

instance unfoldable pub condition_status_eq : Eq ConditionStatus
unfolding condition_status_dec
condition_status_eq = record { dec = condition_status_dec }

release_state_dec : Discrete ReleaseState
release_state_dec = hlevel

instance unfoldable pub release_state_eq : Eq ReleaseState
unfolding release_state_dec
release_state_eq = record { dec = release_state_dec }
