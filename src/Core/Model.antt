-- ===== src/Core/Model.antt =====
-- The snapshot `core-observation/v2` that assets/core-observation-v2.schema.json describes, as
-- records: what `project` of scripts/cg_core_v2.py reads. An optional member is an `Option`.
use native.Mathlib.Decide.{ℕ_discrete}
use codex_context_guard.Core.Kinds.{
  SourceKind, SubjectKind, Flavor, ConstraintKind, RequirementKind, Status, EvidenceKind, FactKind,
  Outcome, Owner, Relation, BasisState, ControlKind, ScopeKind, IntentKind, CoverageKind,
  ConditionKind, ConditionStatus, ReleaseState,
}
use codex_context_guard.Base.{ℕ, Bool, Option, List, Eq, Text}

pub record Source : Type 0 where
  pub id : Text
  pub seq : ℕ
  pub kind : SourceKind
  pub unit : Text
  pub revision : ℕ
  pub sha256 : Text
  pub byte_length : ℕ
  pub call_id : Option Text
  pub text : Option Text
  pub turn : Text
  pub target : Option Text
  pub target_kind : Option SubjectKind
  pub origin_root_source_id : Option Text
  pub locator_base : Option Text
  pub locator_flavor : Option Flavor

pub record Span : Type 0 where
  pub source_id : Text
  pub start : ℕ
  pub end : ℕ
  pub sha256 : Text

pub record TargetOrigin : Type 0 where
  pub root_constraint : Text
  pub subject_kind : SubjectKind
  pub resolved_constraint : Option Text
  pub implementation_choice : Option Text
  pub host_selection : Option Text
  pub resolved : Text
  pub observed : Option Text
  pub root_constraint_source : Span
  pub constraint_kind : ConstraintKind
  pub selection_source_id : Option Text

pub record Requirement : Type 0 where
  pub id : Text
  pub unit : Text
  pub revision : ℕ
  pub seq : ℕ
  pub source : Span
  pub kind : RequirementKind
  pub action : Text
  pub target : Text
  pub predicate : Text
  pub scope_sha256 : Text
  pub required : Bool
  pub status : Status
  pub superseded_at_seq : Option ℕ
  pub supersession_source_id : Option Text
  pub superseded_by_requirement_id : Option Text
  pub parent_id : Option Text
  pub evidence_kind : EvidenceKind
  pub condition_ids : List Text
  pub target_origin : TargetOrigin

pub record Fact : Type 0 where
  pub id : Text
  pub seq : ℕ
  pub unit : Text
  pub revision : ℕ
  pub source_id : Text
  pub call_source_id : Option Text
  pub kind : FactKind
  pub target : Text
  pub predicate : Text
  pub outcome : Outcome
  pub operation_id : Option Text
  pub requirement_id : Text
  pub condition_id : Option Text
  pub invalidates : List Text

pub record Basis : Type 0 where
  pub requirement_id : Text
  pub unit : Text
  pub revision : ℕ
  pub seq : ℕ
  pub source : Span
  pub scope_sha256 : Text
  pub action : Text
  pub target : Text
  pub predicate : Text
  pub owner : Owner
  pub relation : Relation
  pub readiness_fact_ids : List Text
  pub state : BasisState

pub record ScopeBasis : Type 0 where
  pub kind : ScopeKind
  pub target : Option Text
  pub target_source : Option Span

pub record ControlledRef : Type 0 where
  pub requirement_id : Text
  pub unit : Text
  pub revision : ℕ
  pub source_id : Text
  pub seq : ℕ
  pub target : Option Text
  pub scope_sha256 : Text

pub record RootControl : Type 0 where
  pub id : Text
  pub kind : ControlKind
  pub source : Span
  pub seq : ℕ
  pub scope_basis : ScopeBasis
  pub controlled_requirements : List ControlledRef

pub record Intent : Type 0 where
  pub source : Option Span
  pub kind : IntentKind

pub record Coverage : Type 0 where
  pub source : Span
  pub kind : CoverageKind

pub record WorkUnit : Type 0 where
  pub id : Text
  pub parent_id : Option Text
  pub required : Bool
  pub source_id : Text

pub record Condition : Type 0 where
  pub id : Text
  pub requirement_id : Text
  pub source : Span
  pub kind : ConditionKind
  pub status : ConditionStatus
  pub operation_id : Option Text
  pub fact_ids : List Text

pub record Snapshot : Type 0 where
  pub unit : Text
  pub revision : ℕ
  pub as_of : ℕ
  pub turn : Text
  pub sources : List Source
  pub requirements : List Requirement
  pub facts : List Fact
  pub actions : List Basis
  pub root_controls : List RootControl
  pub intent : Intent
  pub completion_claim : Bool
  pub proof_violation : Bool
  pub corrections_used : ℕ
  pub progress_changed : Bool
  pub goal_contract_adopted : Bool
  pub release_state : ReleaseState
  pub coverage : List Coverage
  pub units : List WorkUnit
  pub conditions : List Condition

span_dec : Discrete Span
span_dec = hlevel ℕ_discrete

instance unfoldable pub span_eq : Eq Span
unfolding span_dec
span_eq = record { dec = span_dec }
