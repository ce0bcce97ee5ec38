-- ===== src/Core/Samples.antt =====
-- A small session: a root that asks for one edit and says to keep going, the call and the result of
-- that edit, and the snapshots before and after it.
use codex_context_guard.Base.{ℕ, true, false, none, some, List, [], ◌∷◌, Text}
use codex_context_guard.Base.Texts.{codes}
use codex_context_guard.Core.Model.{
  Source, Span, TargetOrigin, Requirement, Fact, Basis, RootControl, ScopeBasis, ControlledRef,
  Coverage, WorkUnit,
}
use codex_context_guard.Core.Kinds.{
  SourceKind, SubjectKind, ConstraintKind, RequirementKind, Status, EvidenceKind, FactKind, Outcome,
  Owner, Relation, BasisState, ControlKind, ScopeKind, CoverageKind,
}
use codex_context_guard.Core.Speech.{Speech}

-- For the digest, the bytes themselves.
abbrev pub digest : List ℕ → Text
digest bytes = bytes

-- Every span is a sentence of its own, and says what its control's kind says.
abbrev pub plain_speech : Speech
plain_speech = record {
  control_speech = λ text kind. true;
  sentence_bounds = λ text span. some (span.start, span.end);
  current_unit_speech = λ text kind. true;
  explicit_target_speech = λ prefix suffix kind. true;
  subjectless_persistence = λ text. false;
  direct_work_clause = λ text. true;
  action_class_speech = λ text kind. none;
  repair_speech = λ noun text. false;
  parent_persistence_speech = λ noun text. false;
}

abbrev pub request_text : Text
request_text = codes "Fix a. Keep going."

abbrev pub request : Source
request = record {
  id = codes "root";
  seq = 1;
  kind = SourceKind.root;
  unit = codes "u";
  revision = 1;
  sha256 = codes "Fix a. Keep going.";
  byte_length = 18;
  call_id = none;
  text = some request_text;
  turn = codes "t";
  target = none;
  target_kind = none;
  origin_root_source_id = none;
  locator_base = none;
  locator_flavor = none;
}

abbrev pub call : Source
call = record request {
  id = codes "call";
  seq = 2;
  kind = SourceKind.host_call;
  call_id = some (codes "k");
  text = none;
  target = some (codes "a");
  target_kind = some SubjectKind.opaque;
  origin_root_source_id = some (codes "root");
}

abbrev pub result : Source
result = record request {
  id = codes "result";
  seq = 3;
  kind = SourceKind.host_result;
  call_id = some (codes "k");
  text = none;
}

abbrev pub span_at : ℕ → ℕ → Span
span_at start end = record {
  source_id = codes "root";
  start = start;
  end = end;
  sha256 = codes "Fix a. Keep going.";
}

abbrev origin : TargetOrigin
origin = record {
  root_constraint = codes "a";
  subject_kind = SubjectKind.opaque;
  resolved_constraint = none;
  implementation_choice = some (codes "a");
  host_selection = some (codes "a");
  resolved = codes "a";
  observed = some (codes "a");
  root_constraint_source = span_at 4 5;
  constraint_kind = ConstraintKind.exact;
  selection_source_id = none;
}

abbrev pub edit : Requirement
edit = record {
  id = codes "edit";
  unit = codes "u";
  revision = 1;
  seq = 1;
  source = span_at 0 6;
  kind = RequirementKind.execution;
  action = codes "run";
  target = codes "a";
  predicate = codes "edited";
  scope_sha256 = codes "scope";
  required = true;
  status = Status.pending;
  superseded_at_seq = none;
  supersession_source_id = none;
  superseded_by_requirement_id = none;
  parent_id = none;
  evidence_kind = EvidenceKind.state_outcome;
  condition_ids = [];
  target_origin = origin;
}

abbrev pub edited : Fact
edited = record {
  id = codes "edited";
  seq = 3;
  unit = codes "u";
  revision = 1;
  source_id = codes "result";
  call_source_id = some (codes "call");
  kind = FactKind.state_outcome;
  target = codes "a";
  predicate = codes "edited";
  outcome = Outcome.success;
  operation_id = none;
  requirement_id = codes "edit";
  condition_id = none;
  invalidates = [];
}

abbrev pub readied : Fact
readied = record edited {
  id = codes "readied";
  kind = FactKind.readiness;
  predicate = codes "host_ready";
}

abbrev pub next_step : Basis
next_step = record {
  requirement_id = codes "edit";
  unit = codes "u";
  revision = 1;
  seq = 3;
  source = span_at 0 6;
  scope_sha256 = codes "scope";
  action = codes "run";
  target = codes "a";
  predicate = codes "edited";
  owner = Owner.assistant;
  relation = Relation.direct;
  readiness_fact_ids = codes "readied" ∷ [];
  state = BasisState.current;
}

abbrev whole_unit : ScopeBasis
whole_unit = record { kind = ScopeKind.current_unit; target = none; target_source = none }

abbrev edit_ref : ControlledRef
edit_ref = record {
  requirement_id = codes "edit";
  unit = codes "u";
  revision = 1;
  source_id = codes "root";
  seq = 1;
  target = some (codes "a");
  scope_sha256 = codes "scope";
}

abbrev pub keep_going : RootControl
keep_going = record {
  id = codes "keep";
  kind = ControlKind.persistence;
  source = span_at 7 18;
  seq = 1;
  scope_basis = whole_unit;
  controlled_requirements = edit_ref ∷ [];
}

abbrev pub covered : Coverage
covered = record { source = span_at 0 18; kind = CoverageKind.interpreted }

abbrev pub work : WorkUnit
work = record { id = codes "u"; parent_id = none; required = true; source_id = codes "root" }
