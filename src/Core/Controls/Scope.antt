-- ===== src/Core/Controls/Scope.antt =====
-- Which requirements a control governs: the five kinds of scope of `_fold_root_controls`.
use codex_context_guard.Base.{
  ℕ, ◌+◌, Bool, true, false, not, ◌&&◌, ◌||◌, Option, none, some, List, [], ◌∷◌, ◌++◌, Text,
  text_eq, option_eq, nat_eq, ◌==◌, contains, ltb, leb, keep, any, all, take, length, is_some,
  is_empty, if◌then◌else◌,
}
use codex_context_guard.Base.Texts.{
  codes, decode_slice, byte_length, starts_with, rstrip, strip, is_space, split,
}
use codex_context_guard.Core.Closure.{closure}
use codex_context_guard.Core.Spans.{scope_open, source_matches}
use codex_context_guard.Core.Speech.{Speech}
use codex_context_guard.Core.Controls.States.{ControlState, control_state_eq, States, state_of}
use codex_context_guard.Core.Model.{Source, Span, Requirement, RootControl}
use codex_context_guard.Core.Kinds.{
  RequirementKind, requirement_kind_eq, ControlKind, control_kind_eq, ScopeKind, scope_kind_eq,
}

-- `source["text"].encode()[a:b].decode()`. The callers have checked that both are boundaries.
abbrev or_empty : Option Text → Text
or_empty none = []
or_empty (some t) = t

unfoldable pub whole_text : Source → Text
whole_text source = or_empty source.text

unfoldable pub slice : Source → ℕ → ℕ → Text
slice source a b = or_empty (decode_slice a b (or_empty source.text))

abbrev is_end : ℕ → Bool
is_end c = contains (codes "。.!！") c

abbrev is_break : ℕ → Bool
is_break c = contains (codes "。！？;；") c || c == 10

-- `_single_root_task_scope(prefix, rows)`
unfoldable pub one_parent : Requirement → List Requirement → Bool
one_parent parent rows =
    parent.action == codes "local_edit"
    && all
        (λ row.
          row.id == parent.id
          || row.parent_id == some parent.id
            && (row.action == codes "test_verify" || row.action == codes "state_readback")
            && row.target == parent.target)
        rows

abbrev sole_parent : List Requirement → List Requirement → Bool
sole_parent rows [] = false
sole_parent rows (parent ∷ []) = one_parent parent rows
sole_parent rows (parent ∷ other ∷ more) = false

unfoldable pub single_root_task_scope : Speech → Text → List Requirement → Bool
single_root_task_scope speech prefix [] = false
single_root_task_scope speech prefix (row ∷ []) =
    let direct = rstrip is_end (strip is_space prefix) in
    not (any is_break direct) && speech.direct_work_clause direct
single_root_task_scope speech prefix (row ∷ other ∷ more) =
    let direct = rstrip is_end (strip is_space prefix) in
    let rows = row ∷ other ∷ more in
    let clauses = split 24182 direct in
    not (any is_break direct)
    && sole_parent rows (keep (λ r. not (is_some r.parent_id)) rows)
    && length clauses == length rows
    && all speech.direct_work_clause clauses

-- `eligible`: open requirements of execution in the control's unit that are not cancelled.
unfoldable pub is_eligible : List Source → States → RootControl → Text → Requirement → Bool
is_eligible sources states control unit req =
    req.unit == unit
    && scope_open req control.seq
    && req.kind == RequirementKind.execution
    && not (state_of req.id states == some ControlState.cancelled)
    && source_matches req.source sources true

unfoldable pub eligible :
    List Source → States → RootControl → Text → List Requirement → List Requirement
eligible sources states control unit requirements =
    keep (is_eligible sources states control unit) requirements

-- The target of a scope other than the current unit: a span inside the control and its sentence.
unfoldable pub target_inside : List Source → Span → ℕ × ℕ → Span → Bool
target_inside sources span (first, last) target =
    target.source_id == span.source_id
    && source_matches target sources true
    && leb span.start target.start
    && ltb target.start target.end
    && leb target.end span.end
    && leb first target.start
    && leb target.end last

-- For `exact` and `directory` the target is the literal text of its span.
unfoldable pub literal_target : Speech → Source → Span → ControlKind → Text → Span → Bool
literal_target speech source span kind target target_span =
    slice source target_span.start target_span.end == target
    && speech.explicit_target_speech (slice source span.start target_span.start)
        (slice source target_span.end span.end) kind

unfoldable pub named_target : List Source → Span → ℕ × ℕ → Option Text → Option Span → Bool
named_target sources span sentence (some target) (some target_span) =
    not (is_empty target) && target_inside sources span sentence target_span
named_target sources span sentence _ _ = false

unfoldable pub literal_named :
    Speech → Source → Span → ControlKind → Option Text → Option Span → Bool
literal_named speech source span kind (some target) (some target_span) =
    literal_target speech source span kind target target_span
literal_named speech source span kind _ _ = false

-- The second check of a control: of its scope basis.
unfoldable pub basis_valid : Speech → List Source → Source → RootControl → ℕ × ℕ → ScopeKind → Bool
basis_valid speech sources source control sentence ScopeKind.current_unit =
    not (is_some control.scope_basis.target)
    && not (is_some control.scope_basis.target_source)
    && speech.current_unit_speech (slice source control.source.start control.source.end)
        control.kind
basis_valid speech sources source control sentence kind =
    named_target sources control.source sentence control.scope_basis.target
      control.scope_basis.target_source
    && (not (kind == ScopeKind.exact || kind == ScopeKind.directory)
        || literal_named speech source control.source control.kind control.scope_basis.target
            control.scope_basis.target_source)

-- A subjectless command governs the requirements of its own root and moment only.
unfoldable pub subject_resolved : Speech → Source → RootControl → List Requirement → Bool
subject_resolved speech source control rows =
    all (λ req. req.source.source_id == source.id && req.seq == control.seq) rows
    && single_root_task_scope speech (slice source 0 control.source.start) rows

unfoldable pub current_unit_scope :
    Speech → Source → RootControl → List Requirement → Option (List Requirement)
current_unit_scope speech source control rows =
    if speech.subjectless_persistence (slice source control.source.start control.source.end)
      && not (subject_resolved speech source control rows)
    then none
    else some rows

abbrev is_slash : ℕ → Bool
is_slash c = c == 47

unfoldable pub directory_scope : Text → List Requirement → List Requirement
directory_scope target rows =
    keep (λ req. starts_with req.target (rstrip is_slash target ++ codes "/")) rows

-- `这项` and `该项` speak of one requirement.
unfoldable pub is_singular : Text → Bool
is_singular noun = starts_with noun (codes "这项") || starts_with noun (codes "该项")

abbrev parsed_at : Source → RootControl → Text → ℕ → Option (Text × ℕ) → Bool
parsed_at source control noun start none = false
parsed_at source control noun start (some (parsed, at_char)) =
    parsed == noun
    && control.source.start
        + byte_length (take at_char (slice source control.source.start control.source.end))
      == start

unfoldable pub action_class_scope :
    Speech → Source → RootControl → Text → Span → List Requirement → Option (List Requirement)
action_class_scope speech source control target span rows =
    let noun = slice source span.start span.end in
    let valid =
      target == codes "test_verify"
      && parsed_at source control noun span.start (
          speech.action_class_speech (slice source control.source.start control.source.end)
            control.kind) in
    let selected = if valid then keep (λ req. req.action == target) rows else [] in
    if not valid || is_singular noun && not (length selected == 1) then none else some selected

abbrev is_parent : List Requirement → Requirement → Bool
is_parent rows req =
    req.action == codes "local_edit" && any (λ child. child.parent_id == some req.id) rows

unfoldable pub named_repair : Text → Bool
named_repair noun = noun == codes "这项修复" || noun == codes "该项修复"

abbrev sole_target : Text → List Requirement → Bool
sole_target target [] = false
sole_target target (parent ∷ []) = target == parent.id
sole_target target (parent ∷ other ∷ more) = false

-- The parent with every required requirement under it.
unfoldable pub with_children : Text → List Requirement → List Requirement
with_children target rows =
    keep
      (λ req.
        contains (closure (λ r. r.id) (λ r. r.parent_id) (λ r. r.required) (target ∷ []) rows)
          req.id)
      rows

unfoldable pub parent_task_scope :
    Speech → Source → RootControl → Text → Span → List Requirement → Option (List Requirement)
parent_task_scope speech source control target span rows =
    let noun = slice source span.start span.end in
    let text = slice source control.source.start control.source.end in
    let parents = keep (is_parent rows) rows in
    let own = keep (λ req. req.source.source_id == control.source.source_id) parents in
    let valid =
      if named_repair noun
      then speech.repair_speech noun text && sole_target target parents
      else control.kind == ControlKind.persistence
        && speech.parent_persistence_speech noun text
        && sole_target target own in
    if valid then some (with_children target rows) else none

abbrev pub with_target :
    Option Text
    → Option Span
    → (Text → Span → Option (List Requirement))
    → Option (List Requirement)
with_target (some target) (some span) f = f target span
with_target _ _ f = none

-- `selected`, and none where the scope is not valid.
unfoldable pub selection :
    Speech → Source → RootControl → ScopeKind → List Requirement → Option (List Requirement)
selection speech source control ScopeKind.current_unit rows =
    current_unit_scope speech source control rows
selection speech source control ScopeKind.exact rows =
    with_target control.scope_basis.target control.scope_basis.target_source
      λ target span. some (keep (λ req. req.target == target) rows)
selection speech source control ScopeKind.directory rows =
    with_target control.scope_basis.target control.scope_basis.target_source
      λ target span. some (directory_scope target rows)
selection speech source control ScopeKind.action_class rows =
    with_target control.scope_basis.target control.scope_basis.target_source
      λ target span. action_class_scope speech source control target span rows
selection speech source control ScopeKind.parent_task rows =
    with_target control.scope_basis.target control.scope_basis.target_source
      λ target span. parent_task_scope speech source control target span rows
