-- ===== src/Core/Controls/References.antt =====
-- The references of a control: exactly the requirements that it governs, as they stood at its receipt.
use codex_context_guard.Base.{
  Bool, false, not, ◌&&◌, ◌||◌, Option, none, some, List, [], ◌∷◌, Text, text_eq, option_eq, nat_eq,
  bool_eq, if◌then◌else◌, ◌==◌, contains, ltb, leb, keep, any, all, map, is_some, is_empty,
}
use codex_context_guard.Core.Index.{ids, distinct}
use codex_context_guard.Core.Spans.{get_source}
use codex_context_guard.Core.Facts.{get_source?}
use codex_context_guard.Core.Requirements.{get_requirement}
use codex_context_guard.Core.Model.{Source, Requirement, Fact, ControlledRef, RootControl}
use codex_context_guard.Core.Kinds.{
  SourceKind, source_kind_eq, subject_kind_eq, FactKind, fact_kind_eq, Outcome, outcome_eq,
  ConstraintKind, constraint_kind_eq, ScopeKind, scope_kind_eq,
}

abbrev selecting_call : RootControl → Requirement → Fact → Option Source → Option Source → Bool
selecting_call control req fact (some call) (some result) =
    call.kind == SourceKind.host_call
    && result.kind == SourceKind.host_result
    && ltb call.seq result.seq
    && leb result.seq control.seq
    && call.target == some fact.target
    && call.target_kind == some req.target_origin.subject_kind
selecting_call control req fact _ _ = false

-- A readiness fact by which the host had selected the target of a work unit.
unfoldable pub selects_target : List Source → RootControl → Requirement → Fact → Bool
selects_target sources control req fact =
    fact.kind == FactKind.readiness
    && fact.outcome == Outcome.success
    && fact.requirement_id == req.id
    && leb fact.seq control.seq
    && selecting_call control req fact (get_source? fact.call_source_id sources)
        (get_source fact.source_id sources)

-- `selected_at_receipt`, as the list of its targets.
unfoldable pub selected_at_receipt : List Source → List Fact → RootControl → Requirement → List Text
selected_at_receipt sources facts control req =
    if req.target_origin.constraint_kind == ConstraintKind.work_unit
    then map (λ f. f.target) (keep (selects_target sources control req) facts)
    else []

-- The set has two elements.
abbrev several : List Text → Bool
several [] = false
several (t ∷ ts) = any (λ u. not (u == t)) ts

abbrev target_in : Option Text → List Text → Bool
target_in none targets = false
target_in (some t) targets = contains targets t

-- What the reference says of the target, against what was selected by then.
unfoldable pub target_agrees : ScopeKind → Requirement → List Text → Option Text → Bool
target_agrees scope req selected target =
    (is_some target
      || not (scope == ScopeKind.exact || scope == ScopeKind.directory)
        && req.target_origin.constraint_kind == ConstraintKind.work_unit
        && is_empty selected)
    && (not (is_some target) || target == some req.target)
    && (not (req.target_origin.constraint_kind == ConstraintKind.work_unit)
        || not (several selected)
          && (not (is_empty selected)) == is_some target
          && (is_empty selected || target_in target selected))

unfoldable pub reference_valid :
    List Source → List Fact → RootControl → ControlledRef → Option Requirement → Bool
reference_valid sources facts control ref none = false
reference_valid sources facts control ref (some req) =
    ref.unit == req.unit
    && ref.revision == req.revision
    && ref.source_id == req.source.source_id
    && ref.seq == req.seq
    && target_agrees control.scope_basis.kind req (selected_at_receipt sources facts control req)
        ref.target
    && ref.scope_sha256 == req.scope_sha256
    && (not (req.seq == control.seq) || req.source.source_id == control.source.source_id)

-- `ref_ids == set(selected)`
abbrev pub same_keys : List Text → List Text → Bool
same_keys xs ys = all (contains ys) xs && all (contains xs) ys

-- The references are there, each once, are the selected requirements, and agree with them.
unfoldable pub references_valid : List Source → List Fact → RootControl → List Requirement → Bool
references_valid sources facts control selected =
    let refs = control.controlled_requirements in
    not (is_empty refs)
    && distinct (ids (λ ref. ref.requirement_id) refs)
    && same_keys (ids (λ ref. ref.requirement_id) refs) (ids (λ req. req.id) selected)
    && all
        (λ ref.
          reference_valid sources facts control ref (get_requirement ref.requirement_id selected))
        refs
