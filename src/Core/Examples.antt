-- ===== src/Core/Examples.antt =====
-- Runs of `project` and of its parts on the session of Samples, and the theorems at it.
use codex_context_guard.Base.{
  ◌≡◌, ◌≢◌, ◌↔◌, refl, true, none, some, List, [], ◌∷◌, ok, All, arith, contains, option_eq,
  bool_eq, nat_eq, text_eq,
}
use codex_context_guard.Base.Paths.{normal_parts, leading, normpath, path_join}
use codex_context_guard.Base.Sorting.{insert, sort}
use codex_context_guard.Base.Texts.{
  codes, starts_with, byte_width, byte_length, decode_prefix, encode_char, encode, lstrip, rstrip,
  strip, is_space, split, join, text_leb, unique, sorted_set, decode_suffix, decode_slice,
  ends_with, drop_last,
}
use codex_context_guard.Core.Actions.{
  predicate_at, basis_stands, relation_admits, is_ready, candidate_valid, admit_actions, holds_back,
  keep_actions, held_actions,
}
use codex_context_guard.Core.Closure.{close, closure}
use codex_context_guard.Core.Closure.Laws.{Under, closure_iff}
use codex_context_guard.Core.Controls.Fold.{
  located, same_moment, referenced, scoped, governed, apply_all, newly_resumed, settle, fold_step,
  fold_from, control_before, fold_root_controls,
}
use codex_context_guard.Core.Controls.Fold.Invariants.{
  AllGovernable, fold_from_cancelled, fold_root_controls-AllGovernable,
}
use codex_context_guard.Core.Controls.Fold.Reports.{IsSettled, fold_root_controls-IsSettled}
use codex_context_guard.Core.Controls.References.{
  selects_target, selected_at_receipt, target_agrees, reference_valid, references_valid,
}
use codex_context_guard.Core.Controls.Scope.{
  whole_text, slice, one_parent, single_root_task_scope, is_eligible, eligible, target_inside,
  literal_target, named_target, literal_named, basis_valid, subject_resolved, current_unit_scope,
  directory_scope, is_singular, action_class_scope, named_repair, with_children, parent_task_scope,
  selection,
}
use codex_context_guard.Core.Controls.States.{
  ControlState, or_ordinary, control_state_eq, state_of, set_state, transition, apply_control,
  resumes,
}
use codex_context_guard.Core.Coverage.{
  active_root_ids, spans_of, walk_spans, unknown_spans, span_errors, unknown_coverage, residue,
  walk_covered, uncovered, covered_by, interpreted_error, interpreted_errors,
}
use codex_context_guard.Core.Coverage.Laws.{Tiles, walk_spans_iff}
use codex_context_guard.Core.Facts.{
  same_call, earlier, stale_origin, call_fact_valid, fact_valid, admit_facts, invalidated,
  drop_invalidated, releases, condition_released, released_conditions,
}
use codex_context_guard.Core.Facts.Laws.{IsAdmissible, admit_facts-IsAdmissible}
use codex_context_guard.Core.Index.{get, has, index_from, index}
use codex_context_guard.Core.Kinds.{
  RequirementKind, Status, source_kind_eq, subject_kind_eq, flavor_eq, constraint_kind_eq,
  requirement_kind_eq, status_eq, evidence_kind_eq, fact_kind_eq, outcome_eq, owner_eq, relation_eq,
  basis_state_eq, control_kind_eq, scope_kind_eq, intent_kind_eq, coverage_kind_eq,
  condition_kind_eq, condition_status_eq, release_state_eq,
}
use codex_context_guard.Core.Model.{Source, WorkUnit, Fact, span_eq}
use codex_context_guard.Core.Predicates.{
  Predicate, predicate_eq, origin_bound, is_mutation, mutation_facts, violates, crosses,
  constraint_predicate, evidence_is, is_evidence, latest_evidence, counts, is_settled, predicate_of,
  is_delivered, predicates,
}
use codex_context_guard.Core.Predicates.Laws.{IsSettledBy, predicate-IsSettledBy}
use codex_context_guard.Core.Project.{
  Gathered, intent_source, old_resume, is_resumed, persists, persistence_ready, gather, actions_of,
  resumed_of, findings_of, conclude, project,
}
use codex_context_guard.Core.Project.Certificate.{IsCertified, project-IsCertified}
use codex_context_guard.Core.Project.Decisions.{EndsAs, project-EndsAs, IsOffer, project-IsOffer}
use codex_context_guard.Core.Project.Future.{arrive, IsBehind, project-arrive}
use codex_context_guard.Core.Project.Idle.{IsOptional, project-IsOptional, project-goal_complete}
use codex_context_guard.Core.Requirements.{
  superseding_source, superseding_successor, check_interval, check_keys, check_supersessions,
  current_requirements, check_parents, historical_explained,
}
use codex_context_guard.Core.Samples.{
  plain_speech, digest, request, call, result, edit, edited, readied, keep_going, covered, work,
}
use codex_context_guard.Core.Snapshots.{
  open_work, closed_work, later, ledger, closed_projection, open_projection, kept_fold,
  cancelled_fold,
}
use codex_context_guard.Core.Sources.{
  origin_fits, origin_valid, identity_valid, check_source, check_sources,
}
use codex_context_guard.Core.Sources.Laws.{IsSound, check_sources-IsSound}
use codex_context_guard.Core.Spans.{at_boundaries, matches_source, source_matches, scope_open}
use codex_context_guard.Core.Stops.{
  external_operations, is_missing, missing_requirements, represented_sources, unrepresented,
  is_certifiable, stop_reasons, corrects, stop_decision, goal_allowed,
}
use codex_context_guard.Core.Targets.{
  source_valid, constraint_stated, inherently_filesystem, drive_path, is_absolute,
  rooted_constraint, relative_literal, relative_valid, locator_valid, root_target_valid,
  selected_by_host, target_allowed, call_kind_is, typed_host_conflict, origin_agrees, target_valid,
}
use codex_context_guard.Core.Units.{
  walk, parents_valid, unit_source_valid, check_rows, project_units,
}
use codex_context_guard.Core.Units.Laws.{IsForest, project_units-IsForest, walk-ne-none}

abbrev session : List Source
session = request ∷ call ∷ result ∷ []

-- The runs: the snapshot after the edit, the one before it, the fold, and the checks of sources,
-- units and facts.
runs :
    (project plain_speech digest closed_work ≡ ok closed_projection)
    × (project plain_speech digest open_work ≡ ok open_projection)
    × (fold_root_controls ledger (keep_going ∷ []) ≡ ok kept_fold)
    × (check_sources digest session session ≡ ok tt)
    × (project_units (codes "u") session (work ∷ []) ≡ ok (codes "u" ∷ []))
    × (admit_facts session (edit ∷ []) (readied ∷ edited ∷ []) ≡ ok (readied ∷ edited ∷ []))
    × (predicate_of 3 (codes "t") session (edited ∷ []) (edited ∷ []) edit ≡ Predicate.satisfied)
    × (state_of (codes "edit") cancelled_fold.states ≡ some ControlState.cancelled)
unfolding option_eq bool_eq nat_eq text_eq normal_parts leading normpath path_join insert sort
    starts_with byte_width byte_length decode_prefix encode_char encode lstrip rstrip strip is_space
    split join text_leb unique sorted_set decode_suffix decode_slice ends_with drop_last
    predicate_at basis_stands relation_admits is_ready candidate_valid admit_actions holds_back
    keep_actions held_actions close closure located same_moment referenced scoped governed apply_all
    newly_resumed settle fold_step fold_from control_before fold_root_controls selects_target
    selected_at_receipt target_agrees reference_valid references_valid whole_text slice one_parent
    single_root_task_scope is_eligible eligible target_inside literal_target named_target
    literal_named basis_valid subject_resolved current_unit_scope directory_scope is_singular
    action_class_scope named_repair with_children parent_task_scope selection control_state_eq
    state_of set_state or_ordinary transition apply_control resumes active_root_ids spans_of
    walk_spans unknown_spans span_errors unknown_coverage residue walk_covered uncovered covered_by
    interpreted_error interpreted_errors same_call earlier stale_origin call_fact_valid fact_valid
    admit_facts invalidated drop_invalidated releases condition_released released_conditions get has
    index_from index source_kind_eq subject_kind_eq flavor_eq constraint_kind_eq requirement_kind_eq
    status_eq evidence_kind_eq fact_kind_eq outcome_eq owner_eq relation_eq basis_state_eq
    control_kind_eq scope_kind_eq intent_kind_eq coverage_kind_eq condition_kind_eq
    condition_status_eq release_state_eq span_eq predicate_eq origin_bound is_mutation
    mutation_facts violates crosses constraint_predicate evidence_is is_evidence latest_evidence
    counts is_settled predicate_of is_delivered predicates intent_source old_resume is_resumed
    persists persistence_ready external_operations is_missing missing_requirements
    represented_sources unrepresented is_certifiable stop_reasons corrects stop_decision
    goal_allowed gather actions_of resumed_of findings_of conclude project superseding_source
    superseding_successor check_interval check_keys check_supersessions current_requirements
    check_parents historical_explained origin_fits origin_valid identity_valid check_source
    check_sources at_boundaries matches_source source_matches scope_open source_valid
    constraint_stated inherently_filesystem drive_path is_absolute rooted_constraint
    relative_literal relative_valid locator_valid root_target_valid selected_by_host target_allowed
    call_kind_is typed_host_conflict origin_agrees target_valid walk parents_valid unit_source_valid
    check_rows project_units
runs = (refl, refl, refl, refl, refl, refl, refl, refl)

later_IsBehind : IsBehind later closed_work
unfolding text_eq nat_eq
later_IsBehind = record {
  new_source = refl;
  new_requirement = refl;
  new_fact = refl;
  new_control = refl;
  late_source = omega arith;
  late_requirement = omega arith;
  late_fact = omega arith;
  late_action = omega arith;
  late_control = omega arith;
}

project-arrive_example :
    project plain_speech digest (arrive later closed_work) ≡ project plain_speech digest closed_work
project-arrive_example = project-arrive plain_speech digest closed_work later later_IsBehind

project-IsCertified_example :
    (g : Gathered) × (gather plain_speech digest closed_work ≡ ok g)
    × IsCertified closed_work closed_projection g
project-IsCertified_example =
    project-IsCertified plain_speech digest closed_work closed_projection runs.0 refl

project-goal_complete_example :
    (g : Gathered) × (gather plain_speech digest closed_work ≡ ok g)
    × IsCertified closed_work closed_projection g
    × All (IsOptional g) closed_projection.current_actions
project-goal_complete_example =
    project-goal_complete plain_speech digest closed_work closed_projection runs.0 refl refl

project-IsOptional_example :
    (g : Gathered) × (gather plain_speech digest closed_work ≡ ok g)
    × All (IsOptional g) closed_projection.current_actions
project-IsOptional_example =
    project-IsOptional plain_speech digest closed_work closed_projection runs.0 refl

project-IsOffer_example :
    (g : Gathered) × (gather plain_speech digest open_work ≡ ok g)
    × IsOffer plain_speech digest open_work open_projection g
project-IsOffer_example = project-IsOffer plain_speech digest open_work open_projection runs.1

project-EndsAs_example : EndsAs open_work open_projection
project-EndsAs_example = project-EndsAs plain_speech digest open_work open_projection runs.1

fold_from_cancelled_example :
    state_of (codes "edit") (fold_from ledger (keep_going ∷ []) cancelled_fold).states
    ≡ some ControlState.cancelled
fold_from_cancelled_example =
    fold_from_cancelled ledger (keep_going ∷ []) cancelled_fold (codes "edit") runs.7

fold_root_controls-AllGovernable_example : AllGovernable ledger kept_fold.states
fold_root_controls-AllGovernable_example =
    fold_root_controls-AllGovernable ledger (keep_going ∷ []) kept_fold runs.2

fold_root_controls-IsSettled_example :
    All (IsSettled ledger (sort control_before (keep_going ∷ [])) kept_fold) (keep_going ∷ [])
fold_root_controls-IsSettled_example =
    fold_root_controls-IsSettled ledger (keep_going ∷ []) kept_fold runs.2

predicate-IsSettledBy_example :
    (fact : Fact) × IsSettledBy (codes "t") session (edited ∷ []) edit fact
    × (scope_open edit 3 ≡ true)
    × (edit.status ≢ Status.legacy_review)
    × (source_valid session edit ≡ true)
    × (edit.kind ≢ RequirementKind.constraint)
    × (edit.kind ≢ RequirementKind.unknown)
    × (target_valid 3 session (edited ∷ []) edit ≡ true)
predicate-IsSettledBy_example =
    predicate-IsSettledBy 3 (codes "t") session (edited ∷ []) (edited ∷ []) edit runs.6

admit_facts-IsAdmissible_example : All (IsAdmissible session) (readied ∷ edited ∷ [])
admit_facts-IsAdmissible_example =
    admit_facts-IsAdmissible session (edit ∷ []) (readied ∷ edited ∷ []) (readied ∷ edited ∷ [])
      runs.5

project_units-IsForest_example : IsForest (codes "u") session (work ∷ []) (codes "u" ∷ [])
project_units-IsForest_example =
    project_units-IsForest (codes "u") session (work ∷ []) (codes "u" ∷ []) runs.4

check_sources-IsSound_example : All (IsSound digest session) session
check_sources-IsSound_example = check_sources-IsSound digest session session runs.3

abbrev nested : List WorkUnit
nested = work ∷ record work { id = codes "v"; parent_id = some (codes "u") } ∷ []

closure_iff_example :
    (contains
        (closure
          (λ (u : WorkUnit). u.id)
          (λ u. u.parent_id)
          (λ u. u.required)
          (codes "u" ∷ [])
          nested)
        (codes "v")
      ≡ true)
    ↔ Under
        (λ (u : WorkUnit). u.id)
        (λ u. u.parent_id)
        (λ u. u.required)
        (codes "u" ∷ [])
        nested
        (codes "v")
closure_iff_example =
    closure_iff (λ (u : WorkUnit). u.id) (λ u. u.parent_id) (λ u. u.required) (codes "u" ∷ [])
      nested (codes "v")

walk-ne-none_example : walk 3 (codes "v" ∷ []) (some (codes "u")) nested ≢ none
walk-ne-none_example = walk-ne-none (codes "v" ∷ []) (some (codes "u")) nested

walk_spans_iff_example :
    (walk_spans session request 0 (covered ∷ []) ≡ [])
    ↔ Tiles session 0 request.byte_length (covered ∷ [])
walk_spans_iff_example = walk_spans_iff session request (covered ∷ [])
