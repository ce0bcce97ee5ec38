-- ===== src/Core/Project.antt =====
-- `project`: the whole projection of a snapshot, with the Stop decision at its end.
pub mod Future
pub mod Parts
pub mod Decisions
pub mod Certificate
pub mod Idle
use codex_context_guard.Base.{
  ℕ, Bool, true, false, not, ◌&&◌, ◌||◌, Option, none, some, List, [], ◌∷◌, ◌++◌, Text, text_eq,
  option_eq, nat_eq, ◌==◌, contains, ltb, leb, keep, any, all, map, is_empty, if◌then◌else◌, Result,
  ok, ◌>>=◌, ◌>>◌,
}
use codex_context_guard.Base.Texts.{strip, is_space, text_leb, sorted_set}
use codex_context_guard.Base.Sorting.{sort}
use codex_context_guard.Core.Index.{index, ids, get, has}
use codex_context_guard.Core.Spans.{get_source, source_matches, scope_open}
use codex_context_guard.Core.Sources.{check_sources}
use codex_context_guard.Core.Units.{project_units}
use codex_context_guard.Core.Requirements.{
  get_requirement, check_supersessions, current_requirements, check_parents, historical_explained,
}
use codex_context_guard.Core.Facts.{admit_facts, drop_invalidated, released_conditions}
use codex_context_guard.Core.Speech.{Speech}
use codex_context_guard.Core.Controls.States.{ControlState, control_state_eq, States, state_of}
use codex_context_guard.Core.Controls.Scope.{slice}
use codex_context_guard.Core.Controls.Fold.{Fold, Ledger, fold_root_controls}
use codex_context_guard.Core.Predicates.{Predicate, predicate_eq, predicates, is_delivered}
use codex_context_guard.Core.Coverage.{
  active_root_ids, span_errors, unknown_coverage, interpreted_errors,
}
use codex_context_guard.Core.Actions.{
  Reason, predicate_at, admit_actions, keep_actions, held_actions,
}
use codex_context_guard.Core.Stops.{
  Stop, StopReason, external_operations, missing_requirements, represented_sources, unrepresented,
  claims_of, Findings, is_certifiable, stop_reasons, corrects, as_count, stop_decision,
  goal_allowed,
}
use codex_context_guard.Core.Model.{
  Snapshot, Source, Requirement, Fact, Condition, Intent, Basis, Span,
}
use codex_context_guard.Core.Kinds.{
  FactKind, fact_kind_eq, Outcome, outcome_eq, ConditionKind, condition_kind_eq, IntentKind,
  intent_kind_eq, ControlKind, ReleaseState,
}

-- `core-state/v2`, without the members that repeat the snapshot.
pub record Projection : Type 0 where
  pub predicates : List (Text × Predicate)
  pub delivery : List Text
  pub facts : List Text
  pub current_actions : List Basis
  pub rejected_actions : List (Text × Reason)
  pub unmet_requirements : List Text
  pub certifiable : Bool
  pub coverage_errors : List Text
  pub unknown_coverage : List Text
  pub root_control_states : States
  pub root_control_errors : List Text
  pub released : List Text
  pub explicit_user_persistence : Bool
  pub resume_with_actionable_work : Bool
  pub registered_external_operations : List Text
  pub stop : Stop
  pub reason_codes : List StopReason
  pub correction_count : ℕ
  pub goal_complete_allowed : Bool
  pub release_state : ReleaseState

-- `intent_valid`, and the root source that holds then.
unfoldable pub intent_source : Text → ℕ → List Source → Option Span → Option Source
intent_source unit revision sources none = none
intent_source unit revision sources (some span) = elim (get_source span.source_id sources) [
  | none ↦ none
  | some source ↦
      if source_matches span sources true && source.unit == unit && source.revision == revision
      then some source
      else none
]

abbrev intent_text : Source → Option Span → Text
intent_text source none = []
intent_text source (some span) = strip is_space (slice source span.start span.end)

abbrev asks_resume : IntentKind → Bool
asks_resume kind = kind == IntentKind.resume || kind == IntentKind.persistence_and_resume

abbrev seq_at_most : ℕ → Option Requirement → Bool
seq_at_most at_seq none = false
seq_at_most at_seq (some req) = leb req.seq at_seq

-- `old_resume`
unfoldable pub old_resume : Speech → Intent → List Requirement → List Basis → Option Source → Bool
old_resume speech intent current actions none = false
old_resume speech intent current actions (some source) =
    asks_resume intent.kind
    && speech.control_speech (intent_text source intent.source) ControlKind.resume
    && any (λ a. seq_at_most source.seq (get_requirement a.requirement_id current)) actions

-- `resumed`
unfoldable pub is_resumed :
    Speech → Intent → List Requirement → List Basis → Option Source → List Text → Bool
is_resumed speech intent current actions source resumed =
    old_resume speech intent current actions source
    || any (λ a. contains resumed a.requirement_id) actions

abbrev open_at : ℕ → Option Requirement → Bool
open_at watermark none = false
open_at watermark (some req) = scope_open req watermark

-- `persistence`
unfoldable pub persists : ℕ → List Requirement → States → Bool
persists watermark requirements states =
    any
      (λ (key, state).
        (state == ControlState.persistent || state == ControlState.persistent_paused)
        && open_at watermark (get_requirement key requirements))
      states

-- `persistence_ready`
unfoldable pub persistence_ready : States → List Basis → Bool
persistence_ready states actions =
    any (λ a. state_of a.requirement_id states == some ControlState.persistent) actions

-- What the first part of `project` establishes, or raises: the indexed rows, the projected units,
-- the current requirements with their predicates, the facts, the candidates and the controls.
pub record Gathered : Type 0 where
  pub sources : List Source
  pub units : List Text
  pub requirements : List Requirement
  pub current : List Requirement
  pub explained : List Requirement
  pub effects : List Fact
  pub valid : List Fact
  pub released : List Text
  pub errors : List Text
  pub results : List (Text × Predicate)
  pub admitted : List Basis
  pub rejected : List (Text × Reason)
  pub fold : Fold

abbrev active_of : Snapshot → List Text → List Source → List Requirement → List Text
active_of snapshot units sources requirements =
    active_root_ids snapshot.as_of snapshot.revision units sources requirements
      snapshot.root_controls

module _ (speech : Speech) (sha256 : List ℕ → Text) where
  abbrev ledger_of : Snapshot → List Source → List Requirement → List Fact → List Text → Ledger
  ledger_of snapshot sources requirements facts units = record {
    speech = speech;
    sources = sources;
    requirements = requirements;
    facts = facts;
    units = units;
    watermark = snapshot.as_of;
  }

  unfoldable pub gather : Snapshot → Result Gathered
  gather snapshot = do
    let watermark = snapshot.as_of
    sources ← index (λ (s : Source). s.id) (λ s. s.seq) watermark snapshot.sources
    check_sources sha256 sources sources
    units ← project_units snapshot.unit sources snapshot.units
    requirements ← index (λ (r : Requirement). r.id) (λ r. r.seq) watermark snapshot.requirements
    facts ← index (λ (f : Fact). f.id) (λ f. f.seq) watermark snapshot.facts
    check_supersessions watermark sources requirements requirements
    let current = current_requirements units watermark requirements
    check_parents requirements current
    effects ← admit_facts sources current facts
    let valid = drop_invalidated effects
    released ← released_conditions sources current valid snapshot.conditions
    let explained = historical_explained units watermark sources requirements
    interpreted ←
        interpreted_errors watermark units sources (current ++ explained) snapshot.root_controls
          snapshot.coverage
    let results = predicates watermark snapshot.turn sources effects valid current
    let candidates = admit_actions watermark sources current valid results released snapshot.actions
    fold ←
        fold_root_controls (ledger_of snapshot sources requirements effects units)
          snapshot.root_controls
    ok (record {
      sources = sources;
      units = units;
      requirements = requirements;
      current = current;
      explained = explained;
      effects = effects;
      valid = valid;
      released = released;
      errors =
          span_errors (active_of snapshot units sources requirements) sources snapshot.coverage
            sources
          ++ interpreted;
      results = results;
      admitted = candidates.0;
      rejected = candidates.1;
      fold = fold;
    })

  -- `kept_actions`, and whether they are resumed.
  unfoldable pub actions_of : Gathered → List Basis
  actions_of g = keep_actions g.fold.states g.admitted

  unfoldable pub resumed_of : Snapshot → Gathered → Bool
  resumed_of snapshot g =
      is_resumed speech snapshot.intent g.current (actions_of g)
        (intent_source snapshot.unit snapshot.revision g.sources snapshot.intent.source)
        g.fold.resumed

  unfoldable pub findings_of : Snapshot → Gathered → Findings
  findings_of snapshot g =
      let active = active_of snapshot g.units g.sources g.requirements in
      record {
        missing = missing_requirements snapshot.as_of g.results g.fold.states g.current;
        coverage_errors = g.errors;
        unknown_coverage = unknown_coverage active snapshot.coverage g.sources;
        missing_sources =
            unrepresented active (represented_sources g.current g.explained g.fold.represented);
        control_errors = g.fold.errors;
        external = external_operations g.units g.current snapshot.conditions g.released g.valid;
        actions = actions_of g;
        persistence_ready = persistence_ready g.fold.states (actions_of g);
        resumed = resumed_of snapshot g;
      }

  -- The second part, which raises nothing.
  unfoldable pub conclude : Snapshot → Gathered → Projection
  conclude snapshot g =
      let found = findings_of snapshot g in
      let claims = claims_of snapshot in
      record {
        predicates = g.results;
        delivery = sort text_leb (
            ids (λ r. r.id)
              (keep (is_delivered snapshot.as_of snapshot.turn g.sources g.valid) g.current));
        facts = sort text_leb (ids (λ f. f.id) g.valid);
        current_actions = actions_of g;
        rejected_actions = g.rejected ++ held_actions g.fold.states g.admitted;
        unmet_requirements = found.missing;
        certifiable = is_certifiable found;
        coverage_errors = sorted_set g.errors;
        unknown_coverage = sorted_set found.unknown_coverage;
        root_control_states = g.fold.states;
        root_control_errors = sort text_leb g.fold.errors;
        released = g.released;
        explicit_user_persistence = persists snapshot.as_of g.requirements g.fold.states;
        resume_with_actionable_work = found.resumed;
        registered_external_operations = found.external;
        stop = stop_decision claims found;
        reason_codes = stop_reasons claims found;
        correction_count = as_count (corrects claims found);
        goal_complete_allowed = goal_allowed claims found;
        release_state = snapshot.release_state;
      }

  -- `project`, over the recognisers of speech and `hashlib.sha256`. The snapshot is one that
  -- `validate_snapshot` accepts.
  unfoldable pub project : Snapshot → Result Projection
  project snapshot = gather snapshot >>= λ g. ok (conclude snapshot g)
