-- ===== src/Core/Controls/Fold.antt =====
-- The loop of `_fold_root_controls` over the controls in order.
pub mod Selected
pub mod Invariants
pub mod Reports
pub mod Order
use codex_context_guard.Base.{
  ℕ, Bool, true, false, not, ◌&&◌, ◌||◌, Option, none, some, List, [], ◌∷◌, ◌++◌, Text, text_eq,
  option_eq, nat_eq, ◌==◌, contains, ltb, leb, keep, any, length, is_some, if◌then◌else◌, Result,
  ok, raise_if, ◌>>=◌, ◌>>◌, duplicate_root_control,
}
use codex_context_guard.Base.Texts.{text_leb}
use codex_context_guard.Base.Sorting.{sort}
use codex_context_guard.Core.Index.{ids, distinct}
use codex_context_guard.Core.Spans.{get_source, source_matches}
use codex_context_guard.Core.Speech.{Speech}
use codex_context_guard.Core.Controls.States.{
  ControlState, States, state_of, or_ordinary, apply_control, resumes,
}
use codex_context_guard.Core.Controls.Scope.{whole_text, slice, eligible, basis_valid, selection}
use codex_context_guard.Core.Controls.References.{references_valid}
use codex_context_guard.Core.Model.{Source, Span, Requirement, Fact, RootControl}
use codex_context_guard.Core.Kinds.{
  RequirementKind, requirement_kind_eq, SourceKind, source_kind_eq, ControlKind,
}

-- `states`, `errors`, `represented`, `resumed` and `positions`. The sets are lists.
pub record Fold : Type 0 where
  pub states : States
  pub errors : List Text
  pub represented : List Text
  pub resumed : List Text
  pub positions : List RootControl

abbrev pub empty_fold : Fold
empty_fold = record { states = []; errors = []; represented = []; resumed = []; positions = [] }

-- Two controls have one position: the moment, the source and the start of the span.
abbrev same_position : RootControl → RootControl → Bool
same_position a b =
    a.seq == b.seq && a.source.source_id == b.source.source_id && a.source.start == b.source.start

-- What the fold reads and does not change.
pub record Ledger : Type 0 where
  pub speech : Speech
  pub sources : List Source
  pub requirements : List Requirement
  pub facts : List Fact
  pub units : List Text
  pub watermark : ℕ

module _ (ledger : Ledger) where
  open ledger use {speech, sources, requirements, facts, units, watermark}

  -- The first check: the root, its moment, its position and that no other source has that moment.
  unfoldable pub located : RootControl → List RootControl → Source → Bool
  located control positions source =
      source.kind == SourceKind.root
      && source.seq == control.seq
      && source_matches control.source sources true
      && not (any (same_position control) positions)
      && length (keep (λ s. s.seq == control.seq) sources) == 1

  -- An execution requirement of the unit is superseded at this very moment.
  unfoldable pub same_moment : RootControl → Text → Bool
  same_moment control unit =
      any
        (λ req.
          req.unit == unit
          && req.kind == RequirementKind.execution
          && req.superseded_at_seq == some control.seq)
        requirements

  unfoldable pub referenced : RootControl → Option (List Requirement) → Option (List Requirement)
  referenced control none = none
  referenced control (some selected) =
      if references_valid sources facts control selected then some selected else none

  unfoldable pub scoped : States → RootControl → Source → Option (ℕ × ℕ) → Option (List Requirement)
  scoped states control source none = none
  scoped states control source (some sentence) =
      if not
        (speech.control_speech (slice source control.source.start control.source.end) control.kind)
      then none
      else if not (basis_valid speech sources source control sentence control.scope_basis.kind)
      then none
      else if same_moment control source.unit
      then none
      else referenced control (
          selection speech source control control.scope_basis.kind
            (eligible sources states control source.unit requirements))

  -- The requirements that the control governs, and none where it is an error.
  unfoldable pub governed :
      States → List RootControl → RootControl → Option Source → Option (List Requirement)
  governed states positions control none = none
  governed states positions control (some source) =
      if located control positions source
      then scoped states control source (speech.sentence_bounds (whole_text source) control.source)
      else none

  -- `for key in selected`
  unfoldable pub apply_all : ControlKind → List Requirement → States → States
  apply_all kind [] states = states
  apply_all kind (req ∷ rest) states = apply_all kind rest (apply_control kind req.id states)

  unfoldable pub newly_resumed : ControlKind → List Requirement → States → List Text
  newly_resumed kind selected states =
      ids (λ r. r.id) (keep (λ req. resumes kind (or_ordinary (state_of req.id states))) selected)

  -- An accepted control, or one that is reported among the errors.
  unfoldable pub settle : RootControl → Option (List Requirement) → Fold → Fold
  settle control none fold = record fold {
    errors = fold.errors ++ control.id ∷ [];
    positions = control ∷ fold.positions;
  }
  settle control (some selected) fold = record fold {
    states = apply_all control.kind selected fold.states;
    represented = control.source.source_id ∷ fold.represented;
    resumed = newly_resumed control.kind selected fold.states ++ fold.resumed;
    positions = control ∷ fold.positions;
  }

  -- The control's source belongs to a unit outside the projection.
  abbrev elsewhere : Option Source → Bool
  elsewhere none = false
  elsewhere (some source) = not (contains units source.unit)

  -- The body of the loop.
  unfoldable pub fold_step : RootControl → Fold → Fold
  fold_step control fold =
      let source = get_source control.source.source_id sources in
      if ltb watermark control.seq
      then fold
      else if elsewhere source
      then fold
      else settle control (governed fold.states fold.positions control source) fold

  unfoldable pub fold_from : List RootControl → Fold → Fold
  fold_from [] fold = fold
  fold_from (control ∷ rest) fold = fold_from rest (fold_step control fold)

-- `(c["seq"], c["source"]["start"], c["id"])`
unfoldable pub control_before : RootControl → RootControl → Bool
control_before a b =
    if a.seq == b.seq
    then if a.source.start == b.source.start
      then text_leb a.id b.id
      else ltb a.source.start b.source.start
    else ltb a.seq b.seq

-- The whole of `_fold_root_controls`.
unfoldable pub fold_root_controls : Ledger → List RootControl → Result Fold
fold_root_controls ledger controls = do
  raise_if (not (distinct (ids (λ c. c.id) controls))) duplicate_root_control
  ok (fold_from ledger (sort control_before controls) empty_fold)
