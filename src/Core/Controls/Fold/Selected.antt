-- ===== src/Core/Controls/Fold/Selected.antt =====
-- A control governs eligible requirements only.
use mathlib.Core.Path.{subst}
use mathlib.Core.List.{Memᴰ}
use mathlib.Core.Option.{some-injective}
use codex_context_guard.Base.{
  ℕ, ◌≡◌, refl, true, Option, none, some, List, Text, text_eq, option_eq, nat_eq, ◌==◌, keep, arith,
  All, All-keep, All-keep_mem,
}
use codex_context_guard.Core.Speech.{Speech}
use codex_context_guard.Core.Model.{Source, Span, Requirement, RootControl}
use codex_context_guard.Core.Kinds.{requirement_kind_eq, ScopeKind}
use codex_context_guard.Core.Controls.States.{control_state_eq, States}
use codex_context_guard.Core.Controls.Scope.{
  whole_text, is_eligible, eligible, selection, current_unit_scope, directory_scope,
  action_class_scope, parent_task_scope, with_children, with_target,
}
use codex_context_guard.Core.Controls.Fold.{Ledger, governed, scoped, referenced}

module _ (P : Requirement → Type 0) (speech : Speech) (source : Source) (control : RootControl)
    (rows : List Requirement) where
  current_unit-All :
      {selected : List Requirement}
      → All P rows
      → current_unit_scope speech source control rows ≡ some selected
      → All P selected
  unfolding current_unit_scope
  current_unit-All all e = subst (All P) (ground arith) all

  action_class-All :
      (target : Text) (span : Span) {selected : List Requirement}
      → All P rows
      → action_class_scope speech source control target span rows ≡ some selected
      → All P selected
  unfolding action_class_scope
  action_class-All target span {selected} all e =
      let same : keep (λ req. req.action == target) rows ≡ selected = ground arith in
      subst (All P) same (All-keep P _ rows all)

  with_children-All : (target : Text) → All P rows → All P (with_children target rows)
  unfolding with_children
  with_children-All target all = All-keep P _ rows all

  directory-All : (target : Text) → All P rows → All P (directory_scope target rows)
  unfolding directory_scope
  directory-All target all = All-keep P _ rows all

  with_target-All :
      (target : Option Text) (span : Option Span) (f : Text → Span → Option (List Requirement))
      {selected : List Requirement}
      → ((t : Text) (s : Span) → f t s ≡ some selected → All P selected)
      → with_target target span f ≡ some selected
      → All P selected
  with_target-All (some t) (some s) f h e = h t s e
  with_target-All (some t) none f h e = cc
  with_target-All none span f h e = cc

  parent_task-All :
      (target : Text) (span : Span) {selected : List Requirement}
      → All P rows
      → parent_task_scope speech source control target span rows ≡ some selected
      → All P selected
  unfolding parent_task_scope
  parent_task-All target span {selected} all e =
      let same : with_children target rows ≡ selected = ground arith in
      subst (All P) same (with_children-All target all)

  -- A selection takes its requirements from the eligible ones, whatever the scope.
  selection-All :
      (kind : ScopeKind) {selected : List Requirement}
      → All P rows
      → selection speech source control kind rows ≡ some selected
      → All P selected
  unfolding selection
  selection-All ScopeKind.current_unit all e = current_unit-All all e
  selection-All ScopeKind.exact all e =
      with_target-All control.scope_basis.target control.scope_basis.target_source _
        (λ t s e'. subst (All P) (some-injective _ _ e') (All-keep P _ rows all)) e
  selection-All ScopeKind.directory all e =
      with_target-All control.scope_basis.target control.scope_basis.target_source _
        (λ t s e'. subst (All P) (some-injective _ _ e') (directory-All t all)) e
  selection-All ScopeKind.action_class all e =
      with_target-All control.scope_basis.target control.scope_basis.target_source _
        (λ t s e'. action_class-All t s all e') e
  selection-All ScopeKind.parent_task all e =
      with_target-All control.scope_basis.target control.scope_basis.target_source _
        (λ t s e'. parent_task-All t s all e') e

module _ (ledger : Ledger) where
  open ledger use {speech, sources, requirements, facts, units, watermark}

  abbrev pub Eligible : States → RootControl → Text → Requirement → Type 0
  Eligible states control unit req =
      (is_eligible sources states control unit req ≡ true) × Memᴰ req requirements

  eligible-All :
      (states : States) (control : RootControl) (unit : Text)
      → All (Eligible states control unit) (eligible sources states control unit requirements)
  unfolding eligible
  eligible-All states control unit =
      All-keep_mem (is_eligible sources states control unit) requirements

  referenced-eq :
      (control : RootControl) (o : Option (List Requirement)) {selected : List Requirement}
      → referenced ledger control o ≡ some selected
      → o ≡ some selected
  unfolding referenced
  referenced-eq control none e = cc
  referenced-eq control (some s) e = ground arith

  scoped-All :
      (states : States) (control : RootControl) (source : Source) (o : Option (ℕ × ℕ))
      {selected : List Requirement}
      → scoped ledger states control source o ≡ some selected
      → All (Eligible states control source.unit) selected
  unfolding scoped
  scoped-All states control source none e = cc
  scoped-All states control source (some sentence) e =
      selection-All (Eligible states control source.unit) speech source control
        (eligible sources states control source.unit requirements) control.scope_basis.kind
        (eligible-All states control source.unit)
        (referenced-eq control
          (selection speech source control control.scope_basis.kind
            (eligible sources states control source.unit requirements))
          (ground arith))

  governed-none :
      (states : States) (positions : List RootControl) (control : RootControl)
      → governed ledger states positions control none ≡ none
  unfolding governed
  governed-none states positions control = refl

  governed-some :
      (states : States) (positions : List RootControl) (control : RootControl) (source : Source)
      {selected : List Requirement}
      → governed ledger states positions control (some source) ≡ some selected
      → scoped ledger states control source
          (speech.sentence_bounds (whole_text source) control.source)
        ≡ some selected
  unfolding governed
  governed-some states positions control source e = ground arith

  -- The requirements that an accepted control governs are eligible ones of its source's unit.
  pub governed-Eligible :
      (states : States) (positions : List RootControl) (control : RootControl) (o : Option Source)
      {selected : List Requirement}
      → governed ledger states positions control o ≡ some selected
      → (source : Source) × (o ≡ some source) × All (Eligible states control source.unit) selected
  governed-Eligible states positions control none e = cc (governed-none states positions control)
  governed-Eligible states positions control (some source) e = (
    source,
    refl,
    scoped-All states control source (speech.sentence_bounds (whole_text source) control.source)
        (governed-some states positions control source e),
  )
