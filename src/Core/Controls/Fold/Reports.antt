-- ===== src/Core/Controls/Fold/Reports.antt =====
-- The fold accounts for every root control that it considers.
use mathlib.Core.Path.{subst}
use mathlib.Core.List.{append_assoc}
use codex_context_guard.Base.{
  ◌≡◌, ◌⊎◌, refl, sym, ap, ◌∙◌, ◌++◌, Text, Option-cases, inl, inr, Bool, true, false, not, ◌&&◌,
  Option, none, some, List, [], ◌∷◌, text_eq, option_eq, nat_eq, contains, ltb, if◌then◌else◌, ok,
  arith, All, Bool-cases,
}
use codex_context_guard.Core.Spans.{get_source}
use codex_context_guard.Base.Sorting.{sort, sort-All}
use codex_context_guard.Base.Texts.Distinct.{contains-append}
use codex_context_guard.Core.Model.{Requirement, RootControl}
use codex_context_guard.Core.Kinds.{requirement_kind_eq}
use codex_context_guard.Core.Controls.States.{control_state_eq}
use codex_context_guard.Core.Controls.Fold.{
  Fold, Ledger, empty_fold, governed, settle, fold_step, fold_from, elsewhere, apply_all,
  newly_resumed, fold_root_controls, control_before,
}
use codex_context_guard.Core.Controls.Fold.Invariants.{fold_root_controls-eq}

module _ (ledger : Ledger) where
  open ledger use {sources, requirements, units, watermark}

  -- The fold considers the control: it is due, and its source is of a projected unit or missing.
  abbrev pub is_considered : RootControl → Bool
  is_considered control =
      not (ltb watermark control.seq)
      && not (elsewhere ledger (get_source control.source.source_id sources))

  -- What is among the errors or the represented of a fold stays there.
  Grows : Fold → Fold → Type 0
  Grows fold next =
      ((id : Text) → contains fold.errors id ≡ true → contains next.errors id ≡ true)
      × ((id : Text) → contains fold.represented id ≡ true → contains next.represented id ≡ true)

  settle-Grows :
      (control : RootControl) (o : Option (List Requirement)) (fold : Fold)
      → Grows fold (settle ledger control o fold)
  unfolding Grows settle
  settle-Grows control none fold =
      ((λ id e. ground (arith, contains-append fold.errors (control.id ∷ []) id)), λ id e. e)
  settle-Grows control (some s) fold = ((λ id e. e), λ id e. ground arith)

  fold_step-eq :
      (control : RootControl) (fold : Fold)
      → fold_step ledger control fold ≡ (
          if is_considered control
          then settle ledger control
              (governed ledger fold.states fold.positions control
                (get_source control.source.source_id sources))
              fold
          else fold)
  unfolding fold_step
  fold_step-eq control fold = ground arith

  step-Grows : (control : RootControl) (fold : Fold) → Grows fold (fold_step ledger control fold)
  unfolding Grows
  step-Grows control fold = elim (Bool-cases (is_considered control)) [
    | inl due ↦
        rw (fold_step-eq control fold, due)
          (settle-Grows control
            (governed ledger fold.states fold.positions control
              (get_source control.source.source_id sources))
            fold)
    | inr skipped ↦ rw (fold_step-eq control fold, skipped) ((λ id e. e), λ id e. e)
  ]

  fold_from-Grows :
      (controls : List RootControl) (fold : Fold) → Grows fold (fold_from ledger controls fold)
  unfolding fold_from Grows
  fold_from-Grows [] fold = ((λ id e. e), λ id e. e)
  fold_from-Grows (control ∷ rest) fold =
      let step = fold_step ledger control fold in
      let (errors, represented) = step-Grows control fold in
      let (later_errors, later_represented) = fold_from-Grows rest step in
      ((λ id e. later_errors id (errors id e)), λ id e. later_represented id (represented id e))

  fold_from-append :
      (before after : List RootControl) (fold : Fold)
      → fold_from ledger (before ++ after) fold
        ≡ fold_from ledger after (fold_from ledger before fold)
  unfolding fold_from
  fold_from-append [] after fold = refl
  fold_from-append (control ∷ before) after fold =
      fold_from-append before after (fold_step ledger control fold)

  -- The fold when a control has its turn, and the requirements that it then governs.
  abbrev pub governs : RootControl → Fold → Option (List Requirement)
  governs control fold =
      governed ledger fold.states fold.positions control
        (get_source control.source.source_id sources)

  -- The control was valid at its turn, behind those before it: what it governed then got the states
  -- that it gives, its source is represented, and the controls after it went on from there.
  pub IsAccepted : List RootControl → Fold → RootControl → Type 0
  IsAccepted ordered fold control =
      (before : List RootControl) × (after : List RootControl) × (selected : List Requirement)
      × (turn : Fold) × (ordered ≡ before ++ control ∷ after)
      × (turn ≡ fold_from ledger before empty_fold)
      × (governs control turn ≡ some selected)
      × (next : Fold) × (next.states ≡ apply_all ledger control.kind selected turn.states)
      × (next.errors ≡ turn.errors)
      × (next.resumed ≡ newly_resumed ledger control.kind selected turn.states ++ turn.resumed)
      × (next.positions ≡ control ∷ turn.positions)
      × (fold ≡ fold_from ledger after next)
      × (contains fold.represented control.source.source_id ≡ true)

  -- The control was no valid one at its turn, and its id is among the errors.
  pub IsRefused : List RootControl → Fold → RootControl → Type 0
  IsRefused ordered fold control =
      (before : List RootControl) × (after : List RootControl) × (turn : Fold) × (ordered
        ≡ before ++ control ∷ after)
      × (turn ≡ fold_from ledger before empty_fold)
      × (governs control turn ≡ none)
      × (contains fold.errors control.id ≡ true)

  -- A control that the fold does not consider, or that it refused, or that it accepted.
  pub IsSettled : List RootControl → Fold → RootControl → Type 0
  IsSettled ordered fold control =
      (is_considered control ≡ false)
      ⊎ IsRefused ordered fold control
      ⊎ IsAccepted ordered fold control

  -- A step on a control that is considered.
  step_considered :
      (control : RootControl) (fold : Fold) (o : Option (List Requirement))
      → is_considered control ≡ true
      → governs control fold ≡ o
      → fold_step ledger control fold ≡ settle ledger control o fold
  step_considered control fold o due found = rw (fold_step-eq control fold, due, found) refl

  settle-error :
      (control : RootControl) (fold : Fold)
      → contains (settle ledger control none fold).errors control.id ≡ true
  unfolding settle
  settle-error control fold =
      ground (arith, contains-append fold.errors (control.id ∷ []) control.id)

  settle-accepted :
      (control : RootControl) (selected : List Requirement) (fold : Fold)
      → let next = settle ledger control (some selected) fold in
        (next.states ≡ apply_all ledger control.kind selected fold.states)
        × (next.errors ≡ fold.errors)
        × (next.resumed ≡ newly_resumed ledger control.kind selected fold.states ++ fold.resumed)
        × (next.positions ≡ control ∷ fold.positions)
        × (contains next.represented control.source.source_id ≡ true)
  unfolding settle
  settle-accepted control selected fold = (refl, refl, refl, refl, ground arith)

  turn-IsSettled :
      (before after : List RootControl) (control : RootControl) (ordered : List RootControl)
      → ordered ≡ before ++ control ∷ after
      → IsSettled ordered (fold_from ledger ordered empty_fold) control
  unfolding IsSettled IsAccepted IsRefused fold_from Grows
  turn-IsSettled before after control ordered split =
      let turn = fold_from ledger before empty_fold in
      let whole : fold_from ledger ordered empty_fold
          ≡ fold_from ledger after (fold_step ledger control turn) =
        ap (λ cs. fold_from ledger cs empty_fold) split
        ∙ fold_from-append before (control ∷ after) empty_fold in
      elim (Bool-cases (is_considered control)) [
        | inr skipped ↦ inl skipped
        | inl due ↦ elim (Option-cases (governs control turn)) [
          | inl invalid ↦
              let stepped = step_considered control turn none due invalid in
              let (errors, _) = fold_from-Grows after (fold_step ledger control turn) in
              let listed =
                subst (λ (f : Fold). contains f.errors control.id ≡ true) (sym stepped)
                  (settle-error control turn) in
              inr (
                inl (
                  before,
                  after,
                  turn,
                  split,
                  refl,
                  invalid,
                  subst (λ (f : Fold). contains f.errors control.id ≡ true) (sym whole)
                      (errors control.id listed),
                ))
          | inr (selected, valid) ↦
              let next = settle ledger control (some selected) turn in
              let stepped = step_considered control turn (some selected) due valid in
              let went_on = whole ∙ ap (λ f. fold_from ledger after f) stepped in
              let (states, errors, resumed, positions, represented) =
                settle-accepted control selected turn in
              let (_, kept) = fold_from-Grows after next in
              inr (
                inr (
                  before,
                  after,
                  selected,
                  turn,
                  split,
                  refl,
                  valid,
                  next,
                  states,
                  errors,
                  resumed,
                  positions,
                  went_on,
                  subst (λ (f : Fold). contains f.represented control.source.source_id ≡ true)
                      (sym went_on) (kept control.source.source_id represented),
                ))
        ]
      ]

  all-IsSettled :
      (before rest ordered : List RootControl)
      → ordered ≡ before ++ rest
      → All (IsSettled ordered (fold_from ledger ordered empty_fold)) rest
  all-IsSettled before [] ordered split = tt
  all-IsSettled before (control ∷ rest) ordered split = (
    turn-IsSettled before rest control ordered split,
    all-IsSettled (before ++ control ∷ []) rest ordered
        (split ∙ sym (append_assoc before (control ∷ []) rest)),
  )

  -- No control is dropped in silence. Each one that is due, and whose source is missing or of a
  -- projected unit, was not valid when its turn came, behind the controls before it, and has its id
  -- among the errors; or it was valid then: what it governed got the states that it gives, the later
  -- controls went on from there, and its source is represented.
  pub fold_root_controls-IsSettled :
      (controls : List RootControl) (fold : Fold)
      → fold_root_controls ledger controls ≡ ok fold
      → All (IsSettled (sort control_before controls) fold) controls
  fold_root_controls-IsSettled controls fold e =
      let ordered = sort control_before controls in
      sort-All (IsSettled ordered fold) control_before controls (
        subst (λ f. All (IsSettled ordered f) ordered) (fold_root_controls-eq ledger controls e)
          (all-IsSettled [] ordered ordered refl))
