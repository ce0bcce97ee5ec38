-- ===== src/Core/Controls/Fold/Invariants.antt =====
-- What the fold of the root controls can and cannot do to the state of a requirement.
use mathlib.Core.Path.{subst}
use mathlib.Core.List.{Memᴰ}
use codex_context_guard.Base.{
  ◌≡◌, refl, inl, inr, true, false, Option, none, some, List, [], ◌∷◌, ◌∙◌, ap, Text, text_eq,
  option_eq, nat_eq, ◌==◌, contains, ltb, ok, arith, All, All-map, Bool-cases, Option-cases,
}
use codex_context_guard.Core.Spans.{get_source, source_matches}
use codex_context_guard.Base.Sorting.{sort}
use codex_context_guard.Core.Index.{ids}
use codex_context_guard.Core.Model.{Source, Requirement, RootControl}
use codex_context_guard.Core.Kinds.{RequirementKind, requirement_kind_eq, ControlKind}
use codex_context_guard.Core.Controls.States.{
  ControlState, control_state_eq, States, state_of, set_state, written, transition, or_ordinary,
  apply_control, state_of-apply_control,
}
use codex_context_guard.Core.Controls.Scope.{is_eligible}
use codex_context_guard.Core.Controls.Fold.{
  Fold, Ledger, empty_fold, governed, apply_all, settle, fold_step, fold_from, elsewhere,
  fold_root_controls, control_before,
}
use codex_context_guard.Core.Controls.Fold.Selected.{Eligible, governed-Eligible}

abbrev requirement_id : Requirement → Text
requirement_id r = r.id

module _ (ledger : Ledger) where
  open ledger use {sources, requirements, units, watermark}

  -- A control leaves alone what it does not govern.
  state_of-apply_all :
      (kind : ControlKind) (selected : List Requirement) (states : States) (k : Text)
      → contains (ids requirement_id selected) k ≡ false
      → state_of k (apply_all ledger kind selected states) ≡ state_of k states
  unfolding apply_all
  state_of-apply_all kind [] states k h = refl
  state_of-apply_all kind (req ∷ rest) states k h =
      state_of-apply_all kind rest (apply_control kind req.id states) k (ground arith)
      ∙ ground (arith, state_of-apply_control kind k req.id states)

  not_cancelled :
      (states : States) (control : RootControl) (unit : Text) (selected : List Requirement)
      (k : Text)
      → state_of k states ≡ some ControlState.cancelled
      → All (Eligible ledger states control unit) selected
      → contains (ids requirement_id selected) k ≡ false
  unfolding is_eligible
  not_cancelled states control unit [] k c all = refl
  not_cancelled states control unit (req ∷ rest) k c ((e, _), all) =
      ground (arith, not_cancelled states control unit rest k)

  abbrev Cancelled : Text → Fold → Type 0
  Cancelled k fold = state_of k fold.states ≡ some ControlState.cancelled

  settle-Cancelled :
      (control : RootControl) (o : Option Source) (fold : Fold) (k : Text)
      → Cancelled k fold
      → Cancelled k
          (settle ledger control (governed ledger fold.states fold.positions control o) fold)
  unfolding settle
  settle-Cancelled control o fold k c =
      elim (Option-cases (governed ledger fold.states fold.positions control o)) [
        | inl refused ↦ rw refused c
        | inr (selected, accepted) ↦
            let (source, _, all) =
              governed-Eligible ledger fold.states fold.positions control o accepted in
            rw accepted (
              state_of-apply_all control.kind selected fold.states k
                (not_cancelled fold.states control source.unit selected k c all)
              ∙ c)
      ]

  step-Cancelled :
      (control : RootControl) (fold : Fold) (k : Text)
      → Cancelled k fold
      → Cancelled k (fold_step ledger control fold)
  unfolding fold_step
  step-Cancelled control fold k c =
      ground
        (arith, settle-Cancelled control (get_source control.source.source_id sources) fold k c)

  -- Once a requirement is cancelled, no later control of any kind changes its state: neither a
  -- resumption nor a persistence revives it, nor does a pause.
  pub fold_from_cancelled :
      (controls : List RootControl) (fold : Fold) (k : Text)
      → state_of k fold.states ≡ some ControlState.cancelled
      → state_of k (fold_from ledger controls fold).states ≡ some ControlState.cancelled
  unfolding fold_from
  fold_from_cancelled [] fold k c = c
  fold_from_cancelled (control ∷ rest) fold k c =
      fold_from_cancelled rest (fold_step ledger control fold) k (step-Cancelled control fold k c)

  -- A requirement that root controls may govern: an indexed one, of execution, that its root source
  -- states, in a projected unit.
  pub record IsGovernable (key : Text) : Type 0 where
    pub requirement : Requirement
    pub listed : Memᴰ requirement requirements
    pub named : requirement.id ≡ key
    pub executes : requirement.kind ≡ RequirementKind.execution
    pub stated : source_matches requirement.source sources true ≡ true
    pub projected : contains units requirement.unit ≡ true

  -- Each key of the states is that of such a requirement.
  abbrev pub AllGovernable : States → Type 0
  AllGovernable states = All (λ (key, state). IsGovernable key) states

  Eligible-IsGovernable :
      (states : States) (control : RootControl) (unit : Text) (req : Requirement)
      → contains units unit ≡ true
      → Eligible ledger states control unit req
      → IsGovernable req.id
  unfolding is_eligible
  Eligible-IsGovernable states control unit req u (e, m) = record {
    requirement = req;
    listed = m;
    named = refl;
    executes = ground arith;
    stated = ground arith;
    projected = ground arith;
  }

  set_state-AllGovernable :
      (key : Text) (state : ControlState) (states : States)
      → IsGovernable key
      → AllGovernable states
      → AllGovernable (set_state key state states)
  unfolding set_state
  set_state-AllGovernable key state [] g all = (g, tt)
  set_state-AllGovernable key state ((k, s) ∷ states) g (h, all) = elim (Bool-cases (key == k)) [
    | inl same ↦ rw same (h, all)
    | inr other ↦ rw other (h, set_state-AllGovernable key state states g all)
  ]

  written-AllGovernable :
      (key : Text) (o : Option ControlState) (states : States)
      → IsGovernable key
      → AllGovernable states
      → AllGovernable (written key o states)
  written-AllGovernable key none states g all = all
  written-AllGovernable key (some s) states g all = set_state-AllGovernable key s states g all

  apply_all-AllGovernable :
      (kind : ControlKind) (selected : List Requirement) (states : States)
      → All (λ req. IsGovernable req.id) selected
      → AllGovernable states
      → AllGovernable (apply_all ledger kind selected states)
  unfolding apply_all apply_control
  apply_all-AllGovernable kind [] states g all = all
  apply_all-AllGovernable kind (req ∷ rest) states (g, gs) all =
      apply_all-AllGovernable kind rest (apply_control kind req.id states) gs (
        written-AllGovernable req.id (transition kind (or_ordinary (state_of req.id states))) states
          g all)

  settle-AllGovernable :
      (control : RootControl) (o : Option Source) (fold : Fold)
      → elsewhere ledger o ≡ false
      → AllGovernable fold.states
      → AllGovernable
          (settle ledger control (governed ledger fold.states fold.positions control o) fold).states
  unfolding settle
  settle-AllGovernable control o fold inside all =
      elim (Option-cases (governed ledger fold.states fold.positions control o)) [
        | inl refused ↦ rw refused all
        | inr (selected, accepted) ↦
            let (source, found, eligible) =
              governed-Eligible ledger fold.states fold.positions control o accepted in
            let projected : contains units source.unit ≡ true =
              ground (arith, ap (elsewhere ledger) found) in
            rw accepted (
              apply_all-AllGovernable control.kind selected fold.states
                (All-map (Eligible ledger fold.states control source.unit)
                  (λ req. IsGovernable req.id) selected
                  (λ req e. Eligible-IsGovernable fold.states control source.unit req projected e)
                  eligible)
                all)
      ]

  step-AllGovernable :
      (control : RootControl) (fold : Fold)
      → AllGovernable fold.states
      → AllGovernable (fold_step ledger control fold).states
  unfolding fold_step
  step-AllGovernable control fold all = elim (Bool-cases (ltb watermark control.seq)) [
    | inl late ↦ rw late all
    | inr due ↦ elim (Bool-cases (elsewhere ledger (get_source control.source.source_id sources))) [
      | inl away ↦ rw (due, away) all
      | inr inside ↦
          rw (due, inside)
            (settle-AllGovernable control (get_source control.source.source_id sources) fold inside
              all)
    ]
  ]

  fold_from-AllGovernable :
      (controls : List RootControl) (fold : Fold)
      → AllGovernable fold.states
      → AllGovernable (fold_from ledger controls fold).states
  unfolding fold_from
  fold_from-AllGovernable [] fold all = all
  fold_from-AllGovernable (control ∷ rest) fold all =
      fold_from-AllGovernable rest (fold_step ledger control fold)
        (step-AllGovernable control fold all)

  pub fold_root_controls-eq :
      (controls : List RootControl) {fold : Fold}
      → fold_root_controls ledger controls ≡ ok fold
      → fold_from ledger (sort control_before controls) empty_fold ≡ fold
  unfolding fold_root_controls
  fold_root_controls-eq controls e = ground arith

  -- Root controls give a state to no constraint, proof, information or unknown requirement, to none
  -- of another unit, and to none whose root source does not state it.
  pub fold_root_controls-AllGovernable :
      (controls : List RootControl) (fold : Fold)
      → fold_root_controls ledger controls ≡ ok fold
      → AllGovernable fold.states
  fold_root_controls-AllGovernable controls fold e =
      subst (λ f. AllGovernable f.states) (fold_root_controls-eq controls e)
        (fold_from-AllGovernable (sort control_before controls) empty_fold tt)
