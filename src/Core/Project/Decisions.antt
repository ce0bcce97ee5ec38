-- ===== src/Core/Project/Decisions.antt =====
-- The Stop decision, the certificate and the actions that a projection offers.
use mathlib.Core.Path.{subst}
use codex_context_guard.Base.{
  ℕ, ◌≡◌, ◌≢◌, ◌⊎◌, inl, inr, true, false, List, [], ◌∷◌, Text, text_eq, option_eq, nat_eq, arith,
  is_empty, is_empty-true, ok, All,
}
use codex_context_guard.Core.Model.{Snapshot}
use codex_context_guard.Core.Speech.{Speech}
use codex_context_guard.Core.Controls.States.{state_of}
use codex_context_guard.Core.Actions.{holds_back}
use codex_context_guard.Core.Actions.Laws.{IsFounded, keep_actions-IsFounded, keep_actions-held}
use codex_context_guard.Core.Project.{
  project, gather, conclude, Gathered, Projection, findings_of, actions_of,
}
use codex_context_guard.Core.Stops.{
  Stop, Claims, claims_of, Findings, stop_reasons, corrects, stop_decision,
}
use codex_context_guard.Core.Project.Parts.{IsGathered, gather-IsGathered, project-eq-ok}

-- The three ends of a turn. A correction is made with a reason, on progress, and only if none was
-- made before; a typed wait has an external operation and no action; and where the turn ends
-- otherwise, no correction was due.
abbrev pub EndsAs : Snapshot → Projection → Type 0
EndsAs snapshot p =
    ((p.stop ≡ Stop.bounded_correction)
      × (p.correction_count ≡ 1)
      × (snapshot.corrections_used ≡ 0)
      × (snapshot.progress_changed ≡ true)
      × (p.reason_codes ≢ []))
    ⊎ ((p.stop ≢ Stop.bounded_correction)
        × (p.correction_count ≡ 0)
        × ((p.reason_codes ≡ [])
            ⊎ (snapshot.corrections_used ≢ 0)
            ⊎ (snapshot.progress_changed ≡ false))
        × ((p.stop ≡ Stop.ordinary_end)
            ⊎ ((p.stop ≡ Stop.typed_wait)
                × (p.current_actions ≡ [])
                × (p.registered_external_operations ≢ []))))

empty_or : {A : Type 0} (xs : List A) → (is_empty xs ≡ false) → xs ≢ []
empty_or [] h e = cc
empty_or (x ∷ xs) h e = cc

stop_cases :
    (claims : Claims) (found : Findings)
    → ((stop_decision claims found ≡ Stop.bounded_correction) × (corrects claims found ≡ true))
      ⊎ ((stop_decision claims found ≡ Stop.ordinary_end) × (corrects claims found ≡ false))
      ⊎ ((stop_decision claims found ≡ Stop.typed_wait)
          × (corrects claims found ≡ false)
          × (is_empty found.external ≡ false)
          × (is_empty found.actions ≡ true))
unfolding stop_decision
stop_cases claims found = ground arith

corrects-true :
    (claims : Claims) (found : Findings)
    → corrects claims found ≡ true
    → (is_empty (stop_reasons claims found) ≡ false)
      × (claims.corrections_used ≡ 0)
      × (claims.progress_changed ≡ true)
unfolding corrects
corrects-true claims found h = ground arith

corrects-false :
    (claims : Claims) (found : Findings)
    → corrects claims found ≡ false
    → (is_empty (stop_reasons claims found) ≡ true)
      ⊎ (claims.corrections_used ≢ 0)
      ⊎ (claims.progress_changed ≡ false)
unfolding corrects
corrects-false claims found h = ground arith

not_due :
    (claims : Claims) (found : Findings)
    → corrects claims found ≡ false
    → (stop_reasons claims found ≡ [])
      ⊎ (claims.corrections_used ≢ 0)
      ⊎ (claims.progress_changed ≡ false)
not_due claims found h = elim (corrects-false claims found h) [
  | inl none_given ↦ inl (is_empty-true (stop_reasons claims found) none_given)
  | inr other ↦ inr other
]

module _ (speech : Speech) (sha256 : List ℕ → Text) (snapshot : Snapshot) where
  conclude-EndsAs : (g : Gathered) → EndsAs snapshot (conclude speech sha256 snapshot g)
  unfolding conclude findings_of
  conclude-EndsAs g =
      let claims = claims_of snapshot in
      let found = findings_of speech sha256 snapshot g in
      elim (stop_cases claims found) [
        | inl (stop, due) ↦
            let (given, fresh, progress) = corrects-true claims found due in
            inl (stop, rw due, fresh, progress, empty_or (stop_reasons claims found) given)
        | inr (inl (stop, undue)) ↦ inr ((λ e. cc), rw undue, not_due claims found undue, inl stop)
        | inr (inr (stop, undue, external, idle)) ↦ inr (
          (λ e. cc),
          rw undue,
          not_due claims found undue,
          inr (stop, is_empty-true found.actions idle, empty_or found.external external),
        )
      ]

  -- Every projection ends its turn in one of three ways. It makes a bounded correction, and then it
  -- has a reason, there was progress and no correction was used before. Or no such correction is
  -- due, and it waits for a registered external operation with no action to offer, or ends.
  pub project-EndsAs : (p : Projection) → project speech sha256 snapshot ≡ ok p → EndsAs snapshot p
  project-EndsAs p h =
      let (g, _, concluded) = project-eq-ok speech sha256 snapshot p h in
      subst (EndsAs snapshot) concluded (conclude-EndsAs g)

  -- The actions of a projection rest on what it gathered, and no root control holds one back.
  abbrev pub IsOffer : Projection → Gathered → Type 0
  IsOffer p g =
      All (IsFounded snapshot.as_of g.sources g.current g.valid p.predicates p.released)
        p.current_actions
      × All (λ a. holds_back (state_of a.requirement_id p.root_control_states) ≡ false)
          p.current_actions

  pub conclude-IsOffer :
      (g : Gathered)
      → IsGathered speech sha256 snapshot g
      → IsOffer (conclude speech sha256 snapshot g) g
  unfolding conclude actions_of
  conclude-IsOffer g r = (
    rw r.candidates (
        keep_actions-IsFounded snapshot.as_of g.sources g.current g.valid g.results g.released
          g.fold.states snapshot.actions),
    keep_actions-held g.fold.states g.admitted,
  )

  -- Every action that a projection offers is founded on a current, unmet requirement of execution
  -- or proof, whose span is the action's own and matches the bytes of its root, and belongs to a
  -- requirement that no root control has paused or cancelled.
  pub project-IsOffer :
      (p : Projection)
      → project speech sha256 snapshot ≡ ok p
      → (g : Gathered) × (gather speech sha256 snapshot ≡ ok g) × IsOffer p g
  project-IsOffer p h =
      let (g, gathered, concluded) = project-eq-ok speech sha256 snapshot p h in
      (
        g,
        gathered,
        subst (λ q. IsOffer q g) concluded
            (conclude-IsOffer g (gather-IsGathered speech sha256 snapshot g gathered)),
      )
