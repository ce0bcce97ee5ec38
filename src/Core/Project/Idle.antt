-- ===== src/Core/Project/Idle.antt =====
-- What the certificate of a projection has to do with its actions, and with the goal.
use mathlib.Core.Path.{subst, ap}
use codex_context_guard.Base.{
  ℕ, sym, ◌≡◌, inl, inr, true, false, some, List, [], ◌∷◌, Text, text_eq, option_eq, nat_eq, ◌==◌,
  arith, ok, All, All-map, Bool-cases,
}
use codex_context_guard.Core.Model.{Snapshot, Requirement, Basis}
use codex_context_guard.Core.Index.{get}
use codex_context_guard.Core.Speech.{Speech}
use codex_context_guard.Core.Requirements.{get_requirement}
use codex_context_guard.Core.Predicates.{Predicate, predicate_eq}
use codex_context_guard.Core.Controls.States.{control_state_eq, state_of}
use codex_context_guard.Core.Actions.{holds_back, predicate_at}
use codex_context_guard.Core.Actions.Laws.{IsFounded}
use codex_context_guard.Core.Project.{project, gather, conclude, Gathered, Projection}
use codex_context_guard.Core.Stops.{goal_allowed}
use codex_context_guard.Core.Project.Parts.{gather-IsGathered, project-eq-ok}
use codex_context_guard.Core.Project.Decisions.{conclude-IsOffer}
use codex_context_guard.Core.Project.Certificate.{
  IsCertified, IsClosed, conclude-IsCertified, both-All,
}

-- The action belongs to a current requirement that is not a required one.
abbrev pub IsOptional : Gathered → Basis → Type 0
IsOptional g action =
    (req : Requirement) × (get_requirement action.requirement_id g.current ≡ some req)
    × (req.required ≡ false)

get-All :
    (P : Requirement → Type 0) (key : Text) (rows : List Requirement) {req : Requirement}
    → All P rows
    → get_requirement key rows ≡ some req
    → P req × (req.id ≡ key)
unfolding get
get-All P key [] all h = cc
get-All P key (r ∷ rows) {req = req} (one, all) h = elim (Bool-cases (key == r.id)) [
  | inl same ↦
      let first : r ≡ req = ground arith in
      subst (λ q. P q × (q.id ≡ key)) first (one, ground arith)
  | inr other ↦ get-All P key rows all (rw other at h)
]

closed_cases :
    (p : Projection) (req : Requirement)
    → IsClosed p req
    → predicate_at req.id p.predicates ≡ some Predicate.insufficient
    → holds_back (state_of req.id p.root_control_states) ≡ false
    → req.required ≡ false
unfolding holds_back
closed_cases p req (inl optional) unmet free = optional
closed_cases p req (inr (inl cancelled)) unmet free = cc (ap holds_back cancelled)
closed_cases p req (inr (inr (inl satisfied))) unmet free = cc
closed_cases p req (inr (inr (inr active))) unmet free = cc

module _ (speech : Speech) (sha256 : List ℕ → Text) (snapshot : Snapshot) where
  founded-IsOptional :
      (p : Projection) (g : Gathered) (action : Basis)
      → All (IsClosed p) g.current
      → IsFounded snapshot.as_of g.sources g.current g.valid p.predicates p.released action
      → holds_back (state_of action.requirement_id p.root_control_states) ≡ false
      → IsOptional g action
  founded-IsOptional p g action closed founded free =
      let (one, same) = get-All (IsClosed p) action.requirement_id g.current closed founded.found in
      (
        founded.requirement,
        founded.found,
        closed_cases p founded.requirement one founded.unmet
            (subst (λ k. holds_back (state_of k p.root_control_states) ≡ false) (sym same) free),
      )

  conclude-IsOptional :
      (g : Gathered)
      → gather speech sha256 snapshot ≡ ok g
      → (conclude speech sha256 snapshot g).certifiable ≡ true
      → All (IsOptional g) (conclude speech sha256 snapshot g).current_actions
  conclude-IsOptional g gathered certified =
      let p = conclude speech sha256 snapshot g in
      let parts = gather-IsGathered speech sha256 snapshot g gathered in
      let certificate = conclude-IsCertified speech sha256 snapshot g parts certified in
      let (founded, free) = conclude-IsOffer speech sha256 snapshot g parts in
      All-map
        (λ a.
          IsFounded snapshot.as_of g.sources g.current g.valid p.predicates p.released a
          × (holds_back (state_of a.requirement_id p.root_control_states) ≡ false))
        (IsOptional g) p.current_actions
        (λ a (f, n). founded-IsOptional p g a certificate.closed f n)
        (both-All _ _ p.current_actions founded free)

  -- A certified projection has nothing required left to do: each action that it still offers belongs
  -- to a current requirement that is not a required one.
  pub project-IsOptional :
      (p : Projection)
      → project speech sha256 snapshot ≡ ok p
      → p.certifiable ≡ true
      → (g : Gathered) × (gather speech sha256 snapshot ≡ ok g)
        × All (IsOptional g) p.current_actions
  project-IsOptional p h certified =
      let (g, gathered, concluded) = project-eq-ok speech sha256 snapshot p h in
      (
        g,
        gathered,
        subst (λ q. q.certifiable ≡ true → All (IsOptional g) q.current_actions) concluded
            (conclude-IsOptional g gathered) certified,
      )

  -- Under an adopted goal contract, a goal may be completed only on a certificate.
  goal_certified :
      (g : Gathered)
      → snapshot.goal_contract_adopted ≡ true
      → (conclude speech sha256 snapshot g).goal_complete_allowed ≡ true
      → (conclude speech sha256 snapshot g).certifiable ≡ true
  unfolding conclude goal_allowed
  goal_certified g adopted allowed = ground arith

  -- Under an adopted goal contract, a projection that allows the goal to be completed has every
  -- current requirement closed, every active root tiled and represented, no control in error, and
  -- no action left for a required requirement.
  pub project-goal_complete :
      (p : Projection)
      → project speech sha256 snapshot ≡ ok p
      → snapshot.goal_contract_adopted ≡ true
      → p.goal_complete_allowed ≡ true
      → (g : Gathered) × (gather speech sha256 snapshot ≡ ok g)
        × IsCertified snapshot p g
        × All (IsOptional g) p.current_actions
  project-goal_complete p h adopted allowed =
      let (g, gathered, concluded) = project-eq-ok speech sha256 snapshot p h in
      let certified =
        subst (λ q. q.goal_complete_allowed ≡ true → q.certifiable ≡ true) concluded
          (goal_certified g adopted) allowed in
      (
        g,
        gathered,
        subst (λ q. q.certifiable ≡ true → IsCertified snapshot q g) concluded
            (conclude-IsCertified speech sha256 snapshot g
              (gather-IsGathered speech sha256 snapshot g gathered))
            certified,
        subst (λ q. q.certifiable ≡ true → All (IsOptional g) q.current_actions) concluded
            (conclude-IsOptional g gathered) certified,
      )
