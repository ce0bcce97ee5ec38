-- ===== src/Core/Actions/Laws.antt =====
-- What every current action rests on, and candidates behind the watermark.
use codex_context_guard.Base.{
  ℕ, ◌≤◌, ◌<◌, ◌≡◌, ◌⊎◌, inl, inr, refl, true, false, not, none, some, List, [], ◌∷◌, ◌++◌, Text,
  text_eq, option_eq, nat_eq, contains, ltb, all, arith, lt→ltb, All, All-map, All-keep,
  All-keep_self, Bool-cases, Option-cases,
}
use codex_context_guard.Core.Spans.{scope_open, source_matches}
use codex_context_guard.Core.Requirements.{get_requirement}
use codex_context_guard.Core.Predicates.{Predicate, predicate_eq}
use codex_context_guard.Core.Controls.States.{States, state_of}
use codex_context_guard.Core.Model.{Source, Requirement, Fact, Basis, span_eq}
use codex_context_guard.Core.Kinds.{
  BasisState, basis_state_eq, Owner, owner_eq, RequirementKind, requirement_kind_eq,
}
use codex_context_guard.Core.Actions.{
  predicate_at, basis_stands, relation_admits, is_ready, candidate_valid, admit_actions, holds_back,
  held, keep_actions,
}

module _ (watermark : ℕ) (sources : List Source) (current : List Requirement) (facts : List Fact)
    (predicates : List (Text × Predicate)) (released : List Text) where
  -- An action that the projection offers: it is the assistant's, current and due, its requirement is
  -- a current one of execution or proof that is in scope and unmet, of the same unit, revision,
  -- predicate, target and scope, its span is the requirement's own and matches the bytes of its root,
  -- all of its conditions released, its relation to it is admitted, and it is ready.
  pub record IsFounded (action : Basis) : Type 0 where
    pub requirement : Requirement
    pub found : get_requirement action.requirement_id current ≡ some requirement
    pub due : action.seq ≤ watermark
    pub later : requirement.seq ≤ action.seq
    pub in_scope : scope_open requirement watermark ≡ true
    pub is_current : action.state ≡ BasisState.current
    pub assigned : action.owner ≡ Owner.assistant
    pub kind :
        (requirement.kind ≡ RequirementKind.execution) ⊎ (requirement.kind ≡ RequirementKind.proof)
    pub unmet : predicate_at requirement.id predicates ≡ some Predicate.insufficient
    pub stated : source_matches action.source sources true ≡ true
    pub same_source : action.source ≡ requirement.source
    pub same_unit : action.unit ≡ requirement.unit
    pub same_revision : action.revision ≡ requirement.revision
    pub same_predicate : action.predicate ≡ requirement.predicate
    pub same_target : action.target ≡ requirement.target
    pub same_scope : action.scope_sha256 ≡ requirement.scope_sha256
    pub conditions : all (contains released) requirement.condition_ids ≡ true
    pub related : relation_admits action requirement ≡ true
    pub ready : is_ready facts action ≡ true

  candidate_none :
      (a : Basis) → candidate_valid watermark sources facts predicates released a none ≡ false
  unfolding candidate_valid
  candidate_none a = refl

  candidate_parts :
      (a : Basis) (req : Requirement)
      → candidate_valid watermark sources facts predicates released a (some req) ≡ true
      → (basis_stands watermark sources predicates released a req ≡ true)
        × (relation_admits a req ≡ true)
        × (is_ready facts a ≡ true)
  unfolding candidate_valid
  candidate_parts a req h = ground arith

  basis_parts :
      (a : Basis) (req : Requirement)
      → basis_stands watermark sources predicates released a req ≡ true
      → (scope_open req watermark ≡ true)
        × (a.state ≡ BasisState.current)
        × (a.owner ≡ Owner.assistant)
        × (predicate_at req.id predicates ≡ some Predicate.insufficient)
        × ((req.kind ≡ RequirementKind.execution) ⊎ (req.kind ≡ RequirementKind.proof))
        × (source_matches a.source sources true ≡ true)
        × (a.source ≡ req.source)
        × (a.unit ≡ req.unit)
        × (a.revision ≡ req.revision)
        × (a.predicate ≡ req.predicate)
        × (a.target ≡ req.target)
        × (a.scope_sha256 ≡ req.scope_sha256)
        × (req.seq ≤ a.seq)
        × (all (contains released) req.condition_ids ≡ true)
  unfolding basis_stands
  basis_parts a req h = ground arith

  candidate-IsFounded :
      (a : Basis)
      → ltb watermark a.seq ≡ false
      → candidate_valid watermark sources facts predicates released a
          (get_requirement a.requirement_id current)
        ≡ true
      → IsFounded a
  candidate-IsFounded a due h = elim (Option-cases (get_requirement a.requirement_id current)) [
    | inl missing ↦ cc (rw missing at h, candidate_none a)
    | inr (req, found) ↦
        let (stands, related, ready) = candidate_parts a req (rw found at h) in
        let (
          scope, state, owner, unmet, kind, stated, source, unit, revision, predicate, target,
          digest, later, conditions,
        ) =
          basis_parts a req stands in
        record {
          requirement = req;
          found = found;
          due = ground arith;
          later = later;
          in_scope = scope;
          is_current = state;
          assigned = owner;
          kind = kind;
          unmet = unmet;
          stated = stated;
          same_source = source;
          same_unit = unit;
          same_revision = revision;
          same_predicate = predicate;
          same_target = target;
          same_scope = digest;
          conditions = conditions;
          related = related;
          ready = ready;
        }
  ]

  -- Every admitted candidate is founded.
  pub admit_actions-IsFounded :
      (candidates : List Basis)
      → All IsFounded
          (admit_actions watermark sources current facts predicates released candidates).0
  unfolding admit_actions
  admit_actions-IsFounded [] = tt
  admit_actions-IsFounded (a ∷ rest) =
      let later = admit_actions-IsFounded rest in
      elim (Bool-cases (ltb watermark a.seq)) [
        | inl late ↦ rw late later
        | inr due ↦
            elim (Bool-cases (
              candidate_valid watermark sources facts predicates released a
                (get_requirement a.requirement_id current))) [
                  | inl valid ↦ rw (due, valid) (candidate-IsFounded a due valid, later)
                  | inr invalid ↦ rw (due, invalid) later
                ]
      ]

  pub keep_actions-IsFounded :
      (states : States) (candidates : List Basis)
      → All IsFounded (
          keep_actions states
            (admit_actions watermark sources current facts predicates released candidates).0)
  unfolding keep_actions
  keep_actions-IsFounded states candidates =
      All-keep IsFounded (λ a. not (held states a)) _ (admit_actions-IsFounded candidates)

  -- A candidate behind the watermark is neither admitted nor rejected, wherever it stands.
  pub admit_actions-future :
      (xs ys : List Basis) (a : Basis)
      → watermark < a.seq
      → admit_actions watermark sources current facts predicates released (xs ++ a ∷ ys)
        ≡ admit_actions watermark sources current facts predicates released (xs ++ ys)
  unfolding admit_actions
  admit_actions-future [] ys a late = rw (lt→ltb watermark a.seq late)
  admit_actions-future (x ∷ xs) ys a late = rw (admit_actions-future xs ys a late)

-- No action that is kept is held back by a root control.
pub keep_actions-held :
    (states : States) (actions : List Basis)
    → All (λ a. holds_back (state_of a.requirement_id states) ≡ false) (keep_actions states actions)
unfolding keep_actions
keep_actions-held states actions =
    All-map (λ a. not (held states a) ≡ true) (λ a. held states a ≡ false) _ (λ a h. ground arith)
      (All-keep_self (λ a. not (held states a)) actions)
