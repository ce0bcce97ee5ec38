-- ===== src/Core/Project/Parts.antt =====
-- The steps of `gather`, read back from its result.
use mathlib.Core.Path.{subst}
use codex_context_guard.Base.{ok_injective, ℕ, ◌≡◌, refl, List, Text, ok, >>=-eq-ok, ◌++◌}
use codex_context_guard.Core.Model.{Snapshot, Fact}
use codex_context_guard.Core.Index.{index}
use codex_context_guard.Core.Sources.{check_sources}
use codex_context_guard.Core.Units.{project_units}
use codex_context_guard.Core.Requirements.{check_supersessions, current_requirements, check_parents}
use codex_context_guard.Core.Facts.{admit_facts, drop_invalidated, released_conditions}
use codex_context_guard.Core.Predicates.{predicates}
use codex_context_guard.Core.Coverage.{span_errors, interpreted_errors}
use codex_context_guard.Core.Actions.{admit_actions}
use codex_context_guard.Core.Controls.Fold.{fold_root_controls}
use codex_context_guard.Core.Speech.{Speech}
use codex_context_guard.Core.Project.{
  project, gather, conclude, Gathered, Projection, active_of, ledger_of,
}

module _ (speech : Speech) (sha256 : List ℕ → Text) (snapshot : Snapshot) where
  pub record IsGathered (g : Gathered) : Type 0 where
    pub source_rows : index (λ s. s.id) (λ s. s.seq) snapshot.as_of snapshot.sources ≡ ok g.sources
    pub sources_checked : check_sources sha256 g.sources g.sources ≡ ok tt
    pub unit_set : project_units snapshot.unit g.sources snapshot.units ≡ ok g.units
    pub requirement_rows :
        index (λ r. r.id) (λ r. r.seq) snapshot.as_of snapshot.requirements ≡ ok g.requirements
    pub facts : List Fact
    pub fact_rows : index (λ f. f.id) (λ f. f.seq) snapshot.as_of snapshot.facts ≡ ok facts
    pub supersessions :
        check_supersessions snapshot.as_of g.sources g.requirements g.requirements ≡ ok tt
    pub current_rows : g.current ≡ current_requirements g.units snapshot.as_of g.requirements
    pub admitted_facts : admit_facts g.sources g.current facts ≡ ok g.effects
    pub valid_facts : g.valid ≡ drop_invalidated g.effects
    pub releases :
        released_conditions g.sources g.current g.valid snapshot.conditions ≡ ok g.released
    pub interpreted : List Text
    pub span_rows :
        g.errors
        ≡ span_errors
            (active_of snapshot g.units g.sources g.requirements)
            g.sources
            snapshot.coverage
            g.sources
          ++ interpreted
    pub predicate_rows :
        g.results ≡ predicates snapshot.as_of snapshot.turn g.sources g.effects g.valid g.current
    pub candidates :
        g.admitted
        ≡ (admit_actions snapshot.as_of g.sources g.current g.valid g.results g.released
            snapshot.actions).0
    pub controls :
        fold_root_controls
          (ledger_of speech sha256 snapshot g.sources g.requirements g.effects g.units)
          snapshot.root_controls
        ≡ ok g.fold

  pub gather-IsGathered : (g : Gathered) → gather speech sha256 snapshot ≡ ok g → IsGathered g
  unfolding gather
  gather-IsGathered g h =
      let (sources, source_rows, h₁) = >>=-eq-ok (index _ _ _ snapshot.sources) _ h in
      let (_, checked, h₂) = >>=-eq-ok (check_sources sha256 sources sources) _ h₁ in
      let (units, unit_set, h₃) = >>=-eq-ok (project_units _ sources snapshot.units) _ h₂ in
      let (requirements, requirement_rows, h₄) =
        >>=-eq-ok (index _ _ _ snapshot.requirements) _ h₃ in
      let (facts, fact_rows, h₅) = >>=-eq-ok (index _ _ _ snapshot.facts) _ h₄ in
      let (_, supersessions, h₆) =
        >>=-eq-ok (check_supersessions snapshot.as_of sources requirements requirements) _ h₅ in
      let (_, parents, h₇) = >>=-eq-ok (check_parents requirements _) _ h₆ in
      let (effects, admitted, h₈) = >>=-eq-ok (admit_facts sources _ facts) _ h₇ in
      let (released, releases, h₉) = >>=-eq-ok (released_conditions sources _ _ _) _ h₈ in
      let (interpreted, _, h₁₀) = >>=-eq-ok (interpreted_errors _ units sources _ _ _) _ h₉ in
      let (fold, controls, h₁₁) = >>=-eq-ok (fold_root_controls _ snapshot.root_controls) _ h₁₀ in
      subst IsGathered (ok_injective h₁₁) (record {
        source_rows = source_rows;
        sources_checked = checked;
        unit_set = unit_set;
        requirement_rows = requirement_rows;
        facts = facts;
        fact_rows = fact_rows;
        supersessions = supersessions;
        current_rows = refl;
        admitted_facts = admitted;
        valid_facts = refl;
        releases = releases;
        interpreted = interpreted;
        span_rows = refl;
        predicate_rows = refl;
        candidates = refl;
        controls = controls;
      })

  -- A projection is concluded from what was gathered.
  pub project-eq-ok :
      (p : Projection)
      → project speech sha256 snapshot ≡ ok p
      → (g : Gathered) × (gather speech sha256 snapshot ≡ ok g)
        × (conclude speech sha256 snapshot g ≡ p)
  unfolding project
  project-eq-ok p h =
      let (g, gathered, concluded) = >>=-eq-ok (gather speech sha256 snapshot) _ h in
      (g, gathered, ok_injective concluded)
