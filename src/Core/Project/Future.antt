-- ===== src/Core/Project/Future.antt =====
-- What lies behind the watermark does not change a projection.
use codex_context_guard.Base.{
  ℕ, ◌<◌, ◌≡◌, ◌∙◌, false, List, [], ◌∷◌, ◌++◌, Text, text_eq, option_eq, nat_eq, contains,
}
use mathlib.Core.List.{append-nil}
use codex_context_guard.Core.Index.{ids}
use codex_context_guard.Core.Index.Laws.{index-future}
use codex_context_guard.Core.Actions.Laws.{admit_actions-future}
use codex_context_guard.Core.Actions.{admit_actions}
use codex_context_guard.Core.Predicates.{Predicate}
use codex_context_guard.Core.Controls.Fold.{fold_root_controls}
use codex_context_guard.Core.Controls.Fold.Order.{fold_root_controls-future}
use codex_context_guard.Core.Coverage.Future.{active_root_ids-future, interpreted_errors-future}
use codex_context_guard.Core.Speech.{Speech}
use codex_context_guard.Core.Model.{Snapshot, Source, Requirement, Fact, Basis, RootControl}
use codex_context_guard.Core.Project.{
  project, gather, conclude, findings_of, resumed_of, actions_of,
}

module _ (speech : Speech) (sha256 : List ℕ → Text) (snapshot : Snapshot) where
  project-future_source :
      (xs ys : List Source) (late : Source)
      → contains (ids (λ (s : Source). s.id) (xs ++ ys)) late.id ≡ false
      → snapshot.as_of < late.seq
      → project speech sha256 (record snapshot { sources = xs ++ late ∷ ys })
        ≡ project speech sha256 (record snapshot { sources = xs ++ ys })
  unfolding project gather conclude findings_of resumed_of actions_of
  project-future_source xs ys late unused behind =
      rw (index-future (λ (s : Source). s.id) (λ s. s.seq) snapshot.as_of xs ys late unused behind)

  project-future_requirement :
      (xs ys : List Requirement) (late : Requirement)
      → contains (ids (λ (r : Requirement). r.id) (xs ++ ys)) late.id ≡ false
      → snapshot.as_of < late.seq
      → project speech sha256 (record snapshot { requirements = xs ++ late ∷ ys })
        ≡ project speech sha256 (record snapshot { requirements = xs ++ ys })
  unfolding project gather conclude findings_of resumed_of actions_of
  project-future_requirement xs ys late unused behind = rw (
      index-future (λ (r : Requirement). r.id) (λ r. r.seq) snapshot.as_of xs ys late unused behind)

  project-future_fact :
      (xs ys : List Fact) (late : Fact)
      → contains (ids (λ (f : Fact). f.id) (xs ++ ys)) late.id ≡ false
      → snapshot.as_of < late.seq
      → project speech sha256 (record snapshot { facts = xs ++ late ∷ ys })
        ≡ project speech sha256 (record snapshot { facts = xs ++ ys })
  unfolding project gather conclude findings_of resumed_of actions_of
  project-future_fact xs ys late unused behind =
      rw (index-future (λ (f : Fact). f.id) (λ f. f.seq) snapshot.as_of xs ys late unused behind)

  actions_same :
      (xs ys : List Basis) (late : Basis)
      → snapshot.as_of < late.seq
      → (sources : List Source) (current : List Requirement) (facts : List Fact)
        (results : List (Text × Predicate)) (released : List Text)
      → admit_actions snapshot.as_of sources current facts results released (xs ++ late ∷ ys)
        ≡ admit_actions snapshot.as_of sources current facts results released (xs ++ ys)
  actions_same xs ys late behind sources current facts results released =
      admit_actions-future snapshot.as_of sources current facts results released xs ys late behind

  project-future_action :
      (xs ys : List Basis) (late : Basis)
      → snapshot.as_of < late.seq
      → project speech sha256 (record snapshot { actions = xs ++ late ∷ ys })
        ≡ project speech sha256 (record snapshot { actions = xs ++ ys })
  unfolding project gather conclude findings_of resumed_of actions_of
  project-future_action xs ys late behind = simp (actions_same xs ys late behind)

  controls_same :
      (xs ys : List RootControl) (late : RootControl)
      → contains (ids (λ (c : RootControl). c.id) (xs ++ ys)) late.id ≡ false
      → snapshot.as_of < late.seq
      → (sources : List Source) (requirements : List Requirement) (facts : List Fact)
        (units : List Text)
      → fold_root_controls
          (record {
            speech = speech;
            sources = sources;
            requirements = requirements;
            facts = facts;
            units = units;
            watermark = snapshot.as_of;
          })
          (xs ++ late ∷ ys)
        ≡ fold_root_controls
            (record {
              speech = speech;
              sources = sources;
              requirements = requirements;
              facts = facts;
              units = units;
              watermark = snapshot.as_of;
            })
            (xs ++ ys)
  controls_same xs ys late unused behind sources requirements facts units =
      fold_root_controls-future
        (record {
          speech = speech;
          sources = sources;
          requirements = requirements;
          facts = facts;
          units = units;
          watermark = snapshot.as_of;
        })
        xs ys late unused behind

  project-future_control :
      (xs ys : List RootControl) (late : RootControl)
      → contains (ids (λ (c : RootControl). c.id) (xs ++ ys)) late.id ≡ false
      → snapshot.as_of < late.seq
      → project speech sha256 (record snapshot { root_controls = xs ++ late ∷ ys })
        ≡ project speech sha256 (record snapshot { root_controls = xs ++ ys })
  unfolding project gather conclude findings_of resumed_of actions_of
  project-future_control xs ys late unused behind = simp (
    controls_same xs ys late unused behind,
    active_root_ids-future snapshot.as_of xs ys late behind snapshot.revision,
    interpreted_errors-future snapshot.as_of xs ys late behind,
  )

-- A row of each kind, as it may arrive after the snapshot was taken.
pub record Arrivals : Type 0 where
  pub source : Source
  pub requirement : Requirement
  pub fact : Fact
  pub action : Basis
  pub control : RootControl

abbrev pub arrive : Arrivals → Snapshot → Snapshot
arrive new snapshot = record snapshot {
  sources = snapshot.sources ++ new.source ∷ [];
  requirements = snapshot.requirements ++ new.requirement ∷ [];
  facts = snapshot.facts ++ new.fact ∷ [];
  actions = snapshot.actions ++ new.action ∷ [];
  root_controls = snapshot.root_controls ++ new.control ∷ [];
}

-- All five come behind the watermark, and under ids of their own.
pub record IsBehind (new : Arrivals) (snapshot : Snapshot) : Type 0 where
  pub new_source : contains (ids (λ s. s.id) snapshot.sources) new.source.id ≡ false
  pub new_requirement : contains (ids (λ r. r.id) snapshot.requirements) new.requirement.id ≡ false
  pub new_fact : contains (ids (λ f. f.id) snapshot.facts) new.fact.id ≡ false
  pub new_control : contains (ids (λ c. c.id) snapshot.root_controls) new.control.id ≡ false
  pub late_source : snapshot.as_of < new.source.seq
  pub late_requirement : snapshot.as_of < new.requirement.seq
  pub late_fact : snapshot.as_of < new.fact.seq
  pub late_action : snapshot.as_of < new.action.seq
  pub late_control : snapshot.as_of < new.control.seq

-- What comes behind the watermark does not change a projection: a source, a requirement, a fact, a
-- candidate action and a root control, each later than `as_of` and under an id of its own, may be
-- added to the snapshot, and `project` returns what it returned, or raises what it raised.
pub project-arrive :
    (speech : Speech) (sha256 : List ℕ → Text) (snapshot : Snapshot) (new : Arrivals)
    → IsBehind new snapshot
    → project speech sha256 (arrive new snapshot) ≡ project speech sha256 snapshot
project-arrive speech sha256 snapshot new b =
    let without_source = record (arrive new snapshot) { sources = snapshot.sources } in
    let without_requirement = record without_source { requirements = snapshot.requirements } in
    let without_fact = record without_requirement { facts = snapshot.facts } in
    let without_action = record without_fact { actions = snapshot.actions } in
    (rw append-nil at (
      project-future_source speech sha256 (arrive new snapshot) snapshot.sources [] new.source
        (rw append-nil b.new_source) b.late_source))
    ∙ (rw append-nil at (
        project-future_requirement speech sha256 without_source snapshot.requirements []
          new.requirement (rw append-nil b.new_requirement) b.late_requirement))
    ∙ (rw append-nil at (
        project-future_fact speech sha256 without_requirement snapshot.facts [] new.fact
          (rw append-nil b.new_fact) b.late_fact))
    ∙ (rw append-nil at (
        project-future_action speech sha256 without_fact snapshot.actions [] new.action
          b.late_action))
    ∙ (rw append-nil at (
        project-future_control speech sha256 without_action snapshot.root_controls [] new.control
          (rw append-nil b.new_control) b.late_control))
