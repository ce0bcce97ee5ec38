-- ===== src/Core/Project/Certificate.antt =====
-- What the certificate of a projection vouches for, and what a claim without it meets.
use mathlib.Core.Path.{subst}
use codex_context_guard.Base.{
  ℕ, ◌≡◌, ◌⊎◌, inl, inr, sym, Bool, true, false, not, ◌&&◌, some, List, [], ◌∷◌, Text, text_eq,
  option_eq, nat_eq, contains, arith, is_empty, is_empty-true, keep, ok, All, All-map,
  All-keep_self, Bool-cases, ◌∙◌,
}
use codex_context_guard.Base.Texts.{text_leb}
use codex_context_guard.Base.Sorting.{sort-All}
use codex_context_guard.Core.Model.{Snapshot, Requirement}
use codex_context_guard.Core.Index.{ids}
use codex_context_guard.Core.Spans.{scope_open}
use codex_context_guard.Core.Requirements.{current_requirements}
use codex_context_guard.Core.Speech.{Speech}
use codex_context_guard.Core.Predicates.{Predicate, predicate_eq}
use codex_context_guard.Core.Controls.States.{ControlState, control_state_eq, States, state_of}
use codex_context_guard.Core.Coverage.Laws.{IsTiled, span_errors-IsTiled, append_nil_parts}
use codex_context_guard.Core.Actions.{predicate_at}
use codex_context_guard.Core.Project.{
  project, gather, conclude, Gathered, Projection, findings_of, active_of,
}
use codex_context_guard.Core.Stops.{
  Findings, is_certifiable, is_missing, missing_requirements, represented_sources, unrepresented,
}
use codex_context_guard.Core.Project.Parts.{IsGathered, gather-IsGathered, project-eq-ok}

-- A requirement that stands in no completion's way: it is not required, a root control cancelled it,
-- or its predicate is satisfied or that of a constraint in force.
abbrev pub IsClosed : Projection → Requirement → Type 0
IsClosed p req =
    (req.required ≡ false)
    ⊎ (state_of req.id p.root_control_states ≡ some ControlState.cancelled)
    ⊎ (predicate_at req.id p.predicates ≡ some Predicate.satisfied)
    ⊎ (predicate_at req.id p.predicates ≡ some Predicate.constraint_active)

-- A certified projection: every current requirement is closed, every active root is tiled by its
-- coverage and represented by a requirement or an accepted control, and no control is in error.
pub record IsCertified (snapshot : Snapshot) (p : Projection) (g : Gathered) : Type 0 where
  pub closed : All (IsClosed p) g.current
  pub tiled :
      All
        (IsTiled (active_of snapshot g.units g.sources g.requirements) g.sources snapshot.coverage)
        g.sources
  pub represented :
      All
        (λ key. contains (represented_sources g.current g.explained g.fold.represented) key ≡ true)
        (active_of snapshot g.units g.sources g.requirements)
  pub controlled : g.fold.errors ≡ []

ids_nil :
    (p : Requirement → Bool) (rows : List Requirement)
    → All (λ k. ⊥) (ids (λ (r : Requirement). r.id) (keep p rows))
    → All (λ r. p r ≡ false) rows
ids_nil p [] h = tt
ids_nil p (r ∷ rows) h = elim (Bool-cases (p r)) [
  | inl bad ↦ absurd ((rw bad at h).0)
  | inr good ↦ (good, ids_nil p rows (rw good at h))
]

keep_nil :
    {A : Type 0} (p : A → Bool) (rows : List A) → keep p rows ≡ [] → All (λ r. p r ≡ false) rows
keep_nil p [] h = tt
keep_nil p (r ∷ rows) h = elim (Bool-cases (p r)) [
  | inl bad ↦ cc (rw bad at h)
  | inr good ↦ (good, keep_nil p rows (rw good at h))
]

missing_none :
    (watermark : ℕ) (results : List (Text × Predicate)) (states : States) (rows : List Requirement)
    → missing_requirements watermark results states rows ≡ []
    → All (λ r. is_missing watermark results states r ≡ false) rows
unfolding missing_requirements
missing_none watermark results states rows h =
    ids_nil (is_missing watermark results states) rows
      (sort-All (λ k. ⊥) text_leb _ (subst (All (λ k. ⊥)) (sym h) tt))

is_missing-IsClosed :
    (watermark : ℕ) (p : Projection) (req : Requirement)
    → is_missing watermark p.predicates p.root_control_states req ≡ false
    → scope_open req watermark ≡ true
    → IsClosed p req
unfolding is_missing
is_missing-IsClosed watermark p req h s = ground arith

pub both-All :
    {A : Type 0} (P Q : A → Type 0) (xs : List A) → All P xs → All Q xs → All (λ x. P x × Q x) xs
both-All P Q [] h k = tt
both-All P Q (x ∷ xs) (h, hs) (k, ks) = ((h, k), both-All P Q xs hs ks)

current-scope :
    (units : List Text) (watermark : ℕ) (rows : List Requirement)
    → All (λ r. scope_open r watermark ≡ true) (current_requirements units watermark rows)
unfolding current_requirements
current-scope units watermark rows =
    All-map (λ r. (contains units r.unit && scope_open r watermark) ≡ true)
      (λ r. scope_open r watermark ≡ true) _ (λ r h. ground arith)
      (All-keep_self (λ r. contains units r.unit && scope_open r watermark) rows)

unrepresented_none :
    (active represented : List Text)
    → unrepresented active represented ≡ []
    → All (λ key. contains represented key ≡ true) active
unfolding unrepresented
unrepresented_none active represented h =
    All-map (λ key. not (contains represented key) ≡ false) (λ key. contains represented key ≡ true)
      active (λ key e. ground arith) (keep_nil (λ key. not (contains represented key)) active h)

certifiable_parts :
    (found : Findings)
    → is_certifiable found ≡ true
    → (is_empty found.missing ≡ true)
      × (is_empty found.coverage_errors ≡ true)
      × (is_empty found.missing_sources ≡ true)
      × (is_empty found.control_errors ≡ true)
unfolding is_certifiable
certifiable_parts found h = ground arith

module _ (speech : Speech) (sha256 : List ℕ → Text) (snapshot : Snapshot) where
  conclude-IsClosed :
      (g : Gathered)
      → IsGathered speech sha256 snapshot g
      → missing_requirements snapshot.as_of g.results g.fold.states g.current ≡ []
      → All (IsClosed (conclude speech sha256 snapshot g)) g.current
  unfolding conclude
  conclude-IsClosed g r h =
      All-map
        (λ req.
          (is_missing snapshot.as_of g.results g.fold.states req ≡ false)
          × (scope_open req snapshot.as_of ≡ true))
        (IsClosed (conclude speech sha256 snapshot g)) g.current
        (λ req (m, s).
          is_missing-IsClosed snapshot.as_of (conclude speech sha256 snapshot g) req m s)
        (both-All _ _ g.current (missing_none snapshot.as_of g.results g.fold.states g.current h) (
          subst (All (λ req. scope_open req snapshot.as_of ≡ true)) (sym r.current_rows)
            (current-scope g.units snapshot.as_of g.requirements)))

  pub conclude-IsCertified :
      (g : Gathered)
      → IsGathered speech sha256 snapshot g
      → (conclude speech sha256 snapshot g).certifiable ≡ true
      → IsCertified snapshot (conclude speech sha256 snapshot g) g
  unfolding conclude findings_of
  conclude-IsCertified g r h =
      let active = active_of snapshot g.units g.sources g.requirements in
      let (missing, errors, sources, controls) =
        certifiable_parts (findings_of speech sha256 snapshot g) h in
      let (spans, _) =
        append_nil_parts _ r.interpreted (sym r.span_rows ∙ is_empty-true g.errors errors) in
      record {
        closed = conclude-IsClosed g r (
            is_empty-true (missing_requirements snapshot.as_of g.results g.fold.states g.current)
              missing);
        tiled = span_errors-IsTiled active g.sources snapshot.coverage g.sources spans;
        represented =
            unrepresented_none active (represented_sources g.current g.explained g.fold.represented)
              (is_empty-true _ sources);
        controlled = is_empty-true g.fold.errors controls;
      }

  -- What a certificate vouches for. Every current requirement is not required, cancelled by a root
  -- control, or satisfied or an active constraint; the coverage of every active root tiles its
  -- bytes; every active root is the source of a requirement or of an accepted control; and no
  -- control is in error.
  pub project-IsCertified :
      (p : Projection)
      → project speech sha256 snapshot ≡ ok p
      → p.certifiable ≡ true
      → (g : Gathered) × (gather speech sha256 snapshot ≡ ok g) × IsCertified snapshot p g
  project-IsCertified p h certified =
      let (g, gathered, concluded) = project-eq-ok speech sha256 snapshot p h in
      (
        g,
        gathered,
        subst (λ q. q.certifiable ≡ true → IsCertified snapshot q g) concluded
            (conclude-IsCertified g (gather-IsGathered speech sha256 snapshot g gathered))
            certified,
      )
