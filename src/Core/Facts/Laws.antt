-- ===== src/Core/Facts/Laws.antt =====
-- What every admitted fact rests on, and what invalidation leaves.
use codex_context_guard.Base.{
  ◌≤◌, ◌<◌, ◌≡◌, refl, Bool, true, false, not, ◌&&◌, Option, none, some, List, [], ◌∷◌, Text,
  text_eq, option_eq, nat_eq, ◌==◌, ltb, is_some, if◌then◌else◌, ok, arith, All, Bool-cases,
  Option-cases, inl, inr, >>=-eq-ok, is_some, some,
}
use mathlib.Core.Path.{subst}
use codex_context_guard.Core.Spans.{get_source}
use codex_context_guard.Core.Requirements.{get_requirement}
use codex_context_guard.Core.Model.{Source, Requirement, Fact}
use codex_context_guard.Core.Kinds.{SourceKind, source_kind_eq, FactKind, fact_kind_eq}
use codex_context_guard.Core.Facts.{
  kind_fits, get_source?, same_call, stale_origin, call_fact_valid, of_call, fact_valid,
  admit_facts,
}

-- The call that a fact of an action, a state or a readiness rests on: a host call of the fact's
-- unit, revision and exact target, before the host result that bears its call id.
pub record IsCorrelated (sources : List Source) (fact : Fact) (source : Source) : Type 0 where
  pub call : Source
  pub found : get_source? fact.call_source_id sources ≡ some call
  pub calls : call.kind ≡ SourceKind.host_call
  pub answers : source.kind ≡ SourceKind.host_result
  pub paired : call.call_id ≡ source.call_id
  pub named : is_some call.call_id ≡ true
  pub aimed : call.target ≡ some fact.target
  pub typed : is_some call.target_kind ≡ true
  pub ordered : call.seq < source.seq
  pub same_unit : call.unit ≡ fact.unit
  pub same_revision : call.revision ≡ fact.revision

abbrev pub HasEvidence : List Source → Fact → Source → FactKind → Type 0
HasEvidence sources fact source FactKind.delivery = source.kind ≡ SourceKind.final_delivery
HasEvidence sources fact source FactKind.external_operation =
    source.kind ≡ SourceKind.external_lifecycle
HasEvidence sources fact source _ = IsCorrelated sources fact source

-- A fact that the projection admits: its source is indexed, no later than the fact, of its unit and
-- revision, and of the kind that the fact wants.
pub record IsAdmissible (sources : List Source) (fact : Fact) : Type 0 where
  pub source : Source
  pub indexed : get_source fact.source_id sources ≡ some source
  pub before : source.seq ≤ fact.seq
  pub same_unit : source.unit ≡ fact.unit
  pub same_revision : source.revision ≡ fact.revision
  pub evidence : HasEvidence sources fact source fact.kind

module _ (sources : List Source) (current : List Requirement) where
  same_call_parts : (a b : Option Text) → same_call a b ≡ true → (a ≡ b) × (is_some a ≡ true)
  unfolding same_call
  same_call_parts none b h = cc
  same_call_parts (some a) b h = ground arith

  call_fact_none :
      (fact : Fact) (source : Source) → call_fact_valid sources current fact source none ≡ ok false
  unfolding call_fact_valid
  call_fact_none fact source = refl

  call_fact_parts :
      (fact : Fact) (source call : Source)
      → call_fact_valid sources current fact source (some call) ≡ ok true
      → (call.kind ≡ SourceKind.host_call)
        × (source.kind ≡ SourceKind.host_result)
        × (same_call call.call_id source.call_id ≡ true)
        × (call.target ≡ some fact.target)
        × (is_some call.target_kind ≡ true)
        × (call.seq < source.seq)
        × (call.unit ≡ fact.unit)
        × (call.revision ≡ fact.revision)
  unfolding call_fact_valid
  call_fact_parts fact source call h = ground (
    arith,
    >>=-eq-ok
        (stale_origin sources call.origin_root_source_id
          (get_requirement fact.requirement_id current))
        (λ (stale : Bool). ok (
          not stale
          && ltb call.seq source.seq
          && call.unit == fact.unit
          && call.revision == fact.revision)),
  )

  call_fact-IsCorrelated :
      (fact : Fact) (source : Source)
      → call_fact_valid sources current fact source (get_source? fact.call_source_id sources)
        ≡ ok true
      → IsCorrelated sources fact source
  call_fact-IsCorrelated fact source h =
      elim (Option-cases (get_source? fact.call_source_id sources)) [
        | inl missing ↦ cc (rw missing at h, call_fact_none fact source)
        | inr (call, found) ↦
            let (calls, answers, same, aimed, typed, ordered, unit, revision) =
              call_fact_parts fact source call (rw found at h) in
            let (paired, named) = same_call_parts call.call_id source.call_id same in
            record {
              call = call;
              found = found;
              calls = calls;
              answers = answers;
              paired = paired;
              named = named;
              aimed = aimed;
              typed = typed;
              ordered = ordered;
              same_unit = unit;
              same_revision = revision;
            }
      ]

  fact_valid_none : (fact : Fact) → fact_valid sources current fact none ≡ ok false
  unfolding fact_valid
  fact_valid_none fact = refl

  fact_valid_parts :
      (fact : Fact) (source : Source)
      → fact_valid sources current fact (some source) ≡ ok true
      → (source.seq ≤ fact.seq)
        × (source.unit ≡ fact.unit)
        × (source.revision ≡ fact.revision)
        × ((if of_call fact.kind
              then call_fact_valid sources current fact source
                  (get_source? fact.call_source_id sources)
              else ok (kind_fits fact.kind source.kind))
            ≡ ok true)
  unfolding fact_valid
  fact_valid_parts fact source h = ground arith

  evidence :
      (fact : Fact) (source : Source) (kind : FactKind)
      → (if of_call kind
          then call_fact_valid sources current fact source (get_source? fact.call_source_id sources)
          else ok (kind_fits kind source.kind))
        ≡ ok true
      → HasEvidence sources fact source kind
  evidence fact source FactKind.action_event h = call_fact-IsCorrelated fact source h
  evidence fact source FactKind.state_outcome h = call_fact-IsCorrelated fact source h
  evidence fact source FactKind.readiness h = call_fact-IsCorrelated fact source h
  evidence fact source FactKind.delivery h = ground arith
  evidence fact source FactKind.external_operation h = ground arith

  fact_valid-IsAdmissible :
      (fact : Fact)
      → fact_valid sources current fact (get_source fact.source_id sources) ≡ ok true
      → IsAdmissible sources fact
  fact_valid-IsAdmissible fact h = elim (Option-cases (get_source fact.source_id sources)) [
    | inl missing ↦ cc (rw missing at h, fact_valid_none fact)
    | inr (source, found) ↦
        let (before, unit, revision, rests) = fact_valid_parts fact source (rw found at h) in
        record {
          source = source;
          indexed = found;
          before = before;
          same_unit = unit;
          same_revision = revision;
          evidence = evidence fact source fact.kind rests;
        }
  ]

  admit_facts-cons :
      (fact : Fact) (rest : List Fact) {admitted : List Fact}
      → admit_facts sources current (fact ∷ rest) ≡ ok admitted
      → (valid : Bool) × (others : List Fact) × (fact_valid sources current fact
            (get_source fact.source_id sources)
          ≡ ok valid)
        × (admit_facts sources current rest ≡ ok others)
        × ((if valid then fact ∷ others else others) ≡ admitted)
  unfolding admit_facts
  admit_facts-cons fact rest h =
      let (valid, e, h₁) =
        >>=-eq-ok (fact_valid sources current fact (get_source fact.source_id sources)) _ h in
      let (others, e', h₂) = >>=-eq-ok (admit_facts sources current rest) _ h₁ in
      (valid, others, e, e', cc)

  -- Every fact that the loop puts into `valid_facts` is admissible.
  pub admit_facts-IsAdmissible :
      (facts admitted : List Fact)
      → admit_facts sources current facts ≡ ok admitted
      → All (IsAdmissible sources) admitted
  unfolding admit_facts
  admit_facts-IsAdmissible [] admitted h =
      let e : [] ≡ admitted = cc in subst (All (IsAdmissible sources)) e tt
  admit_facts-IsAdmissible (fact ∷ rest) admitted h =
      let (valid, others, e, e', kept) = admit_facts-cons fact rest h in
      elim (Bool-cases valid) [
        | inl good ↦
            subst (All (IsAdmissible sources)) (rw good at kept)
              (fact_valid-IsAdmissible fact (rw good at e), admit_facts-IsAdmissible rest others e')
        | inr bad ↦
            subst (All (IsAdmissible sources)) (rw bad at kept)
              (admit_facts-IsAdmissible rest others e')
      ]
