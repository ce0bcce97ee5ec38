-- ===== src/Core/Predicates/Laws.antt =====
-- What makes a requirement satisfied: its latest evidence, and no earlier one.
use mathlib.Core.List.{Memᴰ}
use codex_context_guard.Base.{
  ℕ, ◌≤◌, ◌≡◌, ◌≢◌, true, some, List, Text, text_eq, nat_eq, keep, last?, arith, All, Option-cases,
  inl, inr,
}
use codex_context_guard.Base.Sorting.{sort, last-sort}
use codex_context_guard.Core.Model.{Source, Requirement, Fact}
use codex_context_guard.Core.Kinds.{
  Outcome, outcome_eq, RequirementKind, requirement_kind_eq, Status, status_eq,
}
use codex_context_guard.Core.Spans.{scope_open}
use codex_context_guard.Core.Targets.{source_valid, target_valid}
use codex_context_guard.Core.Predicates.{
  Predicate, predicate_of, constraint_predicate, is_settled, settled, latest_evidence, is_evidence,
  counts, by_seq,
}

-- Evidence that settles a requirement: a fact of its unit, revision, target and predicate that
-- succeeded, that counts for its kind, and after which no other such fact comes.
pub record IsSettledBy (turn : Text) (sources : List Source) (facts : List Fact) (req : Requirement)
    (fact : Fact) : Type 0 where
  pub listed : Memᴰ fact (keep (is_evidence sources req) facts)
  pub succeeded : fact.outcome ≡ Outcome.success
  pub counted : counts turn sources req fact ≡ true
  pub latest : All (λ f. f.seq ≤ fact.seq) (keep (is_evidence sources req) facts)

satisfied_parts :
    (watermark : ℕ) (turn : Text) (sources : List Source) (effects facts : List Fact)
    (req : Requirement)
    → predicate_of watermark turn sources effects facts req ≡ Predicate.satisfied
    → (is_settled turn sources facts req ≡ true)
      × (scope_open req watermark ≡ true)
      × (req.status ≢ Status.legacy_review)
      × (source_valid sources req ≡ true)
      × (req.kind ≢ RequirementKind.constraint)
      × (req.kind ≢ RequirementKind.unknown)
      × (target_valid watermark sources facts req ≡ true)
unfolding predicate_of constraint_predicate
satisfied_parts watermark turn sources effects facts req h = ground arith

is_settled-IsSettledBy :
    (turn : Text) (sources : List Source) (facts : List Fact) (req : Requirement)
    → is_settled turn sources facts req ≡ true
    → (fact : Fact) × IsSettledBy turn sources facts req fact
unfolding is_settled latest_evidence
is_settled-IsSettledBy turn sources facts req h =
    elim (Option-cases (last? (sort by_seq (keep (is_evidence sources req) facts)))) [
      | inl nothing ↦ cc (rw nothing at h)
      | inr (fact, found) ↦
          let last = last-sort (λ (f : Fact). f.seq) (keep (is_evidence sources req) facts) found in
          let settles : settled turn sources req (some fact) ≡ true = rw found at h in
          (
            fact,
            record {
              listed = last.0;
              succeeded = ground arith;
              counted = ground arith;
              latest = last.1;
            },
          )
    ]

-- A requirement is satisfied only by its latest evidence: the latest fact that bears on it
-- succeeded and counts, so an earlier success does not stand against a later failure. The
-- requirement is then in scope, not one of legacy review, stated by a valid source, neither a
-- constraint nor unknown, and on a valid target.
pub predicate-IsSettledBy :
    (watermark : ℕ) (turn : Text) (sources : List Source) (effects facts : List Fact)
    (req : Requirement)
    → predicate_of watermark turn sources effects facts req ≡ Predicate.satisfied
    → (fact : Fact) × IsSettledBy turn sources facts req fact
      × (scope_open req watermark ≡ true)
      × (req.status ≢ Status.legacy_review)
      × (source_valid sources req ≡ true)
      × (req.kind ≢ RequirementKind.constraint)
      × (req.kind ≢ RequirementKind.unknown)
      × (target_valid watermark sources facts req ≡ true)
predicate-IsSettledBy watermark turn sources effects facts req h =
    let (settled, scope, status, source, a, b, c) =
      satisfied_parts watermark turn sources effects facts req h in
    let (fact, by) = is_settled-IsSettledBy turn sources facts req settled in
    (fact, by, scope, status, source, a, b, c)
