-- ===== src/Core/Predicates.antt =====
-- The predicate of each current requirement: the second half of the loop over `current` in `project`.
pub mod Laws
use codex_context_guard.Base.{
  ℕ, Bool, true, false, not, ◌&&◌, ◌||◌, Option, none, some, List, [], ◌∷◌, Text, text_eq,
  option_eq, nat_eq, ◌==◌, ltb, leb, keep, any, last?, is_some, if◌then◌else◌, Eq,
}
use codex_context_guard.Base.Texts.{codes}
use codex_context_guard.Base.Sorting.{sort}
use codex_context_guard.Core.Spans.{get_source, scope_open}
use codex_context_guard.Core.Facts.{get_source?}
use codex_context_guard.Core.Targets.{source_valid, target_valid, call_kind_is}
use codex_context_guard.Core.Model.{Source, Requirement, Fact}
use codex_context_guard.Core.Kinds.{
  FactKind, fact_kind_eq, EvidenceKind, Outcome, outcome_eq, RequirementKind, requirement_kind_eq,
  Status, status_eq,
}

pub data Predicate : Type 0 where
  legacy_review superseded constraint_violated constraint_unresolved : Predicate
  constraint_active satisfied insufficient : Predicate

predicate_dec : Discrete Predicate
predicate_dec = hlevel

instance unfoldable pub predicate_eq : Eq Predicate
unfolding predicate_dec
predicate_eq = record { dec = predicate_dec }

-- The moment from which a fact's call may answer to its root: that of the origin root that the call
-- names, or else the call's own.
abbrev seq_of : Option Source → ℕ
seq_of none = 0
seq_of (some source) = source.seq

abbrev origin_seq : List Source → Source → Option Text → ℕ
origin_seq sources call none = call.seq
origin_seq sources call (some origin) = seq_of (get_source origin sources)

abbrev bound_of : List Source → Option Source → ℕ
bound_of sources none = 0
bound_of sources (some call) = origin_seq sources call call.origin_root_source_id

unfoldable pub origin_bound : List Source → Fact → ℕ
origin_bound sources fact = bound_of sources (get_source? fact.call_source_id sources)

abbrev pub call_seq : List Source → Fact → ℕ
call_seq sources fact = seq_of (get_source? fact.call_source_id sources)

abbrev target_of : Option Source → Option Text
target_of none = none
target_of (some call) = call.target

-- `mutation_facts`: of the facts that were admitted, invalidated ones included.
unfoldable pub is_mutation : List Source → Requirement → Fact → Bool
is_mutation sources req fact =
    fact.requirement_id == req.id
    && fact.unit == req.unit
    && fact.revision == req.revision
    && fact.target == req.target
    && fact.kind == FactKind.action_event
    && fact.predicate == codes "mutation_applied"
    && fact.outcome == Outcome.success
    && target_of (get_source? fact.call_source_id sources) == some req.target
    && call_kind_is sources req.target_origin.subject_kind fact

unfoldable pub mutation_facts : List Source → List Fact → Requirement → List Fact
mutation_facts sources effects req =
    if req.predicate == codes "no_mutation" then keep (is_mutation sources req) effects else []

unfoldable pub violates : ℕ → List Source → ℕ → Fact → Bool
violates watermark sources root_seq fact =
    leb root_seq (origin_bound sources fact)
    && ltb root_seq (call_seq sources fact)
    && leb fact.seq watermark

unfoldable pub crosses : List Source → ℕ → Fact → Bool
crosses sources root_seq fact =
    ltb (origin_bound sources fact) root_seq && leb root_seq fact.seq
    || leb (call_seq sources fact) root_seq && leb root_seq fact.seq

unfoldable pub constraint_predicate : ℕ → List Source → List Fact → Requirement → Predicate
constraint_predicate watermark sources effects req =
    let root_seq = seq_of (get_source req.source.source_id sources) in
    let mutations = mutation_facts sources effects req in
    if any (violates watermark sources root_seq) mutations
    then Predicate.constraint_violated
    else if any (crosses sources root_seq) mutations
    then Predicate.constraint_unresolved
    else Predicate.constraint_active

-- `f["kind"] == req["evidence_kind"]`, as words.
unfoldable pub evidence_is : FactKind → EvidenceKind → Bool
evidence_is FactKind.action_event EvidenceKind.action_event = true
evidence_is FactKind.state_outcome EvidenceKind.state_outcome = true
evidence_is FactKind.delivery EvidenceKind.delivery = true
evidence_is _ _ = false

-- `matched`, before the latest is taken.
unfoldable pub is_evidence : List Source → Requirement → Fact → Bool
is_evidence sources req fact =
    fact.unit == req.unit
    && fact.revision == req.revision
    && fact.target == req.target
    && fact.predicate == req.predicate
    && fact.requirement_id == req.id
    && evidence_is fact.kind req.evidence_kind
    && (fact.kind == FactKind.delivery || call_kind_is sources req.target_origin.subject_kind fact)
    && leb req.seq fact.seq

abbrev pub by_seq : Fact → Fact → Bool
by_seq a b = leb a.seq b.seq

unfoldable pub latest_evidence : List Source → List Fact → Requirement → Option Fact
latest_evidence sources facts req = last? (sort by_seq (keep (is_evidence sources req) facts))

abbrev turn_is : Text → Option Source → Bool
turn_is turn none = false
turn_is turn (some source) = source.turn == turn

-- Information is delivered in the turn of the snapshot; anything else has an effect or a state.
unfoldable pub counts : Text → List Source → Requirement → Fact → Bool
counts turn sources req fact =
    if req.kind == RequirementKind.information
    then fact.kind == FactKind.delivery && turn_is turn (get_source fact.source_id sources)
    else fact.kind == FactKind.action_event || fact.kind == FactKind.state_outcome

abbrev settled : Text → List Source → Requirement → Option Fact → Bool
settled turn sources req none = false
settled turn sources req (some fact) =
    fact.outcome == Outcome.success && counts turn sources req fact

unfoldable pub is_settled : Text → List Source → List Fact → Requirement → Bool
is_settled turn sources facts req = settled turn sources req (latest_evidence sources facts req)

abbrev closed_predicate : Requirement → Predicate
closed_predicate req =
    if is_some req.superseded_at_seq then Predicate.superseded else Predicate.legacy_review

-- `predicates[key]`. `effects` are the admitted facts, `facts` those that are not invalidated.
unfoldable pub predicate_of :
    ℕ → Text → List Source → List Fact → List Fact → Requirement → Predicate
predicate_of watermark turn sources effects facts req =
    if not (scope_open req watermark)
    then closed_predicate req
    else if req.status == Status.legacy_review
        || not (source_valid sources req)
        || not (target_valid watermark sources facts req)
    then Predicate.legacy_review
    else if req.kind == RequirementKind.constraint
    then constraint_predicate watermark sources effects req
    else if is_settled turn sources facts req && not (req.kind == RequirementKind.unknown)
    then Predicate.satisfied
    else Predicate.insufficient

-- The requirement is put into `delivery`: its information was delivered.
unfoldable pub is_delivered : ℕ → Text → List Source → List Fact → Requirement → Bool
is_delivered watermark turn sources facts req =
    scope_open req watermark
    && not (req.status == Status.legacy_review)
    && source_valid sources req
    && target_valid watermark sources facts req
    && req.kind == RequirementKind.information
    && is_settled turn sources facts req

-- `predicates`
unfoldable pub predicates :
    ℕ → Text → List Source → List Fact → List Fact → List Requirement → List (Text × Predicate)
predicates watermark turn sources effects facts [] = []
predicates watermark turn sources effects facts (req ∷ rest) =
    (req.id, predicate_of watermark turn sources effects facts req)
    ∷ predicates watermark turn sources effects facts rest
