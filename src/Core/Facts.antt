-- ===== src/Core/Facts.antt =====
-- Which facts `project` admits, which later facts invalidate, and the conditions that facts release.
pub mod Laws
use codex_context_guard.Base.{
  ℕ, Bool, true, false, not, ◌&&◌, ◌||◌, Option, none, some, List, [], ◌∷◌, Text, text_eq,
  option_eq, nat_eq, ◌==◌, contains, ltb, leb, keep, any, is_some, is_empty, if◌then◌else◌, Result,
  ok, raise, raise_if, ◌>>=◌, ◌>>◌, key_error, duplicate_condition,
}
use codex_context_guard.Core.Index.{get, has, ids, distinct}
use codex_context_guard.Core.Spans.{get_source, source_matches}
use codex_context_guard.Core.Requirements.{get_requirement}
use codex_context_guard.Core.Model.{Source, Requirement, Fact, Condition}
use codex_context_guard.Core.Kinds.{
  SourceKind, source_kind_eq, FactKind, fact_kind_eq, Outcome, outcome_eq, RequirementKind,
  requirement_kind_eq, ConditionStatus, condition_status_eq,
}

-- `sources.get(key)`, where the key may be None.
abbrev pub get_source? : Option Text → List Source → Option Source
get_source? none sources = none
get_source? (some key) sources = get_source key sources

abbrev pub get_fact : Text → List Fact → Option Fact
get_fact = get (λ f. f.id)

-- `call["call_id"]` is neither None nor empty, and is the result's.
unfoldable pub same_call : Option Text → Option Text → Bool
same_call none other = false
same_call (some id) other = not (is_empty id) && some id == other

-- `sources[a]["seq"] < sources[b]["seq"]`
unfoldable pub earlier : Option Source → Option Source → Result Bool
earlier none b = raise key_error
earlier (some a) none = raise key_error
earlier (some a) (some b) = ok (ltb a.seq b.seq)

-- The call's origin root comes before the root of the fact's requirement, which is no constraint.
unfoldable pub stale_origin : List Source → Option Text → Option Requirement → Result Bool
stale_origin sources none req = ok false
stale_origin sources (some origin) none = ok false
stale_origin sources (some origin) (some req) =
    if req.kind == RequirementKind.constraint
    then ok false
    else earlier (get_source origin sources) (get_source req.source.source_id sources)

-- A fact of an action, a state or a readiness: its call and its result are correlated.
unfoldable pub call_fact_valid :
    List Source → List Requirement → Fact → Source → Option Source → Result Bool
call_fact_valid sources current fact source none = ok false
call_fact_valid sources current fact source (some call) =
    if not (call.kind == SourceKind.host_call && source.kind == SourceKind.host_result)
    then ok false
    else if not (same_call call.call_id source.call_id)
    then ok false
    else if not (call.target == some fact.target && is_some call.target_kind)
    then ok false
    else stale_origin sources call.origin_root_source_id
        (get_requirement fact.requirement_id current)
      >>= λ stale. ok (
          not stale
          && ltb call.seq source.seq
          && call.unit == fact.unit
          && call.revision == fact.revision)

-- The source kind that the facts of each other kind want.
abbrev kind_fits : FactKind → SourceKind → Bool
kind_fits FactKind.delivery kind = kind == SourceKind.final_delivery
kind_fits FactKind.external_operation kind = kind == SourceKind.external_lifecycle
kind_fits _ kind = kind == SourceKind.host_result

abbrev pub of_call : FactKind → Bool
of_call FactKind.action_event = true
of_call FactKind.state_outcome = true
of_call FactKind.readiness = true
of_call _ = false

-- The body of the loop: whether the fact is put into `valid_facts`.
unfoldable pub fact_valid : List Source → List Requirement → Fact → Option Source → Result Bool
fact_valid sources current fact none = ok false
fact_valid sources current fact (some source) =
    if ltb fact.seq source.seq
    then ok false
    else if not (source.unit == fact.unit && source.revision == fact.revision)
    then ok false
    else if of_call fact.kind
    then call_fact_valid sources current fact source (get_source? fact.call_source_id sources)
    else ok (kind_fits fact.kind source.kind)

-- `historical_effect_facts`
unfoldable pub admit_facts : List Source → List Requirement → List Fact → Result (List Fact)
admit_facts sources current [] = ok []
admit_facts sources current (fact ∷ rest) = do
  valid ← fact_valid sources current fact (get_source fact.source_id sources)
  others ← admit_facts sources current rest
  ok (if valid then fact ∷ others else others)

-- A fact is invalidated by one that names it and is later.
unfoldable pub invalidated : List Fact → Fact → Bool
invalidated admitted fact = any (λ f. contains f.invalidates fact.id && ltb fact.seq f.seq) admitted

-- `valid_facts`
unfoldable pub drop_invalidated : List Fact → List Fact
drop_invalidated admitted = keep (λ fact. not (invalidated admitted fact)) admitted

-- A fact of the condition that succeeded for its requirement.
unfoldable pub releases : Condition → Requirement → Option Fact → Bool
releases condition req none = false
releases condition req (some fact) =
    fact.condition_id == some condition.id
    && fact.requirement_id == req.id
    && fact.outcome == Outcome.success

unfoldable pub condition_released : List Source → List Fact → Condition → Option Requirement → Bool
condition_released sources facts condition none = false
condition_released sources facts condition (some req) =
    source_matches condition.source sources true
    && condition.source.source_id == req.source.source_id
    && condition.status == ConditionStatus.released
    && any (λ fid. releases condition req (get_fact fid facts)) condition.fact_ids

-- `released`, after the check for duplicates.
unfoldable pub released_conditions :
    List Source → List Requirement → List Fact → List Condition → Result (List Text)
released_conditions sources current facts conditions = do
  raise_if (not (distinct (ids (λ c. c.id) conditions))) duplicate_condition
  ok (
      ids (λ c. c.id)
        (keep (λ c. condition_released sources facts c (get_requirement c.requirement_id current))
          conditions))
