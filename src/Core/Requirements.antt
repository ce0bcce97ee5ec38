-- ===== src/Core/Requirements.antt =====
-- The requirements that `project` takes for current, and its check of supersessions.
use codex_context_guard.Base.{
  ℕ, Bool, true, false, not, ◌&&◌, ◌||◌, Option, none, some, List, [], ◌∷◌, Text, text_eq, nat_eq,
  ◌==◌, contains, ltb, leb, keep, any, Result, ok, raise, raise_if, ◌>>◌,
  supersession_identity_incomplete, supersession_interval_invalid, supersession_source_mismatch,
  requirement_parent_missing,
}
use codex_context_guard.Core.Index.{get, has}
use codex_context_guard.Core.Spans.{get_source, scope_open, source_matches}
use codex_context_guard.Core.Model.{Source, Requirement}
use codex_context_guard.Core.Kinds.{SourceKind, source_kind_eq, Status, status_eq}

abbrev pub get_requirement : Text → List Requirement → Option Requirement
get_requirement = get (λ r. r.id)

-- The source of a supersession is a root of the unit, at the moment that it takes effect.
unfoldable pub superseding_source : Requirement → ℕ → Option Source → Bool
superseding_source req end none = false
superseding_source req end (some source) =
    source.kind == SourceKind.root && source.unit == req.unit && source.seq == end

-- Its successor comes from that source, at that moment, under a later revision.
unfoldable pub superseding_successor : Requirement → ℕ → Text → Option Requirement → Bool
superseding_successor req end source none = false
superseding_successor req end source (some successor) =
    successor.unit == req.unit
    && successor.seq == end
    && successor.source.source_id == source
    && ltb req.revision successor.revision

-- The body of the loop, once the three keys are present.
unfoldable pub check_interval :
    ℕ → List Source → List Requirement → Requirement → ℕ → Text → Text → Result (Unit {0})
check_interval watermark sources requirements req end source successor =
    raise_if (leb end req.seq || not (req.status == Status.superseded))
      supersession_interval_invalid
    >> raise_if
        (leb end watermark
          && not (
              superseding_source req end (get_source source sources)
              && superseding_successor req end source (get_requirement successor requirements)))
        supersession_source_mismatch

-- A requirement has all three keys of a supersession or none of them.
unfoldable pub check_keys :
    ℕ
    → List Source
    → List Requirement
    → Requirement
    → Option ℕ
    → Option Text
    → Option Text
    → Result (Unit {0})
check_keys watermark sources requirements req none none none = ok tt
check_keys watermark sources requirements req (some end) (some source) (some successor) =
    check_interval watermark sources requirements req end source successor
check_keys watermark sources requirements req _ _ _ = raise supersession_identity_incomplete

unfoldable pub check_supersessions :
    ℕ → List Source → List Requirement → List Requirement → Result (Unit {0})
check_supersessions watermark sources requirements [] = ok tt
check_supersessions watermark sources requirements (req ∷ rest) =
    check_keys watermark sources requirements req req.superseded_at_seq req.supersession_source_id
      req.superseded_by_requirement_id
    >> check_supersessions watermark sources requirements rest

-- `current`
unfoldable pub current_requirements : List Text → ℕ → List Requirement → List Requirement
current_requirements units watermark requirements =
    keep (λ req. contains units req.unit && scope_open req watermark) requirements

abbrev orphan : List Requirement → Option Text → Bool
orphan requirements none = false
orphan requirements (some parent) = not (has (λ r. r.id) parent requirements)

unfoldable pub check_parents : List Requirement → List Requirement → Result (Unit {0})
check_parents requirements current =
    raise_if (any (λ req. orphan requirements req.parent_id) current) requirement_parent_missing

abbrev ended_by : ℕ → Option ℕ → Bool
ended_by watermark none = false
ended_by watermark (some end) = leb end watermark

-- `historical_explained`
unfoldable pub historical_explained :
    List Text → ℕ → List Source → List Requirement → List Requirement
historical_explained units watermark sources requirements =
    keep
      (λ req.
        contains units req.unit
        && req.status == Status.superseded
        && ended_by watermark req.superseded_at_seq
        && source_matches req.source sources true)
      requirements
