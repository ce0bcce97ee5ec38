-- ===== src/Core/Coverage.antt =====
-- How much of each active root the coverage and the interpretations account for: the two passes of
-- `project` over `snapshot["coverage"]`.
pub mod Laws
pub mod Future
use codex_context_guard.Base.{
  ℕ, Bool, true, false, not, ◌&&◌, ◌||◌, Option, none, some, List, [], ◌∷◌, ◌++◌, Text, text_eq,
  nat_eq, ◌==◌, contains, ltb, leb, keep, map, is_empty, if◌then◌else◌, Result, ok, raise, ◌>>=◌,
  attribute_error, unicode_decode_error,
}
use codex_context_guard.Base.Texts.{codes, decode_slice, strip}
use codex_context_guard.Base.Sorting.{sort}
use codex_context_guard.Core.Index.{ids}
use codex_context_guard.Core.Spans.{get_source, source_matches}
use codex_context_guard.Core.Model.{Source, Span, Requirement, RootControl, Coverage}
use codex_context_guard.Core.Kinds.{CoverageKind, coverage_kind_eq, SourceKind, source_kind_eq}

abbrev unit_in : List Text → Option Source → Bool
unit_in units none = false
unit_in units (some source) = contains units source.unit

-- `active_root_ids`, as a list.
unfoldable pub active_root_ids :
    ℕ → ℕ → List Text → List Source → List Requirement → List RootControl → List Text
active_root_ids watermark revision units sources requirements controls =
    ids (λ s. s.id)
      (keep (λ s. s.kind == SourceKind.root && contains units s.unit && s.revision == revision)
        sources)
    ++ map (λ r. r.source.source_id) (keep (λ r. contains units r.unit) requirements)
    ++ map (λ c. c.source.source_id)
        (keep (λ c. leb c.seq watermark && unit_in units (get_source c.source.source_id sources))
          controls)

abbrev pub by_start : Coverage → Coverage → Bool
by_start a b = leb a.source.start b.source.start

unfoldable pub spans_of : Text → List Coverage → List Coverage
spans_of key coverage = sort by_start (keep (λ c. c.source.source_id == key) coverage)

-- The loop over the spans of one root: the errors that it reports, from a cursor on.
unfoldable pub walk_spans : List Source → Source → ℕ → List Coverage → List Text
walk_spans sources source cursor [] = if cursor == source.byte_length then [] else source.id ∷ []
walk_spans sources source cursor (c ∷ rest) =
    let later = walk_spans sources source c.source.end rest in
    if source_matches c.source sources true && c.source.start == cursor
    then later
    else source.id ∷ later

unfoldable pub unknown_spans : Source → List Coverage → List Text
unknown_spans source spans = map (λ c. source.id) (keep (λ c. c.kind == CoverageKind.unknown) spans)

abbrev pub is_active : List Text → Source → Bool
is_active active source = source.kind == SourceKind.root && contains active source.id

-- `coverage_errors` and `unknown_coverage` after the first pass.
unfoldable pub span_errors : List Text → List Source → List Coverage → List Source → List Text
span_errors active sources coverage [] = []
span_errors active sources coverage (source ∷ rest) =
    let later = span_errors active sources coverage rest in
    if is_active active source
    then walk_spans sources source 0 (spans_of source.id coverage) ++ later
    else later

unfoldable pub unknown_coverage : List Text → List Coverage → List Source → List Text
unknown_coverage active coverage [] = []
unknown_coverage active coverage (source ∷ rest) =
    let later = unknown_coverage active coverage rest in
    if is_active active source
    then unknown_spans source (spans_of source.id coverage) ++ later
    else later

abbrev separators : Text
separators = codes " \t\r\n,，。.!?？；;：:、"

-- `raw[a:b].decode("utf-8").strip(separators)`
unfoldable pub residue : Text → ℕ → ℕ → Result Text
residue text a b = elim (decode_slice a b text) [
  | none ↦ raise unicode_decode_error
  | some t ↦ ok (strip (contains separators) t)
]

abbrev max : ℕ → ℕ → ℕ
max a b = if leb a b then b else a

-- The loop over `covered`: where its cursor stands at the end, or at the break.
unfoldable pub walk_covered : Text → ℕ → List (ℕ × ℕ) → Result ℕ
walk_covered text cursor [] = ok cursor
walk_covered text cursor ((start, end) ∷ rest) =
    let later = walk_covered text (max cursor end) rest in
    if ltb cursor start
    then (residue text cursor start >>= λ left. if is_empty left then later else ok cursor)
    else later

-- Whether what is left of the span behind the cursor is more than separators.
unfoldable pub uncovered : Text → Span → List (ℕ × ℕ) → Result Bool
uncovered text span covered = walk_covered text span.start covered >>= λ cursor.
    if ltb cursor span.end
    then (residue text cursor span.end >>= λ left. ok (not (is_empty left)))
    else ok false

abbrev pair_before : ℕ × ℕ → ℕ × ℕ → Bool
pair_before (a, b) (c, d) = if a == c then leb b d else ltb a c

abbrev bounds : Span → ℕ × ℕ
bounds span = (span.start, span.end)

-- `covered`: the spans of requirements that meet the span, and those of controls of its source.
unfoldable pub covered_by :
    ℕ → List Source → List Requirement → List RootControl → Span → List (ℕ × ℕ)
covered_by watermark sources explained controls span = sort pair_before (
    map (λ r. bounds r.source)
      (keep
        (λ r.
          r.source.source_id == span.source_id
          && ltb r.source.start span.end
          && ltb span.start r.source.end)
        explained)
    ++ map (λ c. bounds c.source)
        (keep
          (λ c.
            leb c.seq watermark
            && c.source.source_id == span.source_id
            && source_matches c.source sources true)
          controls))

abbrev or_attribute_error : Option Text → Result Text
or_attribute_error none = raise attribute_error
or_attribute_error (some text) = ok text

-- One coverage entry of the second pass.
unfoldable pub interpreted_error :
    ℕ
    → List Text
    → List Source
    → List Requirement
    → List RootControl
    → Coverage
    → Option Source
    → Result (List Text)
interpreted_error watermark units sources explained controls c none = ok []
interpreted_error watermark units sources explained controls c (some source) =
    if not (contains units source.unit && c.kind == CoverageKind.interpreted) then ok [] else do
      text ← or_attribute_error source.text
      open_residue ←
          uncovered text c.source (covered_by watermark sources explained controls c.source)
      ok (if open_residue then c.source.source_id ∷ [] else [])

unfoldable pub interpreted_errors :
    ℕ
    → List Text
    → List Source
    → List Requirement
    → List RootControl
    → List Coverage
    → Result (List Text)
interpreted_errors watermark units sources explained controls [] = ok []
interpreted_errors watermark units sources explained controls (c ∷ rest) = do
  found ←
      interpreted_error watermark units sources explained controls c
        (get_source c.source.source_id sources)
  later ← interpreted_errors watermark units sources explained controls rest
  ok (found ++ later)
