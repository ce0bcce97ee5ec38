-- ===== src/Core/Coverage/Laws.antt =====
-- A root without errors is tiled by its coverage: from its first byte to its last, without a gap.
use codex_context_guard.Base.{
  ℕ, ◌<◌, ◌≡◌, ◌↔◌, ◌⊎◌, refl, Bool, true, false, Option, none, some, List, [], ◌∷◌, ◌++◌, Text,
  text_eq, nat_eq, arith, All, Bool-cases, inl, inr,
}
use codex_context_guard.Core.Spans.{get_source, source_matches, matches_source}
use codex_context_guard.Core.Model.{Source, Coverage, Span}
use codex_context_guard.Core.Kinds.{source_kind_eq}
use codex_context_guard.Core.Coverage.{walk_spans, span_errors, spans_of, is_active}

-- Coverage entries that follow on one another from one byte to another, each a matching span of a
-- root and not empty.
pub data Tiles (sources : List Source) : ℕ → ℕ → List Coverage → Type 0 where
  last : {a b : ℕ} → a ≡ b → Tiles sources a b []
  tile :
      {a b : ℕ} {rest : List Coverage} (c : Coverage)
      → c.source.start ≡ a
      → c.source.start < c.source.end
      → source_matches c.source sources true ≡ true
      → Tiles sources c.source.end b rest
      → Tiles sources a b (c ∷ rest)

matches-lt :
    (span : Span) (root : Bool) (o : Option Source)
    → matches_source span root o ≡ true
    → span.start < span.end
unfolding matches_source
matches-lt span root none h = cc
matches-lt span root (some source) h = ground arith

source_matches-lt :
    (span : Span) (sources : List Source) (root : Bool)
    → source_matches span sources root ≡ true
    → span.start < span.end
unfolding source_matches
source_matches-lt span sources root h = matches-lt span root (get_source span.source_id sources) h

walk_spans-Tiles :
    (sources : List Source) (source : Source) (cursor : ℕ) (spans : List Coverage)
    → walk_spans sources source cursor spans ≡ []
    → Tiles sources cursor source.byte_length spans
unfolding walk_spans
walk_spans-Tiles sources source cursor [] h = Tiles.last (ground arith)
walk_spans-Tiles sources source cursor (c ∷ rest) h =
    let matches : source_matches c.source sources true ≡ true = ground arith in
    Tiles.tile c (ground arith) (source_matches-lt c.source sources true matches) matches
      (walk_spans-Tiles sources source c.source.end rest (ground arith))

Tiles-walk_spans :
    (sources : List Source) (source : Source) {cursor : ℕ} (spans : List Coverage)
    → Tiles sources cursor source.byte_length spans
    → walk_spans sources source cursor spans ≡ []
unfolding walk_spans
Tiles-walk_spans sources source [] (Tiles.last e) = ground arith
Tiles-walk_spans sources source (c ∷ rest) (Tiles.tile c' e lt m t) =
    ground (arith, Tiles-walk_spans sources source rest t)

-- The loop over the spans of a root reports nothing exactly if they tile its bytes.
pub walk_spans_iff :
    (sources : List Source) (source : Source) (spans : List Coverage)
    → (walk_spans sources source 0 spans ≡ []) ↔ Tiles sources 0 source.byte_length spans
walk_spans_iff sources source spans =
    (walk_spans-Tiles sources source 0 spans, Tiles-walk_spans sources source spans)

-- Of a source that is no active root nothing is asked.
abbrev pub IsTiled : List Text → List Source → List Coverage → Source → Type 0
IsTiled active sources coverage source =
    (is_active active source ≡ false)
    ⊎ Tiles sources 0 source.byte_length (spans_of source.id coverage)

pub append_nil_parts : (xs ys : List Text) → xs ++ ys ≡ [] → (xs ≡ []) × (ys ≡ [])
append_nil_parts [] ys h = (refl, h)
append_nil_parts (x ∷ xs) ys h = cc

-- The first pass reports nothing only if every active root is tiled.
pub span_errors-IsTiled :
    (active : List Text) (sources : List Source) (coverage : List Coverage) (rows : List Source)
    → span_errors active sources coverage rows ≡ []
    → All (IsTiled active sources coverage) rows
unfolding span_errors
span_errors-IsTiled active sources coverage [] h = tt
span_errors-IsTiled active sources coverage (source ∷ rest) h =
    elim (Bool-cases (is_active active source)) [
      | inl asked ↦
          let (one, later) =
            append_nil_parts (walk_spans sources source 0 (spans_of source.id coverage)) _
              (rw asked at h) in
          (
            inr (walk_spans-Tiles sources source 0 (spans_of source.id coverage) one),
            span_errors-IsTiled active sources coverage rest later,
          )
      | inr passed ↦ (inl passed, span_errors-IsTiled active sources coverage rest (rw passed at h))
    ]
