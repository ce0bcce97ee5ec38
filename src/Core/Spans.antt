-- ===== src/Core/Spans.antt =====
-- `_source_matches` and `_scope_open`.
use codex_context_guard.Base.{
  ℕ, Bool, true, false, not, ◌&&◌, ◌||◌, Option, none, some, List, leb, ltb, ◌==◌, text_eq, nat_eq,
  is_some, Text,
}
use codex_context_guard.Base.Texts.{decode_prefix}
use codex_context_guard.Core.Index.{get}
use codex_context_guard.Core.Model.{Source, Span, Requirement}
use codex_context_guard.Core.Kinds.{SourceKind, source_kind_eq, Status, status_eq}

-- `sources.get(key)`
abbrev pub get_source : Text → List Source → Option Source
get_source = get (λ s. s.id)

-- Both ends of the span are character boundaries of the source's text, if it has one.
unfoldable pub at_boundaries : Span → Option Text → Bool
at_boundaries span none = true
at_boundaries span (some text) =
    is_some (decode_prefix span.start text) && is_some (decode_prefix span.end text)

unfoldable pub matches_source : Span → Bool → Option Source → Bool
matches_source span root none = false
matches_source span root (some source) =
    at_boundaries span source.text
    && (not root || source.kind == SourceKind.root)
    && span.sha256 == source.sha256
    && ltb span.start span.end
    && leb span.end source.byte_length

-- `_source_matches(span, sources, root=root)`
unfoldable pub source_matches : Span → List Source → Bool → Bool
source_matches span sources root = matches_source span root (get_source span.source_id sources)

abbrev before_end : ℕ → Option ℕ → Bool
before_end at_seq none = true
before_end at_seq (some end) = ltb at_seq end

-- `_scope_open(req, at_seq)`
unfoldable pub scope_open : Requirement → ℕ → Bool
scope_open req at_seq =
    not (req.status == Status.superseded && not (is_some req.superseded_at_seq))
    && leb req.seq at_seq
    && before_end at_seq req.superseded_at_seq
