-- ===== src/Core/Sources.antt =====
-- The loop of `project` that checks each source, and the `hashlib.sha256` that it calls as a parameter.
pub mod Laws
use codex_context_guard.Base.{
  ℕ, Bool, true, false, not, ◌&&◌, ◌||◌, Option, none, some, List, [], ◌∷◌, Text, text_eq,
  option_eq, nat_eq, ◌==◌, ltb, is_some, if◌then◌else◌, Result, ok, raise, raise_if, ◌>>=◌, ◌>>◌,
  selection_target_requires_host_call, host_call_origin_root_mismatch,
  selection_target_kind_pair_required, locator_base_requires_root,
  locator_base_flavor_pair_required, root_source_identity_mismatch,
}
use codex_context_guard.Base.Texts.{byte_length, encode}
use codex_context_guard.Core.Spans.{get_source}
use codex_context_guard.Core.Model.{Source}
use codex_context_guard.Core.Kinds.{SourceKind, source_kind_eq}

-- One is None and the other is not.
abbrev pub differ {ℓ κ} : {A : Type ℓ} {B : Type κ} → Option A → Option B → Bool
differ none none = false
differ none (some b) = true
differ (some a) none = true
differ (some a) (some b) = false

-- The root source that a host call names as its origin: of the same unit and turn, and not later.
unfoldable pub origin_fits : Source → Option Source → Bool
origin_fits source none = false
origin_fits source (some origin) =
    source.kind == SourceKind.host_call
    && origin.kind == SourceKind.root
    && origin.unit == source.unit
    && not (ltb source.seq origin.seq)
    && origin.turn == source.turn

unfoldable pub origin_valid : List Source → Source → Option Text → Bool
origin_valid sources source none = true
origin_valid sources source (some origin) = origin_fits source (get_source origin sources)

-- A root source binds its exact bytes.
unfoldable pub identity_valid : (List ℕ → Text) → Source → Option Text → Bool
identity_valid sha256 source none = false
identity_valid sha256 source (some text) =
    byte_length text == source.byte_length && sha256 (encode text) == source.sha256

unfoldable pub check_source : (List ℕ → Text) → List Source → Source → Result (Unit {0})
check_source sha256 sources source = do
  raise_if (is_some source.target && not (source.kind == SourceKind.host_call))
      selection_target_requires_host_call
  raise_if (not (origin_valid sources source source.origin_root_source_id))
      host_call_origin_root_mismatch
  raise_if (differ source.target source.target_kind) selection_target_kind_pair_required
  raise_if
      ((is_some source.locator_base || is_some source.locator_flavor)
        && not (source.kind == SourceKind.root))
      locator_base_requires_root
  raise_if (differ source.locator_base source.locator_flavor) locator_base_flavor_pair_required
  raise_if (source.kind == SourceKind.root && not (identity_valid sha256 source source.text))
      root_source_identity_mismatch

-- The loop, over the rows that the index keeps.
unfoldable pub check_sources : (List ℕ → Text) → List Source → List Source → Result (Unit {0})
check_sources sha256 sources [] = ok tt
check_sources sha256 sources (source ∷ rest) =
    check_source sha256 sources source >> check_sources sha256 sources rest
