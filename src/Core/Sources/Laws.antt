-- ===== src/Core/Sources/Laws.antt =====
-- What the checks of the sources establish.
use codex_context_guard.Base.{
  ℕ, ◌≤◌, ◌≡◌, ◌⊎◌, refl, true, false, not, ◌&&◌, Option, none, some, List, [], ◌∷◌, Text, text_eq,
  option_eq, nat_eq, ◌==◌, is_some, ok, arith, All, Option-cases, Bool-cases, inl, inr,
}
use codex_context_guard.Base.Texts.{byte_length, encode}
use codex_context_guard.Core.Spans.{get_source}
use codex_context_guard.Core.Model.{Source}
use codex_context_guard.Core.Kinds.{SourceKind, source_kind_eq}
use codex_context_guard.Core.Sources.{
  differ, origin_fits, origin_valid, identity_valid, check_source, check_sources,
}

-- A host call's origin, if it names one: an indexed root of its unit and turn that is not later.
abbrev pub HasOrigin : List Source → Source → Option Text → Type 0
HasOrigin sources source none = Unit
HasOrigin sources source (some key) =
    (origin : Source) × (get_source key sources ≡ some origin)
    × (source.kind ≡ SourceKind.host_call)
    × (origin.kind ≡ SourceKind.root)
    × (origin.unit ≡ source.unit)
    × (origin.turn ≡ source.turn)
    × (origin.seq ≤ source.seq)

-- A root source has a text, and its length and its digest are those of the text's bytes.
abbrev pub BindsText : (List ℕ → Text) → Source → Option Text → Type 0
BindsText sha256 source none = ⊥
BindsText sha256 source (some text) =
    (byte_length text ≡ source.byte_length) × (sha256 (encode text) ≡ source.sha256)

module _ (sha256 : List ℕ → Text) (sources : List Source) where
  pub record IsSound (source : Source) : Type 0 where
    pub origin : HasOrigin sources source source.origin_root_source_id
    pub target_pair : differ source.target source.target_kind ≡ false
    pub locator_pair : differ source.locator_base source.locator_flavor ≡ false
    pub target_of_call : (is_some source.target ≡ false) ⊎ (source.kind ≡ SourceKind.host_call)
    pub locator_of_root : (is_some source.locator_base ≡ false) ⊎ (source.kind ≡ SourceKind.root)
    pub bound : (source.kind == SourceKind.root ≡ false) ⊎ BindsText sha256 source source.text

  origin_fits_none : (source : Source) → origin_fits source none ≡ false
  unfolding origin_fits
  origin_fits_none source = refl

  origin_fits_parts :
      (source origin : Source)
      → origin_fits source (some origin) ≡ true
      → (source.kind ≡ SourceKind.host_call)
        × (origin.kind ≡ SourceKind.root)
        × (origin.unit ≡ source.unit)
        × (origin.turn ≡ source.turn)
        × (origin.seq ≤ source.seq)
  unfolding origin_fits
  origin_fits_parts source origin h = ground arith

  origin-HasOrigin :
      (source : Source) (key : Option Text)
      → origin_valid sources source key ≡ true
      → HasOrigin sources source key
  unfolding origin_valid
  origin-HasOrigin source none h = tt
  origin-HasOrigin source (some key) h = elim (Option-cases (get_source key sources)) [
    | inl missing ↦ cc (rw missing at h, origin_fits_none source)
    | inr (origin, found) ↦
        let (a, b, c, d, e) = origin_fits_parts source origin (rw found at h) in
        (origin, found, a, b, c, d, e)
  ]

  identity-BindsText :
      (source : Source) (text : Option Text)
      → identity_valid sha256 source text ≡ true
      → BindsText sha256 source text
  unfolding identity_valid
  identity-BindsText source none h = cc
  identity-BindsText source (some text) h = ground arith

  check_source_parts :
      (source : Source)
      → check_source sha256 sources source ≡ ok tt
      → (origin_valid sources source source.origin_root_source_id ≡ true)
        × (differ source.target source.target_kind ≡ false)
        × (differ source.locator_base source.locator_flavor ≡ false)
        × ((is_some source.target && not (source.kind == SourceKind.host_call)) ≡ false)
        × ((is_some source.locator_base && not (source.kind == SourceKind.root)) ≡ false)
        × ((source.kind == SourceKind.root && not (identity_valid sha256 source source.text))
            ≡ false)
  unfolding check_source
  check_source_parts source h = ground arith

  check_source-IsSound :
      (source : Source) → check_source sha256 sources source ≡ ok tt → IsSound source
  check_source-IsSound source h =
      let (origin, targets, locators, call, root, bound) = check_source_parts source h in
      record {
        origin = origin-HasOrigin source source.origin_root_source_id origin;
        target_pair = targets;
        locator_pair = locators;
        target_of_call = ground arith;
        locator_of_root = ground arith;
        bound = elim (Bool-cases (identity_valid sha256 source source.text)) [
          | inl valid ↦ inr (identity-BindsText source source.text valid)
          | inr invalid ↦ inl (ground arith)
        ];
      }

  check_sources-cons :
      (source : Source) (rest : List Source)
      → check_sources sha256 sources (source ∷ rest) ≡ ok tt
      → (check_source sha256 sources source ≡ ok tt) × (check_sources sha256 sources rest ≡ ok tt)
  unfolding check_sources
  check_sources-cons source rest h = ground arith

  -- Every source that passes the loop is sound.
  pub check_sources-IsSound :
      (rows : List Source) → check_sources sha256 sources rows ≡ ok tt → All IsSound rows
  check_sources-IsSound [] h = tt
  check_sources-IsSound (source ∷ rest) h =
      let (one, later) = check_sources-cons source rest h in
      (check_source-IsSound source one, check_sources-IsSound rest later)
