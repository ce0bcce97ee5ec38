-- ===== src/Digest/Binding.antt =====
-- scripts/reference_digest_encoder.py: predParams v3, the binding record and bindingDigest v3.
use codex_context_guard.Base.{
  ℕ, ◌+◌, Bool, not, ◌&&◌, some, List, [], ◌∷◌, ◌++◌, Text, text_eq, nat_eq, ◌==◌, contains, ltb,
  length, any, is_empty, if◌then◌else◌, Result, ok, raise, raise_if, ◌>>=◌, ◌>>◌, digest_error,
}
use codex_context_guard.Base.Sorting.{sort}
use codex_context_guard.Base.Texts.{codes, encode, text_leb}
use codex_context_guard.Base.Json.{
  Json, Json.null, Json.string, Json.array, Json.object, Items, Members, elements, entries, keys,
  get_or, get,
}
use codex_context_guard.Digest.{
  Bytes, join_parts, require_exact_keys, typed_token, hex_token, field, token_field,
  check_field_count, str_of, str_field,
}
use codex_context_guard.Digest.Collections.{
  each, gather, encode_set, encode_map_rows, is_dynamic_key, tuple_entries, string_tokens,
}
use codex_context_guard.Digest.Session.{int_row, str_row, check_optional_string}
use codex_context_guard.Digest.Evidence.{enum_row, optional_row}

unfoldable pub check_parameter : List Text → Text → Result (Unit {0})
check_parameter allowlist name = do
  raise_if (not (is_dynamic_key name)) digest_error
  raise_if (not (contains allowlist name)) digest_error

unfoldable pub check_parameters : List Text → List Text → Result (Unit {0})
check_parameters allowlist [] = ok tt
check_parameters allowlist (name ∷ names) = do
  check_parameter allowlist name
  check_parameters allowlist names

unfoldable pub by_parameter : Text × Json → Text × Json → Bool
by_parameter a b = text_leb (encode a.0) (encode b.0)

unfoldable pub parameter_row : Text × Json → Result Bytes
parameter_row (name, value) = token_field name (typed_token value)

unfoldable pub pred_params_bytes : Members → List Text → Result Bytes
pred_params_bytes params allowlist = do
  check_field_count (length (keys params))
  check_parameters allowlist (keys params)
  rows ← each parameter_row (sort by_parameter (entries params))
  let payload = codes "ccg.predParams.v3\n" ++ rows
  raise_if (ltb 4096 (length payload)) digest_error
  ok payload

-- `PRODUCT_KEY_VOCABULARY`
unfoldable pub product_vocabulary : List Text
product_vocabulary =
    codes "repository"
    ∷ codes "remote"
    ∷ codes "refspec"
    ∷ codes "upstream_oid"
    ∷ codes "pre_head_oid"
    ∷ codes "post_head_oid"
    ∷ codes "tracking_ref_oid"
    ∷ codes "pull_mode"
    ∷ codes "branch"
    ∷ codes "change_set_digest"
    ∷ codes "local_oid"
    ∷ codes "remote_oid"
    ∷ codes "package_id"
    ∷ codes "version"
    ∷ codes "integrity_digest"
    ∷ codes "profile"
    ∷ codes "artifact_id"
    ∷ codes "scope"
    ∷ codes "pre_digest"
    ∷ codes "post_digest"
    ∷ codes "service_id"
    ∷ codes "pre_generation"
    ∷ codes "new_generation"
    ∷ codes "health"
    ∷ codes "registry"
    ∷ codes "executable"
    ∷ codes "expected_outcome"
    ∷ codes "min_matches"
    ∷ []

-- `_resolve_allowlist`
unfoldable pub resolve_allowlist : Json → Result (List Text)
resolve_allowlist null = ok product_vocabulary
resolve_allowlist (string name) =
    if name == codes "product" then ok product_vocabulary else raise digest_error
resolve_allowlist (array names) = gather str_of (elements names)
resolve_allowlist _ = raise digest_error

abbrev binding_common_keys : List Text
binding_common_keys =
    codes "item"
    ∷ codes "semanticAction"
    ∷ codes "requestedTarget"
    ∷ codes "resolvedTarget"
    ∷ codes "observedState"
    ∷ codes "predId"
    ∷ codes "predVersion"
    ∷ codes "predParamsKind"
    ∷ codes "resolutionEvidenceId"
    ∷ codes "effectEvidenceId"
    ∷ codes "stateEvidenceIds"
    ∷ []

abbrev binding_inline_keys : List Text
binding_inline_keys = codes "predParams" ∷ codes "predParamsAllowlist" ∷ []

abbrev binding_manifest_keys : List Text
binding_manifest_keys =
    codes "predParamsRef" ∷ codes "predParamsManifest" ∷ codes "predParamsManifestAllowlist" ∷ []

-- `PRED_PARAMS_KIND_ENUM`
pub data ParamsKind : Type 0 where
  inline manifest : ParamsKind

unfoldable pub params_kind_of : Json → Result ParamsKind
params_kind_of (string text) =
    if text == codes "inline"
    then ok inline
    else if text == codes "manifest"
    then ok manifest
    else raise digest_error
params_kind_of _ = raise digest_error

abbrev kind_name : ParamsKind → Text
kind_name inline = codes "inline"
kind_name manifest = codes "manifest"

abbrev branch_keys : ParamsKind → List Text
branch_keys inline = binding_inline_keys
branch_keys manifest = binding_manifest_keys

abbrev params_key : ParamsKind → Text
params_key inline = codes "predParams"
params_key manifest = codes "predParamsManifest"

abbrev allowlist_key : ParamsKind → Text
allowlist_key inline = codes "predParamsAllowlist"
allowlist_key manifest = codes "predParamsManifestAllowlist"

-- A dict.
unfoldable pub object_of : Json → Result Members
object_of (object row) = ok row
object_of _ = raise digest_error

unfoldable pub reference_of : Json → Result Text
reference_of (string ref) = if is_empty ref then raise digest_error else ok ref
reference_of _ = raise digest_error

-- The parameters themselves, or the name of the manifest that holds them.
unfoldable pub params_row : ParamsKind → Members → Bytes → Result Bytes
params_row inline row payload = field (codes "predParams") (some payload)
params_row manifest row payload = do
  ref ← reference_of (get row (codes "predParamsRef"))
  token_field (codes "predParamsRef") (typed_token (string ref))

-- `len(binding.get(section) or {})`, of a section that is a dict or absent.
unfoldable pub section_size : Json → ℕ
section_size (object row) = length (keys row)
section_size _ = 0

module _ (sha256_hex : Bytes → Text) where
  unfoldable pub binding_record_bytes : Members → List Text → Result Bytes
  binding_record_bytes value allowlist = do
    kind ← params_kind_of (get value (codes "predParamsKind"))
    params ← object_of (get value (params_key kind))
    pred_allowlist ← resolve_allowlist (get value (allowlist_key kind))
    binding ← require_exact_keys (object value) (binding_common_keys ++ branch_keys kind)
    payload ← pred_params_bytes params pred_allowlist
    item ← str_row binding (codes "item") (codes "item")
    action ← str_row binding (codes "semanticAction") (codes "semanticAction")
    requested ← tuple_entries (get binding (codes "requestedTarget")) allowlist
    requested_rows ← encode_map_rows requested (codes "req:")
    resolved ← tuple_entries (get binding (codes "resolvedTarget")) allowlist
    resolved_rows ← encode_map_rows resolved (codes "res:")
    observed ← tuple_entries (get binding (codes "observedState")) allowlist
    observed_rows ← encode_map_rows observed (codes "obs:")
    pred_id ← str_row binding (codes "predId") (codes "predId")
    pred_version ← int_row binding (codes "predVersion") (codes "predVersion")
    kind_row ← enum_row (codes "predParamsKind") (kind_name kind)
    params_bytes ← params_row kind binding payload
    params_digest ← token_field (codes "predParamsDigest") (hex_token (string (sha256_hex payload)))
    check_optional_string (get binding (codes "resolutionEvidenceId"))
    resolution_id ← optional_row binding (codes "resolutionEvidenceId")
    effect_id ← str_row binding (codes "effectEvidenceId") (codes "effectEvidenceId")
    state_tokens ← string_tokens (get_or binding (codes "stateEvidenceIds") (array Items.nil))
    state_ids ← encode_set (codes "stateEvidenceId") state_tokens
    check_field_count (
        2
        + (section_size (get binding (codes "requestedTarget"))
            + section_size (get binding (codes "resolvedTarget"))
            + section_size (get binding (codes "observedState")))
        + 3
        + 2
        + 2
        + length state_tokens)
    ok (
        join_parts (
          codes "ccg.binding.v3\n"
          ∷ item
          ∷ action
          ∷ requested_rows
          ∷ resolved_rows
          ∷ observed_rows
          ∷ pred_id
          ∷ pred_version
          ∷ kind_row
          ∷ params_bytes
          ∷ params_digest
          ∷ resolution_id
          ∷ effect_id
          ∷ state_ids
          ∷ []))

  unfoldable pub binding_record_digest : Members → List Text → Result Text
  binding_record_digest binding allowlist = do
    payload ← binding_record_bytes binding allowlist
    ok (sha256_hex payload)

  -- The (item, semanticAction) of a binding.
  abbrev Marker : Type 0
  Marker = Text × Text

  unfoldable pub same_marker : Marker → Marker → Bool
  same_marker a b = a.0 == b.0 && a.1 == b.1

  unfoldable pub by_marker : Marker × Text → Marker × Text → Bool
  by_marker a b =
      if encode a.0.0 == encode b.0.0
      then text_leb (encode a.0.1) (encode b.0.1)
      else text_leb (encode a.0.0) (encode b.0.0)

  -- The loop over the records; `seen` are the markers before.
  unfoldable pub marked_digests :
      List Text → List Marker → List Members → Result (List (Marker × Text))
  marked_digests allowlist seen [] = ok []
  marked_digests allowlist seen (row ∷ rows) = do
    item ← str_field row (codes "item")
    action ← str_field row (codes "semanticAction")
    raise_if (any (same_marker (item, action)) seen) digest_error
    digest ← binding_record_digest row allowlist
    rest ← marked_digests allowlist ((item, action) ∷ seen) rows
    ok (((item, action), digest) ∷ rest)

  unfoldable pub digest_row : Marker × Text → Result Bytes
  digest_row marked = token_field (codes "binding") (hex_token (string marked.1))

  unfoldable pub binding_digest : List Members → List Text → Result Text
  binding_digest records allowlist = do
    marked ← marked_digests allowlist [] records
    rows ← each digest_row (sort by_marker marked)
    check_field_count (length records)
    ok (sha256_hex (codes "ccg.bindingDigest.v3\n" ++ rows))

  unfoldable pub pred_params_digest : Members → List Text → Result Text
  pred_params_digest params allowlist = do
    payload ← pred_params_bytes params allowlist
    ok (sha256_hex payload)
