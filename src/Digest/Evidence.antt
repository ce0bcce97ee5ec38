-- ===== src/Digest/Evidence.antt =====
-- scripts/reference_digest_encoder.py: evidenceFact v3 and evidenceSha256 v3.
use codex_context_guard.Base.{
  ◌+◌, ◌*◌, Bool, true, false, not, ◌&&◌, none, some, List, [], ◌∷◌, ◌++◌, Text, text_eq, nat_eq,
  ◌==◌, contains, length, is_empty, if◌then◌else◌, Result, ok, raise, raise_if, ◌>>=◌, ◌>>◌,
  digest_error, attribute_error, type_error, key_error,
}
use codex_context_guard.Base.Sorting.{sort}
use codex_context_guard.Base.Texts.{codes, encode, text_leb}
use codex_context_guard.Base.Json.{
  Json, Json.null, Json.string, Json.array, Json.object, Items, Members, get_or, get, find,
}
use codex_context_guard.Digest.{
  Bytes, join_parts, require_exact_keys, utf8, typed_token, hex_token, field, token_field,
  opt_field, check_field_count,
}
use codex_context_guard.Digest.Collections.{
  gather, encode_set, encode_map_rows, is_dynamic_key, tuple_entries, string_tokens, Entry,
}
use codex_context_guard.Digest.Session.{str_row, check_optional_string}

abbrev pub fact_keys : List Text
fact_keys =
    codes "id"
    ∷ codes "outcome"
    ∷ codes "method"
    ∷ codes "operations"
    ∷ codes "executables"
    ∷ codes "subjects"
    ∷ codes "surfaces"
    ∷ codes "semanticAction"
    ∷ codes "evidenceRole"
    ∷ codes "resolvedTarget"
    ∷ codes "observedState"
    ∷ codes "parseStatus"
    ∷ codes "reasonCode"
    ∷ codes "adapterId"
    ∷ codes "adapterVersion"
    ∷ []

abbrev pub outcomes : List Text
outcomes = codes "success" ∷ codes "failure" ∷ codes "unknown" ∷ codes "durability-unknown" ∷ []

abbrev pub surfaces : List Text
surfaces = codes "artifact" ∷ codes "ui" ∷ codes "visual" ∷ codes "scope" ∷ []

-- `EVIDENCE_ROLE_ENUM`
pub data Role : Type 0 where
  resolution effect state : Role

abbrev pub role_name : Role → Text
role_name resolution = codes "resolution"
role_name effect = codes "effect"
role_name state = codes "state"

-- A member of a tuple of strings.
unfoldable pub enum_member : List Text → Json → Result Text
enum_member members (string text) = if contains members text then ok text else raise digest_error
enum_member members _ = raise digest_error

unfoldable pub role_of : Json → Result Role
role_of (string text) =
    if text == codes "resolution"
    then ok resolution
    else if text == codes "effect"
    then ok effect
    else if text == codes "state"
    then ok state
    else raise digest_error
role_of _ = raise digest_error

unfoldable pub parse_status_of : Json → Result Text
parse_status_of (string text) = if is_dynamic_key text then ok text else raise digest_error
parse_status_of _ = raise digest_error

unfoldable pub is_null : Json → Bool
is_null null = true
is_null _ = false

-- `surfaces` has one entry, of the enumeration.
unfoldable pub surface_of : Json → Result Text
surface_of (array (Items.cons value Items.nil)) = enum_member surfaces value
surface_of _ = raise digest_error

-- The role matrix: which of the tuples a fact carries.
unfoldable pub fits_role : Role → List Entry → List Entry → Bool
fits_role state resolved observed = not (is_empty resolved) && not (is_empty observed)
fits_role _ resolved observed = not (is_empty resolved) && is_empty observed

unfoldable pub check_role : Role → List Entry → List Entry → Result (Unit {0})
check_role role resolved observed = raise_if (not (fits_role role resolved observed)) digest_error

-- `field(name, ("e:" + text).encode("utf-8"))`
unfoldable pub enum_row : Text → Text → Result Bytes
enum_row name text = do token ← utf8 (codes "e:" ++ text); field name (some token)

unfoldable pub optional_row : Members → Text → Result Bytes
optional_row fact name = opt_field name (get fact name) typed_token

unfoldable pub evidence_fact_bytes : Json → List Text → Result Bytes
evidence_fact_bytes value allowlist = do
  fact ← require_exact_keys value fact_keys
  outcome ← enum_member outcomes (get fact (codes "outcome"))
  role ← role_of (get fact (codes "evidenceRole"))
  parse_status ← parse_status_of (get fact (codes "parseStatus"))
  raise_if (not (parse_status == codes "supported") && is_null (get fact (codes "reasonCode")))
      digest_error
  surface ← surface_of (get fact (codes "surfaces"))
  resolved ← tuple_entries (get fact (codes "resolvedTarget")) allowlist
  observed ← tuple_entries (get fact (codes "observedState")) allowlist
  check_role role resolved observed
  id ← str_row fact (codes "id") (codes "id")
  outcome_row ← enum_row (codes "outcome") outcome
  method ← str_row fact (codes "method") (codes "method")
  operations ← string_tokens (get_or fact (codes "operations") (array Items.nil))
  operation_rows ← encode_set (codes "operation") operations
  executables ← string_tokens (get_or fact (codes "executables") (array Items.nil))
  executable_rows ← encode_set (codes "executable") executables
  subjects ← string_tokens (get_or fact (codes "subjects") (array Items.nil))
  subject_rows ← encode_set (codes "subject") subjects
  surface_row ← token_field (codes "surface") (typed_token (string surface))
  action ← str_row fact (codes "semanticAction") (codes "semanticAction")
  role_row ← enum_row (codes "evidenceRole") (role_name role)
  resolved_rows ← encode_map_rows resolved (codes "res:")
  observed_rows ← encode_map_rows observed (codes "obs:")
  status_row ← enum_row (codes "parseStatus") parse_status
  check_optional_string (get fact (codes "reasonCode"))
  check_optional_string (get fact (codes "adapterId"))
  check_optional_string (get fact (codes "adapterVersion"))
  reason ← optional_row fact (codes "reasonCode")
  adapter ← optional_row fact (codes "adapterId")
  adapter_version ← optional_row fact (codes "adapterVersion")
  check_field_count (
      3
      + length operations
      + length executables
      + length subjects
      + (4 + length resolved + length observed)
      + 3)
  ok (
      join_parts (
        codes "ccg.evidenceFact.v3\n"
        ∷ id
        ∷ outcome_row
        ∷ method
        ∷ operation_rows
        ∷ executable_rows
        ∷ subject_rows
        ∷ surface_row
        ∷ action
        ∷ role_row
        ∷ resolved_rows
        ∷ observed_rows
        ∷ status_row
        ∷ reason
        ∷ adapter
        ∷ adapter_version
        ∷ []))

-- `item["id"].encode("utf-8")`: the id, and the fact with it.
unfoldable pub fact_id : Json → Result (Text × Json)
fact_id (object fact) = elim (find fact (codes "id")) [
  | none ↦ raise key_error
  | some (string id) ↦ utf8 id >>= λ id_bytes. ok (id, object fact)
  | some _ ↦ raise attribute_error
]
fact_id _ = raise type_error

unfoldable pub by_id : Text × Json → Text × Json → Bool
by_id a b = text_leb (encode a.0) (encode b.0)

module _ (sha256_hex : Bytes → Text) where
  unfoldable pub evidence_fact_digest : Json → List Text → Result Text
  evidence_fact_digest fact allowlist = do
    payload ← evidence_fact_bytes fact allowlist
    ok (sha256_hex payload)

  -- The loop over the sorted facts; `seen` are the ids before.
  unfoldable pub evidence_rows : List Text → List Text → List (Text × Json) → Result Bytes
  evidence_rows allowlist seen [] = ok []
  evidence_rows allowlist seen ((id, fact) ∷ facts) = do
    raise_if (contains seen id) digest_error
    id_row ← token_field (codes "id") (typed_token (string id))
    digest ← evidence_fact_digest fact allowlist
    fact_row ← token_field (codes "fact") (hex_token (string digest))
    rest ← evidence_rows allowlist (id ∷ seen) facts
    ok (id_row ++ fact_row ++ rest)

  unfoldable pub evidence_sha256_bytes : List Json → List Text → Result Bytes
  evidence_sha256_bytes facts allowlist = do
    named ← gather fact_id facts
    rows ← evidence_rows allowlist [] (sort by_id named)
    check_field_count (length facts * 2)
    ok (codes "ccg.evidenceSha256.v3\n" ++ rows)

  unfoldable pub evidence_sha256_digest : List Json → List Text → Result Text
  evidence_sha256_digest facts allowlist = do
    payload ← evidence_sha256_bytes facts allowlist
    ok (sha256_hex payload)
