-- ===== src/Digest/Session.antt =====
-- scripts/reference_digest_encoder.py: sessionRefDigest v3 and the digest of a locator.
use codex_context_guard.Base.{
  some, List, [], ◌∷◌, ◌++◌, Text, text_eq, nat_eq, Result, ok, raise, ◌>>=◌, ◌>>◌, digest_error,
  type_error,
}
use codex_context_guard.Base.Texts.{codes}
use codex_context_guard.Base.Json.{Json, Json.null, Json.string, Members, get}
use codex_context_guard.Digest.{
  Bytes, join_parts, require_exact_keys, canonical_int, utf8, typed_token, field, opt_field,
  check_field_count, int_field, str_field,
}

abbrev pub session_keys : List Text
session_keys =
    codes "version"
    ∷ codes "id"
    ∷ codes "createdAt"
    ∷ codes "parentSession"
    ∷ codes "seedLength"
    ∷ codes "agentPreset"
    ∷ codes "origin"
    ∷ codes "delegationDepth"
    ∷ []

-- A string, or absent.
unfoldable pub check_optional_string : Json → Result (Unit {0})
check_optional_string null = ok tt
check_optional_string (string text) = ok tt
check_optional_string _ = raise digest_error

-- An integer, or absent.
unfoldable pub check_optional_int : Json → Result (Unit {0})
check_optional_int null = ok tt
check_optional_int value = do number ← canonical_int value; ok tt

unfoldable pub validate_session_types : Members → Result (Unit {0})
validate_session_types header = do
  version ← int_field header (codes "version")
  created_at ← int_field header (codes "createdAt")
  id ← str_field header (codes "id")
  check_optional_string (get header (codes "parentSession"))
  check_optional_string (get header (codes "agentPreset"))
  check_optional_string (get header (codes "origin"))
  check_optional_int (get header (codes "seedLength"))
  check_optional_int (get header (codes "delegationDepth"))

-- `typed_token(_int_field(row, name))` and `typed_token(_str_field(row, name))`, as a field.
unfoldable pub int_row : Members → Text → Text → Result Bytes
int_row row key name = do
  number ← int_field row key
  token ← typed_token (Json.integer number)
  field name (some token)

unfoldable pub str_row : Members → Text → Text → Result Bytes
str_row row key name = do
  text ← str_field row key
  token ← typed_token (string text)
  field name (some token)

-- `("s:" + v).encode("utf-8")`
unfoldable pub plain_string : Json → Result Bytes
plain_string (string text) = utf8 (codes "s:" ++ text)
plain_string _ = raise type_error

unfoldable pub session_ref_bytes : Json → Result Bytes
session_ref_bytes value = do
  header ← require_exact_keys value session_keys
  validate_session_types header
  version ← int_row header (codes "version") (codes "formatVersion")
  id ← str_row header (codes "id") (codes "id")
  created_at ← int_row header (codes "createdAt") (codes "createdAt")
  parent ← opt_field (codes "parentSession") (get header (codes "parentSession")) plain_string
  seed ← opt_field (codes "seedLength") (get header (codes "seedLength")) typed_token
  preset ← opt_field (codes "agentPreset") (get header (codes "agentPreset")) plain_string
  origin ← opt_field (codes "origin") (get header (codes "origin")) plain_string
  depth ← opt_field (codes "delegationDepth") (get header (codes "delegationDepth")) typed_token
  check_field_count 8
  ok (
      join_parts (
        codes "ccg.sessionRefDigest.v3\n"
        ∷ version
        ∷ id
        ∷ created_at
        ∷ parent
        ∷ seed
        ∷ preset
        ∷ origin
        ∷ depth
        ∷ []))

-- `hashlib.sha256(payload).hexdigest()`, as a parameter.
module _ (sha256_hex : Bytes → Text) where
  unfoldable pub session_ref_digest : Json → Result Text
  session_ref_digest header = do payload ← session_ref_bytes header; ok (sha256_hex payload)

  unfoldable pub locator_digest : Json → Result Text
  locator_digest (string raw) = do
    raw_bytes ← utf8 raw
    ok (sha256_hex (codes "ccg.locator.v1\n" ++ raw_bytes))
  locator_digest _ = raise digest_error
