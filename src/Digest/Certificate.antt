-- ===== src/Digest/Certificate.antt =====
-- scripts/reference_digest_encoder.py: certificationDigest v3.
use codex_context_guard.Base.{List, [], ◌∷◌, ◌++◌, Text, text_eq, nat_eq, Result, ok, ◌>>=◌, ◌>>◌}
use codex_context_guard.Base.Texts.{codes}
use codex_context_guard.Base.Json.{Json, Json.null, Json.string, Members, get}
use codex_context_guard.Digest.{
  Bytes, join_parts, require_exact_keys, canonical_int, typed_token, hex_token, token_field,
  opt_field, check_field_count, str_of, str_field,
}
use codex_context_guard.Digest.Session.{int_row, str_row}

abbrev pub certificate_keys : List Text
certificate_keys =
    codes "stopProtocolVersion"
    ∷ codes "certificateVersion"
    ∷ codes "epoch"
    ∷ codes "sessionRefDigest"
    ∷ codes "hostLockDigest"
    ∷ codes "contractRevision"
    ∷ codes "contractSha256"
    ∷ codes "goalRef"
    ∷ codes "openDigest"
    ∷ codes "evidenceSha256"
    ∷ codes "bindingDigest"
    ∷ []

abbrev pub goal_ref_keys : List Text
goal_ref_keys = codes "id" ∷ codes "revision" ∷ []

-- A field whose value is a digest.
unfoldable pub digest_field : Members → Text → Result Bytes
digest_field row name = do text ← str_field row name; token_field name (hex_token (string text))

-- The two fields of the goal reference, absent together.
unfoldable pub goal_rows : Json → Result Bytes
goal_rows null = do
  id ← opt_field (codes "goalRefId") null typed_token
  revision ← opt_field (codes "goalRefRevision") null typed_token
  ok (id ++ revision)
goal_rows value = do
  goal ← require_exact_keys value goal_ref_keys
  goal_id ← str_of (get goal (codes "id"))
  goal_revision ← canonical_int (get goal (codes "revision"))
  id ← opt_field (codes "goalRefId") (string goal_id) typed_token
  revision ← opt_field (codes "goalRefRevision") (Json.integer goal_revision) typed_token
  ok (id ++ revision)

unfoldable pub certification_bytes : Json → Result Bytes
certification_bytes value = do
  certificate ← require_exact_keys value certificate_keys
  protocol ← str_row certificate (codes "stopProtocolVersion") (codes "stopProtocolVersion")
  version ← str_row certificate (codes "certificateVersion") (codes "certificateVersion")
  epoch ← int_row certificate (codes "epoch") (codes "epoch")
  session ← digest_field certificate (codes "sessionRefDigest")
  host_lock ← digest_field certificate (codes "hostLockDigest")
  revision ← int_row certificate (codes "contractRevision") (codes "contractRevision")
  contract ← digest_field certificate (codes "contractSha256")
  goal ← goal_rows (get certificate (codes "goalRef"))
  open_rows ← digest_field certificate (codes "openDigest")
  evidence ← digest_field certificate (codes "evidenceSha256")
  binding ← digest_field certificate (codes "bindingDigest")
  check_field_count 12
  ok (
      join_parts (
        codes "ccg.certificationDigest.v3\n"
        ∷ protocol
        ∷ version
        ∷ epoch
        ∷ session
        ∷ host_lock
        ∷ revision
        ∷ contract
        ∷ goal
        ∷ open_rows
        ∷ evidence
        ∷ binding
        ∷ []))

module _ (sha256_hex : Bytes → Text) where
  unfoldable pub certification_digest : Json → Result Text
  certification_digest certificate = do
    payload ← certification_bytes certificate
    ok (sha256_hex payload)
