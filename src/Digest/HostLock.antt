-- ===== src/Digest/HostLock.antt =====
-- scripts/reference_digest_encoder.py: hostLockDigest v3.
use codex_context_guard.Base.{
  ◌+◌, ◌*◌, Bool, not, ◌&&◌, none, some, List, [], ◌∷◌, ◌++◌, map, Text, text_eq, nat_eq, ◌==◌,
  length, any, is_empty, if◌then◌else◌, Result, ok, raise, raise_if, ◌>>=◌, ◌>>◌, digest_error,
  key_error,
}
use codex_context_guard.Base.Sorting.{sort}
use codex_context_guard.Base.Texts.{codes, encode, text_leb}
use codex_context_guard.Base.Json.{Json, Json.array, Items, Members, elements, get_or, get, find}
use codex_context_guard.Digest.{
  Bytes, join_parts, as_record, require_exact_keys, utf8, typed_token, field, opt_field,
  check_field_count, str_field,
}
use codex_context_guard.Digest.Collections.{
  each, gather, repeats, encode_set, is_dynamic_key, is_package_name, string_tokens, Entry,
}
use codex_context_guard.Digest.Session.{int_row, check_optional_string}

abbrev host_lock_keys : List Text
host_lock_keys =
    codes "manifestVersion"
    ∷ codes "supportedGoalVersions"
    ∷ codes "capabilities"
    ∷ codes "packages"
    ∷ []

abbrev capability_keys : List Text
capability_keys = codes "name" ∷ codes "value" ∷ []

abbrev package_keys : List Text
package_keys = codes "name" ∷ codes "version" ∷ codes "integrity" ∷ []

-- A list, or its default where the key is missing.
unfoldable pub list_field : Members → Text → Result (List Json)
list_field row name = elim (get_or row name (array Items.nil)) [
  | array values ↦ ok (elements values)
  | _ ↦ raise digest_error
]

-- `row[name]`
unfoldable pub item : Members → Text → Result Json
item row name = elim (find row name) [ none ↦ raise key_error | some value ↦ ok value ]

unfoldable pub version_tokens : Json → Result (List Bytes)
version_tokens (array versions) = do
  raise_if (is_empty (elements versions)) digest_error
  string_tokens (array versions)
version_tokens _ = raise digest_error

unfoldable pub capability : Json → Result Entry
capability entry = do
  row ← require_exact_keys entry capability_keys
  name ← str_field row (codes "name")
  raise_if (not (is_dynamic_key name)) digest_error
  value ← item row (codes "value")
  token ← typed_token value
  ok (name, token)

-- By the name, then by the token.
unfoldable pub by_row : Entry → Entry → Bool
by_row a b =
    if encode a.0 == encode b.0 then text_leb a.1 b.1 else text_leb (encode a.0) (encode b.0)

unfoldable pub same_row : Entry → Entry → Bool
same_row a b = a.0 == b.0 && a.1 == b.1

-- The loop over the sorted rows; `seen` are those before.
unfoldable pub capability_fields : List Entry → List Entry → Result Bytes
capability_fields seen [] = ok []
capability_fields seen (row ∷ rows) = do
  raise_if (any (same_row row) seen) digest_error
  first ← field (codes "cap:" ++ row.0) (some row.1)
  rest ← capability_fields (row ∷ seen) rows
  ok (first ++ rest)

-- The name of a package, and the name with its bytes.
unfoldable pub package_name : Json → Result (Text × Json)
package_name entry = do row ← as_record entry; name ← str_field row (codes "name"); ok (name, entry)

unfoldable pub check_encodable : Text × Json → Result (Unit {0})
check_encodable (name, entry) = do name_bytes ← utf8 name; ok tt

unfoldable pub by_name : Text × Json → Text × Json → Bool
by_name a b = text_leb (encode a.0) (encode b.0)

unfoldable pub package_fields : Text × Json → Result Bytes
package_fields (name, entry) = do
  row ← require_exact_keys entry package_keys
  check_optional_string (get row (codes "version"))
  check_optional_string (get row (codes "integrity"))
  raise_if (not (is_package_name name)) digest_error
  version ← opt_field (codes "pkg:" ++ name) (get row (codes "version")) typed_token
  integrity ← opt_field (codes "integrity:" ++ name) (get row (codes "integrity")) typed_token
  ok (version ++ integrity)

unfoldable pub host_lock_bytes : Json → Result Bytes
host_lock_bytes value = do
  manifest ← require_exact_keys value host_lock_keys
  version ← int_row manifest (codes "manifestVersion") (codes "manifestVersion")
  tokens ← version_tokens (get manifest (codes "supportedGoalVersions"))
  versions ← encode_set (codes "supportedGoalVersion") tokens
  declared ← list_field manifest (codes "capabilities")
  rows ← gather capability declared
  capabilities ← capability_fields [] (sort by_row rows)
  listed ← list_field manifest (codes "packages")
  named ← gather package_name listed
  raise_if (repeats (map (λ row. row.0) named)) digest_error
  checked ← gather check_encodable named
  packages ← each package_fields (sort by_name named)
  check_field_count (1 + length tokens + length rows + 2 * length named)
  ok (
      join_parts
        (codes "ccg.hostLockDigest.v3\n" ∷ version ∷ versions ∷ capabilities ∷ packages ∷ []))

module _ (sha256_hex : Bytes → Text) where
  unfoldable pub host_lock_digest : Json → Result Text
  host_lock_digest manifest = do payload ← host_lock_bytes manifest; ok (sha256_hex payload)
