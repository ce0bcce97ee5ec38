-- ===== src/Digest/Examples.antt =====
-- Manifests, and the self-test of scripts/reference_digest_encoder.py. The hash is the payload itself.
use codex_context_guard.Base.{
  ℕ, ◌≡◌, refl, ◌↔◌, true, false, none, some, List, [], ◌∷◌, ◌++◌, Text, text_eq, nat_eq, list_dec,
  Result, ok, raise, ◌⊎◌, digest_error, unicode_encode_error,
}
use Prim.Native.String.{String}
use mathlib.Core.List.{Permᴰ}
use codex_context_guard.Base.Json.{
  Json, Json.string, Json.array, Json.object, Items, Members, elements, entries, keys, find, get_or,
  get, truthy, is_text, put, set_default, remove, text_of,
}
use codex_context_guard.Base.Texts.{
  codes, starts_with, byte_width, byte_length, decode_prefix, encode_char, encode, lstrip, rstrip,
  strip, is_space, split, join, text_leb, decode_suffix, decode_slice, ends_with, drop_last, unique,
  sorted_set, is_surrogate,
}
use codex_context_guard.Base.Decimal.{pos, negsuc, digits, int_eq, decimal}
use codex_context_guard.Base.Sorting.{insert, sort}
use codex_context_guard.Digest.{
  Bytes, join_parts, as_record, require_exact_keys, is_safe, canonical_int, utf8, integer_token,
  string_token, is_lower_digit, is_enum_token, expect_enum_token, is_hex, expect_hex, enum_token,
  hex_token, number_token, boolean_token, boolean_payload, string_payload, wrapped_token,
  is_wrapper, typed_token, big_endian, pack, presence, field, token_field, opt_field,
  check_field_count, int_field, str_of, str_field,
}
use codex_context_guard.Digest.Collections.{
  Entry, each, gather, repeats, encode_set, by_key, check_key, check_keys, encode_map_rows,
  is_dynamic_key, is_package_name, tuple_entry, tuple_entries, string_tokens,
}
use codex_context_guard.Digest.Session.{
  check_optional_string, check_optional_int, validate_session_types, int_row, str_row, plain_string,
  session_ref_bytes, session_ref_digest, locator_digest,
}
use codex_context_guard.Digest.HostLock.{
  list_field, item, version_tokens, capability, by_row, same_row, capability_fields, package_name,
  check_encodable, by_name, package_fields, host_lock_bytes, host_lock_digest,
}
use codex_context_guard.Digest.Evidence.{
  enum_member, role_of, parse_status_of, is_null, surface_of, fits_role, check_role, enum_row,
  optional_row, evidence_fact_bytes, fact_id, by_id, evidence_fact_digest, evidence_rows,
  evidence_sha256_bytes, evidence_sha256_digest,
}
use codex_context_guard.Digest.Binding.{
  check_parameter, check_parameters, by_parameter, parameter_row, pred_params_bytes,
  product_vocabulary, resolve_allowlist, params_kind_of, object_of, reference_of, params_row,
  section_size, binding_record_bytes, binding_record_digest, same_marker, by_marker, marked_digests,
  digest_row, binding_digest, pred_params_digest,
}
use codex_context_guard.Digest.Certificate.{
  digest_field, goal_rows, certification_bytes, certification_digest,
}
use codex_context_guard.Digest.Closure.{
  number?, same_number, same_key, is_hashable, every, check_fact, resolved_rows, check_resolved,
  merge_entries, merge_states, same_dict, characters, iterate, key_repeats, same_set, check_ids,
  known_fact, check_known_ids, check_hashed, check_evidence, binding_state_closure,
}
use codex_context_guard.Base.{any}
use codex_context_guard.Digest.Tokens.{scalar_of, typed_token_unique}
use codex_context_guard.Digest.Frames.{read_frame, read_frame-field, fits}
use codex_context_guard.Digest.Limits.{field_errors}
use codex_context_guard.Digest.Rows.{Same}
use codex_context_guard.Digest.Preimages.{Collision, session_table, session_ref_digest-Same}
use codex_context_guard.Digest.Certified.{SameCertificate, certification_digest-SameCertificate}
use codex_context_guard.Digest.Maps.{encode_map_rows_iff}
use codex_context_guard.Digest.Facts.{IsDigestible, evidence_fact_bytes-IsDigestible}
use codex_context_guard.Digest.Closed.{Agrees, binding_state_closure-Agrees}

abbrev payload : Result Bytes → Bytes
payload (raise error) = []
payload (ok bytes) = bytes

abbrev itself : Bytes → Text
itself bytes = bytes

abbrev num : ℕ → Json
num n = Json.integer (pos n)

abbrev str : String → Json
str s = string (codes s)

abbrev header : Members
header = Members.member (codes "version") (num 0) (
    Members.member (codes "id") (str "self-test")
      (Members.member (codes "createdAt") (num 1) Members.end))

-- The same, written with a float and in another order.
abbrev header_again : Members
header_again = Members.member (codes "createdAt") (Json.float (some (pos 1))) (
    Members.member (codes "id") (str "self-test")
      (Members.member (codes "version") (num 0) Members.end))

runs_self_test :
    (field (codes "x") none ≡ ok (0 ∷ 0 ∷ 0 ∷ 1 ∷ b'x' ∷ 0 ∷ 0 ∷ 0 ∷ 0 ∷ 0 ∷ []))
    × (typed_token (
          object (
            Members.member
              (codes "k")
              (str "s")
              (Members.member (codes "v") (string (55296 ∷ [])) Members.end)))
        ≡ raise digest_error)
    × (typed_token (Json.integer (negsuc 11)) ≡ ok (codes "i:-12"))
    × (typed_token (Json.float none) ≡ raise digest_error)
    × (session_ref_bytes (object header) ≡ session_ref_bytes (object header_again))
unfolding text_eq nat_eq list_dec elements entries keys find get_or get truthy is_text put
    set_default remove text_of starts_with byte_width byte_length decode_prefix encode_char encode
    lstrip rstrip strip is_space split join text_leb decode_suffix decode_slice ends_with drop_last
    unique sorted_set is_surrogate digits int_eq decimal insert sort join_parts as_record
    require_exact_keys is_safe canonical_int utf8 integer_token string_token is_lower_digit
    is_enum_token expect_enum_token is_hex expect_hex enum_token hex_token number_token
    boolean_token boolean_payload string_payload wrapped_token is_wrapper typed_token big_endian
    pack presence field token_field opt_field check_field_count int_field str_of str_field each
    gather repeats encode_set by_key check_key check_keys encode_map_rows is_dynamic_key
    is_package_name tuple_entry tuple_entries string_tokens check_optional_string check_optional_int
    validate_session_types int_row str_row plain_string session_ref_bytes session_ref_digest
    locator_digest list_field item version_tokens capability by_row same_row capability_fields
    package_name check_encodable by_name package_fields host_lock_bytes host_lock_digest enum_member
    role_of parse_status_of is_null surface_of fits_role check_role enum_row optional_row
    evidence_fact_bytes fact_id by_id evidence_fact_digest evidence_rows evidence_sha256_bytes
    evidence_sha256_digest check_parameter check_parameters by_parameter parameter_row
    pred_params_bytes product_vocabulary resolve_allowlist params_kind_of object_of reference_of
    params_row section_size binding_record_bytes binding_record_digest same_marker by_marker
    marked_digests digest_row binding_digest pred_params_digest digest_field goal_rows
    certification_bytes certification_digest number? same_number same_key is_hashable every
    check_fact resolved_rows check_resolved merge_entries merge_states same_dict characters iterate
    key_repeats same_set check_ids known_fact check_known_ids check_hashed check_evidence
    binding_state_closure
runs_self_test = (refl, refl, refl, refl, refl)

one : typed_token (num 1) ≡ ok (codes "i:1")
unfolding text_eq nat_eq list_dec elements entries keys find get_or get truthy is_text put
    set_default remove text_of starts_with byte_width byte_length decode_prefix encode_char encode
    lstrip rstrip strip is_space split join text_leb decode_suffix decode_slice ends_with drop_last
    unique sorted_set is_surrogate digits int_eq decimal insert sort join_parts as_record
    require_exact_keys is_safe canonical_int utf8 integer_token string_token is_lower_digit
    is_enum_token expect_enum_token is_hex expect_hex enum_token hex_token number_token
    boolean_token boolean_payload string_payload wrapped_token is_wrapper typed_token big_endian
    pack presence field token_field opt_field check_field_count int_field str_of str_field each
    gather repeats encode_set by_key check_key check_keys encode_map_rows is_dynamic_key
    is_package_name tuple_entry tuple_entries string_tokens check_optional_string check_optional_int
    validate_session_types int_row str_row plain_string session_ref_bytes session_ref_digest
    locator_digest list_field item version_tokens capability by_row same_row capability_fields
    package_name check_encodable by_name package_fields host_lock_bytes host_lock_digest enum_member
    role_of parse_status_of is_null surface_of fits_role check_role enum_row optional_row
    evidence_fact_bytes fact_id by_id evidence_fact_digest evidence_rows evidence_sha256_bytes
    evidence_sha256_digest check_parameter check_parameters by_parameter parameter_row
    pred_params_bytes product_vocabulary resolve_allowlist params_kind_of object_of reference_of
    params_row section_size binding_record_bytes binding_record_digest same_marker by_marker
    marked_digests digest_row binding_digest pred_params_digest digest_field goal_rows
    certification_bytes certification_digest number? same_number same_key is_hashable every
    check_fact resolved_rows check_resolved merge_entries merge_states same_dict characters iterate
    key_repeats same_set check_ids known_fact check_known_ids check_hashed check_evidence
    binding_state_closure
one = refl

one_again : typed_token (Json.float (some (pos 1))) ≡ ok (codes "i:1")
unfolding text_eq nat_eq list_dec elements entries keys find get_or get truthy is_text put
    set_default remove text_of starts_with byte_width byte_length decode_prefix encode_char encode
    lstrip rstrip strip is_space split join text_leb decode_suffix decode_slice ends_with drop_last
    unique sorted_set is_surrogate digits int_eq decimal insert sort join_parts as_record
    require_exact_keys is_safe canonical_int utf8 integer_token string_token is_lower_digit
    is_enum_token expect_enum_token is_hex expect_hex enum_token hex_token number_token
    boolean_token boolean_payload string_payload wrapped_token is_wrapper typed_token big_endian
    pack presence field token_field opt_field check_field_count int_field str_of str_field each
    gather repeats encode_set by_key check_key check_keys encode_map_rows is_dynamic_key
    is_package_name tuple_entry tuple_entries string_tokens check_optional_string check_optional_int
    validate_session_types int_row str_row plain_string session_ref_bytes session_ref_digest
    locator_digest list_field item version_tokens capability by_row same_row capability_fields
    package_name check_encodable by_name package_fields host_lock_bytes host_lock_digest enum_member
    role_of parse_status_of is_null surface_of fits_role check_role enum_row optional_row
    evidence_fact_bytes fact_id by_id evidence_fact_digest evidence_rows evidence_sha256_bytes
    evidence_sha256_digest check_parameter check_parameters by_parameter parameter_row
    pred_params_bytes product_vocabulary resolve_allowlist params_kind_of object_of reference_of
    params_row section_size binding_record_bytes binding_record_digest same_marker by_marker
    marked_digests digest_row binding_digest pred_params_digest digest_field goal_rows
    certification_bytes certification_digest number? same_number same_key is_hashable every
    check_fact resolved_rows check_resolved merge_entries merge_states same_dict characters iterate
    key_repeats same_set check_ids known_fact check_known_ids check_hashed check_evidence
    binding_state_closure
one_again = refl

typed_token_unique_example : scalar_of (num 1) ≡ scalar_of (Json.float (some (pos 1)))
typed_token_unique_example =
    typed_token_unique (num 1) (Json.float (some (pos 1))) (codes "i:1") one one_again

abbrev name_field : Bytes
name_field = 0 ∷ 0 ∷ 0 ∷ 1 ∷ b'a' ∷ 1 ∷ 0 ∷ 0 ∷ 0 ∷ 3 ∷ codes "s:x"

field_written : field (codes "a") (some (codes "s:x")) ≡ ok name_field
unfolding text_eq nat_eq list_dec elements entries keys find get_or get truthy is_text put
    set_default remove text_of starts_with byte_width byte_length decode_prefix encode_char encode
    lstrip rstrip strip is_space split join text_leb decode_suffix decode_slice ends_with drop_last
    unique sorted_set is_surrogate digits int_eq decimal insert sort join_parts as_record
    require_exact_keys is_safe canonical_int utf8 integer_token string_token is_lower_digit
    is_enum_token expect_enum_token is_hex expect_hex enum_token hex_token number_token
    boolean_token boolean_payload string_payload wrapped_token is_wrapper typed_token big_endian
    pack presence field token_field opt_field check_field_count int_field str_of str_field each
    gather repeats encode_set by_key check_key check_keys encode_map_rows is_dynamic_key
    is_package_name tuple_entry tuple_entries string_tokens check_optional_string check_optional_int
    validate_session_types int_row str_row plain_string session_ref_bytes session_ref_digest
    locator_digest list_field item version_tokens capability by_row same_row capability_fields
    package_name check_encodable by_name package_fields host_lock_bytes host_lock_digest enum_member
    role_of parse_status_of is_null surface_of fits_role check_role enum_row optional_row
    evidence_fact_bytes fact_id by_id evidence_fact_digest evidence_rows evidence_sha256_bytes
    evidence_sha256_digest check_parameter check_parameters by_parameter parameter_row
    pred_params_bytes product_vocabulary resolve_allowlist params_kind_of object_of reference_of
    params_row section_size binding_record_bytes binding_record_digest same_marker by_marker
    marked_digests digest_row binding_digest pred_params_digest digest_field goal_rows
    certification_bytes certification_digest number? same_number same_key is_hashable every
    check_fact resolved_rows check_resolved merge_entries merge_states same_dict characters iterate
    key_repeats same_set check_ids known_fact check_known_ids check_hashed check_evidence
    binding_state_closure
field_written = refl

read_frame-field_example :
    read_frame (name_field ++ name_field)
    ≡ some ((encode (codes "a"), some (codes "s:x")), name_field)
read_frame-field_example =
    read_frame-field (codes "a") (some (codes "s:x")) name_field name_field field_written

no_name : field [] none ≡ raise digest_error
unfolding text_eq nat_eq list_dec elements entries keys find get_or get truthy is_text put
    set_default remove text_of starts_with byte_width byte_length decode_prefix encode_char encode
    lstrip rstrip strip is_space split join text_leb decode_suffix decode_slice ends_with drop_last
    unique sorted_set is_surrogate digits int_eq decimal insert sort join_parts as_record
    require_exact_keys is_safe canonical_int utf8 integer_token string_token is_lower_digit
    is_enum_token expect_enum_token is_hex expect_hex enum_token hex_token number_token
    boolean_token boolean_payload string_payload wrapped_token is_wrapper typed_token big_endian
    pack presence field token_field opt_field check_field_count int_field str_of str_field each
    gather repeats encode_set by_key check_key check_keys encode_map_rows is_dynamic_key
    is_package_name tuple_entry tuple_entries string_tokens check_optional_string check_optional_int
    validate_session_types int_row str_row plain_string session_ref_bytes session_ref_digest
    locator_digest list_field item version_tokens capability by_row same_row capability_fields
    package_name check_encodable by_name package_fields host_lock_bytes host_lock_digest enum_member
    role_of parse_status_of is_null surface_of fits_role check_role enum_row optional_row
    evidence_fact_bytes fact_id by_id evidence_fact_digest evidence_rows evidence_sha256_bytes
    evidence_sha256_digest check_parameter check_parameters by_parameter parameter_row
    pred_params_bytes product_vocabulary resolve_allowlist params_kind_of object_of reference_of
    params_row section_size binding_record_bytes binding_record_digest same_marker by_marker
    marked_digests digest_row binding_digest pred_params_digest digest_field goal_rows
    certification_bytes certification_digest number? same_number same_key is_hashable every
    check_fact resolved_rows check_resolved merge_entries merge_states same_dict characters iterate
    key_repeats same_set check_ids known_fact check_known_ids check_hashed check_evidence
    binding_state_closure
no_name = refl

field_errors_example :
    ((any is_surrogate [] ≡ true) × (digest_error ≡ unicode_encode_error))
    ⊎ ((fits (encode [], none) ≡ false) × (digest_error ≡ digest_error))
field_errors_example = field_errors [] none digest_error no_name

header_written :
    session_ref_digest itself (object header) ≡ ok (payload (session_ref_bytes (object header)))
unfolding text_eq nat_eq list_dec elements entries keys find get_or get truthy is_text put
    set_default remove text_of starts_with byte_width byte_length decode_prefix encode_char encode
    lstrip rstrip strip is_space split join text_leb decode_suffix decode_slice ends_with drop_last
    unique sorted_set is_surrogate digits int_eq decimal insert sort join_parts as_record
    require_exact_keys is_safe canonical_int utf8 integer_token string_token is_lower_digit
    is_enum_token expect_enum_token is_hex expect_hex enum_token hex_token number_token
    boolean_token boolean_payload string_payload wrapped_token is_wrapper typed_token big_endian
    pack presence field token_field opt_field check_field_count int_field str_of str_field each
    gather repeats encode_set by_key check_key check_keys encode_map_rows is_dynamic_key
    is_package_name tuple_entry tuple_entries string_tokens check_optional_string check_optional_int
    validate_session_types int_row str_row plain_string session_ref_bytes session_ref_digest
    locator_digest list_field item version_tokens capability by_row same_row capability_fields
    package_name check_encodable by_name package_fields host_lock_bytes host_lock_digest enum_member
    role_of parse_status_of is_null surface_of fits_role check_role enum_row optional_row
    evidence_fact_bytes fact_id by_id evidence_fact_digest evidence_rows evidence_sha256_bytes
    evidence_sha256_digest check_parameter check_parameters by_parameter parameter_row
    pred_params_bytes product_vocabulary resolve_allowlist params_kind_of object_of reference_of
    params_row section_size binding_record_bytes binding_record_digest same_marker by_marker
    marked_digests digest_row binding_digest pred_params_digest digest_field goal_rows
    certification_bytes certification_digest number? same_number same_key is_hashable every
    check_fact resolved_rows check_resolved merge_entries merge_states same_dict characters iterate
    key_repeats same_set check_ids known_fact check_known_ids check_hashed check_evidence
    binding_state_closure
header_written = refl

header_again_written :
    session_ref_digest itself (object header_again)
    ≡ ok (payload (session_ref_bytes (object header)))
unfolding text_eq nat_eq list_dec elements entries keys find get_or get truthy is_text put
    set_default remove text_of starts_with byte_width byte_length decode_prefix encode_char encode
    lstrip rstrip strip is_space split join text_leb decode_suffix decode_slice ends_with drop_last
    unique sorted_set is_surrogate digits int_eq decimal insert sort join_parts as_record
    require_exact_keys is_safe canonical_int utf8 integer_token string_token is_lower_digit
    is_enum_token expect_enum_token is_hex expect_hex enum_token hex_token number_token
    boolean_token boolean_payload string_payload wrapped_token is_wrapper typed_token big_endian
    pack presence field token_field opt_field check_field_count int_field str_of str_field each
    gather repeats encode_set by_key check_key check_keys encode_map_rows is_dynamic_key
    is_package_name tuple_entry tuple_entries string_tokens check_optional_string check_optional_int
    validate_session_types int_row str_row plain_string session_ref_bytes session_ref_digest
    locator_digest list_field item version_tokens capability by_row same_row capability_fields
    package_name check_encodable by_name package_fields host_lock_bytes host_lock_digest enum_member
    role_of parse_status_of is_null surface_of fits_role check_role enum_row optional_row
    evidence_fact_bytes fact_id by_id evidence_fact_digest evidence_rows evidence_sha256_bytes
    evidence_sha256_digest check_parameter check_parameters by_parameter parameter_row
    pred_params_bytes product_vocabulary resolve_allowlist params_kind_of object_of reference_of
    params_row section_size binding_record_bytes binding_record_digest same_marker by_marker
    marked_digests digest_row binding_digest pred_params_digest digest_field goal_rows
    certification_bytes certification_digest number? same_number same_key is_hashable every
    check_fact resolved_rows check_resolved merge_entries merge_states same_dict characters iterate
    key_repeats same_set check_ids known_fact check_known_ids check_hashed check_evidence
    binding_state_closure
header_again_written = refl

session_ref_digest-Same_example : Same session_table header header_again ⊎ Collision itself
session_ref_digest-Same_example =
    session_ref_digest-Same itself header header_again (payload (session_ref_bytes (object header)))
      header_written header_again_written

abbrev goal_ref : Json
goal_ref =
    object (
      Members.member (codes "id") (str "g") (Members.member (codes "revision") (num 7) Members.end))

abbrev certificate : Members
certificate = Members.member (codes "stopProtocolVersion") (str "3") (
    Members.member (codes "certificateVersion") (str "3") (
      Members.member (codes "epoch") (num 4) (
        Members.member (codes "sessionRefDigest") (str "00") (
          Members.member (codes "hostLockDigest") (str "a1") (
            Members.member (codes "contractRevision") (num 2) (
              Members.member (codes "contractSha256") (str "ff") (
                Members.member (codes "openDigest") (str "10") (
                  Members.member (codes "evidenceSha256") (str "20") (
                    Members.member (codes "bindingDigest") (str "30")
                      (Members.member (codes "goalRef") goal_ref Members.end))))))))))

certificate_written :
    certification_digest itself (object certificate)
    ≡ ok (payload (certification_bytes (object certificate)))
unfolding text_eq nat_eq list_dec elements entries keys find get_or get truthy is_text put
    set_default remove text_of starts_with byte_width byte_length decode_prefix encode_char encode
    lstrip rstrip strip is_space split join text_leb decode_suffix decode_slice ends_with drop_last
    unique sorted_set is_surrogate digits int_eq decimal insert sort join_parts as_record
    require_exact_keys is_safe canonical_int utf8 integer_token string_token is_lower_digit
    is_enum_token expect_enum_token is_hex expect_hex enum_token hex_token number_token
    boolean_token boolean_payload string_payload wrapped_token is_wrapper typed_token big_endian
    pack presence field token_field opt_field check_field_count int_field str_of str_field each
    gather repeats encode_set by_key check_key check_keys encode_map_rows is_dynamic_key
    is_package_name tuple_entry tuple_entries string_tokens check_optional_string check_optional_int
    validate_session_types int_row str_row plain_string session_ref_bytes session_ref_digest
    locator_digest list_field item version_tokens capability by_row same_row capability_fields
    package_name check_encodable by_name package_fields host_lock_bytes host_lock_digest enum_member
    role_of parse_status_of is_null surface_of fits_role check_role enum_row optional_row
    evidence_fact_bytes fact_id by_id evidence_fact_digest evidence_rows evidence_sha256_bytes
    evidence_sha256_digest check_parameter check_parameters by_parameter parameter_row
    pred_params_bytes product_vocabulary resolve_allowlist params_kind_of object_of reference_of
    params_row section_size binding_record_bytes binding_record_digest same_marker by_marker
    marked_digests digest_row binding_digest pred_params_digest digest_field goal_rows
    certification_bytes certification_digest number? same_number same_key is_hashable every
    check_fact resolved_rows check_resolved merge_entries merge_states same_dict characters iterate
    key_repeats same_set check_ids known_fact check_known_ids check_hashed check_evidence
    binding_state_closure
certificate_written = refl

certification_digest-SameCertificate_example :
    SameCertificate certificate certificate ⊎ Collision itself
certification_digest-SameCertificate_example =
    certification_digest-SameCertificate itself certificate certificate
      (payload (certification_bytes (object certificate))) certificate_written certificate_written

abbrev rows : List Entry
rows = (codes "remote", codes "s:o") ∷ (codes "branch", codes "s:main") ∷ []

abbrev swapped : List Entry
swapped = (codes "branch", codes "s:main") ∷ (codes "remote", codes "s:o") ∷ []

rows_written :
    encode_map_rows rows (codes "res:") ≡ ok (payload (encode_map_rows rows (codes "res:")))
unfolding text_eq nat_eq list_dec elements entries keys find get_or get truthy is_text put
    set_default remove text_of starts_with byte_width byte_length decode_prefix encode_char encode
    lstrip rstrip strip is_space split join text_leb decode_suffix decode_slice ends_with drop_last
    unique sorted_set is_surrogate digits int_eq decimal insert sort join_parts as_record
    require_exact_keys is_safe canonical_int utf8 integer_token string_token is_lower_digit
    is_enum_token expect_enum_token is_hex expect_hex enum_token hex_token number_token
    boolean_token boolean_payload string_payload wrapped_token is_wrapper typed_token big_endian
    pack presence field token_field opt_field check_field_count int_field str_of str_field each
    gather repeats encode_set by_key check_key check_keys encode_map_rows is_dynamic_key
    is_package_name tuple_entry tuple_entries string_tokens check_optional_string check_optional_int
    validate_session_types int_row str_row plain_string session_ref_bytes session_ref_digest
    locator_digest list_field item version_tokens capability by_row same_row capability_fields
    package_name check_encodable by_name package_fields host_lock_bytes host_lock_digest enum_member
    role_of parse_status_of is_null surface_of fits_role check_role enum_row optional_row
    evidence_fact_bytes fact_id by_id evidence_fact_digest evidence_rows evidence_sha256_bytes
    evidence_sha256_digest check_parameter check_parameters by_parameter parameter_row
    pred_params_bytes product_vocabulary resolve_allowlist params_kind_of object_of reference_of
    params_row section_size binding_record_bytes binding_record_digest same_marker by_marker
    marked_digests digest_row binding_digest pred_params_digest digest_field goal_rows
    certification_bytes certification_digest number? same_number same_key is_hashable every
    check_fact resolved_rows check_resolved merge_entries merge_states same_dict characters iterate
    key_repeats same_set check_ids known_fact check_known_ids check_hashed check_evidence
    binding_state_closure
rows_written = refl

encode_map_rows_iff_example :
    (encode_map_rows swapped (codes "res:") ≡ ok (payload (encode_map_rows rows (codes "res:"))))
    ↔ Permᴰ rows swapped
encode_map_rows_iff_example =
    encode_map_rows_iff rows swapped (codes "res:") (payload (encode_map_rows rows (codes "res:")))
      rows_written

-- A push: what was resolved, what was done, and the state that was observed.
abbrev target : Json
target = object (Members.member (codes "branch") (str "main") Members.end)

abbrev seen : Json
seen = object (Members.member (codes "remote_oid") (str "a1") Members.end)

abbrev fact : String → String → Json → Members
fact id role observed = Members.member (codes "id") (str id) (
    Members.member (codes "outcome") (str "success") (
      Members.member (codes "method") (str "git") (
        Members.member (codes "surfaces") (array (Items.cons (str "artifact") Items.nil)) (
          Members.member (codes "semanticAction") (str "push") (
            Members.member (codes "evidenceRole") (str role) (
              Members.member (codes "resolvedTarget") target (
                Members.member (codes "observedState") observed
                  (Members.member (codes "parseStatus") (str "supported") Members.end))))))))

abbrev vocabulary : List Text
vocabulary = codes "branch" ∷ codes "remote_oid" ∷ []

fact_written :
    evidence_fact_bytes (object (fact "s" "state" seen)) vocabulary
    ≡ ok (payload (evidence_fact_bytes (object (fact "s" "state" seen)) vocabulary))
unfolding text_eq nat_eq list_dec elements entries keys find get_or get truthy is_text put
    set_default remove text_of starts_with byte_width byte_length decode_prefix encode_char encode
    lstrip rstrip strip is_space split join text_leb decode_suffix decode_slice ends_with drop_last
    unique sorted_set is_surrogate digits int_eq decimal insert sort join_parts as_record
    require_exact_keys is_safe canonical_int utf8 integer_token string_token is_lower_digit
    is_enum_token expect_enum_token is_hex expect_hex enum_token hex_token number_token
    boolean_token boolean_payload string_payload wrapped_token is_wrapper typed_token big_endian
    pack presence field token_field opt_field check_field_count int_field str_of str_field each
    gather repeats encode_set by_key check_key check_keys encode_map_rows is_dynamic_key
    is_package_name tuple_entry tuple_entries string_tokens check_optional_string check_optional_int
    validate_session_types int_row str_row plain_string session_ref_bytes session_ref_digest
    locator_digest list_field item version_tokens capability by_row same_row capability_fields
    package_name check_encodable by_name package_fields host_lock_bytes host_lock_digest enum_member
    role_of parse_status_of is_null surface_of fits_role check_role enum_row optional_row
    evidence_fact_bytes fact_id by_id evidence_fact_digest evidence_rows evidence_sha256_bytes
    evidence_sha256_digest check_parameter check_parameters by_parameter parameter_row
    pred_params_bytes product_vocabulary resolve_allowlist params_kind_of object_of reference_of
    params_row section_size binding_record_bytes binding_record_digest same_marker by_marker
    marked_digests digest_row binding_digest pred_params_digest digest_field goal_rows
    certification_bytes certification_digest number? same_number same_key is_hashable every
    check_fact resolved_rows check_resolved merge_entries merge_states same_dict characters iterate
    key_repeats same_set check_ids known_fact check_known_ids check_hashed check_evidence
    binding_state_closure
fact_written = refl

evidence_fact_bytes-IsDigestible_example : IsDigestible (fact "s" "state" seen) vocabulary
evidence_fact_bytes-IsDigestible_example =
    evidence_fact_bytes-IsDigestible (fact "s" "state" seen) vocabulary
      (payload (evidence_fact_bytes (object (fact "s" "state" seen)) vocabulary)) fact_written

abbrev binding : Members
binding = Members.member (codes "resolvedTarget") target (
    Members.member (codes "observedState") seen (
      Members.member (codes "resolutionEvidenceId") (str "r") (
        Members.member (codes "effectEvidenceId") (str "e") (
          Members.member (codes "stateEvidenceIds") (array (Items.cons (str "s") Items.nil))
            Members.end))))

abbrev nothing : Json
nothing = object Members.end

closed :
    binding_state_closure itself binding
      (fact "r" "resolution" nothing)
      (fact "e" "effect" nothing)
      (fact "s" "state" seen ∷ [])
      none
    ≡ ok tt
unfolding text_eq nat_eq list_dec elements entries keys find get_or get truthy is_text put
    set_default remove text_of starts_with byte_width byte_length decode_prefix encode_char encode
    lstrip rstrip strip is_space split join text_leb decode_suffix decode_slice ends_with drop_last
    unique sorted_set is_surrogate digits int_eq decimal insert sort join_parts as_record
    require_exact_keys is_safe canonical_int utf8 integer_token string_token is_lower_digit
    is_enum_token expect_enum_token is_hex expect_hex enum_token hex_token number_token
    boolean_token boolean_payload string_payload wrapped_token is_wrapper typed_token big_endian
    pack presence field token_field opt_field check_field_count int_field str_of str_field each
    gather repeats encode_set by_key check_key check_keys encode_map_rows is_dynamic_key
    is_package_name tuple_entry tuple_entries string_tokens check_optional_string check_optional_int
    validate_session_types int_row str_row plain_string session_ref_bytes session_ref_digest
    locator_digest list_field item version_tokens capability by_row same_row capability_fields
    package_name check_encodable by_name package_fields host_lock_bytes host_lock_digest enum_member
    role_of parse_status_of is_null surface_of fits_role check_role enum_row optional_row
    evidence_fact_bytes fact_id by_id evidence_fact_digest evidence_rows evidence_sha256_bytes
    evidence_sha256_digest check_parameter check_parameters by_parameter parameter_row
    pred_params_bytes product_vocabulary resolve_allowlist params_kind_of object_of reference_of
    params_row section_size binding_record_bytes binding_record_digest same_marker by_marker
    marked_digests digest_row binding_digest pred_params_digest digest_field goal_rows
    certification_bytes certification_digest number? same_number same_key is_hashable every
    check_fact resolved_rows check_resolved merge_entries merge_states same_dict characters iterate
    key_repeats same_set check_ids known_fact check_known_ids check_hashed check_evidence
    binding_state_closure
closed = refl

crossed :
    binding_state_closure itself binding
      (fact "e" "resolution" nothing)
      (fact "r" "effect" nothing)
      (fact "s" "state" seen ∷ [])
      none
    ≡ raise digest_error
unfolding text_eq nat_eq list_dec elements entries keys find get_or get truthy is_text put
    set_default remove text_of starts_with byte_width byte_length decode_prefix encode_char encode
    lstrip rstrip strip is_space split join text_leb decode_suffix decode_slice ends_with drop_last
    unique sorted_set is_surrogate digits int_eq decimal insert sort join_parts as_record
    require_exact_keys is_safe canonical_int utf8 integer_token string_token is_lower_digit
    is_enum_token expect_enum_token is_hex expect_hex enum_token hex_token number_token
    boolean_token boolean_payload string_payload wrapped_token is_wrapper typed_token big_endian
    pack presence field token_field opt_field check_field_count int_field str_of str_field each
    gather repeats encode_set by_key check_key check_keys encode_map_rows is_dynamic_key
    is_package_name tuple_entry tuple_entries string_tokens check_optional_string check_optional_int
    validate_session_types int_row str_row plain_string session_ref_bytes session_ref_digest
    locator_digest list_field item version_tokens capability by_row same_row capability_fields
    package_name check_encodable by_name package_fields host_lock_bytes host_lock_digest enum_member
    role_of parse_status_of is_null surface_of fits_role check_role enum_row optional_row
    evidence_fact_bytes fact_id by_id evidence_fact_digest evidence_rows evidence_sha256_bytes
    evidence_sha256_digest check_parameter check_parameters by_parameter parameter_row
    pred_params_bytes product_vocabulary resolve_allowlist params_kind_of object_of reference_of
    params_row section_size binding_record_bytes binding_record_digest same_marker by_marker
    marked_digests digest_row binding_digest pred_params_digest digest_field goal_rows
    certification_bytes certification_digest number? same_number same_key is_hashable every
    check_fact resolved_rows check_resolved merge_entries merge_states same_dict characters iterate
    key_repeats same_set check_ids known_fact check_known_ids check_hashed check_evidence
    binding_state_closure
crossed = refl

binding_state_closure-Agrees_example :
    Agrees binding
      (fact "r" "resolution" nothing)
      (fact "e" "effect" nothing)
      (fact "s" "state" seen ∷ [])
binding_state_closure-Agrees_example =
    binding_state_closure-Agrees itself binding (fact "r" "resolution" nothing)
      (fact "e" "effect" nothing) (fact "s" "state" seen ∷ []) none closed
