-- ===== src/Digest/Collections.antt =====
-- scripts/reference_digest_encoder.py: sets, maps and the grammars of their keys.
use codex_context_guard.Base.{
  Bool, not, ◌&&◌, ◌||◌, some, List, [], ◌∷◌, ◌++◌, map, Text, text_eq, nat_eq, ◌==◌, contains, ltb,
  leb, length, all, Result, ok, raise, raise_if, ◌>>=◌, ◌>>◌, digest_error,
}
use codex_context_guard.Base.Sorting.{sort}
use codex_context_guard.Base.Texts.{encode, text_leb, unique}
use codex_context_guard.Base.Json.{
  Json, Json.null, Json.string, Json.array, Json.object, elements, entries, keys,
}
use codex_context_guard.Digest.{
  Bytes, utf8, is_lower_digit, typed_token, field, check_field_count, str_of,
}

-- The fields of some rows, one after the other; the first error ends them.
unfoldable pub each : {A : Type 0} → (A → Result Bytes) → List A → Result Bytes
each encode_row [] = ok []
each encode_row (row ∷ rows) = do
  first ← encode_row row
  rest ← each encode_row rows
  ok (first ++ rest)

-- A list of results, or the first error.
unfoldable pub gather : {A B : Type 0} → (A → Result B) → List A → Result (List B)
gather f [] = ok []
gather f (x ∷ xs) = do first ← f x; rest ← gather f xs; ok (first ∷ rest)

-- `len(items) != len(set(items))`
unfoldable pub repeats : List Text → Bool
repeats items = not (length items == length (unique items))

unfoldable pub encode_set : Text → List Bytes → Result Bytes
encode_set name items = do
  raise_if (repeats items) digest_error
  each (λ item. field name (some item)) (sort text_leb items)

-- A semantic key with its token.
abbrev pub Entry : Type 0
Entry = Text × Bytes

-- The order of the keys, which is that of their UTF-8.
unfoldable pub by_key : Entry → Entry → Bool
by_key a b = text_leb (encode a.0) (encode b.0)

unfoldable pub check_key : Text → Result (Unit {0})
check_key key = do key_bytes ← utf8 key; raise_if (ltb 64 (length key_bytes)) digest_error

unfoldable pub check_keys : List Text → Result (Unit {0})
check_keys [] = ok tt
check_keys (key ∷ keys) = do check_key key; check_keys keys

unfoldable pub encode_map_rows : List Entry → Text → Result Bytes
encode_map_rows rows prefix = do
  raise_if (repeats (map (λ row. row.0) rows)) digest_error
  check_keys (map (λ row. row.0) rows)
  encoded ← each (λ row. field (prefix ++ row.0) (some row.1)) (sort by_key rows)
  check_field_count (length rows)
  ok encoded

-- `DYNAMIC_KEY_RE`, `PARSE_STATUS_RE`
unfoldable pub is_dynamic_key : Text → Bool
is_dynamic_key key =
    leb 1 (length key) && leb (length key) 64 && all (λ c. is_lower_digit c || c == b'_') key

-- `PACKAGE_NAME_RE`
unfoldable pub is_package_name : Text → Bool
is_package_name name =
    leb 1 (length name)
    && leb (length name) 128
    && all (λ c. is_lower_digit c || c == b'@' || c == b'.' || c == b'_' || c == b'/' || c == b'-')
        name

-- An entry of a tuple, with its key checked.
unfoldable pub tuple_entry : List Text → Text × Json → Result Entry
tuple_entry allowlist (key, value) = do
  raise_if (not (is_dynamic_key key)) digest_error
  raise_if (not (contains allowlist key)) digest_error
  token ← typed_token value
  ok (key, token)

unfoldable pub tuple_entries : Json → List Text → Result (List Entry)
tuple_entries null allowlist = ok []
tuple_entries (object tuple) allowlist = gather (tuple_entry allowlist) (entries tuple)
tuple_entries _ allowlist = raise digest_error

-- A list of strings, by their tokens.
unfoldable pub string_tokens : Json → Result (List Bytes)
string_tokens (array values) = do
  texts ← gather str_of (elements values)
  gather (λ text. typed_token (string text)) texts
string_tokens _ = raise digest_error
