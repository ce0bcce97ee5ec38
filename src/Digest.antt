-- ===== src/Digest.antt =====
-- scripts/reference_digest_encoder.py: the canonical bytes of digest v3, over JSON values. This file
-- has the values, the typed tokens and the field primitive; the children have the collections and a
-- manifest each.
pub mod Collections
pub mod Session
pub mod HostLock
pub mod Evidence
pub mod Binding
pub mod Certificate
pub mod Closure
pub mod Frames
pub mod Tokens
pub mod Rows
pub mod Preimages
pub mod Certified
pub mod Sets
pub mod Maps
pub mod Closed
pub mod Limits
pub mod Facts
mod Examples
use codex_context_guard.Base.{
  ℕ, ◌+◌, ◌/◌, ◌%◌, Bool, true, false, not, ◌&&◌, ◌||◌, Option, none, some, List, [], ◌∷◌, ◌++◌,
  Text, text_eq, nat_eq, ◌==◌, contains, ltb, leb, length, all, any, is_empty, if◌then◌else◌,
  Result, ok, raise, raise_if, ◌>>=◌, ◌>>◌, digest_error, unicode_encode_error, struct_error,
  attribute_error, key_error,
}
use codex_context_guard.Base.Json.{
  Json, null, boolean, integer, float, string, array, object, Items, nil, cons, Members, end,
  member, elements, entries, keys, find, get_or, get,
}
use codex_context_guard.Base.Decimal.{ℤ, pos, negsuc, decimal}
use codex_context_guard.Base.Texts.{is_surrogate, codes, encode, starts_with}

abbrev pub Bytes : Type 0
Bytes = List ℕ

-- `b"".join(parts)`
unfoldable pub join_parts : List Bytes → Bytes
join_parts [] = []
join_parts (part ∷ parts) = part ++ join_parts parts

-- A value whose method `get` is called.
unfoldable pub as_record : Json → Result Members
as_record (object row) = ok row
as_record _ = raise attribute_error

unfoldable pub require_exact_keys : Json → List Text → Result Members
require_exact_keys (object row) allowed =
    if all (contains allowed) (keys row) then ok row else raise digest_error
require_exact_keys _ allowed = raise digest_error

-- `-(2**53 - 1) <= number <= 2**53 - 1`
unfoldable pub is_safe : ℤ → Bool
is_safe (pos n) = leb n 9007199254740991
is_safe (negsuc n) = ltb n 9007199254740991

unfoldable pub canonical_int : Json → Result ℤ
canonical_int (integer n) = if is_safe n then ok n else raise digest_error
canonical_int (float (some n)) = if is_safe n then ok n else raise digest_error
canonical_int _ = raise digest_error

-- `text.encode("utf-8")`
unfoldable pub utf8 : Text → Result Bytes
utf8 text = if any is_surrogate text then raise unicode_encode_error else ok (encode text)

unfoldable pub integer_token : ℤ → Result Bytes
integer_token number =
    let text = decimal number in
    if starts_with text (codes "-0") || ltb 1 (length text) && starts_with text (codes "0")
    then raise digest_error
    else ok (encode (codes "i:" ++ text))

unfoldable pub string_token : Text → Result Bytes
string_token text =
    if any is_surrogate text then raise digest_error else ok (encode (codes "s:" ++ text))

unfoldable pub is_lower_digit : ℕ → Bool
is_lower_digit c = leb b'a' c && leb c b'z' || leb b'0' c && leb c b'9'

-- `ENUM_TOKEN_RE`
unfoldable pub is_enum_token : Text → Bool
is_enum_token [] = false
is_enum_token (c ∷ text) =
    is_lower_digit c && all (λ d. is_lower_digit d || d == b'_' || d == b'-') text

unfoldable pub expect_enum_token : Json → Result Text
expect_enum_token (string text) = if is_enum_token text then ok text else raise digest_error
expect_enum_token _ = raise digest_error

-- `HEX_RE`, on a text of even length.
unfoldable pub is_hex : Text → Bool
is_hex text =
    not (is_empty text)
    && length text % 2 == 0
    && all (λ c. leb b'0' c && leb c b'9' || leb b'a' c && leb c b'f') text

unfoldable pub expect_hex : Json → Result Text
expect_hex (string text) = if is_hex text then ok text else raise digest_error
expect_hex _ = raise digest_error

-- `typed_token({"k": kind, "v": raw})`, for each kind.
unfoldable pub enum_token : Json → Result Bytes
enum_token raw = do token ← expect_enum_token raw; ok (encode (codes "e:" ++ token))

unfoldable pub hex_token : Json → Result Bytes
hex_token raw = do token ← expect_hex raw; ok (encode (codes "x:" ++ token))

unfoldable pub number_token : Json → Result Bytes
number_token raw = do number ← canonical_int raw; integer_token number

unfoldable pub boolean_token : Bool → Bytes
boolean_token true = encode (codes "b:1")
boolean_token false = encode (codes "b:0")

unfoldable pub boolean_payload : Json → Result Bytes
boolean_payload (boolean b) = ok (boolean_token b)
boolean_payload _ = raise digest_error

unfoldable pub string_payload : Json → Result Bytes
string_payload (string text) = string_token text
string_payload _ = raise digest_error

unfoldable pub wrapped_token : Json → Json → Result Bytes
wrapped_token (string kind) raw =
    if kind == codes "e"
    then enum_token raw
    else if kind == codes "x"
    then hex_token raw
    else if kind == codes "i"
    then number_token raw
    else if kind == codes "b"
    then boolean_payload raw
    else if kind == codes "s"
    then string_payload raw
    else raise digest_error
wrapped_token _ raw = raise digest_error

-- `set(value) == {"k", "v"}`
unfoldable pub is_wrapper : Members → Bool
is_wrapper value =
    all (contains (codes "k" ∷ codes "v" ∷ [])) (keys value)
    && contains (keys value) (codes "k")
    && contains (keys value) (codes "v")

unfoldable pub typed_token : Json → Result Bytes
typed_token (boolean b) = ok (boolean_token b)
typed_token (integer n) = number_token (integer n)
typed_token (float f) = number_token (float f)
typed_token (string text) = string_token text
typed_token (object value) =
    if is_wrapper value
    then wrapped_token (get value (codes "k")) (get value (codes "v"))
    else raise digest_error
typed_token _ = raise digest_error

-- The four bytes of `struct.pack(">I", number)`.
unfoldable pub big_endian : ℕ → Bytes
big_endian n = n / 16777216 % 256 ∷ n / 65536 % 256 ∷ n / 256 % 256 ∷ n % 256 ∷ []

unfoldable pub pack : ℕ → Result Bytes
pack n = if ltb n 4294967296 then ok (big_endian n) else raise struct_error

-- What follows the name: the presence byte, and the length of the value before the value.
unfoldable pub presence : Option Bytes → Result Bytes
presence none = do zero_length ← pack 0; ok (0 ∷ zero_length)
presence (some token) = do
  raise_if (ltb 4096 (length token)) digest_error
  token_length ← pack (length token)
  ok (1 ∷ token_length ++ token)

unfoldable pub field : Text → Option Bytes → Result Bytes
field name token = do
  name_bytes ← utf8 name
  raise_if (is_empty name_bytes || ltb 256 (length name_bytes)) digest_error
  name_length ← pack (length name_bytes)
  value ← presence token
  ok (name_length ++ name_bytes ++ value)

-- `field(name, token)` of a token that may fail to be made.
unfoldable pub token_field : Text → Result Bytes → Result Bytes
token_field name made = do token ← made; field name (some token)

-- `opt_field`: `enc` is asked only of a value that is there.
unfoldable pub opt_field : Text → Json → (Json → Result Bytes) → Result Bytes
opt_field name null enc = field name none
opt_field name raw enc = token_field name (enc raw)

unfoldable pub check_field_count : ℕ → Result (Unit {0})
check_field_count count = raise_if (ltb 128 count) digest_error

-- `_int_field` and `_str_field`
unfoldable pub int_field : Members → Text → Result ℤ
int_field row name = canonical_int (get row name)

unfoldable pub str_of : Json → Result Text
str_of (string text) = ok text
str_of _ = raise digest_error

unfoldable pub str_field : Members → Text → Result Text
str_field row name = str_of (get row name)
