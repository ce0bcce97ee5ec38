-- ===== src/Digest/Tokens.antt =====
-- scripts/reference_digest_encoder.py: what the typed tokens say of the values that they stand for.
use codex_context_guard.Base.{
  ℕ, zero, suc, ◌≡◌, refl, ap, sym, ◌∙◌, Bool, true, false, ◌&&◌, ◌||◌, Option, none, some, ◌∷◌,
  ◌++◌, Text, text_eq, nat_eq, ◌==◌, ltb, length, any, if◌then◌else◌, Result, ok, ok_injective,
  arith, raise, ◌>>=◌, >>=-eq-ok, bind_assoc, bind_ext, digest_error,
}
use codex_context_guard.Digest.Frames.{some_injective}
use codex_context_guard.Base.Decimal.{ℤ, pos, negsuc, decimal, digits}
use codex_context_guard.Base.Decimal.Reading.{parse_decimal, parse_decimal-decimal, digits-lead}
use codex_context_guard.Base.Texts.{is_surrogate, codes, encode, starts_with}
use codex_context_guard.Base.Texts.Utf8.{encode_injective}
use codex_context_guard.Base.Json.{
  Json, Json.null, Json.boolean, Json.string, Json.array, Json.object, get,
}
use codex_context_guard.Digest.{
  Bytes, canonical_int, typed_token, integer_token, string_token, expect_enum_token, expect_hex,
  enum_token, hex_token, number_token, boolean_token, boolean_payload, string_payload,
  wrapped_token, is_wrapper,
}

-- What a token can say.
pub data Scalar : Type 0 where
  flag : Bool → Scalar
  number : ℤ → Scalar
  text : Text → Scalar
  enum : Text → Scalar
  hex : Text → Scalar

-- The text of a token.
abbrev pub print : Scalar → Text
print (flag true) = codes "b:1"
print (flag false) = codes "b:0"
print (number n) = codes "i:" ++ decimal n
print (text t) = codes "s:" ++ t
print (enum t) = codes "e:" ++ t
print (hex t) = codes "x:" ++ t

abbrev read_payload : ℕ → Text → Scalar
read_payload kind payload =
    if kind == b'b'
    then flag (payload == codes "1")
    else if kind == b'i'
    then number (parse_decimal payload)
    else if kind == b's'
    then text payload
    else if kind == b'e'
    then enum payload
    else hex payload

-- What a token says.
unfoldable pub read_token : Text → Option Scalar
read_token (kind ∷ colon ∷ payload) = some (read_payload kind payload)
read_token _ = none

read_token-print : (a : Scalar) → read_token (print a) ≡ some a
unfolding read_token nat_eq text_eq
read_token-print (flag true) = refl
read_token-print (flag false) = refl
read_token-print (number n) = ap (λ m. some (number m)) (parse_decimal-decimal n)
read_token-print (text t) = refl
read_token-print (enum t) = refl
read_token-print (hex t) = refl

print_injective : (a b : Scalar) → print a ≡ print b → a ≡ b
print_injective a b e =
    some_injective (sym (read_token-print a) ∙ ap read_token e ∙ read_token-print b)

-- The scalar that a value stands for: a float is its integer, and a wrapper its kind of scalar.
abbrev flag_of : Json → Result Scalar
flag_of (boolean b) = ok (flag b)
flag_of _ = raise digest_error

abbrev text_of : Json → Result Scalar
text_of (string t) = if any is_surrogate t then raise digest_error else ok (text t)
text_of _ = raise digest_error

abbrev wrapped_scalar : Json → Json → Result Scalar
wrapped_scalar (string kind) raw =
    if kind == codes "e"
    then (expect_enum_token raw >>= λ t. ok (enum t))
    else if kind == codes "x"
    then (expect_hex raw >>= λ t. ok (hex t))
    else if kind == codes "i"
    then (canonical_int raw >>= λ n. ok (number n))
    else if kind == codes "b"
    then flag_of raw
    else if kind == codes "s"
    then text_of raw
    else raise digest_error
wrapped_scalar _ raw = raise digest_error

unfoldable pub scalar_of : Json → Result Scalar
scalar_of (boolean b) = ok (flag b)
scalar_of (Json.integer n) = canonical_int (Json.integer n) >>= λ m. ok (number m)
scalar_of (Json.float f) = canonical_int (Json.float f) >>= λ m. ok (number m)
scalar_of (string t) = text_of (string t)
scalar_of (object value) =
    if is_wrapper value
    then wrapped_scalar (get value (codes "k")) (get value (codes "v"))
    else raise digest_error
scalar_of _ = raise digest_error

-- `str(number)` carries no redundant zero.
no_redundant_zero :
    (n : ℤ)
    → (starts_with (decimal n) (codes "-0")
        || ltb 1 (length (decimal n)) && starts_with (decimal n) (codes "0"))
      ≡ false
unfolding decimal digits starts_with nat_eq
no_redundant_zero (pos zero) = refl
no_redundant_zero (pos (suc n)) =
    let (c, s, e, above) = digits-lead (suc (suc n)) (suc n) (omega arith) (omega arith) in
    rw e (ground arith)
no_redundant_zero (negsuc n) =
    let (c, s, e, above) = digits-lead (suc (suc n)) (suc n) (omega arith) (omega arith) in
    rw e (ground arith)

-- An integer always has a token.
integer_token_lem : (n : ℤ) → integer_token n ≡ ok (encode (print (number n)))
unfolding integer_token
integer_token_lem n = rw (no_redundant_zero n) refl

abbrev token_of : Scalar → Result Bytes
token_of s = ok (encode (print s))

number_token_lem :
    (raw : Json) → number_token raw ≡ (canonical_int raw >>= λ n. token_of (number n))
unfolding number_token
number_token_lem raw = bind_ext (canonical_int raw) integer_token _ integer_token_lem

number_bind :
    (raw : Json) → number_token raw ≡ (canonical_int raw >>= (λ n. ok (number n)) >>= token_of)
number_bind raw =
    number_token_lem raw ∙ sym (bind_assoc (canonical_int raw) (λ m. ok (number m)) token_of)

boolean_token_lem : (b : Bool) → boolean_token b ≡ encode (print (flag b))
unfolding boolean_token
boolean_token_lem true = refl
boolean_token_lem false = refl

boolean_payload_lem : (raw : Json) → boolean_payload raw ≡ (flag_of raw >>= token_of)
unfolding boolean_payload
boolean_payload_lem (boolean b) = ap ok (boolean_token_lem b)
boolean_payload_lem null = refl
boolean_payload_lem (Json.integer n) = refl
boolean_payload_lem (Json.float f) = refl
boolean_payload_lem (string t) = refl
boolean_payload_lem (array vs) = refl
boolean_payload_lem (object ms) = refl

-- A test before a call that goes on.
if_bind :
    (b : Bool) (x y : Result Scalar) {x' y' : Result Bytes}
    → x' ≡ (x >>= token_of)
    → y' ≡ (y >>= token_of)
    → (if b then x' else y') ≡ ((if b then x else y) >>= token_of)
if_bind true x y e d = e
if_bind false x y e d = d

string_token_lem : (t : Text) → string_token t ≡ (text_of (string t) >>= token_of)
unfolding string_token
string_token_lem t = if_bind (any is_surrogate t) _ _ refl refl

string_payload_lem : (raw : Json) → string_payload raw ≡ (text_of raw >>= token_of)
unfolding string_payload
string_payload_lem (string t) = string_token_lem t
string_payload_lem null = refl
string_payload_lem (boolean b) = refl
string_payload_lem (Json.integer n) = refl
string_payload_lem (Json.float f) = refl
string_payload_lem (array vs) = refl
string_payload_lem (object ms) = refl

wrapped_token_lem :
    (kind raw : Json) → wrapped_token kind raw ≡ (wrapped_scalar kind raw >>= token_of)
unfolding wrapped_token enum_token hex_token
wrapped_token_lem (string kind) raw =
    if_bind (kind == codes "e") _ _
      (sym (bind_assoc (expect_enum_token raw) (λ t. ok (enum t)) token_of))
      (if_bind (kind == codes "x") _ _
        (sym (bind_assoc (expect_hex raw) (λ t. ok (hex t)) token_of))
        (if_bind (kind == codes "i") _ _ (number_bind raw) (
          if_bind (kind == codes "b") _ _ (boolean_payload_lem raw)
            (if_bind (kind == codes "s") _ _ (string_payload_lem raw) refl))))
wrapped_token_lem null raw = refl
wrapped_token_lem (boolean b) raw = refl
wrapped_token_lem (Json.integer n) raw = refl
wrapped_token_lem (Json.float f) raw = refl
wrapped_token_lem (array vs) raw = refl
wrapped_token_lem (object ms) raw = refl

-- The token of a value is the one of its scalar, and where either fails so does the other.
pub typed_token_lem : (value : Json) → typed_token value ≡ (scalar_of value >>= token_of)
unfolding typed_token scalar_of
typed_token_lem (boolean b) = ap ok (boolean_token_lem b)
typed_token_lem (Json.integer n) = number_bind (Json.integer n)
typed_token_lem (Json.float f) = number_bind (Json.float f)
typed_token_lem (string t) = string_token_lem t
typed_token_lem (object value) =
    if_bind (is_wrapper value) _ _
      (wrapped_token_lem (get value (codes "k")) (get value (codes "v"))) refl
typed_token_lem null = refl
typed_token_lem (array vs) = refl

-- What a token of a value says.
abbrev pub Says : Json → Bytes → Type 0
Says value bytes = (s : Scalar) × (scalar_of value ≡ ok s) × (bytes ≡ encode (print s))

pub typed_token-Says :
    (value : Json) {bytes : Bytes} → typed_token value ≡ ok bytes → Says value bytes
typed_token-Says value h =
    let (s, e, d) = >>=-eq-ok (scalar_of value) token_of (sym (typed_token_lem value) ∙ h) in
    (s, e, sym (ok_injective d))

-- Two values with one token are one scalar.
pub Says-unique :
    (v w : Json) {bytes : Bytes} → Says v bytes → Says w bytes → scalar_of v ≡ scalar_of w
Says-unique v w (s, e, p) (t, d, q) =
    e ∙ ap ok (print_injective s t (encode_injective (print s) (print t) (sym p ∙ q))) ∙ sym d

hex_injective : {t u : Text} → hex t ≡ hex u → t ≡ u
hex_injective e = cc

pub hex_unique : (t u : Text) → encode (print (hex t)) ≡ encode (print (hex u)) → t ≡ u
hex_unique t u e =
    hex_injective
      (print_injective (hex t) (hex u) (encode_injective (print (hex t)) (print (hex u)) e))

-- Two values with one token stand for one scalar: the same boolean, the same integer (an integral
-- float counts as its integer), the same text, enum token or hex digest, and never two of these kinds.
pub typed_token_unique :
    (v w : Json) (token : Bytes)
    → typed_token v ≡ ok token
    → typed_token w ≡ ok token
    → scalar_of v ≡ scalar_of w
typed_token_unique v w token p q = Says-unique v w (typed_token-Says v p) (typed_token-Says w q)
