-- ===== src/Digest/Rows.antt =====
-- scripts/reference_digest_encoder.py: a field of a manifest, and what its bytes say of the value.
use codex_context_guard.Base.{
  ◌++◌, ◌≡◌, refl, ap, sym, subst, ◌∙◌, true, Option, none, some, List, [], ◌∷◌, Text, inl, inr,
  any, if◌then◌else◌, Result, ok, ok_injective, Bool-cases, arith, raise, >>=-eq-ok, digest_error,
}
use codex_context_guard.Base.Decimal.{ℤ}
use codex_context_guard.Base.Texts.{encode, is_surrogate}
use codex_context_guard.Digest.Frames.{
  frame_bytes, fits, read_frame, read_frame-frame_bytes, field-eq-ok, some_injective,
}
use codex_context_guard.Digest.Tokens.{
  scalar_of, Says, typed_token-Says, Says-unique, text, hex, print, hex_unique,
}
use codex_context_guard.Digest.Certificate.{digest_field}
use codex_context_guard.Digest.Session.{int_row, str_row, plain_string}
use codex_context_guard.Base.Json.{Json, Json.null, Json.string, Members, get}
use codex_context_guard.Digest.{
  Bytes, canonical_int, typed_token, is_safe, number_token, int_field, str_field, utf8, field,
  opt_field, token_field, hex_token, expect_hex, str_of,
}

-- What a value that may be absent says.
abbrev SaysOption : Json → Option Bytes → Type 0
SaysOption value none = value ≡ null
SaysOption value (some bytes) = Says value bytes

SaysOption-unique :
    (v w : Json) (o : Option Bytes) → SaysOption v o → SaysOption w o → scalar_of v ≡ scalar_of w
SaysOption-unique v w none p q = ap scalar_of (p ∙ sym q)
SaysOption-unique v w (some bytes) p q = Says-unique v w p q

-- The bytes of a field, with what they say of a value.
pub Row : Json → Text → Bytes → Type 0
Row value name bytes =
    (o : Option Bytes) × SaysOption value o
    × (bytes ≡ frame_bytes (encode name, o))
    × (fits (encode name, o) ≡ true)

-- The next fields of two manifests with the same bytes say the same, and so do the bytes after them.
read_frame-Row :
    {a : Bytes} (name : Text) (o : Option Bytes) (r : Bytes)
    → a ≡ frame_bytes (encode name, o)
    → fits (encode name, o) ≡ true
    → read_frame (a ++ r) ≡ some ((encode name, o), r)
read_frame-Row name o r e h =
    ap (λ x. read_frame (x ++ r)) e ∙ read_frame-frame_bytes (encode name, o) r h

pub Row-next :
    (name : Text) (v w : Json) (a b : Bytes) (r s : Bytes)
    → Row v name a
    → Row w name b
    → a ++ r ≡ b ++ s
    → (scalar_of v ≡ scalar_of w) × (r ≡ s)
unfolding Row
Row-next name v w a b r s (o, p, e, h) (q, k, d, l) same =
    let both =
      some_injective
        (sym (read_frame-Row name o r e h) ∙ ap read_frame same ∙ read_frame-Row name q s d l) in
    (
      SaysOption-unique v w q (subst (SaysOption v) (ap (λ pair. pair.0.1) both) p) k,
      ap (λ pair. pair.1) both,
    )

pub typed_token-Row :
    (value : Json) (name : Text) {token bytes : Bytes}
    → typed_token value ≡ ok token
    → field name (some token) ≡ ok bytes
    → Row value name bytes
unfolding Row
typed_token-Row value name {token} made h =
    let (e, fit) = field-eq-ok name (some token) h in
    (some token, typed_token-Says value made, e, fit)

in_domain : (m n : ℤ) → (if is_safe m then ok m else raise digest_error) ≡ ok n → m ≡ n
in_domain m n h = ground arith

-- The integer of a value has the token of the value.
pub typed_token-integer :
    (value : Json) {n : ℤ}
    → canonical_int value ≡ ok n
    → typed_token value ≡ typed_token (Json.integer n)
unfolding typed_token canonical_int number_token
typed_token-integer (Json.integer m) h = ap (λ k. number_token (Json.integer k)) (in_domain m _ h)
typed_token-integer (Json.float none) h = cc
typed_token-integer (Json.float (some m)) h =
    ap (λ k. number_token (Json.integer k)) (in_domain m _ h)
typed_token-integer value h = cc

pub int_row-Row :
    (row : Members) (key name : Text) {bytes : Bytes}
    → int_row row key name ≡ ok bytes
    → Row (get row key) name bytes
unfolding int_row int_field
int_row-Row row key name h =
    let (n, e, h₁) = >>=-eq-ok (int_field row key) _ h in
    let (token, d, h₂) = >>=-eq-ok (typed_token (Json.integer n)) _ h₁ in
    typed_token-Row (get row key) name (typed_token-integer (get row key) e ∙ d) h₂

pub str_of-string : (value : Json) {t : Text} → str_of value ≡ ok t → value ≡ string t
unfolding str_of
str_of-string (string s) h = ap string (ok_injective h)
str_of-string value h = cc

pub str_row-Row :
    (row : Members) (key name : Text) {bytes : Bytes}
    → str_row row key name ≡ ok bytes
    → Row (get row key) name bytes
unfolding str_row str_field
str_row-Row row key name h =
    let (t, e, h₁) = >>=-eq-ok (str_field row key) _ h in
    let (token, d, h₂) = >>=-eq-ok (typed_token (string t)) _ h₁ in
    typed_token-Row (get row key) name (ap typed_token (str_of-string (get row key) e) ∙ d) h₂

-- A value that is there or not, when its encoder says what the value is.
pub opt_field-Row :
    (name : Text) (raw : Json) (enc : Json → Result Bytes) {bytes : Bytes}
    → ((token : Bytes) → enc raw ≡ ok token → Says raw token)
    → opt_field name raw enc ≡ ok bytes
    → Row raw name bytes
unfolding opt_field token_field Row
opt_field-Row name null enc says h = let (e, fit) = field-eq-ok name none h in (none, refl, e, fit)
opt_field-Row name raw enc says h =
    let (token, made, h₁) = >>=-eq-ok (enc raw) _ h in
    let (e, fit) = field-eq-ok name (some token) h₁ in (some token, says token made, e, fit)

-- An optional integer, written from its number.
pub integer-Row :
    (value : Json) (name : Text) {n : ℤ} {bytes : Bytes}
    → canonical_int value ≡ ok n
    → opt_field name (Json.integer n) typed_token ≡ ok bytes
    → Row value name bytes
unfolding opt_field token_field
integer-Row value name {n} e h =
    let (token, made, h₁) = >>=-eq-ok (typed_token (Json.integer n)) _ h in
    typed_token-Row value name (typed_token-integer value e ∙ made) h₁

pub plain_string-Says : (raw : Json) (token : Bytes) → plain_string raw ≡ ok token → Says raw token
unfolding plain_string utf8 scalar_of is_surrogate
plain_string-Says (string t) token h = elim (Bool-cases (any is_surrogate t)) [
  | inl bad ↦ cc (rw bad at h)
  | inr good ↦ (text t, rw good refl, sym (ok_injective (rw good at h)))
]
plain_string-Says raw token h = cc

-- A field whose value is a digest, and the digest that its bytes say.
pub HashRow : Json → Text → Bytes → Type 0
HashRow value name bytes =
    (t : Text) × (value ≡ string t)
    × (bytes ≡ frame_bytes (encode name, some (encode (print (hex t)))))
    × (fits (encode name, some (encode (print (hex t)))) ≡ true)

HashRow-next :
    (name : Text) (v w : Json) (a b : Bytes) (r s : Bytes)
    → HashRow v name a
    → HashRow w name b
    → a ++ r ≡ b ++ s
    → (scalar_of v ≡ scalar_of w) × (r ≡ s)
unfolding HashRow
HashRow-next name v w a b r s (t, p, e, h) (u, q, d, l) same =
    let both =
      some_injective
        (sym (read_frame-Row name _ r e h) ∙ ap read_frame same ∙ read_frame-Row name _ s d l) in
    let tokens = some_injective (ap (λ pair. pair.0.1) both) in
    (ap scalar_of (p ∙ ap string (hex_unique t u tokens) ∙ sym q), ap (λ pair. pair.1) both)

hex_token-string :
    (t : Text) {token : Bytes} → hex_token (string t) ≡ ok token → token ≡ encode (print (hex t))
unfolding hex_token expect_hex
hex_token-string t h = ground arith

pub digest_field-HashRow :
    (row : Members) (name : Text) {bytes : Bytes}
    → digest_field row name ≡ ok bytes
    → HashRow (get row name) name bytes
unfolding HashRow digest_field str_field token_field
digest_field-HashRow row name {bytes} h =
    let (t, e, h₁) = >>=-eq-ok (str_field row name) _ h in
    let (token, made, h₂) = >>=-eq-ok (hex_token (string t)) _ h₁ in
    let (e₁, fit) =
      subst (λ x. (bytes ≡ frame_bytes (encode name, some x)) × (fits (encode name, some x) ≡ true))
        (hex_token-string t made) (field-eq-ok name (some token) h₂) in
    (t, str_of-string (get row name) e, e₁, fit)

-- How the value of a field is written: by its own token, or as a digest.
pub data Form : Type 0 where
  plain hashed : Form

abbrev RowAs : Form → Json → Text → Bytes → Type 0
RowAs plain = Row
RowAs hashed = HashRow

RowAs-next :
    (form : Form) (name : Text) (v w : Json) (a b : Bytes) (r s : Bytes)
    → RowAs form v name a
    → RowAs form w name b
    → a ++ r ≡ b ++ s
    → (scalar_of v ≡ scalar_of w) × (r ≡ s)
RowAs-next plain = Row-next
RowAs-next hashed = HashRow-next

-- The key of a value and the name of its field.
abbrev pub Entry : Type 0
Entry = Form × Text × Text

-- The fields of a manifest, and the bytes after them.
pub Rows : List Entry → Members → Bytes → Bytes → Type 0
Rows [] manifest bytes rest = bytes ≡ rest
Rows ((form, key, name) ∷ table) manifest bytes rest =
    (first : Bytes) × (more : Bytes) × RowAs form (get manifest key) name first
    × (bytes ≡ first ++ more)
    × Rows table manifest more rest

-- Two manifests say the same, key by key: an absent value is null, and an integral float its integer.
abbrev pub Same : List Entry → Members → Members → Type 0
Same [] g h = Unit
Same ((form, key, name) ∷ table) g h =
    (scalar_of (get g key) ≡ scalar_of (get h key)) × Same table g h

pub Rows-end : (manifest : Members) (rest : Bytes) → Rows [] manifest rest rest
unfolding Rows
Rows-end manifest rest = refl

pub Rows-cons :
    (manifest : Members) (form : Form) (key name : Text) (table : List Entry)
    (first more rest : Bytes)
    → RowAs form (get manifest key) name first
    → Rows table manifest more rest
    → Rows ((form, key, name) ∷ table) manifest (first ++ more) rest
unfolding Rows
Rows-cons manifest form key name table first more rest row rows = (first, more, row, refl, rows)

pub Rows-Same :
    (table : List Entry) (g h : Members) (bytes r s : Bytes)
    → Rows table g bytes r
    → Rows table h bytes s
    → Same table g h × (r ≡ s)
unfolding Rows
Rows-Same [] g h bytes r s p q = (tt, sym p ∙ q)
Rows-Same ((form, key, name) ∷ table) g h bytes r s (a, as_, p, e, ps) (b, bs, q, d, qs) =
    let (same, tails) = RowAs-next form name (get g key) (get h key) a b as_ bs p q (sym e ∙ d) in
    let (rest, ends) =
      Rows-Same table g h as_ r s ps (subst (λ x. Rows table h x s) (sym tails) qs) in
    ((same, rest), ends)
