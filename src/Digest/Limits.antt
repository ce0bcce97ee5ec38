-- ===== src/Digest/Limits.antt =====
-- scripts/reference_digest_encoder.py: what a field can be, in bytes, and when a fact is written.
use codex_context_guard.Base.{
  ℕ, ◌≤◌, ◌<◌, ◌++◌, ◌≡◌, refl, sym, subst, ◌∙◌, ◌⊎◌, inl, inr, true, false, Option, none, some,
  Text, nat_eq, text_eq, All, length, length-append, any, ok, raise, raise-ne-ok, Error,
  digest_error, unicode_encode_error, arith, Bool-cases,
}
use codex_context_guard.Base.Texts.{is_surrogate, encode}
use codex_context_guard.Base.Texts.Utf8.{IsByte, All-append, encode-IsByte}
use codex_context_guard.Digest.{Bytes, field, big_endian}
use codex_context_guard.Digest.Frames.{
  Frame, frame_bytes, value_bytes, fits, field_lem, field-eq-ok,
}

-- The bytes of a token that may be absent.
abbrev pub TokenBytes : Option Bytes → Type 0
TokenBytes none = Unit
TokenBytes (some token) = All IsByte token

big_endian-IsByte : (n : ℕ) → All IsByte (big_endian n)
unfolding big_endian
big_endian-IsByte n = ground arith

value_bytes-IsByte : (value : Option Bytes) → TokenBytes value → All IsByte (value_bytes value)
unfolding value_bytes
value_bytes-IsByte none h = (omega arith, big_endian-IsByte 0)
value_bytes-IsByte (some token) h = (
  omega arith,
  All-append IsByte (big_endian (length token)) token (big_endian-IsByte (length token)) h,
)

frame_bytes-IsByte :
    (name : Bytes) (value : Option Bytes)
    → All IsByte name
    → TokenBytes value
    → All IsByte (frame_bytes (name, value))
unfolding frame_bytes
frame_bytes-IsByte name value h k =
    All-append IsByte (big_endian (length name) ++ name) (value_bytes value)
      (All-append IsByte (big_endian (length name)) name (big_endian-IsByte (length name)) h)
      (value_bytes-IsByte value k)

length-frame_bytes : (frame : Frame) → fits frame ≡ true → length (frame_bytes frame) ≤ 4361
unfolding frame_bytes value_bytes big_endian
length-frame_bytes (name, none) h = ground (arith, length-append name (value_bytes none))
length-frame_bytes (name, some token) h = ground (
  arith,
  length-append name (value_bytes (some token)),
  length-append (big_endian (length token)) token,
)

-- A field that is written is at most 4361 bytes, each below 256, where its name is a text of Unicode
-- code points and its token is bytes.
pub field-IsByte :
    (name : Text) (value : Option Bytes) (bytes : Bytes)
    → All (λ c. c < 1114112) name
    → TokenBytes value
    → field name value ≡ ok bytes
    → (length bytes ≤ 4361) × All IsByte bytes
field-IsByte name value bytes texts tokens h =
    let (e, fit) = field-eq-ok name value h in
    (
      subst (λ b. length b ≤ 4361) (sym e) (length-frame_bytes (encode name, value) fit),
      subst (All IsByte) (sym e)
          (frame_bytes-IsByte (encode name) value (encode-IsByte name texts) tokens),
    )

-- A field fails in two ways only, whatever it is given: its name has a surrogate, or a limit is passed.
-- Packing its lengths never fails.
pub field_errors :
    (name : Text) (value : Option Bytes) (error : Error)
    → field name value ≡ raise error
    → ((any is_surrogate name ≡ true) × (error ≡ unicode_encode_error))
      ⊎ ((fits (encode name, value) ≡ false) × (error ≡ digest_error))
field_errors name value error h = elim (Bool-cases (any is_surrogate name)) [
  | inl bad ↦ inl (bad, cc (bad, h, field_lem name value))
  | inr good ↦ elim (Bool-cases (fits (encode name, value))) [
    | inl fit ↦ absurd (
        raise-ne-ok {a = frame_bytes (encode name, value)}
          (sym h ∙ field_lem name value ∙ rw (good, fit) refl))
    | inr long ↦ inr (long, cc (good, long, h, field_lem name value))
  ]
]
