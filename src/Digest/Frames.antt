-- ===== src/Digest/Frames.antt =====
-- scripts/reference_digest_encoder.py: what the field primitive writes, and how it is read back.
use codex_context_guard.Base.{
  ℕ, ◌+◌, ◌*◌, ◌<◌, ◌≡◌, refl, ap, sym, ◌∙◌, Bool, true, ◌&&◌, Option, none, some, List, [], ◌∷◌,
  ◌++◌, Text, text_eq, nat_eq, ◌==◌, leb, length, take, drop, any, if◌then◌else◌, All, ok, arith,
  raise, digest_error, unicode_encode_error,
}
use codex_context_guard.Base.Texts.{encode, is_surrogate}
use codex_context_guard.Digest.{Bytes, utf8, big_endian, pack, presence, field}
use mathlib.Core.List.{append_assoc}

-- A field as it is read: its name in UTF-8, and its value where there is one.
abbrev pub Frame : Type 0
Frame = Bytes × Option Bytes

-- The layout of a value, and of a field.
unfoldable pub value_bytes : Option Bytes → Bytes
value_bytes none = 0 ∷ big_endian 0
value_bytes (some token) = 1 ∷ big_endian (length token) ++ token

unfoldable pub frame_bytes : Frame → Bytes
frame_bytes (name, value) = big_endian (length name) ++ name ++ value_bytes value

abbrev fits_name : Bytes → Bool
fits_name name = leb 1 (length name) && leb (length name) 256

abbrev fits_value : Option Bytes → Bool
fits_value none = true
fits_value (some token) = leb (length token) 4096

-- The limits of a field.
abbrev pub fits : Frame → Bool
fits (name, value) = fits_name name && fits_value value

-- `struct.unpack(">I", ...)` of the first four bytes, and the bytes after them.
abbrev read_word : Bytes → Option (ℕ × Bytes)
read_word (a ∷ b ∷ c ∷ d ∷ rest) = some (a * 16777216 + b * 65536 + c * 256 + d, rest)
read_word _ = none

abbrev read_value : Bytes → Option (Option Bytes × Bytes)
read_value [] = none
read_value (mark ∷ rest) = elim (read_word rest) [
  | none ↦ none
  | some (n, after) ↦
      if mark == 0 && n == 0
      then some (none, after)
      else if mark == 1
      then some (some (take n after), drop n after)
      else none
]

-- The field that some bytes start with, and the bytes after it.
unfoldable pub read_frame : Bytes → Option (Frame × Bytes)
read_frame bytes = elim (read_word bytes) [
  | none ↦ none
  | some (n, after) ↦ elim (read_value (drop n after)) [
    | none ↦ none
    | some (value, rest) ↦ some ((take n after, value), rest)
  ]
]

read_word-big_endian :
    (n : ℕ) (rest : Bytes) → n < 4294967296 → read_word (big_endian n ++ rest) ≡ some (n, rest)
unfolding big_endian
read_word-big_endian n rest h = ground arith

take-append : (xs ys : Bytes) → take (length xs) (xs ++ ys) ≡ xs
take-append [] ys = refl
take-append (x ∷ xs) ys = ap (λ zs. x ∷ zs) (take-append xs ys)

drop-append : (xs ys : Bytes) → drop (length xs) (xs ++ ys) ≡ ys
drop-append [] ys = refl
drop-append (x ∷ xs) ys = drop-append xs ys

read_value-value_bytes :
    (value : Option Bytes) (rest : Bytes)
    → fits_value value ≡ true
    → read_value (value_bytes value ++ rest) ≡ some (value, rest)
unfolding value_bytes
read_value-value_bytes none rest h = ground (arith, read_word-big_endian 0 rest)
read_value-value_bytes (some token) rest h = ground (
  arith,
  append_assoc (big_endian (length token)) token rest,
  read_word-big_endian (length token) (token ++ rest),
  take-append token rest,
  drop-append token rest,
)

read_nothing : read_frame [] ≡ none
unfolding read_frame
read_nothing = refl

pub some_injective : {A : Type 0} {a b : A} → some a ≡ some b → a ≡ b
some_injective e = cc

read_frame_step :
    (bytes : Bytes) (n : ℕ) (after : Bytes) (value : Option Bytes) (rest : Bytes)
    → read_word bytes ≡ some (n, after)
    → read_value (drop n after) ≡ some (value, rest)
    → read_frame bytes ≡ some ((take n after, value), rest)
unfolding read_frame
read_frame_step bytes n after value rest e d = rw (read_frame, e, d) refl

frame_bytes_append :
    (name : Bytes) (value : Option Bytes) (rest : Bytes)
    → frame_bytes (name, value) ++ rest
      ≡ big_endian (length name) ++ (name ++ (value_bytes value ++ rest))
unfolding frame_bytes big_endian value_bytes
frame_bytes_append name value rest =
    append_assoc (big_endian (length name)) (name ++ value_bytes value) rest
    ∙ ap (λ bytes. big_endian (length name) ++ bytes) (append_assoc name (value_bytes value) rest)

-- A field is read back from its bytes, whatever follows them.
pub read_frame-frame_bytes :
    (frame : Frame) (rest : Bytes)
    → fits frame ≡ true
    → read_frame (frame_bytes frame ++ rest) ≡ some (frame, rest)
read_frame-frame_bytes (name, value) rest h =
    ap read_frame (frame_bytes_append name value rest)
    ∙ read_frame_step _ (length name) (name ++ (value_bytes value ++ rest)) value rest
        (read_word-big_endian (length name) _ (ground arith))
        (ap read_value (drop-append name _) ∙ read_value-value_bytes value rest (ground arith))
    ∙ ap (λ bytes. some ((bytes, value), rest)) (take-append name _)

-- Fields one after the other.
unfoldable pub frames_bytes : List Frame → Bytes
frames_bytes [] = []
frames_bytes (frame ∷ frames) = frame_bytes frame ++ frames_bytes frames

abbrev pub Fits : List Frame → Type 0
Fits = All (λ frame. fits frame ≡ true)

-- Bytes are the fields of one list at most.
pub frames_bytes_injective :
    (fs gs : List Frame) → Fits fs → Fits gs → frames_bytes fs ≡ frames_bytes gs → fs ≡ gs
unfolding frames_bytes
frames_bytes_injective [] [] h k e = refl
frames_bytes_injective [] (g ∷ gs) h (k, ks) e =
    cc (e, read_frame-frame_bytes g (frames_bytes gs) k, read_nothing)
frames_bytes_injective (f ∷ fs) [] (h, hs) k e =
    cc (e, read_frame-frame_bytes f (frames_bytes fs) h, read_nothing)
frames_bytes_injective (f ∷ fs) (g ∷ gs) (h, hs) (k, ks) e =
    let both = some_injective (
      sym (read_frame-frame_bytes f (frames_bytes fs) h)
      ∙ ap read_frame e
      ∙ read_frame-frame_bytes g (frames_bytes gs) k) in
    cc (ap (λ p. p.0) both, frames_bytes_injective fs gs hs ks (ap (λ p. p.1) both))

pub frames_bytes-append :
    (fs gs : List Frame) → frames_bytes (fs ++ gs) ≡ frames_bytes fs ++ frames_bytes gs
unfolding frames_bytes
frames_bytes-append [] gs = refl
frames_bytes-append (f ∷ fs) gs =
    ap (λ bytes. frame_bytes f ++ bytes) (frames_bytes-append fs gs)
    ∙ sym (append_assoc (frame_bytes f) (frames_bytes fs) (frames_bytes gs))

-- What `field` does, on every branch: it never packs a length that does not fit.
pub field_lem :
    (name : Text) (value : Option Bytes)
    → field name value ≡ (
        if any is_surrogate name
        then raise unicode_encode_error
        else if fits (encode name, value)
        then ok (frame_bytes (encode name, value))
        else raise digest_error)
unfolding field utf8 presence pack frame_bytes value_bytes
field_lem name none = ground arith
field_lem name (some token) = ground arith

pub field-eq-ok :
    (name : Text) (value : Option Bytes) {bytes : Bytes}
    → field name value ≡ ok bytes
    → (bytes ≡ frame_bytes (encode name, value)) × (fits (encode name, value) ≡ true)
field-eq-ok name value h = ground (arith, field_lem name value)

-- Whatever bytes follow a field, what is read from its first byte on is the name of the field in UTF-8
-- and its token, or that it has none, and exactly the bytes that follow.
pub read_frame-field :
    (name : Text) (value : Option Bytes) (bytes rest : Bytes)
    → field name value ≡ ok bytes
    → read_frame (bytes ++ rest) ≡ some ((encode name, value), rest)
read_frame-field name value bytes rest h =
    let (e, fit) = field-eq-ok name value h in
    ap (λ b. read_frame (b ++ rest)) e ∙ read_frame-frame_bytes (encode name, value) rest fit
