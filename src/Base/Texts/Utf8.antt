-- ===== src/Base/Texts/Utf8.antt =====
-- UTF-8: the encoding of a text is read back in one way only, and its bytes are below 256.
use Prim.Native.Nat.{ℕ, ◌<◌}
use mathlib.Core.Path.{◌≡◌, refl, sym}
use mathlib.Core.List.{List, [], ◌∷◌, ◌++◌}
use native.Mathlib.Omega.{arith}
use codex_context_guard.Base.Lists.{All}
use codex_context_guard.Base.Equality.{Text}
use codex_context_guard.Base.Texts.{encode_char, encode}

-- Whatever follows them, the bytes of a character say which it is.
pub encode_char_injective :
    (c d : ℕ) (s t : List ℕ) → encode_char c ++ s ≡ encode_char d ++ t → (c ≡ d) × (s ≡ t)
unfolding encode_char
encode_char_injective c d s t e = ground arith

encode_char_nonempty : (c : ℕ) (s : List ℕ) → encode_char c ++ s ≡ [] → ⊥
unfolding encode_char
encode_char_nonempty c s e = ground arith

pub encode_injective : (s t : Text) → encode s ≡ encode t → s ≡ t
unfolding encode
encode_injective [] [] e = refl
encode_injective [] (d ∷ t) e = absurd (encode_char_nonempty d (encode t) (sym e))
encode_injective (c ∷ s) [] e = absurd (encode_char_nonempty c (encode s) e)
encode_injective (c ∷ s) (d ∷ t) e =
    let (same, rest) = encode_char_injective c d (encode s) (encode t) e in
    cc (same, encode_injective s t rest)

abbrev pub IsByte : ℕ → Type 0
IsByte b = b < 256

pub All-append {ℓ} :
    {A : Type ℓ} (P : A → Type ℓ) (xs ys : List A) → All P xs → All P ys → All P (xs ++ ys)
All-append P [] ys h k = k
All-append P (x ∷ xs) ys (hx, hs) k = (hx, All-append P xs ys hs k)

encode_char-IsByte : (c : ℕ) → c < 1114112 → All IsByte (encode_char c)
unfolding encode_char
encode_char-IsByte c h = ground arith

-- The bytes of a text of Unicode code points.
pub encode-IsByte : (s : Text) → All (λ c. c < 1114112) s → All IsByte (encode s)
unfolding encode
encode-IsByte [] h = tt
encode-IsByte (c ∷ s) (hc, hs) =
    All-append IsByte (encode_char c) (encode s) (encode_char-IsByte c hc) (encode-IsByte s hs)
