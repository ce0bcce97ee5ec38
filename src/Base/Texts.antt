-- ===== src/Base/Texts.antt =====
-- Texts as Python handles them: literals, prefixes, `strip`, and the UTF-8 bytes of a text.
pub mod Utf8
pub mod Distinct
use Prim.Native.Char.{code}
use Prim.Native.String.{String}
use Prim.Native.Nat.{ℕ, ◌+◌, ◌-◌, ◌/◌, ◌%◌}
use mathlib.Core.Bool.{Bool, true, false, ◌&&◌, ◌||◌}
use mathlib.Core.Option.{Option, none, some}
use mathlib.Core.List.{List, [], ◌∷◌, ◌++◌, reverse}
use codex_context_guard.Base.Tests.{ltb, leb, if◌then◌else◌}
use codex_context_guard.Base.Lists.{is_empty}
use codex_context_guard.Base.Equality.{Text, ◌==◌, contains, nat_eq, text_eq}
use codex_context_guard.Base.Sorting.{sort}

-- The code points of a literal.
abbrev pub codes : String → Text
codes String.[] = []
codes (String.◌∷◌ c s) = code c ∷ codes s

unfoldable pub starts_with : Text → Text → Bool
starts_with s [] = true
starts_with [] (p ∷ ps) = false
starts_with (c ∷ s) (p ∷ ps) = c == p && starts_with s ps

-- The number of UTF-8 bytes of a code point.
unfoldable pub byte_width : ℕ → ℕ
byte_width c = if ltb c 128 then 1 else if ltb c 2048 then 2 else if ltb c 65536 then 3 else 4

-- `len(text.encode("utf-8"))`
unfoldable pub byte_length : Text → ℕ
byte_length [] = 0
byte_length (c ∷ s) = byte_width c + byte_length s

-- `text.encode("utf-8")[:n].decode("utf-8")`, and none where that raises UnicodeDecodeError. A bound
-- past the end keeps the whole text.
unfoldable pub decode_prefix : ℕ → Text → Option Text
decode_prefix n [] = some []
decode_prefix n (c ∷ s) =
    let rest = decode_prefix (n - byte_width c) s in
    if n == 0
    then some []
    else if ltb n (byte_width c)
    then none
    else elim rest [ none ↦ none | some t ↦ some (c ∷ t) ]

-- The UTF-8 bytes of a code point.
unfoldable pub encode_char : ℕ → List ℕ
encode_char c =
    if ltb c 128
    then c ∷ []
    else if ltb c 2048
    then (192 + c / 64) ∷ (128 + c % 64) ∷ []
    else if ltb c 65536
    then (224 + c / 4096) ∷ (128 + c / 64 % 64) ∷ (128 + c % 64) ∷ []
    else (240 + c / 262144) ∷ (128 + c / 4096 % 64) ∷ (128 + c / 64 % 64) ∷ (128 + c % 64) ∷ []

-- `text.encode("utf-8")`
unfoldable pub encode : Text → List ℕ
unfolding encode_char
encode [] = []
encode (c ∷ s) = encode_char c ++ encode s

-- `text.strip(chars)`, for a set of characters given by its test.
unfoldable pub lstrip : (ℕ → Bool) → Text → Text
lstrip p [] = []
lstrip p (c ∷ s) = let rest = lstrip p s in if p c then rest else c ∷ s

unfoldable pub rstrip : (ℕ → Bool) → Text → Text
rstrip p [] = []
rstrip p (c ∷ s) = let rest = rstrip p s in if is_empty rest && p c then [] else c ∷ rest

unfoldable pub strip : (ℕ → Bool) → Text → Text
unfolding lstrip rstrip
strip p s = rstrip p (lstrip p s)

-- The characters that `str.strip()` takes for white space.
unfoldable pub is_space : ℕ → Bool
is_space c =
    leb 9 c && leb c 13
    || leb 28 c && leb c 32
    || c == 133
    || c == 160
    || c == 5760
    || leb 8192 c && leb c 8202
    || c == 8232
    || c == 8233
    || c == 8239
    || c == 8287
    || c == 12288

-- `text.split(sep)`, for one character.
abbrev onto_first : ℕ → List Text → List Text
onto_first c [] = (c ∷ []) ∷ []
onto_first c (w ∷ ws) = (c ∷ w) ∷ ws

unfoldable pub split : ℕ → Text → List Text
split sep [] = [] ∷ []
split sep (c ∷ s) = let rest = split sep s in if c == sep then [] ∷ rest else onto_first c rest

-- `sep.join(words)`
unfoldable pub join : ℕ → List Text → Text
join sep [] = []
join sep (w ∷ []) = w
join sep (w ∷ v ∷ ws) = w ++ sep ∷ join sep (v ∷ ws)

-- `a <= b` on texts: by code points, which is the order of their UTF-8 bytes.
unfoldable pub text_leb : Text → Text → Bool
text_leb [] t = true
text_leb (c ∷ s) [] = false
text_leb (c ∷ s) (d ∷ t) = let rest = text_leb s t in if c == d then rest else ltb c d

-- `text.encode("utf-8")[n:].decode("utf-8")`, and none where byte `n` is inside a character.
unfoldable pub decode_suffix : ℕ → Text → Option Text
decode_suffix n [] = some []
decode_suffix n (c ∷ s) =
    let rest = decode_suffix (n - byte_width c) s in
    if n == 0 then some (c ∷ s) else if ltb n (byte_width c) then none else rest

-- `text.encode("utf-8")[a:b].decode("utf-8")`
unfoldable pub decode_slice : ℕ → ℕ → Text → Option Text
unfolding decode_suffix decode_prefix
decode_slice a b s = elim (decode_suffix a s) [ none ↦ none | some t ↦ decode_prefix (b - a) t ]

unfoldable pub ends_with : Text → Text → Bool
ends_with s t = starts_with (reverse s) (reverse t)

-- `text[:-1]`
unfoldable pub drop_last : Text → Text
drop_last [] = []
drop_last (c ∷ []) = []
drop_last (c ∷ d ∷ s) = c ∷ drop_last (d ∷ s)

-- `set(texts)`, each once.
unfoldable pub unique : List Text → List Text
unique [] = []
unique (t ∷ ts) = let rest = unique ts in if contains ts t then rest else t ∷ rest

-- `sorted(set(texts))`
unfoldable pub sorted_set : List Text → List Text
sorted_set ts = sort text_leb (unique ts)

-- A surrogate, which has no UTF-8.
unfoldable pub is_surrogate : ℕ → Bool
is_surrogate c = leb 55296 c && leb c 57343
