-- ===== src/Authority/Values.antt =====
-- The values of a candidate target, `is_exact_value` and `str` on them.
use codex_context_guard.Base.{
  ℕ, suc, ◌+◌, Bool, true, false, not, ◌&&◌, ◌||◌, List, [], ◌∷◌, ◌++◌, Text, text_eq, nat_eq, ◌==◌,
  contains, leb, map, is_empty, if◌then◌else◌,
}
use codex_context_guard.Base.Decimal.{digits}
use codex_context_guard.Base.Texts.{codes, strip, is_space}

-- What a field of a candidate may hold; `structure` is a list or a dict, and an integer is a sign
-- with a magnitude.
pub data Value : Type 0 where
  null : Value
  flag : Bool → Value
  integer : Bool → ℕ → Value
  string : Text → Value
  structure : Value

-- `str(value)` of an exact value.
unfoldable pub text_of : Value → Text
text_of (string t) = t
text_of (integer negative n) = (if negative then codes "-" else []) ++ digits (suc n) n
text_of value = []

-- `c.lower()`, as far as equality with a text of ASCII goes: of the others, only the Kelvin sign
-- becomes a letter of ASCII.
abbrev lower : ℕ → ℕ
lower c = if leb b'A' c && leb c b'Z' then c + 32 else if c == 8490 then b'k' else c

abbrev sentinels : List Text
sentinels =
    codes "unknown"
    ∷ codes "unresolved"
    ∷ codes "all"
    ∷ codes "none"
    ∷ codes "n/a"
    ∷ codes "na"
    ∷ codes "null"
    ∷ codes "any"
    ∷ codes "pending"
    ∷ codes "todo"
    ∷ codes "tbd"
    ∷ []

-- `SENTINEL_VALUES`
unfoldable pub is_sentinel : Text → Bool
is_sentinel t = contains sentinels (map lower t)

-- `is_exact_value` on a string.
unfoldable pub is_exact_text : Text → Bool
is_exact_text t =
    let text = strip is_space t in
    not (is_empty text || contains text 10 || contains text 13) && not (is_sentinel text)

-- `is_exact_value`
unfoldable pub is_exact : Value → Bool
is_exact (integer negative n) = true
is_exact (string t) = is_exact_text t
is_exact value = false
