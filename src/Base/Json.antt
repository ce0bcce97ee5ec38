-- ===== src/Base/Json.antt =====
-- JSON values as Python has them, and the look-ups on a dict.
pub mod Laws
use mathlib.Core.Bool.{Bool, true, false, not}
use mathlib.Core.Option.{Option, none, some}
use mathlib.Core.List.{List, [], ◌∷◌}
use codex_context_guard.Base.Lists.{is_empty}
use codex_context_guard.Base.Tests.{ltb, if◌then◌else◌}
use codex_context_guard.Base.Equality.{Text, text_eq, ◌==◌}
use codex_context_guard.Base.Decimal.{ℤ, pos, negsuc, decimal}

-- What `json.loads` returns. A float is the integer that it equals, and none where it is not finite
-- or not integral: the modelled code asks no more of it.
mutual
  pub data Json : Type 0 where
    null : Json
    boolean : Bool → Json
    integer : ℤ → Json
    float : Option ℤ → Json
    string : Text → Json
    array : Items → Json
    object : Members → Json

  pub data Items : Type 0 where
    nil : Items
    cons : Json → Items → Items

  pub data Members : Type 0 where
    end : Members
    member : Text → Json → Members → Members

-- A value as a list, and a dict as its rows.
unfoldable pub elements : Items → List Json
elements nil = []
elements (cons v vs) = v ∷ elements vs

unfoldable pub entries : Members → List (Text × Json)
entries end = []
entries (member key value rest) = (key, value) ∷ entries rest

unfoldable pub keys : Members → List Text
keys end = []
keys (member key value rest) = key ∷ keys rest

unfoldable pub find : Members → Text → Option Json
find end name = none
find (member key value rest) name =
    let later = find rest name in if key == name then some value else later

-- `record.get(name, default)`
unfoldable pub get_or : Members → Text → Json → Json
get_or row name fallback = elim (find row name) [ none ↦ fallback | some value ↦ value ]

-- `record.get(name)`
unfoldable pub get : Members → Text → Json
get row name = get_or row name null

-- `bool(value)`
unfoldable pub truthy : Json → Bool
truthy null = false
truthy (boolean b) = b
truthy (integer (pos n)) = ltb 0 n
truthy (integer (negsuc n)) = true
truthy (float (some (pos n))) = ltb 0 n
truthy (float _) = true
truthy (string text) = not (is_empty text)
truthy (array nil) = false
truthy (array (cons v vs)) = true
truthy (object end) = false
truthy (object (member key value rest)) = true

-- `value == text`
unfoldable pub is_text : Text → Json → Bool
is_text expected (string text) = text == expected
is_text expected _ = false

-- `record[key] = value`: in place where the key is there, and at the end where it is not.
unfoldable pub put : Text → Json → Members → Members
put name new end = member name new end
put name new (member key value rest) =
    let later = put name new rest in
    if key == name then member key new rest else member key value later

-- `record.setdefault(key, value)`
unfoldable pub set_default : Text → Json → Members → Members
set_default name new row = elim (find row name) [ none ↦ put name new row | some value ↦ row ]

-- `record.pop(key, None)`
unfoldable pub remove : Text → Members → Members
remove name end = end
remove name (member key value rest) =
    let later = remove name rest in if key == name then later else member key value later

-- `str(value)`; `shown` is `str` of what is neither a string nor an integer.
unfoldable pub text_of : (Json → Text) → Json → Text
text_of shown (string text) = text
text_of shown (integer n) = decimal n
text_of shown value = shown value
