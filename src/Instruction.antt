-- ===== src/Instruction.antt =====
-- scripts/cg_instruction.py: the segmentation of a text into instructions and objects. What the regular
-- expressions find is a parameter.
pub mod Partition
mod Examples
use codex_context_guard.Base.{
  ℕ, zero, suc, ◌+◌, ◌-◌, Bool, true, false, not, ◌&&◌, ◌||◌, List, [], ◌∷◌, ◌++◌, Eq, Text, nat_eq,
  ◌==◌, ltb, leb, length, take, drop, any, map, if◌then◌else◌,
}
use codex_context_guard.Base.Texts.{byte_length}
use codex_context_guard.Base.Sorting.{sort}

-- `match.span()`
abbrev pub Bounds : Type 0
Bounds = ℕ × ℕ

pub data FragmentKind : Type 0 where
  instruction object ambiguous_object : FragmentKind

pub record Fragment : Type 0 where
  pub kind : FragmentKind
  pub start : ℕ
  pub end : ℕ
  pub byte_start : ℕ
  pub byte_end : ℕ
  pub text : Text

-- The matches of `_QUOTES`, `_BLOCK` and `_PATH` in a text, and the test for a path that CJK prose
-- follows without a break.
pub record Patterns : Type 0 where
  pub quotes : Text → List Bounds
  pub blocks : Text → List Bounds
  pub paths : Text → List Bounds
  pub runs_into_prose : Text → Bool

-- Tuples in Python's order.
abbrev pub bounds_before : Bounds → Bounds → Bool
bounds_before (a, b) (c, d) = if a == c then leb b d else ltb a c

-- `text[a:b]`
abbrev pub cut : Text → ℕ → ℕ → Text
cut text a b = take (b - a) (drop a text)

abbrev pub inside : ℕ → Bounds → Bool
inside at_char (begin, end) = leb begin at_char && ltb at_char end

-- The loop over the paths: those that do not begin inside an object are objects.
unfoldable pub add_paths : List Bounds → List Bounds → List Bounds
add_paths objects [] = objects
add_paths objects (path ∷ rest) =
    add_paths (if any (inside path.0) objects then objects else objects ++ path ∷ []) rest

-- `ambiguous`
unfoldable pub ambiguous_paths : (Text → Bool) → Text → List Bounds → List Bounds → List Bounds
ambiguous_paths runs text objects [] = []
ambiguous_paths runs text objects (path ∷ rest) =
    if any (inside path.0) objects
    then ambiguous_paths runs text objects rest
    else let later = ambiguous_paths runs text (objects ++ path ∷ []) rest in
      if runs (cut text path.0 path.1) then path ∷ later else later

abbrev max : ℕ → ℕ → ℕ
max a b = if leb a b then b else a

-- `merged`, with its last span so far.
unfoldable pub merge_from : ℕ → ℕ → List Bounds → List Bounds
merge_from begin end [] = (begin, end) ∷ []
merge_from begin end ((b, e) ∷ rest) =
    let wider = merge_from begin (max e end) rest in
    let next = merge_from b e rest in if ltb b end then wider else (begin, end) ∷ next

unfoldable pub merge : List Bounds → List Bounds
merge [] = []
merge ((begin, end) ∷ rest) = merge_from begin end rest

abbrev pub fragment : FragmentKind → Text → ℕ → ℕ → Fragment
fragment kind text start end = record {
  kind = kind;
  start = start;
  end = end;
  byte_start = byte_length (take start text);
  byte_end = byte_length (take end text);
  text = cut text start end;
}

abbrev kind_of : List Bounds → ℕ → ℕ → FragmentKind
kind_of ambiguous begin end =
    if any (λ (b, e). b == begin && e == end) ambiguous
    then FragmentKind.ambiguous_object
    else FragmentKind.object

-- The loop over the merged spans, from a cursor on.
unfoldable pub fragments_from : Text → List Bounds → ℕ → List Bounds → List Fragment
fragments_from text ambiguous cursor [] =
    if ltb cursor (length text)
    then fragment FragmentKind.instruction text cursor (length text) ∷ []
    else []
fragments_from text ambiguous cursor ((begin, end) ∷ rest) =
    let later =
      fragment (kind_of ambiguous begin end) text begin end
      ∷ fragments_from text ambiguous end rest in
    if ltb cursor begin then fragment FragmentKind.instruction text cursor begin ∷ later else later

module _ (patterns : Patterns) where
  unfoldable pub quoted : Text → List Bounds
  quoted text = sort bounds_before (patterns.quotes text ++ patterns.blocks text)

  -- `fragments`
  unfoldable pub fragments : Text → List Fragment
  fragments text =
      fragments_from text
        (ambiguous_paths patterns.runs_into_prose text (quoted text) (patterns.paths text)) 0
        (merge (sort bounds_before (add_paths (quoted text) (patterns.paths text))))

-- An object's characters blanked, but for its line breaks where they are preserved.
abbrev pub blank : Bool → ℕ → ℕ
blank preserve c = if preserve && c == 10 then 10 else 32

abbrev pub view : Bool → Fragment → Text
view preserve part = elim part.kind [
  | instruction ↦ part.text
  | object ↦ map (blank preserve) part.text
  | ambiguous_object ↦ map (blank preserve) part.text
]

-- `"".join(...)`
abbrev pub concat : List Text → Text
concat [] = []
concat (t ∷ ts) = t ++ concat ts

-- `instruction_text`
unfoldable pub instruction_text : Patterns → Text → Bool → Text
instruction_text patterns text preserve = concat (map (view preserve) (fragments patterns text))
