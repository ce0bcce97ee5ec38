-- ===== src/Instruction/Examples.antt =====
-- A text with a quoted path and a bare one.
use codex_context_guard.Base.{◌≡◌, refl, true, false, [], ◌∷◌, Text, nat_eq, arith}
use codex_context_guard.Base.Texts.{codes}
use codex_context_guard.Base.Sorting.{insert, sort}
use codex_context_guard.Instruction.{
  Patterns, add_paths, ambiguous_paths, merge_from, merge, fragments_from, quoted, fragments,
  instruction_text,
}
use codex_context_guard.Instruction.Partition.{AreSpans, texts, texts-fragments}

abbrev request : Text
request = codes "run `a b` on ./c.py now"

-- What the patterns find in it: the quotation, and the path.
abbrev patterns : Patterns
patterns = record {
  quotes = λ text. (4, 9) ∷ [];
  blocks = λ text. [];
  paths = λ text. (13, 19) ∷ [];
  runs_into_prose = λ text. false;
}

spans : AreSpans patterns request
spans = record {
  quotes = ((omega arith, omega arith), tt);
  blocks = tt;
  paths = ((omega arith, omega arith), tt);
}

masked : instruction_text patterns request true ≡ codes "run       on        now"
unfolding nat_eq insert sort add_paths ambiguous_paths merge_from merge fragments_from quoted
    fragments instruction_text
masked = refl

overlapping : merge ((0, 4) ∷ (2, 7) ∷ (7, 9) ∷ []) ≡ (0, 7) ∷ (7, 9) ∷ []
unfolding merge merge_from
overlapping = refl

texts-fragments_example : texts (fragments patterns request) ≡ request
texts-fragments_example = texts-fragments patterns request spans
