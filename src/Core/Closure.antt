-- ===== src/Core/Closure.antt =====
-- The loop that adds required children until none is left: `units` in `project`, and the selection
-- of a parent task in `_fold_root_controls`. Rows are work units or requirements.
pub mod Laws
use codex_context_guard.Base.{
  ℕ, zero, suc, Bool, true, false, not, ◌&&◌, Option, none, some, List, [], ◌∷◌, ◌++◌, keep,
  is_empty, contains, Text, text_eq, if◌then◌else◌, length,
}
use codex_context_guard.Core.Index.{ids}

-- `parent in units`, where None is in no set of ids.
abbrev pub parent_in : List Text → Option Text → Bool
parent_in units none = false
parent_in units (some parent) = contains units parent

module _ {A : Type 0} (id : A → Text) (parent : A → Option Text) (required : A → Bool) where
  -- The rows that one round adds.
  abbrev pub is_added : List Text → A → Bool
  is_added units row = required row && parent_in units (parent row) && not (contains units (id row))

  abbrev pub added : List Text → List A → List Text
  added units rows = ids id (keep (is_added units) rows)

  -- The `while True` loop, on fuel.
  unfoldable pub close : ℕ → List Text → List A → List Text
  close zero units rows = units
  close (suc fuel) units rows =
      let rest = close fuel (added units rows ++ units) rows in
      if is_empty (added units rows) then units else rest

  -- Each round but the last takes a row, so that one round more than there are rows is enough.
  unfoldable pub closure : List Text → List A → List Text
  closure units rows = close (suc (length rows)) units rows
