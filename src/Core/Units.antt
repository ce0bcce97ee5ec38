-- ===== src/Core/Units.antt =====
-- The work units of a snapshot: the checks of `project` and the set of units that it projects.
pub mod Laws
use codex_context_guard.Base.{
  ℕ, zero, suc, Bool, true, false, not, ◌&&◌, ◌||◌, Option, none, some, List, [], ◌∷◌, Text,
  contains, text_eq, ◌==◌, if◌then◌else◌, length, Result, ok, raise, raise_if, ◌>>=◌, ◌>>◌,
  unit_identity_invalid, unit_source_invalid, unit_parent_invalid,
}
use codex_context_guard.Core.Index.{get, has, ids, distinct}
use codex_context_guard.Core.Closure.{closure}
use codex_context_guard.Core.Spans.{get_source}
use codex_context_guard.Core.Model.{Source, WorkUnit}
use codex_context_guard.Core.Kinds.{SourceKind, source_kind_eq}

abbrev pub get_unit : Text → List WorkUnit → Option WorkUnit
get_unit = get (λ u. u.id)

-- The `while parent is not None` loop, on fuel: none where the fuel runs out, and false where the
-- loop raises.
unfoldable pub walk : ℕ → List Text → Option Text → List WorkUnit → Option Bool
walk fuel visited none rows = some true
walk zero visited (some parent) rows = none
walk (suc fuel) visited (some parent) rows = elim (get_unit parent rows) [
  | none ↦ some false
  | some row ↦
      if contains visited parent
      then some false
      else walk fuel (parent ∷ visited) row.parent_id rows
]

abbrev or_invalid : Option Bool → Bool
or_invalid none = false
or_invalid (some b) = b

-- The walk visits each row once at most.
unfoldable pub parents_valid : WorkUnit → List WorkUnit → Bool
parents_valid row rows = or_invalid (walk (suc (length rows)) (row.id ∷ []) row.parent_id rows)

unfoldable pub unit_source_valid : WorkUnit → Option Source → Bool
unit_source_valid row none = false
unit_source_valid row (some source) = source.kind == SourceKind.root && source.unit == row.id

unfoldable pub check_rows : List Source → List WorkUnit → List WorkUnit → Result (Unit {0})
check_rows sources rows [] = ok tt
check_rows sources rows (row ∷ rest) =
    raise_if (not (unit_source_valid row (get_source row.source_id sources))) unit_source_invalid
    >> raise_if (not (parents_valid row rows)) unit_parent_invalid
    >> check_rows sources rows rest

-- The checks, and then the unit with its required descendants.
unfoldable pub project_units : Text → List Source → List WorkUnit → Result (List Text)
project_units unit sources rows = do
  raise_if (not (distinct (ids (λ u. u.id) rows)) || not (has (λ u. u.id) unit rows))
      unit_identity_invalid
  check_rows sources rows rows
  ok (closure (λ u. u.id) (λ u. u.parent_id) (λ u. u.required) (unit ∷ []) rows)
